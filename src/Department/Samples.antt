-- ===== src/Department/Samples.antt =====
-- A department with two tasks, the second of which needs the first, and states of its run.
use multi_agent_intel_pipeli.Prelude.{String, true, false, List, [], ◌∷◌, none, ℕ}
use multi_agent_intel_pipeli.Contracts.{
  TaskDecisionArtifact, blocked_by_dependency, blocked, medium, runtime,
}
use multi_agent_intel_pipeli.Contracts.Artifacts.{
  Report, TaskArtifact, TaskReviewArtifact, from_critic_review,
}
use multi_agent_intel_pipeli.Contracts.RunState.{DepartmentRunState, fresh_state}
use multi_agent_intel_pipeli.Value.{Fields}
use multi_agent_intel_pipeli.TaskRouter.{Assignment}
use multi_agent_intel_pipeli.Critic.Samples.{sample_rules, sample_payload, review_by}
use multi_agent_intel_pipeli.Department.{Department, Session}

abbrev pub task : String → List String → Assignment
task key deps = record {
  task_key = key;
  assignee = "CompanyDepartment";
  target_section = "company_profile";
  label = key;
  objective = "Profile Acme";
  model_name = "m";
  allowed_tools = [];
  depends_on = deps;
  run_condition = none;
  output_schema_key = "";
  industry_hint = "n/v";
  question_ids = [];
}

abbrev pub first_task : Assignment
first_task = task "company_fundamentals" []

abbrev pub second_task : Assignment
second_task = task "financial_deep_dive" ("company_fundamentals" ∷ [])

abbrev pub department : Department
department = record {
  researcher_name = "CompanyResearcher";
  critic_name = "CompanyCritic";
  coding_name = "CompanyCodingSpecialist";
  assignments = first_task ∷ second_task ∷ [];
  critic_memory = [];
  validation_rules = λ key. sample_rules;
  max_task_retries = 2;
}

abbrev pub report_on : String → Report
report_on key = record {
  task_key = key;
  worker = "CompanyResearcher";
  facts = "Acme makes anvils." ∷ [];
  payload = sample_payload;
  queries_used = "acme" ∷ [];
  sources = [];
  open_questions = [];
  strategy_notes = "";
  objective = "Profile Acme";
  evidence_packages = [];
  search_calls = 1;
}

abbrev pub artifact_on : String → ℕ → TaskArtifact
artifact_on key attempt = record {
  task_key = key;
  attempt = attempt;
  worker = "CompanyResearcher";
  facts = "Acme makes anvils." ∷ [];
  payload = sample_payload;
  queries_used = "acme" ∷ [];
  sources = [];
  open_questions = [];
  strategy_notes = "";
  objective = "Profile Acme";
  contract_violations = [];
  needs_contract_review = false;
  evidence_packages = [];
}

-- The critic's review of the first task's artifact.
abbrev pub review_on : ℕ → TaskReviewArtifact
review_on attempt =
    from_critic_review (review_by sample_rules) "company_fundamentals" attempt "CompanyCritic"

abbrev pub approving : TaskReviewArtifact
approving = record (review_on 1) { approved = true }

abbrev pub blocked_decision : TaskDecisionArtifact
blocked_decision = record {
  task_key = "financial_deep_dive";
  attempt = 1;
  outcome = blocked_by_dependency;
  task_status = blocked;
  decided_by = runtime;
  confidence = medium;
  open_questions = [];
  reason = "Dependency company_fundamentals not satisfied";
}

abbrev pub session : DepartmentRunState → Session
session run = record { run = run; memory = [] }

abbrev pub start : Session
start = session (fresh_state "CompanyDepartment" Fields.end)

-- The first task has been researched.
abbrev pub researched : ℕ → DepartmentRunState
researched attempt = record (fresh_state "CompanyDepartment" Fields.end) {
  attempts = ("company_fundamentals", attempt) ∷ [];
  task_artifacts = ("company_fundamentals", artifact_on "company_fundamentals" attempt ∷ []) ∷ [];
}

-- It has been reviewed too.
abbrev pub reviewed_by : ℕ → TaskReviewArtifact → DepartmentRunState
reviewed_by attempt r = record (researched attempt) {
  review_artifacts = ("company_fundamentals", r ∷ []) ∷ [];
}

-- The second task was blocked before the first was researched.
abbrev pub unblocked : DepartmentRunState
unblocked = record (researched 1) {
  decision_artifacts = ("financial_deep_dive", blocked_decision ∷ []) ∷ [];
}

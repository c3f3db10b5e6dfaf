-- ===== src/Supervisor/Tests.antt =====
-- The loop's theorems at the contact department, before any other department has run.
use multi_agent_intel_pipeli.Prelude.{
  ◌==◌, ◌&&◌, ◌||◌, not, ltb, ◌≡◌, refl, String, true, false, [], ◌∷◌, Option, some, none, lookup,
  get_or,
}
use multi_agent_intel_pipeli.Value.{str, field, end}
use multi_agent_intel_pipeli.TaskRouter.{Assignment}
use multi_agent_intel_pipeli.AnswerMatrix.{
  Artifacts, build_initial_answer_matrix, question_ids_for_task,
}
use multi_agent_intel_pipeli.Supervisor.{
  Package, Acceptance, Run, apply_acceptance_gate, condition_met, evaluate_run_conditions,
  is_admitted_with_points,
}
use multi_agent_intel_pipeli.Supervisor.Phase.{DepartmentAssignment}
use multi_agent_intel_pipeli.Supervisor.Gate.{visible, apply_acceptance_gate-visible}
use multi_agent_intel_pipeli.Supervisor.Submissions.{
  Submission, admission_decision, has_content, all_tasks_rejected, all_hard, count_status,
  accept_department_package, admission_decision-lem, accept_department_package-visible,
}
use multi_agent_intel_pipeli.Supervisor.Statuses.{
  lifecycle, finish_tasks-statuses, run_department-overwrites_skipped,
}

abbrev contact_task : String → Option String → Assignment
contact_task key condition = record {
  task_key = key;
  assignee = "ContactDepartment";
  target_section = "contact_intelligence";
  label = key;
  objective = "";
  model_name = "m";
  allowed_tools = [];
  depends_on = [];
  run_condition = condition;
  output_schema_key = "";
  industry_hint = "n/v";
  question_ids = question_ids_for_task key;
}

abbrev discovery : Assignment
discovery = contact_task "contact_discovery" (some "buyer_department_has_prioritized_firms")

abbrev contacts : Assignment
contacts = contact_task "target_company_contacts" none

abbrev qualification : Assignment
qualification = contact_task "contact_qualification" (some "contact_discovery_completed")

abbrev no_artifacts : Artifacts
no_artifacts = record { answer_matrix_updates = []; gap_candidates = []; evidence_packets = [] }

abbrev contact_package : Package
contact_package = record {
  open_questions = [];
  accepted_points = [];
  artifacts = no_artifacts;
  status_by_task = ("target_company_contacts", "accepted") ∷ [];
}

abbrev accepting : Acceptance
accepting = record { decision = some "accepted"; reason = none }

abbrev contact_department : DepartmentAssignment
contact_department = record {
  department = "ContactDepartment";
  target_section = "contact_intelligence";
  assignments = discovery ∷ contacts ∷ qualification ∷ [];
  answer = λ given run. record {
    section_payload = end;
    pkg = contact_package;
    acceptance = accepting;
    total_tokens = 1000;
  };
}

abbrev start : Run
start = record {
  sections = [];
  department_packages = [];
  active_tasks = [];
  task_statuses = [];
  answer_matrix = build_initial_answer_matrix;
  memory = no_artifacts;
  completed_backlog = [];
}

apply_acceptance_gate-visible_example :
    visible (
      lookup "ContactDepartment"
        (apply_acceptance_gate accepting "ContactDepartment" "contact_intelligence" end
          contact_package start).department_packages)
    ≡ true
apply_acceptance_gate-visible_example =
    (apply_acceptance_gate-visible accepting "ContactDepartment" "contact_intelligence" end
      contact_package start refl).2

known_statuses : lifecycle contact_package.status_by_task contact_department.assignments ≡ true
unfolding get_or lookup
known_statuses = refl

-- The department says nothing of the task that it was not given.
silent : lookup "contact_qualification" contact_package.status_by_task ≡ none
unfolding lookup
silent = refl

held_back : condition_met [] [] qualification.run_condition ≡ false
unfolding condition_met lookup
held_back = refl

one_runs : (evaluate_run_conditions [] [] contact_department.assignments).0 ≡ contacts ∷ []
unfolding condition_met lookup evaluate_run_conditions is_admitted_with_points
one_runs = refl

finish_tasks-statuses_example :
    lookup "contact_discovery"
      (finish_tasks-statuses contact_package.status_by_task contact_department.assignments start
        known_statuses).0.task_statuses
    ≡ some "degraded"
unfolding get_or lookup
finish_tasks-statuses_example =
    (finish_tasks-statuses contact_package.status_by_task contact_department.assignments start
        known_statuses).2
      "contact_discovery"

run_department-overwrites_skipped_example :
    lookup "contact_qualification"
      (run_department-overwrites_skipped 500000 contact_department qualification refl
        (λ given run. silent)
        (λ given run. known_statuses)
        start
        contacts
        []
        held_back
        one_runs).0.task_statuses
    ≡ some "degraded"
run_department-overwrites_skipped_example =
    (run_department-overwrites_skipped 500000 contact_department qualification refl
      (λ given run. silent) (λ given run. known_statuses) start contacts [] held_back one_runs).3

abbrev submission : Submission
submission = record {
  section_payload = field "summary" (str "Two contacts.") end;
  task_statuses = "accepted" ∷ "degraded" ∷ [];
  policy_gate_passed = true;
  blocker_severities = [];
}

admission_decision-lem_example : (admission_decision submission == "accepted") ≡ (
    has_content submission
    && ltb 0 (count_status "accepted" submission.task_statuses)
    && submission.policy_gate_passed)
admission_decision-lem_example = (admission_decision-lem submission).0

accept_department_package-visible_example :
    visible (
      lookup "ContactDepartment"
        (apply_acceptance_gate
          (accept_department_package "ContactDepartment" submission)
          "ContactDepartment"
          "contact_intelligence"
          submission.section_payload
          contact_package
          start).department_packages)
    ≡ not (not (has_content submission) || all_tasks_rejected submission || all_hard submission)
accept_department_package-visible_example =
    (accept_department_package-visible "ContactDepartment" "contact_intelligence" submission
      contact_package start).2

-- ===== src/Contracts/RunState.antt =====
-- src/orchestration/contracts.py: `DepartmentRunState`, the registries of one department's run. The
-- flat views `task_results` and `last_reviews` hold the artifacts' dicts; here they hold the
-- artifacts.
use multi_agent_intel_pipeli.Prelude.{
  ℕ, String, Bool, true, false, List, [], ◌∷◌, ◌++◌, Option, none, some, if◌then◌else◌, Dict,
  insert, get_or, last?, length, nonempty,
}
use multi_agent_intel_pipeli.Value.{Fields}
use multi_agent_intel_pipeli.Models.{EvidencePacket, GapCandidate, AnswerMatrixUpdate}
use multi_agent_intel_pipeli.Contracts.{
  Outcome, rework_required, Confidence, judge, TaskDecisionArtifact, satisfies_dependency,
  is_terminal,
}
use multi_agent_intel_pipeli.Contracts.Artifacts.{TaskArtifact, TaskReviewArtifact}

-- One entry of `tool_errors`.
pub record ToolError : Type 0 where
  pub tool : String
  pub task_key : String
  pub error : String

-- One entry of `strategy_changes`: a rework decision, or new queries of the coding specialist.
pub data StrategyChange : Type 0 where
  rework : (task_key : String) (attempt : ℕ) (reason : String) → StrategyChange
  query_override :
      (task_key : String) (attempt : ℕ) (agent : String) (review_issue : List String) (count : ℕ)
      → StrategyChange

-- One entry of `coding_support_used`.
pub record CodingSupport : Type 0 where
  pub task_key : String
  pub attempt : ℕ
  pub queries_count : ℕ

-- One entry of `judge_escalations`.
pub record Escalation : Type 0 where
  pub task_key : String
  pub attempt : ℕ
  pub outcome : Outcome
  pub confidence : Confidence

pub record DepartmentRunState : Type 0 where
  pub department : String
  pub current_payload : Fields
  pub query_overrides : Dict (List String)
  pub revision_requests : Dict Fields
  pub attempts : Dict ℕ
  pub task_artifacts : Dict (List TaskArtifact)
  pub review_artifacts : Dict (List TaskReviewArtifact)
  pub decision_artifacts : Dict (List TaskDecisionArtifact)
  pub task_results : Dict TaskArtifact
  pub last_reviews : Dict TaskReviewArtifact
  pub tool_errors : List ToolError
  pub strategy_changes : List StrategyChange
  pub coding_support_used : List CodingSupport
  pub judge_escalations : List Escalation
  pub evidence_packages : List EvidencePacket
  pub gap_candidates : List GapCandidate
  pub answer_matrix_updates : List AnswerMatrixUpdate

-- `DepartmentRunState(department=..., current_payload=...)`
abbrev pub fresh_state : String → Fields → DepartmentRunState
fresh_state department payload = record {
  department = department;
  current_payload = payload;
  query_overrides = [];
  revision_requests = [];
  attempts = [];
  task_artifacts = [];
  review_artifacts = [];
  decision_artifacts = [];
  task_results = [];
  last_reviews = [];
  tool_errors = [];
  strategy_changes = [];
  coding_support_used = [];
  judge_escalations = [];
  evidence_packages = [];
  gap_candidates = [];
  answer_matrix_updates = [];
}

-- `registry.setdefault(key, []).append(artifact)`
unfoldable pub append_to {ℓ} : {A : Type ℓ} → String → A → Dict (List A) → Dict (List A)
append_to key artifact registry = insert key (get_or key [] registry ++ artifact ∷ []) registry

unfoldable pub record_task_artifact : TaskArtifact → DepartmentRunState → DepartmentRunState
record_task_artifact artifact s = record s {
  task_artifacts = append_to artifact.task_key artifact s.task_artifacts;
  evidence_packages = s.evidence_packages ++ artifact.evidence_packages;
  task_results = insert artifact.task_key artifact s.task_results;
}

unfoldable pub record_review_artifact : TaskReviewArtifact → DepartmentRunState → DepartmentRunState
record_review_artifact artifact s = record s {
  review_artifacts = append_to artifact.task_key artifact s.review_artifacts;
  last_reviews = insert artifact.task_key artifact s.last_reviews;
}

abbrev rework_note : TaskDecisionArtifact → List StrategyChange
rework_note artifact = elim artifact.outcome [
  | rework_required ↦ rework artifact.task_key artifact.attempt artifact.reason ∷ []
  | _ ↦ []
]

abbrev escalation_note : TaskDecisionArtifact → List Escalation
escalation_note artifact = elim artifact.decided_by [
  | judge ↦
      record {
        task_key = artifact.task_key;
        attempt = artifact.attempt;
        outcome = artifact.outcome;
        confidence = artifact.confidence;
      }
      ∷ []
  | _ ↦ []
]

unfoldable pub record_decision_artifact :
    TaskDecisionArtifact → DepartmentRunState → DepartmentRunState
record_decision_artifact artifact s = record s {
  decision_artifacts = append_to artifact.task_key artifact s.decision_artifacts;
  strategy_changes = s.strategy_changes ++ rework_note artifact;
  judge_escalations = s.judge_escalations ++ escalation_note artifact;
}

unfoldable pub latest_artifact : DepartmentRunState → String → Option TaskArtifact
latest_artifact s task_key = last? (get_or task_key [] s.task_artifacts)

unfoldable pub latest_review : DepartmentRunState → String → Option TaskReviewArtifact
latest_review s task_key = last? (get_or task_key [] s.review_artifacts)

unfoldable pub latest_decision : DepartmentRunState → String → Option TaskDecisionArtifact
latest_decision s task_key = last? (get_or task_key [] s.decision_artifacts)

unfoldable pub is_task_terminal : DepartmentRunState → String → Bool
is_task_terminal s task_key = elim (latest_decision s task_key) [
  | none ↦ false
  | some decision ↦ is_terminal decision
]

approved_review : Option TaskReviewArtifact → Bool
approved_review none = false
approved_review (some review) = review.approved

has_facts : Option TaskArtifact → Bool
has_facts none = false
has_facts (some artifact) = nonempty artifact.facts

unfoldable pub is_dependency_satisfied : DepartmentRunState → String → Bool
unfolding approved_review has_facts
is_dependency_satisfied s task_key = elim (latest_decision s task_key) [
  | some decision ↦ satisfies_dependency decision.outcome
  | none ↦
      if approved_review (latest_review s task_key)
      then true
      else has_facts (latest_artifact s task_key)
]

unfoldable pub record_coding_support :
    String → List String → DepartmentRunState → DepartmentRunState
record_coding_support task_key queries s = record s {
  coding_support_used =
      s.coding_support_used
      ++ record {
        task_key = task_key;
        attempt = get_or task_key 0 s.attempts;
        queries_count = length queries;
      }
        ∷ [];
}

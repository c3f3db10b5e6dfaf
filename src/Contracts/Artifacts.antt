-- ===== src/Contracts/Artifacts.antt =====
-- src/orchestration/contracts.py: `TaskArtifact`, `TaskReviewArtifact` and the constructors of the
-- artifacts. The `assurance_shadow` of a review, which no code modelled here reads, is left out.
use multi_agent_intel_pipeli.Prelude.{
  ℕ, String, Bool, false, List, [], map, Option, none, some, eqb, if◌then◌else◌,
}
use multi_agent_intel_pipeli.Value.{Value, Fields}
use multi_agent_intel_pipeli.Models.{EvidencePacket}
use multi_agent_intel_pipeli.Critic.Review.{
  ContractViolation, Strength, CodingBrief, Feedback, Review,
}
use multi_agent_intel_pipeli.Contracts.{
  Outcome, TaskStatus, high, medium, lead, judge, TaskDecisionArtifact,
}
use multi_agent_intel_pipeli.Judge.{Decision, ReviewView}

pub record TaskArtifact : Type 0 where
  pub task_key : String
  pub attempt : ℕ
  pub worker : String
  pub facts : List String
  pub payload : Fields
  pub queries_used : List String
  pub sources : List Value
  pub open_questions : List String
  pub strategy_notes : String
  pub objective : String
  pub contract_violations : List ContractViolation
  pub needs_contract_review : Bool
  pub evidence_packages : List EvidencePacket

-- What a research worker reports; `search_calls` is the count in its `usage`.
pub record Report : Type 0 where
  pub task_key : String
  pub worker : String
  pub facts : List String
  pub payload : Fields
  pub queries_used : List String
  pub sources : List Value
  pub open_questions : List String
  pub strategy_notes : String
  pub objective : String
  pub evidence_packages : List EvidencePacket
  pub search_calls : ℕ

-- `TaskArtifact.from_worker_report`
unfoldable pub from_worker_report : Report → ℕ → TaskArtifact
from_worker_report report attempt = record {
  task_key = report.task_key;
  attempt = attempt;
  worker = report.worker;
  facts = report.facts;
  payload = report.payload;
  queries_used = report.queries_used;
  sources = report.sources;
  open_questions = report.open_questions;
  strategy_notes = report.strategy_notes;
  objective = report.objective;
  contract_violations = [];
  needs_contract_review = false;
  evidence_packages = report.evidence_packages;
}

-- The critic's feedback entries, or the plain text of the judge's fallback review.
pub data FeedbackItem : Type 0 where
  entry : Feedback → FeedbackItem
  text : String → FeedbackItem

pub record TaskReviewArtifact : Type 0 where
  pub task_key : String
  pub attempt : ℕ
  pub approved : Bool
  pub reviewer : String
  pub core_passed : ℕ
  pub core_total : ℕ
  pub supporting_passed : ℕ
  pub supporting_total : ℕ
  pub accepted_points : List String
  pub rejected_points : List String
  pub missing_points : List String
  pub issues : List String
  pub evidence_strength : Strength
  pub method_issue : Bool
  pub feedback_to_worker : List FeedbackItem
  pub revision_instructions : List String
  pub coding_brief : Option CodingBrief

-- `TaskReviewArtifact.from_critic_review`
unfoldable pub from_critic_review : Review → String → ℕ → String → TaskReviewArtifact
from_critic_review review task_key attempt reviewer = record {
  task_key = task_key;
  attempt = attempt;
  approved = review.approved;
  reviewer = reviewer;
  core_passed = review.core_passed;
  core_total = review.core_total;
  supporting_passed = review.supporting_passed;
  supporting_total = review.supporting_total;
  accepted_points = review.accepted_points;
  rejected_points = review.rejected_points;
  missing_points = review.missing_points;
  issues = review.issues;
  evidence_strength = review.evidence_strength;
  method_issue = review.method_issue;
  feedback_to_worker = map entry review.feedback_to_worker;
  revision_instructions = review.revision_instructions;
  coding_brief = some review.coding_brief;
}

-- `TaskReviewArtifact.to_dict`, as the judge reads it: the dict has no `failed_rule_messages`.
unfoldable pub artifact_view : TaskReviewArtifact → ReviewView
artifact_view r = record {
  core_passed = r.core_passed;
  core_total = r.core_total;
  supporting_passed = r.supporting_passed;
  supporting_total = r.supporting_total;
  issues = r.issues;
  failed_rule_messages = [];
}

-- `TaskDecisionArtifact.from_judge_result`
unfoldable pub from_judge_result : Decision → String → ℕ → TaskDecisionArtifact
from_judge_result result task_key attempt = record {
  task_key = task_key;
  attempt = attempt;
  outcome = result.decision;
  task_status = result.task_status;
  decided_by = judge;
  confidence = result.confidence;
  open_questions = result.open_questions;
  reason = result.reason;
}

-- `TaskDecisionArtifact.lead_accepted`
unfoldable pub lead_accepted : String → ℕ → Option TaskReviewArtifact → TaskDecisionArtifact
lead_accepted task_key attempt review = record {
  task_key = task_key;
  attempt = attempt;
  outcome = Outcome.accepted;
  task_status = TaskStatus.accepted;
  decided_by = lead;
  confidence = elim review [
    | none ↦ medium
    | some r ↦ if eqb r.core_passed r.core_total then high else medium
  ];
  open_questions = [];
  reason = "Critic approved. Lead accepted and moving to next task.";
}

-- ===== src/Department/Settle.antt =====
-- src/agents/lead.py: how `finalize_package` settles each task, by what the run state has of it.
use multi_agent_intel_pipeli.Prelude.{
  String, Bool, not, ◌&&◌, List, [], ◌∷◌, ◌++◌, Option, none, some, ◌==◌, ltb, if◌then◌else◌, keep,
  length, concat, decimal, dedup_safe, nonempty_text,
}
use multi_agent_intel_pipeli.Value.{Value}
use multi_agent_intel_pipeli.Contracts.{TaskStatus, accepted, degraded, TaskDecisionArtifact}
use multi_agent_intel_pipeli.Contracts.Artifacts.{
  TaskArtifact, TaskReviewArtifact, artifact_view, from_judge_result, lead_accepted,
}
use multi_agent_intel_pipeli.Contracts.RunState.{DepartmentRunState, record_decision_artifact}
use multi_agent_intel_pipeli.Critic.Review.{ContractViolation, review}
use multi_agent_intel_pipeli.Judge.{ReviewView, critic_view, decide}
use multi_agent_intel_pipeli.TaskRouter.{Assignment}
use multi_agent_intel_pipeli.Department.{Department}

-- An entry of `task_summaries`.
pub record TaskSummary : Type 0 where
  pub task_key : String
  pub label : String
  pub status : TaskStatus
  pub accepted_points : List String
  pub open_points : List String
  pub summary : String

-- The loop's variables for one task, and the run state after it.
pub record Settled : Type 0 where
  pub run : DepartmentRunState
  pub status : TaskStatus
  pub accepted_points : List String
  pub open_points : List String
  pub sources : List Value
  pub summary : String

-- `a or b` on texts
abbrev pub or_text : String → String → String
or_text a b = if nonempty_text a then a else b

-- `_dedup` on texts, whose key is the text itself.
unfoldable pub dedup : List String → List String
unfolding dedup_safe
dedup items = dedup_safe items

is_high : ContractViolation → Bool
is_high v = v.severity == "high"

-- What a task's contract violations add to the package's open questions.
unfoldable pub contract_note : String → Option TaskArtifact → List String
unfolding is_high
contract_note task_key none = []
contract_note task_key (some artifact) =
    let high_count = length (keep is_high artifact.contract_violations) in
    if ltb 0 high_count
    then concat (
        "Contract violation in "
        ∷ task_key
        ∷ ": "
        ∷ decimal high_count
        ∷ " high-severity schema mismatches"
        ∷ [])
      ∷ []
    else []

-- A decision that is stored stands; without an artifact it accepts nothing.
unfoldable pub settle_decided :
    Assignment
    → DepartmentRunState
    → TaskDecisionArtifact
    → Option TaskReviewArtifact
    → Option TaskArtifact
    → Settled
settle_decided a s decision r none = record {
  run = s;
  status = degraded;
  accepted_points = [];
  open_points = dedup (
      decision.open_questions
      ++ concat (
          "Decision for " ∷ a.task_key
          ∷ " ignored as accepted evidence because no TaskArtifact exists." ∷ [])
        ∷ []);
  sources = [];
  summary = a.objective;
}
settle_decided a s decision r (some artifact) = record {
  run = s;
  status = decision.task_status;
  accepted_points = elim r [ none ↦ [] | some review ↦ review.accepted_points ];
  open_points = dedup (decision.open_questions ++ artifact.open_questions);
  sources = artifact.sources;
  summary = or_text artifact.objective a.objective;
}

-- Asks the judge in place of the chat, and stores its decision.
unfoldable pub judge_inline :
    Assignment
    → DepartmentRunState
    → TaskArtifact
    → ReviewView
    → (accepted more : List String) → Settled
judge_inline a s artifact view accepted_points more =
    let result = decide a.task_key (some view) none in
    record {
      run = record_decision_artifact (from_judge_result result a.task_key artifact.attempt) s;
      status = result.task_status;
      accepted_points = accepted_points;
      open_points = dedup (result.open_questions ++ (artifact.open_questions ++ more));
      sources = artifact.sources;
      summary = or_text artifact.objective a.objective;
    }

-- A task that was reviewed and never decided: accepted if the critic approved it and its schema
-- check asks for no review of the contract, judged otherwise.
unfoldable pub settle_reviewed :
    Assignment → DepartmentRunState → TaskReviewArtifact → TaskArtifact → Settled
settle_reviewed a s r artifact =
    if not artifact.needs_contract_review && r.approved
    then record {
      run = record_decision_artifact (lead_accepted a.task_key artifact.attempt (some r)) s;
      status = accepted;
      accepted_points = r.accepted_points;
      open_points = artifact.open_questions;
      sources = artifact.sources;
      summary = or_text artifact.objective a.objective;
    }
    else judge_inline a s artifact (artifact_view r) r.accepted_points []

-- A task that was researched only is reviewed and judged here; `none` is the critic's exception.
unfoldable pub settle_researched :
    Department → Assignment → DepartmentRunState → TaskArtifact → Option Settled
settle_researched d a s artifact =
    elim (review a.task_key a.objective (d.validation_rules a.task_key) artifact.payload none []) [
      | none ↦ none
      | some r ↦ some (judge_inline a s artifact (critic_view r) r.accepted_points r.missing_points)
    ]

unfoldable pub settle_unresearched : Assignment → DepartmentRunState → Settled
settle_unresearched a s = record {
  run = s;
  status = degraded;
  accepted_points = [];
  open_points = concat ("No research result produced for " ∷ a.task_key ∷ "." ∷ []) ∷ [];
  sources = [];
  summary = a.objective;
}

-- One task, by its latest decision, review and artifact.
unfoldable pub settle_task :
    Department
    → Assignment
    → DepartmentRunState
    → Option TaskDecisionArtifact
    → Option TaskReviewArtifact
    → Option TaskArtifact
    → Option Settled
settle_task d a s (some decision) r artifact = some (settle_decided a s decision r artifact)
settle_task d a s none (some r) (some artifact) = some (settle_reviewed a s r artifact)
settle_task d a s none none (some artifact) = settle_researched d a s artifact
settle_task d a s none r none = some (settle_unresearched a s)

-- ===== src/Contracts.antt =====
-- src/orchestration/contracts.py: the vocabulary of outcomes and statuses, and the artifacts of a
-- task. The registries of a department's run are in the child `RunState`.
pub mod Artifacts
pub mod RunState
use multi_agent_intel_pipeli.Prelude.{ℕ, String, Bool, true, false, List}

-- `TaskDecisionOutcome`
pub data Outcome : Type 0 where
  accepted accepted_with_gaps rework_required escalated_to_judge closed_unresolved : Outcome
  blocked_by_dependency : Outcome

-- `TaskStatus`; its members are TASK_LIFECYCLE_STATUSES.
pub data TaskStatus : Type 0 where
  pending pending_synthesis accepted degraded blocked skipped : TaskStatus

-- `outcome in TERMINAL_OUTCOMES`
unfoldable pub is_terminal_outcome : Outcome → Bool
is_terminal_outcome Outcome.accepted = true
is_terminal_outcome accepted_with_gaps = true
is_terminal_outcome closed_unresolved = true
is_terminal_outcome blocked_by_dependency = true
is_terminal_outcome _ = false

-- `outcome in DEPENDENCY_SATISFYING_OUTCOMES`
unfoldable pub satisfies_dependency : Outcome → Bool
satisfies_dependency Outcome.accepted = true
satisfies_dependency accepted_with_gaps = true
satisfies_dependency _ = false

-- `outcome in NON_TERMINAL_OUTCOMES`
unfoldable pub is_non_terminal_outcome : Outcome → Bool
is_non_terminal_outcome rework_required = true
is_non_terminal_outcome escalated_to_judge = true
is_non_terminal_outcome _ = false

-- OUTCOME_TO_TASK_STATUS
unfoldable pub outcome_to_task_status : Outcome → TaskStatus
outcome_to_task_status Outcome.accepted = TaskStatus.accepted
outcome_to_task_status accepted_with_gaps = degraded
outcome_to_task_status rework_required = pending
outcome_to_task_status escalated_to_judge = pending
outcome_to_task_status closed_unresolved = degraded
outcome_to_task_status blocked_by_dependency = blocked

pub data Confidence : Type 0 where
  high medium low : Confidence

pub data DecidedBy : Type 0 where
  lead judge runtime : DecidedBy

-- `TaskDecisionArtifact`
pub record TaskDecisionArtifact : Type 0 where
  pub task_key : String
  pub attempt : ℕ
  pub outcome : Outcome
  pub task_status : TaskStatus
  pub decided_by : DecidedBy
  pub confidence : Confidence
  pub open_questions : List String
  pub reason : String

-- `TaskDecisionArtifact.is_terminal`
unfoldable pub is_terminal : TaskDecisionArtifact → Bool
unfolding is_terminal_outcome
is_terminal decision = is_terminal_outcome decision.outcome

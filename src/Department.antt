-- ===== src/Department.antt =====
-- src/agents/lead.py: the tools of a department's group chat, as functions on the state of its run.
-- The chat's agents choose which tool to call and when. The answers of the research worker and of
-- the coding specialist, which ask a model, are arguments; so is the schema check's verdict. The
-- package at the end of the chat is made by `finalize_package` in `Finalize`.
pub mod SafeText
pub mod Settle
pub mod Package
pub mod Goods
pub mod Finalize
pub mod Fallback
pub mod FallbackStatus
pub mod Rounds
pub mod Settled
pub mod Completes
pub mod Recovery
pub mod Payload
pub mod Research
pub mod Review
pub mod Chat
mod Steps
pub mod Guards
pub mod Reruns
pub mod Tools
pub mod Closed
pub mod Registry
pub mod Quality
mod Samples
mod FinalizeTests
mod Tests
use multi_agent_intel_pipeli.Prelude.{
  ℕ, String, Bool, List, [], ◌∷◌, ◌++◌, Option, none, some, ◌==◌, if◌then◌else◌,
}
use multi_agent_intel_pipeli.Contracts.Artifacts.{Report}
use multi_agent_intel_pipeli.Contracts.RunState.{DepartmentRunState}
use multi_agent_intel_pipeli.Critic
use multi_agent_intel_pipeli.Critic.Memory.{RoleMemory}
use multi_agent_intel_pipeli.TaskRouter.{Assignment}

-- What a department's run fixes: its agents' names, its tasks, the critic's memory, the contracts'
-- rules (`get_task_validation_rules`) and MAX_TASK_RETRIES.
pub record Department : Type 0 where
  pub researcher_name : String
  pub critic_name : String
  pub coding_name : String
  pub assignments : List Assignment
  pub critic_memory : List RoleMemory
  pub validation_rules : String → List Critic.Rule
  pub max_task_retries : ℕ

-- What the tools write to the run's memory store.
pub data MemoryEvent : Type 0 where
  ingest_worker_report : Report → MemoryEvent
  mark_critic_review : (task_key : String) (approved : Bool) (issues : List String) → MemoryEvent

pub record Session : Type 0 where
  pub run : DepartmentRunState
  pub memory : List MemoryEvent

-- `next((a for a in assignments if a.task_key == task_key), None)`
unfoldable pub find_assignment : String → List Assignment → Option Assignment
find_assignment task_key [] = none
find_assignment task_key (a ∷ as') =
    if a.task_key == task_key then some a else find_assignment task_key as'

-- `run_state.tool_errors.append({...})`
unfoldable pub record_error : String → String → String → DepartmentRunState → DepartmentRunState
record_error tool task_key error s = record s {
  tool_errors = s.tool_errors ++ record { tool = tool; task_key = task_key; error = error } ∷ [];
}

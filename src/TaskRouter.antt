-- ===== src/TaskRouter.antt =====
-- src/orchestration/task_router.py: the task contract that the runtime carries.
use multi_agent_intel_pipeli.Prelude.{String, List, Option}

-- `Assignment`
pub record Assignment : Type 0 where
  pub task_key : String
  pub assignee : String
  pub target_section : String
  pub label : String
  pub objective : String
  pub model_name : String
  pub allowed_tools : List String
  pub depends_on : List String
  pub run_condition : Option String
  pub output_schema_key : String
  pub industry_hint : String
  pub question_ids : List String

-- ===== src/Department/Chat.antt =====
-- src/agents/lead.py: the group chat as a sequence of tool calls, as registered with AutoGen.
use multi_agent_intel_pipeli.Prelude.{String, List, [], ◌∷◌, ◌≡◌}
use multi_agent_intel_pipeli.Department.{Department, Session}
use multi_agent_intel_pipeli.Department.Research.{Answer, report, run_research}
use multi_agent_intel_pipeli.Department.Finalize.{
  Closing, ChatState, incomplete_tasks, finalize_package,
}
use multi_agent_intel_pipeli.Department.Review.{
  Support, review_research, suggest_refined_queries, judge_decision,
}

-- A call of a tool. `finalize` researches a task itself where calls of it were turned down; `worker`
-- is what the worker answers for each task then.
pub data Call : Type 0 where
  research : (task_key : String) → Answer → Call
  review : (task_key exc : String) → Call
  suggest : (task_key : String) → Support → Call
  judge : (task_key : String) → Call
  finalize : (summary : String) → (worker : String → Answer) → Call

-- `incomplete_tasks[0]`, the task that a turned down call researches.
abbrev pub first_open : List String → String
first_open [] = ""
first_open (task_key ∷ more) = task_key

abbrev pub with_session : Session → ChatState → ChatState
with_session s c = record c { session = s }

unfoldable pub step : Department → Closing → ChatState → Call → ChatState
step d env c (research task_key answer) =
    with_session (run_research d task_key answer c.session).0 c
step d env c (review task_key exc) = with_session (review_research d task_key exc c.session).0 c
step d env c (suggest task_key support) =
    with_session (suggest_refined_queries d task_key support c.session) c
step d env c (judge task_key) =
    with_session (record (c.session) { run = (judge_decision d task_key c.session.run).0 }) c
step d env c (finalize summary worker) =
    (finalize_package d env summary
      (worker (first_open (incomplete_tasks c.session.run d.assignments))) c).0

unfoldable pub chat : Department → Closing → ChatState → List Call → ChatState
chat d env c [] = c
chat d env c (call ∷ calls) = chat d env (step d env c call) calls

-- The worker reports on the task that it was called for.
abbrev pub AnswersTask : String → Answer → Type 0
AnswersTask task_key (report r violations) = r.task_key ≡ task_key
AnswersTask task_key _ = Unit

abbrev pub CallAnswersTask : Call → Type 0
CallAnswersTask (research task_key answer) = AnswersTask task_key answer
CallAnswersTask (finalize summary worker) =
    (task_key : String) → AnswersTask task_key (worker task_key)
CallAnswersTask _ = Unit

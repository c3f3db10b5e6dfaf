-- ===== src/Department/Registry.antt =====
-- src/agents/lead.py: the registries of a department's run over a chat.
use multi_agent_intel_pipeli.Prelude.{List, [], ◌∷◌, All, arith, lookup, refl, String, get_or}
use multi_agent_intel_pipeli.Contracts.RunState.{fresh_state, latest_artifact, latest_review}
use multi_agent_intel_pipeli.Value.{Fields}
use multi_agent_intel_pipeli.Department.{Department, find_assignment}
use multi_agent_intel_pipeli.Department.Review.{
  review_research, suggest_refined_queries, judge_decision,
}
use multi_agent_intel_pipeli.Department.Chat.{
  Call, review, suggest, judge, finalize, step, chat, CallAnswersTask,
}
use multi_agent_intel_pipeli.Department.Steps.{IsConsistent}
use multi_agent_intel_pipeli.Department.Tools.{
  review_assigned-IsConsistent, support-IsConsistent, judge-IsConsistent, research-IsConsistent,
}
use multi_agent_intel_pipeli.Department.Finalize.{Closing, ChatState}
use multi_agent_intel_pipeli.Department.Closed.{finalize_package-IsConsistent}

step-IsConsistent :
    (d : Department) (env : Closing) (c : ChatState) (call : Call)
    → CallAnswersTask call
    → IsConsistent c.session.run
    → IsConsistent (step d env c call).session.run
unfolding step review_research suggest_refined_queries judge_decision
step-IsConsistent d env c (Call.research task_key answer) h v =
    research-IsConsistent d task_key c.session v answer h
step-IsConsistent d env c (review task_key exc) h v =
    review_assigned-IsConsistent d task_key c.session v exc (find_assignment task_key d.assignments)
step-IsConsistent d env c (suggest task_key support) h v =
    support-IsConsistent d task_key c.session v support (find_assignment task_key d.assignments)
step-IsConsistent d env c (judge task_key) h v =
    judge-IsConsistent d task_key c.session v (find_assignment task_key d.assignments)
step-IsConsistent d env c (finalize summary worker) h v =
    finalize_package-IsConsistent d env summary c worker h v

-- Whichever of their five tools the agents of a department call, in any order, `finalize_package`
-- included, and whatever the worker and the models answer, if the worker reports on the task that
-- it was called for, a consistent state stays consistent: the flat views show each task's latest
-- artifact and latest review, and the attempt numbers of a task's artifacts rise strictly, up to
-- the task's counter.
pub chat-IsConsistent :
    (d : Department) (env : Closing) (c : ChatState) (calls : List Call)
    → IsConsistent c.session.run
    → All CallAnswersTask calls
    → IsConsistent (chat d env c calls).session.run
unfolding chat
chat-IsConsistent d env c [] v h = v
chat-IsConsistent d env c (call ∷ calls) v h =
    chat-IsConsistent d env (step d env c call) calls (step-IsConsistent d env c call h.0 v) h.1

-- A run starts consistent.
pub fresh_state-IsConsistent :
    (department : String) (payload : Fields) → IsConsistent (fresh_state department payload)
unfolding latest_artifact latest_review get_or lookup
fresh_state-IsConsistent department payload = record {
  results = λ k. refl;
  reviews = λ k. refl;
  numbered = λ k. omega arith;
}

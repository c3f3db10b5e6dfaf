-- ===== src/Department/Closed.antt =====
-- src/agents/lead.py: `finalize_package` and the registries of a run.
use multi_agent_intel_pipeli.Prelude.{
  String, Bool, true, false, not, ◌&&◌, List, [], ◌∷◌, Option, none, some, refl, leb, ◌+◌,
  if◌then◌else◌,
}
use multi_agent_intel_pipeli.Value.{Fields}
use multi_agent_intel_pipeli.Contracts.{TaskDecisionArtifact}
use multi_agent_intel_pipeli.Contracts.Artifacts.{TaskArtifact, TaskReviewArtifact, artifact_view}
use multi_agent_intel_pipeli.Contracts.RunState.{
  DepartmentRunState, latest_artifact, latest_review, latest_decision,
}
use multi_agent_intel_pipeli.Critic.Review.{Review}
use multi_agent_intel_pipeli.Judge.{ReviewView, critic_view}
use multi_agent_intel_pipeli.TaskRouter.{Assignment}
use multi_agent_intel_pipeli.Department.{Department}
use multi_agent_intel_pipeli.Department.Research.{Answer}
use multi_agent_intel_pipeli.Department.Settle.{
  Settled, settle_decided, judge_inline, settle_reviewed, settle_researched, settle_unresearched,
  settle_task,
}
use multi_agent_intel_pipeli.Department.Package.{Assembled}
use multi_agent_intel_pipeli.Department.Finalize.{
  Closing, ChatState, FinalizeReply, auto_recover_finalize_after_blocks, incomplete_tasks,
  settle_all, add_later, submit_package, submit_settled, assemble_package, turn_down, finalize_by,
  finalize_package,
}
use multi_agent_intel_pipeli.Department.Chat.{AnswersTask, first_open}
use multi_agent_intel_pipeli.Department.Steps.{IsConsistent, same-IsConsistent}
use multi_agent_intel_pipeli.Department.Tools.{decision-IsConsistent, research-IsConsistent}

-- A settled task leaves a consistent run, where its review does not raise.
abbrev LeavesConsistent : Option Settled → Type 0
LeavesConsistent none = Unit
LeavesConsistent (some t) = IsConsistent t.run

module _ (d : Department) (a : Assignment) (s : DepartmentRunState) (v : IsConsistent s) where
  decided-IsConsistent :
      (x : TaskDecisionArtifact) (r : Option TaskReviewArtifact) (o : Option TaskArtifact)
      → IsConsistent (settle_decided a s x r o).run
  unfolding settle_decided
  decided-IsConsistent x r none = v
  decided-IsConsistent x r (some artifact) = v

  inline-IsConsistent :
      (artifact : TaskArtifact) (view : ReviewView) (points more : List String)
      → IsConsistent (judge_inline a s artifact view points more).run
  unfolding judge_inline
  inline-IsConsistent artifact view points more = decision-IsConsistent s _ v

  approved-IsConsistent :
      (r : TaskReviewArtifact) (artifact : TaskArtifact) (b : Bool) (x y : Settled)
      → IsConsistent x.run
      → IsConsistent y.run
      → IsConsistent (if b then x else y).run
  approved-IsConsistent r artifact true x y p q = p
  approved-IsConsistent r artifact false x y p q = q

  reviewed-IsConsistent :
      (r : TaskReviewArtifact) (artifact : TaskArtifact)
      → IsConsistent (settle_reviewed a s r artifact).run
  unfolding settle_reviewed
  reviewed-IsConsistent r artifact =
      approved-IsConsistent r artifact (not artifact.needs_contract_review && r.approved) _ _
        (decision-IsConsistent s _ v)
        (inline-IsConsistent artifact (artifact_view r) r.accepted_points [])

  judged-LeavesConsistent :
      (artifact : TaskArtifact) (o : Option Review)
      → LeavesConsistent (elim o [
        | none ↦ none
        | some r ↦
            some (judge_inline a s artifact (critic_view r) r.accepted_points r.missing_points)
      ])
  judged-LeavesConsistent artifact none = tt
  judged-LeavesConsistent artifact (some r) =
      inline-IsConsistent artifact (critic_view r) r.accepted_points r.missing_points

  task-LeavesConsistent :
      (x : Option TaskDecisionArtifact) (r : Option TaskReviewArtifact) (o : Option TaskArtifact)
      → LeavesConsistent (settle_task d a s x r o)
  unfolding settle_task settle_researched settle_unresearched
  task-LeavesConsistent (some x) r o = decided-IsConsistent x r o
  task-LeavesConsistent none (some r) (some artifact) = reviewed-IsConsistent r artifact
  task-LeavesConsistent none none (some artifact) = judged-LeavesConsistent artifact _
  task-LeavesConsistent none none none = v
  task-LeavesConsistent none (some r) none = v

settled-IsConsistent :
    (d : Department) (a : Assignment) (as' : List Assignment) (s : DepartmentRunState)
    → IsConsistent s
    → ((t : DepartmentRunState) → IsConsistent t → IsConsistent (settle_all d as' t).0)
    → (o : Option Settled) → LeavesConsistent o
    → IsConsistent
        (elim o as (λ _. DepartmentRunState × Option Assembled) [
          | none ↦ (s, none)
          | some t ↦
              let rest = settle_all d as' t.run in (rest.0, add_later s.department a s t rest.1)
        ]).0
settled-IsConsistent d a as' s v later none h = v
settled-IsConsistent d a as' s v later (some t) h = later t.run h

settle_all-IsConsistent :
    (d : Department) (as' : List Assignment) (s : DepartmentRunState)
    → IsConsistent s
    → IsConsistent (settle_all d as' s).0
unfolding settle_all
settle_all-IsConsistent d [] s v = v
settle_all-IsConsistent d (a ∷ as') s v =
    settled-IsConsistent d a as' s v (settle_all-IsConsistent d as')
      (settle_task d a s (latest_decision s a.task_key) (latest_review s a.task_key)
        (latest_artifact s a.task_key))
      (task-LeavesConsistent d a s v (latest_decision s a.task_key) (latest_review s a.task_key)
        (latest_artifact s a.task_key))

module _ (d : Department) (env : Closing) (summary : String) (c : ChatState) where
  package-IsConsistent :
      (payload : Fields × Bool) (all_tasks : Assembled) (s : DepartmentRunState)
      → IsConsistent s
      → IsConsistent (submit_package d env summary payload all_tasks s c).0.session.run
  unfolding submit_package
  package-IsConsistent (payload, true) all_tasks s v =
      same-IsConsistent s _ v refl refl refl refl refl
  package-IsConsistent (payload, false) all_tasks s v =
      same-IsConsistent s _ v refl refl refl refl refl

  submit-IsConsistent :
      (o : Option Assembled) (s : DepartmentRunState)
      → IsConsistent s
      → IsConsistent (submit_settled d env summary o s c).0.session.run
  unfolding submit_settled
  submit-IsConsistent none s v = v
  submit-IsConsistent (some all_tasks) s v = package-IsConsistent _ all_tasks s v

  turned_down-IsConsistent :
      (b : Bool) (x y : ChatState × FinalizeReply)
      → IsConsistent x.0.session.run
      → IsConsistent y.0.session.run
      → IsConsistent (if b then x else y).0.session.run
  turned_down-IsConsistent true x y p q = p
  turned_down-IsConsistent false x y p q = q

  finalize_by-IsConsistent :
      (worker : String → Answer) (tasks : List String)
      → ((task_key : String) → AnswersTask task_key (worker task_key))
      → IsConsistent c.session.run
      → IsConsistent (finalize_by d env summary (worker (first_open tasks)) tasks c).0.session.run
  unfolding finalize_by assemble_package turn_down
  finalize_by-IsConsistent worker [] h v =
      submit-IsConsistent _ _ (settle_all-IsConsistent d d.assignments c.session.run v)
  finalize_by-IsConsistent worker (next ∷ others) h v =
      turned_down-IsConsistent
        (leb auto_recover_finalize_after_blocks (c.blocked_finalize_attempts + 1)) _ _
        (research-IsConsistent d next c.session v (worker next) (h next)) v

  pub finalize_package-IsConsistent :
      (worker : String → Answer)
      → ((task_key : String) → AnswersTask task_key (worker task_key))
      → IsConsistent c.session.run
      → IsConsistent
          (finalize_package d env summary
            (worker (first_open (incomplete_tasks c.session.run d.assignments)))
            c).0.session.run
  unfolding finalize_package
  finalize_package-IsConsistent worker h v = finalize_by-IsConsistent worker _ h v

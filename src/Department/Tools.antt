-- ===== src/Department/Tools.antt =====
-- src/agents/lead.py: the tools of a chat but `finalize_package`, and the registries of a run.
use multi_agent_intel_pipeli.Prelude.{
  Bool, insert, leb, all, if◌then◌else◌, ℕ, ◌+◌, refl, String, Option, none, some, get_or, true,
  false,
}
use multi_agent_intel_pipeli.Contracts.{TaskDecisionArtifact}
use multi_agent_intel_pipeli.Contracts.Artifacts.{TaskArtifact, TaskReviewArtifact}
use multi_agent_intel_pipeli.Contracts.RunState.{
  latest_artifact, record_task_artifact, is_dependency_satisfied, DepartmentRunState,
  record_decision_artifact, latest_review, latest_decision,
}
use multi_agent_intel_pipeli.Critic.Review.{Review}
use multi_agent_intel_pipeli.TaskRouter.{Assignment}
use multi_agent_intel_pipeli.Department.{Department, Session, find_assignment, record_error}
use multi_agent_intel_pipeli.Department.Research.{
  guarded, assigned, rerun_reviewed, was_blocked, Answer, report, failure, first_unsatisfied,
  local_keys, block_task, close_task, checked_artifact, execute, rerun, has_result, run_research,
}
use multi_agent_intel_pipeli.Department.Review.{
  overrides, after_review, review_latest, review_assigned, support_assigned, support_task, judged,
  judge_artifact, judge_review, judge_assigned, critic_review, store_review, Support,
}
use multi_agent_intel_pipeli.Department.Chat.{AnswersTask}
use multi_agent_intel_pipeli.Department.Steps.{
  IsConsistent, attempt-IsConsistent, recorded-IsConsistent, review-IsConsistent,
  count-IsConsistent, same-IsConsistent,
}

pub decision-IsConsistent :
    (s : DepartmentRunState) (d : TaskDecisionArtifact)
    → IsConsistent s
    → IsConsistent (record_decision_artifact d s)
unfolding record_decision_artifact
decision-IsConsistent s d v = same-IsConsistent s _ v refl refl refl refl refl

branch :
    {A : Type 0} (b : Bool) (x y : Session × A)
    → IsConsistent x.0.run
    → IsConsistent y.0.run
    → IsConsistent (if b then x else y).0.run
branch true x y p q = p
branch false x y p q = q

module _ (d : Department) (task_key : String) (s : Session) (v : IsConsistent s.run) where
  execute-IsConsistent :
      (answer : Answer)
      → AnswersTask task_key answer
      → IsConsistent (execute task_key answer s).0.run
  unfolding execute record_error checked_artifact
  execute-IsConsistent (failure exc) h =
      same-IsConsistent _ _ (count-IsConsistent s.run v task_key) refl refl refl refl refl
  execute-IsConsistent (report r violations) h =
      let attempt = get_or task_key 0 s.run.attempts + 1 in
      let artifact = checked_artifact r attempt violations in
      let counted = record (s.run) { attempts = insert task_key attempt s.run.attempts } in
      same-IsConsistent (record_task_artifact artifact counted) _
        (recorded-IsConsistent s.run v task_key artifact h refl) refl refl refl refl refl

  block-IsConsistent : (dep : String) → IsConsistent (block_task d task_key dep s.run)
  unfolding block_task
  block-IsConsistent dep = decision-IsConsistent _ _ (attempt-IsConsistent s.run v _ refl)

  close-IsConsistent :
      (attempt : ℕ) (r : TaskReviewArtifact) → IsConsistent (close_task d task_key attempt r s.run)
  unfolding close_task
  close-IsConsistent attempt r = decision-IsConsistent s.run _ v

  module _ (answer : Answer) (h : AnswersTask task_key answer) where
    reviewed-IsConsistent :
        (r : Option TaskReviewArtifact) → IsConsistent (rerun_reviewed d task_key answer s r).0.run
    unfolding rerun_reviewed
    reviewed-IsConsistent none = v
    reviewed-IsConsistent (some r) =
        let current = get_or task_key 0 s.run.attempts in
        branch r.approved _ _ v (
          branch (leb d.max_task_retries current) _ _ (close-IsConsistent current r)
            (execute-IsConsistent answer h))

    rerun-IsConsistent : (a : Assignment) → IsConsistent (rerun d a task_key answer s).0.run
    unfolding rerun
    rerun-IsConsistent a =
        branch (was_blocked (latest_decision s.run task_key)) _ _
          (branch (all (is_dependency_satisfied s.run) a.depends_on) _ _
            (execute-IsConsistent answer h) v)
          (reviewed-IsConsistent (latest_review s.run task_key))

    unblocked-IsConsistent :
        (a : Assignment) (dep : Option String)
        → IsConsistent (guarded d a task_key answer s dep).0.run
    unfolding guarded
    unblocked-IsConsistent a (some dep) = block-IsConsistent dep
    unblocked-IsConsistent a none =
        branch (has_result s.run task_key) _ _ (rerun-IsConsistent a)
          (execute-IsConsistent answer h)

    pub research-IsConsistent : IsConsistent (run_research d task_key answer s).0.run
    unfolding run_research assigned
    research-IsConsistent =
        elim (find_assignment task_key d.assignments)
          as (λ o. IsConsistent (assigned d task_key answer s o).0.run) [
            | none ↦ v
            | some a ↦
                unblocked-IsConsistent a
                  (first_unsatisfied s.run (local_keys d.assignments) a.depends_on)
          ]

  after_review-IsConsistent :
      (exc : String) (artifact : TaskArtifact) (r : Option Review)
      → IsConsistent (after_review d task_key exc artifact s r).0.run
  unfolding after_review store_review record_error
  after_review-IsConsistent exc artifact none = same-IsConsistent s.run _ v refl refl refl refl refl
  after_review-IsConsistent exc artifact (some r) = review-IsConsistent s.run v _

  review_latest-IsConsistent :
      (a : Assignment) (exc : String) (o : Option TaskArtifact)
      → IsConsistent (review_latest d a task_key exc s o).0.run
  unfolding review_latest
  review_latest-IsConsistent a exc none = v
  review_latest-IsConsistent a exc (some artifact) =
      after_review-IsConsistent exc artifact (critic_review d a task_key artifact)

  pub review_assigned-IsConsistent :
      (exc : String) (o : Option Assignment)
      → IsConsistent (review_assigned d task_key exc s o).0.run
  unfolding review_assigned
  review_assigned-IsConsistent exc none = v
  review_assigned-IsConsistent exc (some a) =
      review_latest-IsConsistent a exc (latest_artifact s.run task_key)

  pub support-IsConsistent :
      (support : Support) (o : Option Assignment)
      → IsConsistent (support_assigned d task_key support s o).run
  unfolding support_assigned support_task
  support-IsConsistent support none = v
  support-IsConsistent (Support.failure exc) (some a) =
      same-IsConsistent s.run _ v refl refl refl refl refl
  support-IsConsistent (overrides qs) (some a) =
      same-IsConsistent s.run _ v refl refl refl refl refl

  judge_latest-IsConsistent :
      (o : Option TaskArtifact) (r : Option TaskReviewArtifact)
      → IsConsistent (judged task_key s.run o r).0
  unfolding judged judge_artifact judge_review
  judge_latest-IsConsistent none r = decision-IsConsistent s.run _ v
  judge_latest-IsConsistent (some artifact) none =
      decision-IsConsistent _ _ (review-IsConsistent s.run v _)
  judge_latest-IsConsistent (some artifact) (some r) = decision-IsConsistent s.run _ v

  pub judge-IsConsistent :
      (o : Option Assignment) → IsConsistent (judge_assigned task_key s.run o).0
  unfolding judge_assigned
  judge-IsConsistent none = v
  judge-IsConsistent (some a) =
      judge_latest-IsConsistent (latest_artifact s.run task_key) (latest_review s.run task_key)

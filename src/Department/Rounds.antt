-- ===== src/Department/Rounds.antt =====
-- src/agents/lead.py: what one round of the loop in `finalize_package` keeps of the run state.
use mathlib.Core.Path.{subst}
use multi_agent_intel_pipeli.Prelude.{
  String, List, [], Option, none, some, ◌≡◌, refl, ◌∙◌, ◌==◌, Bool-cases, Option-cases, inl, inr,
  if◌then◌else◌, eq_refl, eq_iff, not, ◌&&◌, ap,
}
use multi_agent_intel_pipeli.Contracts.{TaskStatus, degraded, TaskDecisionArtifact}
use multi_agent_intel_pipeli.Contracts.Artifacts.{
  TaskArtifact, TaskReviewArtifact, from_judge_result, lead_accepted, artifact_view,
}
use multi_agent_intel_pipeli.Contracts.RunState.{
  DepartmentRunState, record_decision_artifact, latest_artifact, latest_decision,
}
use multi_agent_intel_pipeli.Critic.Review.{review}
use multi_agent_intel_pipeli.Judge.{ReviewView, critic_view}
use multi_agent_intel_pipeli.TaskRouter.{Assignment}
use multi_agent_intel_pipeli.Department.{Department}
use multi_agent_intel_pipeli.Department.Steps.{last-append_to}
use multi_agent_intel_pipeli.Department.Settle.{
  Settled, settle_decided, judge_inline, settle_reviewed, settle_researched, settle_unresearched,
  settle_task,
}

-- No artifact changes, and no decision that there was.
pub record Keeps (s t : DepartmentRunState) : Type 0 where
  pub artifacts : (k : String) → latest_artifact t k ≡ latest_artifact s k
  pub decisions :
      (k : String) (x : TaskDecisionArtifact)
      → latest_decision s k ≡ some x
      → latest_decision t k ≡ some x

pub Keeps-refl : (s : DepartmentRunState) → Keeps s s
Keeps-refl s = record { artifacts = λ k. refl; decisions = λ k x h. h }

pub Keeps-trans : (s t u : DepartmentRunState) → Keeps s t → Keeps t u → Keeps s u
Keeps-trans s t u p q = record {
  artifacts = λ k. q.artifacts k ∙ p.artifacts k;
  decisions = λ k x h. q.decisions k x (p.decisions k x h);
}

pub latest_decision-record :
    (x : TaskDecisionArtifact) (s : DepartmentRunState) (k : String)
    → latest_decision (record_decision_artifact x s) k
      ≡ (if x.task_key == k then some x else latest_decision s k)
unfolding latest_decision record_decision_artifact
latest_decision-record x s k = last-append_to x.task_key k x s.decision_artifacts

-- The status is that of the task's latest decision, or degraded where there is no artifact.
abbrev pub StatusOf : Option TaskArtifact → Option TaskDecisionArtifact → TaskStatus → Type 0
StatusOf none decision status = status ≡ degraded
StatusOf (some artifact) decision status =
    (x : TaskDecisionArtifact) × (decision ≡ some x) × (status ≡ x.task_status)

pub StatusOf-Keeps :
    (s t : DepartmentRunState) (k : String) (status : TaskStatus)
    → Keeps s t
    → StatusOf (latest_artifact s k) (latest_decision s k) status
    → StatusOf (latest_artifact t k) (latest_decision t k) status
StatusOf-Keeps s t k status p h = rw (p.artifacts k) (lift (latest_artifact s k) h)
  where
    lift :
        (o : Option TaskArtifact)
        → StatusOf o (latest_decision s k) status
        → StatusOf o (latest_decision t k) status
    lift none h = h
    lift (some artifact) (x, e, f) = (x, p.decisions k x e, f)

-- Recording the first decision on a task that has an artifact.
module _ (s : DepartmentRunState) (k : String) (artifact : TaskArtifact) (x : TaskDecisionArtifact)
    (own : x.task_key ≡ k) (undecided : latest_decision s k ≡ none) where
  first-Keeps : Keeps s (record_decision_artifact x s)
  unfolding record_decision_artifact latest_artifact
  first-Keeps = record {
    artifacts = λ j. refl;
    decisions = λ j y h. elim (Bool-cases (k == j)) [
      | inl e ↦ cc (undecided, h, ap (latest_decision s) ((eq_iff k j).0 e))
      | inr e ↦ rw (latest_decision-record, own, e) h
    ];
  }

  first-decided : latest_decision (record_decision_artifact x s) k ≡ some x
  first-decided = rw (latest_decision-record, own, eq_refl) refl

-- What one round of the loop guarantees.
abbrev pub Fits : Assignment → DepartmentRunState → Settled → Type 0
Fits a s t =
    Keeps s t.run
    × StatusOf (latest_artifact t.run a.task_key) (latest_decision t.run a.task_key) t.status

module _ (d : Department) (a : Assignment) (s : DepartmentRunState) where
  decided-Fits :
      (x : TaskDecisionArtifact) (r : Option TaskReviewArtifact) (o : Option TaskArtifact)
      → latest_decision s a.task_key ≡ some x
      → latest_artifact s a.task_key ≡ o
      → Fits a s (settle_decided a s x r o)
  unfolding settle_decided
  decided-Fits x r none e f = (Keeps-refl s, rw f refl)
  decided-Fits x r (some artifact) e f = (Keeps-refl s, rw f (x, e, refl))

  module _ (artifact : TaskArtifact) (undecided : latest_decision s a.task_key ≡ none)
      (researched : latest_artifact s a.task_key ≡ some artifact) where
    judged-Fits :
        (view : ReviewView) (points more : List String)
        → Fits a s (judge_inline a s artifact view points more)
    unfolding judge_inline from_judge_result
    judged-Fits view points more =
        let kept = first-Keeps s a.task_key artifact _ refl undecided in
        (
          kept,
          rw (kept.artifacts a.task_key, researched)
              (_, first-decided s a.task_key artifact _ refl undecided, refl),
        )

    reviewed-Fits : (r : TaskReviewArtifact) → Fits a s (settle_reviewed a s r artifact)
    unfolding settle_reviewed lead_accepted
    reviewed-Fits r = elim (Bool-cases (not artifact.needs_contract_review && r.approved)) [
      | inl e ↦
          let kept =
            first-Keeps s a.task_key artifact (lead_accepted a.task_key artifact.attempt (some r))
              refl undecided in
          rw e (
            kept,
            rw (kept.artifacts a.task_key, researched)
                (_, first-decided s a.task_key artifact _ refl undecided, refl),
          )
      | inr e ↦ rw e (judged-Fits (artifact_view r) r.accepted_points [])
    ]

    researched-Fits : (t : Settled) → settle_researched d a s artifact ≡ some t → Fits a s t
    unfolding settle_researched
    researched-Fits t h =
        elim (Option-cases (
          review a.task_key a.objective (d.validation_rules a.task_key) artifact.payload none [])) [
            | inl e ↦ cc (rw (e, settle_researched) at h)
            | inr (r, e) ↦
                let f : some
                      (judge_inline a s artifact (critic_view r) r.accepted_points r.missing_points)
                    ≡ some t =
                  rw (e, settle_researched) at h in
                let g : judge_inline a s artifact (critic_view r) r.accepted_points r.missing_points
                    ≡ t =
                  cc in
                subst (Fits a s) g (judged-Fits (critic_view r) r.accepted_points r.missing_points)
          ]

  unresearched-Fits : latest_artifact s a.task_key ≡ none → Fits a s (settle_unresearched a s)
  unfolding settle_unresearched
  unresearched-Fits f = (Keeps-refl s, rw f refl)

  pub settle_task-Fits :
      (decision : Option TaskDecisionArtifact) (r : Option TaskReviewArtifact)
      (artifact : Option TaskArtifact) (t : Settled)
      → latest_decision s a.task_key ≡ decision
      → latest_artifact s a.task_key ≡ artifact
      → settle_task d a s decision r artifact ≡ some t
      → Fits a s t
  unfolding settle_task
  settle_task-Fits (some x) r artifact t e f h =
      let g : settle_decided a s x r artifact ≡ t = cc in
      subst (Fits a s) g (decided-Fits x r artifact e f)
  settle_task-Fits none (some r) (some artifact) t e f h =
      let g : settle_reviewed a s r artifact ≡ t = cc in
      subst (Fits a s) g (reviewed-Fits artifact e f r)
  settle_task-Fits none none (some artifact) t e f h = researched-Fits artifact e f t h
  settle_task-Fits none (some r) none t e f h =
      let g : settle_unresearched a s ≡ t = cc in subst (Fits a s) g (unresearched-Fits f)
  settle_task-Fits none none none t e f h =
      let g : settle_unresearched a s ≡ t = cc in subst (Fits a s) g (unresearched-Fits f)

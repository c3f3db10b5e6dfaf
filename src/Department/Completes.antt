-- ===== src/Department/Completes.antt =====
-- src/agents/lead.py: a call of `run_research` leaves its task with a result.
use multi_agent_intel_pipeli.Prelude.{
  ◌+◌, String, true, not, ◌&&◌, List, [], ◌∷◌, Option, none, some, ◌≡◌, ◌≢◌, refl, ◌∙◌, ap, arith,
  ◌==◌, Bool-cases, Option-cases, inl, inr, lookup, get_or, lookup-insert, last?, ◌++◌,
}
use multi_agent_intel_pipeli.Contracts.{TaskDecisionArtifact}
use multi_agent_intel_pipeli.Contracts.Artifacts.{TaskArtifact, Report, from_worker_report}
use multi_agent_intel_pipeli.Contracts.RunState.{
  DepartmentRunState, append_to, record_task_artifact, record_decision_artifact, latest_artifact,
  latest_decision,
}
use multi_agent_intel_pipeli.Critic.Review.{ContractViolation}
use multi_agent_intel_pipeli.TaskRouter.{Assignment}
use multi_agent_intel_pipeli.Department.{Department, Session, find_assignment}
use multi_agent_intel_pipeli.Department.Steps.{last-append_to}
use multi_agent_intel_pipeli.Department.Research.{
  report, run_research, assigned, guarded, execute, block_task, has_result, checked_artifact,
  first_unsatisfied, local_keys,
}
use multi_agent_intel_pipeli.Department.Finalize.{is_incomplete}

-- No task's list of artifacts is empty, as `setdefault(key, []).append(...)` leaves it.
abbrev pub IsWritten : DepartmentRunState → Type 0
IsWritten s = (k : String) → lookup k s.task_artifacts ≢ some []

append-ne-nil {ℓ} : {A : Type ℓ} (xs : List A) (x : A) → (xs ++ x ∷ []) ≢ []
append-ne-nil [] x h = ground arith
append-ne-nil (y ∷ ys) x h = ground arith

append_to-IsWritten :
    (key k : String) (x : TaskArtifact) (s : DepartmentRunState)
    → IsWritten s
    → lookup k (append_to key x s.task_artifacts) ≢ some []
unfolding append_to
append_to-IsWritten key k x s w h = elim (Bool-cases (key == k)) [
  | inl e ↦
      let f : some (get_or key [] s.task_artifacts ++ x ∷ []) ≡ some [] =
        rw (lookup-insert, e) at h in
      append-ne-nil (get_or key [] s.task_artifacts) x (cc)
  | inr e ↦ w k (rw (lookup-insert, e) at h)
]

last?-eq-none {ℓ} : {A : Type ℓ} (xs : List A) → last? xs ≡ none → xs ≡ []
last?-eq-none [] h = refl
last?-eq-none (x ∷ []) h = cc
last?-eq-none (x ∷ y ∷ ys) h = cc (last?-eq-none (y ∷ ys) h)

-- A task without an artifact has no entry.
unresearched-lookup :
    (s : DepartmentRunState) (k : String)
    → IsWritten s
    → latest_artifact s k ≡ none
    → lookup k s.task_artifacts ≡ none
unfolding latest_artifact get_or
unresearched-lookup s k w h = elim (Option-cases (lookup k s.task_artifacts)) [
  | inl e ↦ e
  | inr (xs, e) ↦
      let f : last? xs ≡ none = rw e at h in absurd (w k (e ∙ ap some (last?-eq-none xs f)))
]

-- The task has a result now, and nothing else has changed.
abbrev Completes : String → DepartmentRunState → DepartmentRunState → Type 0
Completes task s t =
    ((k : String) → is_incomplete t k ≡ (is_incomplete s k && not (task == k))) × IsWritten t

module _ (s t : DepartmentRunState) (key : String) (artifact : TaskArtifact)
    (recorded : t.task_artifacts ≡ append_to key artifact s.task_artifacts) (w : IsWritten s) where
  recorded-Completes : t.decision_artifacts ≡ s.decision_artifacts → Completes key s t
  unfolding is_incomplete latest_artifact latest_decision
  recorded-Completes e = (
    λ k. rw (recorded, e, last-append_to key k artifact s.task_artifacts) (ground arith),
    λ k. rw recorded (append_to-IsWritten key k artifact s w),
  )

  decided-Completes :
      (x : TaskDecisionArtifact)
      → t.decision_artifacts ≡ append_to key x s.decision_artifacts
      → Completes key s t
  unfolding is_incomplete latest_artifact latest_decision
  decided-Completes x e = (
    λ k.
        rw
          (
            recorded,
            e,
            last-append_to key k artifact s.task_artifacts,
            last-append_to key k x s.decision_artifacts,
          )
          (ground arith),
    λ k. rw recorded (append_to-IsWritten key k artifact s w),
  )

unresearched :
    (s : DepartmentRunState) (k : String) → is_incomplete s k ≡ true → latest_artifact s k ≡ none
unfolding is_incomplete
unresearched s k h = elim (Option-cases (latest_artifact s k)) [
  | inl e ↦ e
  | inr (x, e) ↦ cc (rw (e, is_incomplete) at h)
]

module _ (d : Department) (task : String) (s : Session) (w : IsWritten s.run) where
  block-Completes : (dep : String) → Completes task s.run (block_task d task dep s.run)
  unfolding block_task record_decision_artifact record_task_artifact
  block-Completes dep = decided-Completes s.run (block_task d task dep s.run) task _ refl w _ refl

  module _ (r : Report) (violations : List ContractViolation) (own : r.task_key ≡ task) where
    execute-Completes : Completes task s.run (execute task (report r violations) s).0.run
    unfolding execute checked_artifact record_task_artifact from_worker_report
    execute-Completes =
        recorded-Completes s.run (execute task (report r violations) s).0.run task
          (checked_artifact r (get_or task 0 s.run.attempts + 1) violations) (rw (← own) refl) w
          refl

    guarded-Completes :
        (a : Assignment) (dep : Option String)
        → is_incomplete s.run task ≡ true
        → Completes task s.run (guarded d a task (report r violations) s dep).0.run
    unfolding guarded has_result
    guarded-Completes a (some dep) h = block-Completes dep
    guarded-Completes a none h =
        rw (unresearched-lookup s.run task w (unresearched s.run task h), guarded) execute-Completes

    pub run_research-Completes :
        (a : Assignment)
        → find_assignment task d.assignments ≡ some a
        → is_incomplete s.run task ≡ true
        → Completes task s.run (run_research d task (report r violations) s).0.run
    unfolding run_research assigned
    run_research-Completes a e h =
        rw (e, assigned)
          (guarded-Completes a (first_unsatisfied s.run (local_keys d.assignments) a.depends_on) h)

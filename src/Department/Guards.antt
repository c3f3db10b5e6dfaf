-- ===== src/Department/Guards.antt =====
-- The guards of `run_research`: dependencies, duplicates and the retry limit.
use multi_agent_intel_pipeli.Prelude.{
  ℕ, ◌≤◌, ◌≡◌, refl, String, Bool, true, false, not, ◌||◌, List, [], ◌∷◌, none, some, arith,
  Option-cases, inl, inr, all, str_mem, get_or, eq_refl,
}
use multi_agent_intel_pipeli.Contracts.{TaskDecisionArtifact, is_terminal, is_terminal_outcome}
use multi_agent_intel_pipeli.Contracts.Artifacts.{TaskReviewArtifact}
use multi_agent_intel_pipeli.Contracts.RunState.{
  DepartmentRunState, latest_review, latest_decision, is_dependency_satisfied, is_task_terminal,
  record_decision_artifact,
}
use multi_agent_intel_pipeli.TaskRouter.{Assignment}
use multi_agent_intel_pipeli.Department.{Department, Session, find_assignment}
use multi_agent_intel_pipeli.Department.Research.{
  Answer, Reply, research_complete, research_failed, local_keys, first_unsatisfied, close_task,
  was_blocked, rerun_reviewed, rerun, has_result, guarded, assigned, run_research,
}
use multi_agent_intel_pipeli.Department.Steps.{last-append_to}

-- The worker was called.
abbrev pub was_called : Reply → Bool
was_called (research_complete attempt facts questions keys) = true
was_called (research_failed exc) = true
was_called _ = false

-- A dependency of another department, or one that has produced something.
abbrev pub dependency_ok : DepartmentRunState → List String → String → Bool
dependency_ok s local dep = not (str_mem dep local) || is_dependency_satisfied s dep

first_unsatisfied-none :
    (s : DepartmentRunState) (local deps : List String)
    → first_unsatisfied s local deps ≡ none
    → all (dependency_ok s local) deps ≡ true
unfolding first_unsatisfied
first_unsatisfied-none s local [] h = refl
first_unsatisfied-none s local (dep ∷ deps) h = ground (arith, first_unsatisfied-none s local deps)

record_decision_artifact-last :
    (a : TaskDecisionArtifact) (s : DepartmentRunState) (k : String)
    → a.task_key ≡ k
    → latest_decision (record_decision_artifact a s) k ≡ some a
unfolding latest_decision record_decision_artifact
record_decision_artifact-last a s k h = rw (last-append_to, h, eq_refl) refl

record_decision_artifact-terminal :
    (a : TaskDecisionArtifact) (s : DepartmentRunState) (k : String)
    → a.task_key ≡ k
    → is_terminal_outcome a.outcome ≡ true
    → is_task_terminal (record_decision_artifact a s) k ≡ true
unfolding is_task_terminal is_terminal
record_decision_artifact-terminal a s k h o =
    rw (record_decision_artifact-last a s k h, is_task_terminal) o

close_task-terminal :
    (d : Department) (task_key : String) (attempt : ℕ) (r : TaskReviewArtifact)
    (s : DepartmentRunState)
    → is_task_terminal (close_task d task_key attempt r s) task_key ≡ true
unfolding close_task is_terminal_outcome
close_task-terminal d task_key attempt r s =
    record_decision_artifact-terminal _ s task_key refl refl

module _ (d : Department) (task_key : String) (s : Session) (a : Assignment)
    (found : find_assignment task_key d.assignments ≡ some a) where
  -- The worker is called for a task only when each of its dependencies within the department has an
  -- accepting decision, or else an approved review or facts.
  pub run_research-dependencies :
      (answer : Answer)
      → was_called (run_research d task_key answer s).1 ≡ true
      → all (dependency_ok s.run (local_keys d.assignments)) a.depends_on ≡ true
  unfolding run_research assigned
  run_research-dependencies answer h =
      let deps = first_unsatisfied s.run (local_keys d.assignments) a.depends_on in
      elim (Option-cases deps) [
        | inl e ↦ first_unsatisfied-none s.run (local_keys d.assignments) a.depends_on e
        | inr (dep, e) ↦ unfold guarded in absurd (ground arith)
      ]

  module _ (ready : first_unsatisfied s.run (local_keys d.assignments) a.depends_on ≡ none)
      (stored : has_result s.run task_key ≡ true)
      (unblocked : was_blocked (latest_decision s.run task_key) ≡ false) (r : TaskReviewArtifact)
      (reviewed : latest_review s.run task_key ≡ some r) where
    run_research-rerun :
        (answer : Answer)
        → run_research d task_key answer s ≡ rerun_reviewed d task_key answer s (some r)
    unfolding run_research assigned guarded rerun
    run_research-rerun answer =
        rw (found, assigned, ready, guarded, stored, unblocked, reviewed) refl

    abbrev closed_session : Session
    closed_session = record s {
      run = close_task d task_key (get_or task_key 0 s.run.attempts) r s.run;
    }

    run_research-closed :
        (answer : Answer)
        → r.approved ≡ false
        → d.max_task_retries ≤ get_or task_key 0 s.run.attempts
        → (run_research d task_key answer s).0 ≡ closed_session
          × (was_called (run_research d task_key answer s).1 ≡ false)
    run_research-closed answer h limit =
        rw (run_research-rerun answer)
          (unfold rerun_reviewed in (ground (arith, h, limit), ground (arith, h, limit)))

    closed_session-attempts : closed_session.run.attempts ≡ s.run.attempts
    unfolding close_task record_decision_artifact
    closed_session-attempts = refl

    -- Of an assigned task let the dependencies within the department be satisfied, a result be
    -- stored and no revision of it be requested, the latest decision not be a block by a dependency,
    -- the latest review reject the task, and its attempts have reached the limit. Then it is closed
    -- for good: the worker is not called, whatever it would answer, the task's counter stays, and
    -- its last decision is terminal.
    pub run_research-retry_limit :
        (answer : Answer)
        → r.approved ≡ false
        → d.max_task_retries ≤ get_or task_key 0 s.run.attempts
        → (was_called (run_research d task_key answer s).1 ≡ false)
          × ((run_research d task_key answer s).0.run.attempts ≡ s.run.attempts)
          × (is_task_terminal (run_research d task_key answer s).0.run task_key ≡ true)
    run_research-retry_limit answer h limit =
        let (e, uncalled) = run_research-closed answer h limit in
        rw e (
          uncalled,
          closed_session-attempts,
          close_task-terminal d task_key (get_or task_key 0 s.run.attempts) r s.run,
        )

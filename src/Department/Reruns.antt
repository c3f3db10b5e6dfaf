-- ===== src/Department/Reruns.antt =====
-- A task that was blocked keeps that decision when it is researched after all, and so the guard of
-- `run_research` lets it through each time it is called.
use multi_agent_intel_pipeli.Prelude.{
  ◌+◌, ◌≡◌, ◌∙◌, refl, sym, String, Bool, true, false, List, [], ◌∷◌, none, some, arith, Bool-cases,
  inl, inr, all, get_or, get_or-insert, eq_refl, eq_iff, ◌==◌, length, All,
}
use multi_agent_intel_pipeli.Contracts.RunState.{
  DepartmentRunState, latest_review, latest_decision, latest_artifact, is_dependency_satisfied,
  record_task_artifact,
}
use multi_agent_intel_pipeli.Contracts.{satisfies_dependency}
use multi_agent_intel_pipeli.TaskRouter.{Assignment}
use multi_agent_intel_pipeli.Department.{Department, Session, find_assignment, record_error}
use multi_agent_intel_pipeli.Department.Research.{
  Answer, report, failure, first_unsatisfied, local_keys, execute, was_blocked, rerun,
  checked_artifact, guarded, assigned, run_research,
}
use multi_agent_intel_pipeli.Department.Chat.{AnswersTask}
use multi_agent_intel_pipeli.Department.Steps.{last-append_to}

-- `run_research` for one task, once for each answer of the worker.
unfoldable pub research_times : Department → String → List Answer → Session → Session
research_times d task_key [] s = s
research_times d task_key (answer ∷ answers) s =
    research_times d task_key answers (run_research d task_key answer s).0

first_unsatisfied-satisfied :
    (s : DepartmentRunState) (local deps : List String)
    → all (is_dependency_satisfied s) deps ≡ true
    → first_unsatisfied s local deps ≡ none
unfolding first_unsatisfied
first_unsatisfied-satisfied s local [] h = refl
first_unsatisfied-satisfied s local (dep ∷ deps) h =
    ground (arith, first_unsatisfied-satisfied s local deps)

all-map :
    (p q : String → Bool) (xs : List String) → ((x : String) → p x ≡ q x) → all p xs ≡ all q xs
all-map p q [] h = refl
all-map p q (x ∷ xs) h = rw (h x, all-map p q xs h) refl

dependency-same :
    (s t : DepartmentRunState) (k : String)
    → latest_decision t k ≡ latest_decision s k
    → latest_review t k ≡ latest_review s k
    → latest_artifact t k ≡ latest_artifact s k
    → is_dependency_satisfied t k ≡ is_dependency_satisfied s k
unfolding is_dependency_satisfied
dependency-same s t k d r a = ground (arith, d, r, a)

module _ (d : Department) (task_key : String) where
  execute-decision :
      (answer : Answer) (s : Session) (k : String)
      → latest_decision (execute task_key answer s).0.run k ≡ latest_decision s.run k
  unfolding execute record_error record_task_artifact latest_decision
  execute-decision (failure exc) s k = refl
  execute-decision (report r violations) s k = refl

  execute-review :
      (answer : Answer) (s : Session) (k : String)
      → latest_review (execute task_key answer s).0.run k ≡ latest_review s.run k
  unfolding execute record_error record_task_artifact latest_review
  execute-review (failure exc) s k = refl
  execute-review (report r violations) s k = refl

  execute-attempts :
      (answer : Answer) (s : Session)
      → get_or task_key 0 (execute task_key answer s).0.run.attempts
        ≡ get_or task_key 0 s.run.attempts + 1
  unfolding execute record_error record_task_artifact
  execute-attempts (failure exc) s = rw (get_or-insert, eq_refl) refl
  execute-attempts (report r violations) s = rw (get_or-insert, eq_refl) refl

  execute-artifact :
      (answer : Answer) (s : Session) (k : String)
      → AnswersTask task_key answer
      → (task_key == k) ≡ false
      → latest_artifact (execute task_key answer s).0.run k ≡ latest_artifact s.run k
  unfolding execute record_error record_task_artifact latest_artifact checked_artifact
  execute-artifact (failure exc) s k h ne = refl
  execute-artifact (report r violations) s k h ne = rw (last-append_to, h, ne) refl

  blocked-unsatisfied :
      (s : DepartmentRunState) (k : String)
      → was_blocked (latest_decision s k) ≡ true
      → is_dependency_satisfied s k ≡ false
  unfolding is_dependency_satisfied satisfies_dependency
  blocked-unsatisfied s k h = ground arith

  execute-satisfied :
      (answer : Answer) (s : Session) (k : String)
      → AnswersTask task_key answer
      → was_blocked (latest_decision s.run task_key) ≡ true
      → is_dependency_satisfied (execute task_key answer s).0.run k
        ≡ is_dependency_satisfied s.run k
  execute-satisfied answer s k h b = elim (Bool-cases (task_key == k)) [
    | inl e ↦
        let blocked : was_blocked (latest_decision s.run k) ≡ true =
          rw (sym ((eq_iff task_key k).0 e)) b in
        let after = (execute task_key answer s).0.run in
        blocked-unsatisfied after k (rw (execute-decision answer s k) blocked)
        ∙ sym (blocked-unsatisfied s.run k blocked)
    | inr e ↦
        dependency-same s.run (execute task_key answer s).0.run k (execute-decision answer s k)
          (execute-review answer s k) (execute-artifact answer s k h e)
  ]

  module _ (a : Assignment) (found : find_assignment task_key d.assignments ≡ some a) where
    run_research-unblocked :
        (answer : Answer) (s : Session)
        → was_blocked (latest_decision s.run task_key) ≡ true
        → all (is_dependency_satisfied s.run) a.depends_on ≡ true
        → run_research d task_key answer s ≡ execute task_key answer s
    unfolding run_research assigned guarded rerun
    run_research-unblocked answer s b ok =
        let ready = first_unsatisfied-satisfied s.run (local_keys d.assignments) a.depends_on ok in
        rw (found, assigned, ready, guarded) (ground arith)

    -- While the latest decision on a task is that it was blocked and its dependencies are satisfied,
    -- each call of `run_research` calls the worker and raises the task's counter by one, if the
    -- worker reports on the task or fails, whatever MAX_TASK_RETRIES is and however often it is
    -- called, and that decision stays the latest one.
    pub run_research-reruns :
        (answers : List Answer) (s : Session)
        → was_blocked (latest_decision s.run task_key) ≡ true
        → all (is_dependency_satisfied s.run) a.depends_on ≡ true
        → All (AnswersTask task_key) answers
        → (get_or task_key 0 (research_times d task_key answers s).run.attempts
            ≡ get_or task_key 0 s.run.attempts + length answers)
          × (latest_decision (research_times d task_key answers s).run task_key
              ≡ latest_decision s.run task_key)
    unfolding research_times
    run_research-reruns [] s b ok h = (omega arith, refl)
    run_research-reruns (answer ∷ answers) s b ok h =
        let t = (execute task_key answer s).0 in
        let decided = execute-decision answer s task_key in
        let still =
          all-map (is_dependency_satisfied t.run) (is_dependency_satisfied s.run) a.depends_on
            (λ k. execute-satisfied answer s k h.0 b) in
        let (counted, kept) = run_research-reruns answers t (rw decided b) (still ∙ ok) h.1 in
        rw (run_research-unblocked answer s b ok, research_times)
          (omega (arith, counted, execute-attempts answer s), kept ∙ decided)

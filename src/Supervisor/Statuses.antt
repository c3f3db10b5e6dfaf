-- ===== src/Supervisor/Statuses.antt =====
-- The tasks' statuses after the writes of the sequential phase.
use multi_agent_intel_pipeli.Prelude.{
  ℕ, String, Bool, true, false, not, ◌||◌, List, [], ◌∷◌, map, Option, none, some, ◌==◌, ◌≡◌, refl,
  if◌then◌else◌, Dict, lookup, insert, get_or, lookup-insert, eq_refl, arith, str_mem, leb, eq_iff,
  all, Bool-cases, inl, inr, Option-cases,
}
use multi_agent_intel_pipeli.TaskRouter.{Assignment}
use multi_agent_intel_pipeli.AnswerMatrix.{
  MatrixEntry, task_lifecycle_statuses, matrix_status_for_task_status,
}
use multi_agent_intel_pipeli.AnswerMatrix.Writes.{status_of, update_answer_matrix_from_task-status}
use multi_agent_intel_pipeli.Department.{find_assignment}
use multi_agent_intel_pipeli.Supervisor.{
  Run, finish_task, finish_tasks, update_matrix, record_status, item_of, record_skipped,
  BacklogItem, condition_met, evaluate_run_conditions,
}
use multi_agent_intel_pipeli.Supervisor.Phase.{
  DepartmentAssignment, run_runnable, admit_package, finish_department, run_department,
}

-- The status that a task ends with: the package's, or else degraded.
abbrev pub expected_status : Dict String → String → String
expected_status status_by_task task_key = get_or task_key "degraded" status_by_task

-- Each status of the package for one of the tasks is a status of the task life cycle.
abbrev pub lifecycle : Dict String → List Assignment → Bool
lifecycle status_by_task assignments =
    all (λ a. str_mem (expected_status status_by_task a.task_key) task_lifecycle_statuses)
      assignments

abbrev pub task_keys : List Assignment → List String
task_keys assignments = map (λ a. a.task_key) assignments

overwritten :
    (status_by_task : Dict String) (key k : String) (later : Bool) (before : Option String)
    → (if later
        then some (expected_status status_by_task k)
        else if key == k
        then some (expected_status status_by_task key)
        else before)
      ≡ (if k == key || later then some (expected_status status_by_task k) else before)
overwritten status_by_task key k later before = elim (Bool-cases (key == k)) [
  | inl e ↦ rw ((eq_iff key k).0 e, eq_refl) (ground arith)
  | inr e ↦ ground (arith, e, eq_iff key k, eq_iff k key)
]

update_matrix-lem :
    (a : Assignment) (status : String) (run : Run)
    → str_mem status task_lifecycle_statuses ≡ true
    → (matrix : Dict MatrixEntry) × (update_matrix a status run
        ≡ some (record run { answer_matrix = matrix }))
      × ((q : String)
          → status_of q matrix ≡ (
              if str_mem q a.question_ids
              then matrix_status_for_task_status status
              else status_of q run.answer_matrix))
unfolding update_matrix
update_matrix-lem a status run h =
    let (matrix, e, q) = update_answer_matrix_from_task-status a status run.answer_matrix h in
    (matrix, rw (e, update_matrix) refl, q)

finish_task-lem :
    (a : Assignment) (status : String) (run : Run)
    → str_mem status task_lifecycle_statuses ≡ true
    → (next : Run) × (finish_task a status run ≡ some next)
      × (next.task_statuses ≡ insert a.task_key status run.task_statuses)
      × ((q : String)
          → status_of q next.answer_matrix ≡ (
              if str_mem q a.question_ids
              then matrix_status_for_task_status status
              else status_of q run.answer_matrix))
unfolding finish_task record_status
finish_task-lem a status run h =
    let recorded = record_status (item_of a status) run in
    let (matrix, e, q) = update_matrix-lem a status recorded h in
    (record recorded { answer_matrix = matrix }, e, refl, q)

-- After a department's run, if the package's statuses are of the task life cycle, every task of the
-- department has the package's status, or degraded if the package has none for it, whatever was
-- recorded for it before, and every other task has the status of before.
pub finish_tasks-statuses :
    (status_by_task : Dict String) (assignments : List Assignment) (run : Run)
    → lifecycle status_by_task assignments ≡ true
    → (next : Run) × (finish_tasks status_by_task assignments run ≡ some next)
      × ((k : String)
          → lookup k next.task_statuses ≡ (
              if str_mem k (task_keys assignments)
              then some (expected_status status_by_task k)
              else lookup k run.task_statuses))
unfolding finish_tasks
finish_tasks-statuses status_by_task [] run h = (run, refl, λ k. refl)
finish_tasks-statuses status_by_task (a ∷ as') run h =
    let (mid, e, s, q) =
      finish_task-lem a (expected_status status_by_task a.task_key) run (ground (arith, h)) in
    let (next, f, t) = finish_tasks-statuses status_by_task as' mid (ground (arith, h)) in
    (
      next,
      rw (e, finish_tasks) f,
      λ k. rw (t k, s, lookup-insert) (overwritten status_by_task a.task_key k _ _),
    )

record_skipped-total :
    (assignments : List Assignment) (sks : List BacklogItem) (run : Run)
    → (next : Run) × (record_skipped assignments sks run ≡ some next)
unfolding record_skipped
record_skipped-total assignments [] run = (run, refl)
record_skipped-total assignments (sk ∷ sks) run =
    elim (Option-cases (find_assignment sk.task_key assignments)) [
      | inl e ↦
          let (next, f) = record_skipped-total assignments sks (record_status sk run) in
          (next, rw (e, record_skipped) f)
      | inr (a, e) ↦
          let recorded = record_status sk run in
          let (matrix, g, q) = update_matrix-lem a "skipped" recorded refl in
          let mid = record recorded { answer_matrix = matrix } in
          let (next, f) = record_skipped-total assignments sks mid in
          (next, rw (e, g, record_skipped) f)
    ]

module _ (hard_token_cap : ℕ) (d : DepartmentAssignment) (a : Assignment)
    (assigned : str_mem a.task_key (task_keys d.assignments) ≡ true)
    (unreported : (given : List Assignment) (run : Run)
      → lookup a.task_key (d.answer given run).pkg.status_by_task ≡ none)
    (valid : (given : List Assignment) (run : Run)
      → lifecycle (d.answer given run).pkg.status_by_task d.assignments ≡ true) where
  run_runnable-overwrites :
      (b : Assignment) (bs : List Assignment) (run : Run)
      → (next : Run) × (goes_on : Bool) × (run_runnable hard_token_cap d (b ∷ bs) run
          ≡ some (next, goes_on))
        × (lookup a.task_key next.task_statuses ≡ some "degraded")
  unfolding run_runnable finish_department get_or
  run_runnable-overwrites b bs run =
      let r = d.answer (b ∷ bs) run in
      let (next, e, t) =
        finish_tasks-statuses r.pkg.status_by_task d.assignments (admit_package d r run)
          (valid (b ∷ bs) run) in
      (
        next,
        not (leb hard_token_cap r.total_tokens),
        rw (e, run_runnable) refl,
        rw (t a.task_key, assigned, unreported (b ∷ bs) run) refl,
      )

  -- In a department of which at least one task runs, a task that is assigned, that its run condition
  -- holds back and that the package does not report ends as degraded, not as skipped.
  pub run_department-overwrites_skipped :
      (run : Run) (b : Assignment) (bs : List Assignment)
      → condition_met run.department_packages run.task_statuses a.run_condition ≡ false
      → (evaluate_run_conditions run.department_packages run.task_statuses d.assignments).0 ≡ b ∷ bs
      → (next : Run) × (goes_on : Bool) × (run_department hard_token_cap d run
          ≡ some (next, goes_on))
        × (lookup a.task_key next.task_statuses ≡ some "degraded")
  unfolding run_department
  run_department-overwrites_skipped run b bs unmet split =
      let sks =
        (evaluate_run_conditions run.department_packages run.task_statuses d.assignments).1 in
      let (mid, e) = record_skipped-total d.assignments sks run in
      let (next, goes_on, f, s) = run_runnable-overwrites b bs mid in
      (next, goes_on, rw (e, split, run_department) f, s)

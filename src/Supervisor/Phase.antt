-- ===== src/Supervisor/Phase.antt =====
-- src/orchestration/supervisor_loop.py: the sequential phase of the loop. What a department's chat
-- and the supervisor's acceptance answer are arguments.
use multi_agent_intel_pipeli.Prelude.{
  ℕ, String, Bool, true, not, List, [], ◌∷◌, Option, none, some, leb, if◌then◌else◌,
}
use multi_agent_intel_pipeli.Value.{Fields}
use multi_agent_intel_pipeli.TaskRouter.{Assignment}
use multi_agent_intel_pipeli.AnswerMatrix.{apply_structured_runtime_artifacts}
use multi_agent_intel_pipeli.Supervisor.{
  Package, Acceptance, Run, apply_acceptance_gate, evaluate_run_conditions, finish_tasks,
  record_skipped,
}

-- What comes back from a department: its section and package, the supervisor's acceptance and the
-- tokens used so far.
pub record DepartmentResult : Type 0 where
  pub section_payload : Fields
  pub pkg : Package
  pub acceptance : Acceptance
  pub total_tokens : ℕ

-- A department of the sequential phase. It answers to the tasks that it is given.
pub record DepartmentAssignment : Type 0 where
  pub department : String
  pub target_section : String
  pub assignments : List Assignment
  pub answer : List Assignment → Run → DepartmentResult

-- The run with the artifacts of a package, past the gate.
unfoldable pub admit_package : DepartmentAssignment → DepartmentResult → Run → Run
admit_package d r run =
    let applied =
      apply_structured_runtime_artifacts r.pkg.artifacts (run.answer_matrix, run.memory) in
    apply_acceptance_gate r.acceptance d.department d.target_section r.section_payload r.pkg
      (record run { answer_matrix = applied.0; memory = applied.1 })

-- After the department's run: the artifacts, the gate and the tasks' statuses.
unfoldable pub finish_department : DepartmentAssignment → DepartmentResult → Run → Option Run
finish_department d r run = finish_tasks r.pkg.status_by_task d.assignments (admit_package d r run)

-- The department runs, unless all its tasks were skipped. The flag says that the loop goes on.
unfoldable pub run_runnable : ℕ → DepartmentAssignment → List Assignment → Run → Option (Run × Bool)
run_runnable hard_token_cap d [] run = some (run, true)
run_runnable hard_token_cap d (a ∷ as') run =
    let r = d.answer (a ∷ as') run in
    elim (finish_department d r run) [
      | none ↦ none
      | some next ↦ some (next, not (leb hard_token_cap r.total_tokens))
    ]

-- One department of the sequential phase.
unfoldable pub run_department : ℕ → DepartmentAssignment → Run → Option (Run × Bool)
run_department hard_token_cap d run =
    let split = evaluate_run_conditions run.department_packages run.task_statuses d.assignments in
    elim (record_skipped d.assignments split.1 run) [
      | none ↦ none
      | some next ↦ run_runnable hard_token_cap d split.0 next
    ]

-- Phase 2, which the hard token cap ends early.
unfoldable pub run_sequential : ℕ → List DepartmentAssignment → Run → Option Run
run_sequential hard_token_cap [] run = some run
run_sequential hard_token_cap (d ∷ ds) run = elim (run_department hard_token_cap d run) [
  | none ↦ none
  | some (next, goes_on) ↦
      let rest = run_sequential hard_token_cap ds next in if goes_on then rest else some next
]

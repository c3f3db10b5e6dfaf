-- ===== src/Supervisor.antt =====
-- src/orchestration/supervisor_loop.py: the run's state, the acceptance gate and the tasks' statuses,
-- with the run conditions of src/orchestration/task_router.py. The phase is in Phase.
pub mod Phase
pub mod Gate
pub mod Statuses
pub mod Submissions
mod Tests
use multi_agent_intel_pipeli.Prelude.{
  String, Bool, true, false, not, ◌||◌, List, [], ◌∷◌, ◌++◌, Option, none, some, ◌==◌,
  if◌then◌else◌, Dict, lookup, insert, get_or, nonempty, or_default,
}
use multi_agent_intel_pipeli.Value.{Value, Fields, end, field}
use multi_agent_intel_pipeli.TaskRouter.{Assignment}
use multi_agent_intel_pipeli.Department.{find_assignment}
use multi_agent_intel_pipeli.AnswerMatrix.{MatrixEntry, Artifacts, update_answer_matrix_from_task}

-- What a department returns: its package, as far as the loop reads it.
pub record Package : Type 0 where
  pub open_questions : List String
  pub accepted_points : List String
  pub artifacts : Artifacts
  -- `{task["task_key"]: task["status"] for task in package.get("completed_tasks", [])}`
  pub status_by_task : Dict String

-- The supervisor's answer to a package.
pub record Acceptance : Type 0 where
  pub decision : Option String
  pub reason : Option String

pub record Envelope : Type 0 where
  pub decision : String
  pub reason : String
  pub downstream_visible : Bool
  pub raw_package : Package
  pub admitted_payload : Option Fields

-- An entry of `sections`: a payload, or the `BlockedArtifact` of a rejected department.
pub data Section : Type 0 where
  payload : Fields → Section
  blocked_artifact : (reason : String) (open_questions : List String) → Section

-- An entry of the run's backlog, of tasks done and skipped.
pub record BacklogItem : Type 0 where
  pub task_key : String
  pub label : String
  pub target_section : String
  pub status : String

-- An entry of `RunContext.active_tasks`.
pub record ActiveTask : Type 0 where
  pub assignee : String
  pub task_key : Option String
  pub status : String

pub record Run : Type 0 where
  pub sections : Dict Section
  pub department_packages : Dict Envelope
  pub active_tasks : List ActiveTask
  pub task_statuses : Dict String
  pub answer_matrix : Dict MatrixEntry
  pub memory : Artifacts
  pub completed_backlog : List BacklogItem

-- `{**fields, k: v}`
unfoldable pub set_field : String → Value → Fields → Fields
set_field k v end = field k v end
set_field k v (field j w fs) =
    let rest = set_field k v fs in if j == k then field j v fs else field j w rest

-- The section that a decision shows, and the payload that it admits.
unfoldable pub admit : String → String → Fields → Package → Section × Option Fields
unfolding set_field
admit decision reason section_payload pkg =
    if decision == "accepted"
    then (payload section_payload, some section_payload)
    else if decision == "accepted_with_gaps"
    then (
      payload (set_field "_admission" (Value.str "accepted_with_gaps") section_payload),
      some section_payload,
    )
    else (blocked_artifact reason pkg.open_questions, none)

-- `_apply_acceptance_gate`
unfoldable pub apply_acceptance_gate : Acceptance → String → String → Fields → Package → Run → Run
apply_acceptance_gate acceptance dept_name target_section section_payload pkg run =
    let decision = or_default "rejected" acceptance.decision in
    let reason = or_default "" acceptance.reason in
    let admitted = admit decision reason section_payload pkg in
    record run {
      sections = insert target_section admitted.0 run.sections;
      department_packages =
          insert dept_name
            (record {
              decision = decision;
              reason = reason;
              downstream_visible = not (decision == "rejected");
              raw_package = pkg;
              admitted_payload = admitted.1;
            })
            run.department_packages;
    }

-- `_admitted_packages_for_synthesis`
unfoldable pub admitted_packages_for_synthesis : Dict Envelope → Dict Envelope
admitted_packages_for_synthesis [] = []
admitted_packages_for_synthesis ((dept, pkg) ∷ rest) =
    let others = admitted_packages_for_synthesis rest in
    if pkg.downstream_visible then (dept, pkg) ∷ others else others

points_of : Option Envelope → Bool
points_of none = false
points_of (some pkg) =
    if pkg.downstream_visible then nonempty pkg.raw_package.accepted_points else false

-- `_is_admitted_with_points`, on envelopes only, which is all that the loop stores.
unfoldable pub is_admitted_with_points : Dict Envelope → String → Bool
unfolding points_of
is_admitted_with_points packages dept = points_of (lookup dept packages)

is_completed : Option String → Bool
is_completed none = false
is_completed (some status) = status == "accepted" || status == "degraded"

-- Whether `run_condition` lets a task run; an unknown condition does.
unfoldable pub condition_met : Dict Envelope → Dict String → Option String → Bool
unfolding is_completed
condition_met packages statuses none = true
condition_met packages statuses (some condition) =
    if condition == "buyer_department_has_prioritized_firms"
    then is_admitted_with_points packages "BuyerDepartment"
    else if condition == "contact_discovery_completed"
    then is_completed (lookup "contact_discovery" statuses)
    else true

abbrev pub item_of : Assignment → String → BacklogItem
item_of a status = record {
  task_key = a.task_key;
  label = a.label;
  target_section = a.target_section;
  status = status;
}

-- `evaluate_run_conditions`: the runnable tasks and the skipped ones.
unfoldable pub evaluate_run_conditions :
    Dict Envelope → Dict String → List Assignment → List Assignment × List BacklogItem
evaluate_run_conditions packages statuses [] = ([], [])
evaluate_run_conditions packages statuses (a ∷ as') =
    let rest = evaluate_run_conditions packages statuses as' in
    if condition_met packages statuses a.run_condition
    then (a ∷ rest.0, rest.1)
    else (rest.0, item_of a "skipped" ∷ rest.1)

abbrev has_key : String → Option String → Bool
has_key task_key none = false
has_key task_key (some k) = k == task_key

-- `RunContext.update_task_status`
unfoldable pub update_task_status : String → String → List ActiveTask → List ActiveTask
update_task_status task_key status [] = []
update_task_status task_key status (t ∷ ts) =
    (if has_key task_key t.task_key then record t { status = status } else t)
    ∷ update_task_status task_key status ts

-- A task's status, written to the context, to the memory and to the backlog.
unfoldable pub record_status : BacklogItem → Run → Run
record_status item run = record run {
  active_tasks = update_task_status item.task_key item.status run.active_tasks;
  task_statuses = insert item.task_key item.status run.task_statuses;
  completed_backlog = run.completed_backlog ++ item ∷ [];
}

-- `_update_answer_matrix_from_task` on the run. It is `none` where the status is not one of a task's
-- life cycle and Python raises `ValueError`.
unfoldable pub update_matrix : Assignment → String → Run → Option Run
update_matrix a status run = elim (update_answer_matrix_from_task a status run.answer_matrix) [
  | none ↦ none
  | some matrix ↦ some (record run { answer_matrix = matrix })
]

-- A task of a department that has run.
unfoldable pub finish_task : Assignment → String → Run → Option Run
finish_task a status run = update_matrix a status (record_status (item_of a status) run)

-- The tasks of a department after its run: a task without a status counts as degraded.
unfoldable pub finish_tasks : Dict String → List Assignment → Run → Option Run
finish_tasks status_by_task [] run = some run
finish_tasks status_by_task (a ∷ as') run =
    elim (finish_task a (get_or a.task_key "degraded" status_by_task) run) [
      | none ↦ none
      | some next ↦ finish_tasks status_by_task as' next
    ]

abbrev update_found : Option Assignment → Run → Option Run
update_found none run = some run
update_found (some a) run = update_matrix a "skipped" run

-- The skipped tasks of the department with these assignments.
unfoldable pub record_skipped : List Assignment → List BacklogItem → Run → Option Run
record_skipped assignments [] run = some run
record_skipped assignments (sk ∷ sks) run =
    elim (update_found (find_assignment sk.task_key assignments) (record_status sk run)) [
      | none ↦ none
      | some next ↦ record_skipped assignments sks next
    ]

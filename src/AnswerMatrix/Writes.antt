-- ===== src/AnswerMatrix/Writes.antt =====
-- What the writes to the answer matrix leave in it.
use multi_agent_intel_pipeli.Prelude.{
  map, any-append, String, Bool, true, false, not, ◌&&◌, ◌||◌, List, [], ◌∷◌, ◌++◌, Option, none,
  some, ◌==◌, ◌≡◌, refl, if◌then◌else◌, Dict, lookup, insert, get_or, lookup-insert, str_mem, arith,
  eq_iff, inl, inr, Option-cases,
}
use multi_agent_intel_pipeli.Models.{AnswerStatus, AnswerMatrixUpdate}
use multi_agent_intel_pipeli.TaskRouter.{Assignment}
use multi_agent_intel_pipeli.AnswerMatrix.{
  build_initial_answer_matrix, meeting_question_registry, MatrixEntry, fresh_entry, task_entry,
  add_new, update_questions, matrix_status_for_task_status, update_answer_matrix_from_task,
  apply_updates, add_all, task_lifecycle_statuses,
}

-- No text stands in the list twice.
abbrev pub distinct : List String → Bool
distinct [] = true
distinct (x ∷ xs) = not (str_mem x xs) && distinct xs

abbrev entry_status : Option MatrixEntry → Option AnswerStatus
entry_status none = none
entry_status (some entry) = some entry.status

-- `matrix.get(question_id, {}).get("status")`
abbrev pub status_of : String → Dict MatrixEntry → Option AnswerStatus
status_of q matrix = entry_status (lookup q matrix)

status_of-insert :
    (q r : String) (entry : MatrixEntry) (matrix : Dict MatrixEntry)
    → status_of q (insert r entry matrix)
      ≡ (if r == q then some entry.status else status_of q matrix)
status_of-insert q r entry matrix = ground (arith, lookup-insert r q entry matrix)

matrix_status-lifecycle :
    (task_status : String)
    → str_mem task_status task_lifecycle_statuses ≡ true
    → (ms : AnswerStatus) × (matrix_status_for_task_status task_status ≡ some ms)
unfolding matrix_status_for_task_status
matrix_status-lifecycle task_status h =
    elim (Option-cases (matrix_status_for_task_status task_status)) [
      | inl e ↦ absurd (ground (arith, h, e))
      | inr m ↦ m
    ]

update_questions-status :
    (a : Assignment) (task_status : String) (ms : AnswerStatus) (qs : List String)
    (matrix : Dict MatrixEntry) (q : String)
    → status_of q (update_questions a task_status ms qs matrix)
      ≡ (if str_mem q qs then some ms else status_of q matrix)
unfolding update_questions
update_questions-status a task_status ms [] matrix q = refl
update_questions-status a task_status ms (r ∷ qs) matrix q =
    let entry = task_entry a task_status ms (get_or r (fresh_entry a.target_section) matrix) in
    let rest = update_questions-status a task_status ms qs (insert r entry matrix) q in
    ground (arith, rest, status_of-insert q r entry matrix, eq_iff r q, eq_iff q r)

-- After a task's update with a status of the task lifecycle, the matrix has the status' counterpart
-- for each question that the task covers, also for one that was missing, and the same status as
-- before for every other question.
pub update_answer_matrix_from_task-status :
    (a : Assignment) (task_status : String) (matrix : Dict MatrixEntry)
    → str_mem task_status task_lifecycle_statuses ≡ true
    → (updated : Dict MatrixEntry) × (update_answer_matrix_from_task a task_status matrix
        ≡ some updated)
      × ((q : String)
          → status_of q updated ≡ (
              if str_mem q a.question_ids
              then matrix_status_for_task_status task_status
              else status_of q matrix))
unfolding update_answer_matrix_from_task
update_answer_matrix_from_task-status a task_status matrix h =
    let (ms, e) = matrix_status-lifecycle task_status h in
    (
      update_questions a task_status ms a.question_ids matrix,
      rw (e, update_answer_matrix_from_task) refl,
      λ q. rw e (update_questions-status a task_status ms a.question_ids matrix q),
    )

abbrev tidy_entry : Option MatrixEntry → Bool
tidy_entry none = true
tidy_entry (some entry) = distinct entry.source_tasks

-- No task stands twice among the sources of an entry.
abbrev pub IsTidy : Dict MatrixEntry → Type 0
IsTidy matrix = (q : String) → tidy_entry (lookup q matrix) ≡ true

str_mem-append :
    (x : String) (xs ys : List String) → str_mem x (xs ++ ys) ≡ (str_mem x xs || str_mem x ys)
str_mem-append x xs ys = any-append (λ t. x == t) xs ys

distinct-append :
    (x : String) (xs : List String)
    → distinct xs ≡ true
    → str_mem x xs ≡ false
    → distinct (xs ++ x ∷ []) ≡ true
distinct-append x [] h n = refl
distinct-append x (y ∷ xs) h n =
    ground (arith, distinct-append x xs, str_mem-append y xs (x ∷ []), eq_iff x y, eq_iff y x)

add_new-distinct :
    (x : String) (xs : List String) → distinct xs ≡ true → distinct (add_new x xs) ≡ true
unfolding add_new
add_new-distinct x xs h = ground (arith, distinct-append x xs h)

add_all-distinct : (ps xs : List String) → distinct xs ≡ true → distinct (add_all ps xs) ≡ true
unfolding add_all
add_all-distinct [] xs h = h
add_all-distinct (p ∷ ps) xs h = add_all-distinct ps (add_new p xs) (add_new-distinct p xs h)

insert-IsTidy :
    (r : String) (entry : MatrixEntry) (matrix : Dict MatrixEntry)
    → distinct entry.source_tasks ≡ true
    → IsTidy matrix
    → IsTidy (insert r entry matrix)
insert-IsTidy r entry matrix h v q = ground (arith, lookup-insert r q entry matrix, v q, h)

get_or-IsTidy :
    (r section : String) (matrix : Dict MatrixEntry)
    → IsTidy matrix
    → distinct (get_or r (fresh_entry section) matrix).source_tasks ≡ true
unfolding get_or
get_or-IsTidy r section matrix v = ground (arith, v r)

update_questions-IsTidy :
    (a : Assignment) (task_status : String) (ms : AnswerStatus) (qs : List String)
    (matrix : Dict MatrixEntry)
    → IsTidy matrix
    → IsTidy (update_questions a task_status ms qs matrix)
unfolding update_questions
update_questions-IsTidy a task_status ms [] matrix v = v
update_questions-IsTidy a task_status ms (r ∷ qs) matrix v =
    update_questions-IsTidy a task_status ms qs _ (
      insert-IsTidy r _ matrix
        (add_new-distinct a.task_key _ (get_or-IsTidy r a.target_section matrix v)) v)

apply_updates-IsTidy :
    (us : List AnswerMatrixUpdate) (matrix : Dict MatrixEntry)
    → IsTidy matrix
    → IsTidy (apply_updates us matrix)
unfolding apply_updates
apply_updates-IsTidy [] matrix v = v
apply_updates-IsTidy (u ∷ us) matrix v = apply_updates-IsTidy us _ (
    insert-IsTidy u.field_key _ matrix
      (add_all-distinct u.evidence_packet_ids _ (get_or-IsTidy u.field_key "n/v" matrix v)) v)

-- The update after a task and the updates of a package keep the matrix tidy: no task or packet stands
-- twice among an entry's sources afterwards, if none did before. The writes in line for the synthesis
-- task, in src/pipeline_runner.py, are not among them.
pub writes-IsTidy :
    (a : Assignment) (task_status : String) (us : List AnswerMatrixUpdate)
    (matrix : Dict MatrixEntry)
    → str_mem task_status task_lifecycle_statuses ≡ true
    → IsTidy matrix
    → IsTidy (apply_updates us matrix)
      × (updated : Dict MatrixEntry) × (update_answer_matrix_from_task a task_status matrix
          ≡ some updated)
      × IsTidy updated
unfolding update_answer_matrix_from_task
writes-IsTidy a task_status us matrix h v =
    let (ms, e) = matrix_status-lifecycle task_status h in
    (
      apply_updates-IsTidy us matrix v,
      update_questions a task_status ms a.question_ids matrix,
      rw (e, update_answer_matrix_from_task) refl,
      update_questions-IsTidy a task_status ms a.question_ids matrix v,
    )

fresh-IsTidy : (registry : Dict String) → IsTidy (map (λ (q, area). (q, fresh_entry area)) registry)
unfolding lookup
fresh-IsTidy [] q = refl
fresh-IsTidy ((k, area) ∷ registry) q = ground (arith, fresh-IsTidy registry q)

-- A run starts with a tidy matrix.
pub build_initial_answer_matrix-IsTidy : IsTidy build_initial_answer_matrix
unfolding build_initial_answer_matrix
build_initial_answer_matrix-IsTidy = fresh-IsTidy meeting_question_registry

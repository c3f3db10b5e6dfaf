-- ===== src/Memory/Parallel.antt =====
-- src/orchestration/supervisor_loop.py: what the phase of departments that run side by side writes to
-- the tasks' statuses in the memory, in the order in which the departments complete and are merged.
use multi_agent_intel_pipeli.Prelude.{
  String, true, false, List, [], ◌∷◌, ◌++◌, none, some, ◌==◌, ◌≡◌, refl, ◌∙◌, arith, eq_iff,
  Bool-cases, inl, inr, if◌then◌else◌, Dict, lookup, insert, get_or, lookup-insert, str_mem, All,
}
use multi_agent_intel_pipeli.Memory.{ShortTermMemoryStore, Keys, delta_from, merge_from}
use multi_agent_intel_pipeli.Memory.Merge.{IsDict, met_status, changed, merge_from-task_statuses}

-- A department of the phase: the keys of its assignments, its working set when it has completed, the
-- baseline of that, and the statuses of its package.
pub record Job : Type 0 where
  pub task_keys : List String
  pub working_set : ShortTermMemoryStore
  pub baseline : ShortTermMemoryStore
  pub status_by_task : Dict String

-- The loop over a completed department's assignments.
unfoldable pub write_statuses :
    Dict String → List String → ShortTermMemoryStore → ShortTermMemoryStore
write_statuses status_by_task [] m = m
write_statuses status_by_task (key ∷ task_keys) m =
    write_statuses status_by_task task_keys (record m {
      task_statuses = insert key (get_or key "degraded" status_by_task) m.task_statuses;
    })

-- The loop over the departments as they complete.
unfoldable pub settle_completed : List Job → ShortTermMemoryStore → ShortTermMemoryStore
settle_completed [] m = m
settle_completed (job ∷ jobs) m =
    settle_completed jobs (write_statuses job.status_by_task job.task_keys m)

-- The loop that merges the working sets.
unfoldable pub merge_all : Keys → List Job → ShortTermMemoryStore → ShortTermMemoryStore
merge_all keys [] m = m
merge_all keys (job ∷ jobs) m =
    merge_all keys jobs (merge_from m (delta_from keys job.working_set job.baseline))

-- The phase, from when the departments have answered.
unfoldable pub parallel_phase :
    Keys → (completed jobs : List Job) → ShortTermMemoryStore → ShortTermMemoryStore
parallel_phase keys completed jobs m = merge_all keys jobs (settle_completed completed m)

write_statuses-lookup :
    (k : String) (st : Dict String) (ts : List String) (m : ShortTermMemoryStore)
    → lookup k (write_statuses st ts m).task_statuses
      ≡ (if str_mem k ts then some (get_or k "degraded" st) else lookup k m.task_statuses)
unfolding write_statuses
write_statuses-lookup k st [] m = refl
write_statuses-lookup k st (t ∷ ts) m =
    write_statuses-lookup k st ts
      (record m { task_statuses = insert t (get_or t "degraded" st) m.task_statuses })
    ∙ elim (Bool-cases (t == k)) [
      | inl e ↦
          let same : t ≡ k = (eq_iff t k).0 e in
          rw (lookup-insert, e) (rw same (ground (arith, eq_iff k k)))
      | inr e ↦ rw (lookup-insert, e) (ground (arith, e, eq_iff t k, eq_iff k t))
    ]

module _ (keys : Keys) (k : String) where
  -- The job neither has the task nor writes its status.
  abbrev pub Foreign : Job → Type 0
  Foreign job =
      (str_mem k job.task_keys ≡ false)
      × (changed (lookup k job.baseline.task_statuses) (lookup k job.working_set.task_statuses)
          ≡ none)

  -- The statuses of the job's working set are a dict.
  abbrev pub IsWorkingSet : Job → Type 0
  IsWorkingSet job = IsDict job.working_set.task_statuses

  settle_completed-Foreign :
      (jobs : List Job) (m : ShortTermMemoryStore)
      → All Foreign jobs
      → lookup k (settle_completed jobs m).task_statuses ≡ lookup k m.task_statuses
  unfolding settle_completed
  settle_completed-Foreign [] m h = refl
  settle_completed-Foreign (job ∷ jobs) m ((here, same), h) =
      settle_completed-Foreign jobs (write_statuses job.status_by_task job.task_keys m) h
      ∙ write_statuses-lookup k job.status_by_task job.task_keys m
      ∙ rw here refl

  merge_all-Foreign :
      (jobs : List Job) (m : ShortTermMemoryStore)
      → All Foreign jobs
      → All IsWorkingSet jobs
      → lookup k (merge_all keys jobs m).task_statuses ≡ lookup k m.task_statuses
  unfolding merge_all
  merge_all-Foreign [] m h w = refl
  merge_all-Foreign (job ∷ jobs) m ((here, same), h) (d, w) =
      merge_all-Foreign jobs (merge_from m (delta_from keys job.working_set job.baseline)) h w
      ∙ merge_from-task_statuses keys job.working_set job.baseline m k d
      ∙ rw same refl

  module _ (job : Job) (own : str_mem k job.task_keys ≡ true) (dict : IsWorkingSet job) where
    settle_completed-own :
        (before after : List Job) (m : ShortTermMemoryStore)
        → All Foreign before
        → All Foreign after
        → lookup k (settle_completed (before ++ job ∷ after) m).task_statuses
          ≡ some (get_or k "degraded" job.status_by_task)
    unfolding settle_completed
    settle_completed-own [] after m b a =
        settle_completed-Foreign after (write_statuses job.status_by_task job.task_keys m) a
        ∙ write_statuses-lookup k job.status_by_task job.task_keys m
        ∙ rw own refl
    settle_completed-own (j ∷ js) after m (b, bs) a =
        settle_completed-own js after (write_statuses j.status_by_task j.task_keys m) bs a

    merge_all-own :
        (before after : List Job) (m : ShortTermMemoryStore)
        → All Foreign before
        → All Foreign after
        → All IsWorkingSet before
        → All IsWorkingSet after
        → lookup k (merge_all keys (before ++ job ∷ after) m).task_statuses
          ≡ met_status (lookup k m.task_statuses) (
              changed
                (lookup k job.baseline.task_statuses)
                (lookup k job.working_set.task_statuses))
    unfolding merge_all
    merge_all-own [] after m b a wb wa =
        merge_all-Foreign after (merge_from m (delta_from keys job.working_set job.baseline)) a wa
        ∙ merge_from-task_statuses keys job.working_set job.baseline m k dict
    merge_all-own (j ∷ js) after m ((here, same), bs) a (d, wb) wa =
        merge_all-own js after (merge_from m (delta_from keys j.working_set j.baseline)) bs a wb wa
        ∙ rw (merge_from-task_statuses keys j.working_set j.baseline m k d, same) refl

    -- If a task belongs to one department of the phase only, the others do not write its status, and
    -- all working sets have dicts of statuses, then the task ends with the status of its department's
    -- package, or with that of the department's working set where this is neither pending nor the
    -- baseline's. The order in which the departments complete and in which they are merged makes no
    -- difference to it.
    pub parallel_phase-status :
        (before after first last : List Job) (m : ShortTermMemoryStore)
        → All Foreign before
        → All Foreign after
        → All Foreign first
        → All Foreign last
        → All IsWorkingSet first
        → All IsWorkingSet last
        → lookup k
            (parallel_phase keys (before ++ job ∷ after) (first ++ job ∷ last) m).task_statuses
          ≡ met_status (some (get_or k "degraded" job.status_by_task)) (
              changed
                (lookup k job.baseline.task_statuses)
                (lookup k job.working_set.task_statuses))
    unfolding parallel_phase
    parallel_phase-status before after first last m b a f l wf wl =
        merge_all-own first last (settle_completed (before ++ job ∷ after) m) f l wf wl
        ∙ rw (settle_completed-own before after m b a) refl

-- ===== src/Memory/Merge.antt =====
-- What a merge leaves under each key, and what a working set adds to the run's memory.
use multi_agent_intel_pipeli.Prelude.{
  String, [], ◌∷◌, Option, none, some, ◌==◌, ◌≡◌, refl, sym, ◌∙◌, arith, ap, eq_iff, Bool-cases,
  inl, inr, if◌then◌else◌, Dict, lookup, insert, lookup-insert,
}
use multi_agent_intel_pipeli.Memory.{
  ShortTermMemoryStore, Keys, changed_statuses, is_status, merged_status, merge_statuses,
  merge_from, delta_from,
}

-- No key stands twice, as in any Python dict.
abbrev pub IsDict {ℓ} : {V : Type ℓ} → Dict V → Type ℓ
IsDict [] = Unit
IsDict ((k, v) ∷ m) = (lookup k m ≡ none) × IsDict m

-- A status that a merge meets, where there is one.
abbrev pub met_status : Option String → Option String → Option String
met_status current none = current
met_status none (some value) = some value
met_status (some current) (some value) = some (if value == "pending" then current else value)

met_status-merged :
    (current : Option String) (value : String)
    → met_status current (some value) ≡ some (merged_status current value)
met_status-merged none value = refl
met_status-merged (some current) value =
    ground (arith, eq_iff value "pending", eq_iff current "pending")

merge_statuses-lookup :
    (k : String) (target source : Dict String)
    → IsDict source
    → lookup k (merge_statuses target source) ≡ met_status (lookup k target) (lookup k source)
unfolding merge_statuses lookup
merge_statuses-lookup k target [] h = refl
merge_statuses-lookup k target ((j, v) ∷ source) (fresh, h) =
    let value = merged_status (lookup j target) v in
    let later = merge_statuses-lookup k (insert j value target) source h in
    elim (Bool-cases (j == k)) [
      | inl e ↦
          let same : j ≡ k = (eq_iff j k).0 e in
          rw (later, lookup-insert, e, ← same, fresh) (sym (met_status-merged _ v))
      | inr e ↦ rw (later, lookup-insert, e) refl
    ]

-- The statuses of a delta: those that are not the baseline's.
abbrev pub changed : Option String → Option String → Option String
changed base none = none
changed none (some value) = some value
changed (some before) (some value) = if value == before then none else some value

changed-is_status :
    (base : Option String) (value : String)
    → changed base (some value) ≡ (if is_status value base then none else some value)
changed-is_status none value = refl
changed-is_status (some before) value = refl

changed_statuses-lookup :
    (k : String) (xs baseline : Dict String)
    → IsDict xs
    → lookup k (changed_statuses xs baseline) ≡ changed (lookup k baseline) (lookup k xs)
unfolding changed_statuses lookup
changed_statuses-lookup k [] baseline h = refl
changed_statuses-lookup k ((j, v) ∷ xs) baseline (fresh, h) =
    let later = changed_statuses-lookup k xs baseline h in
    elim (Bool-cases (j == k)) [
      | inl e ↦
          let same : j ≡ k = (eq_iff j k).0 e in
          elim (Bool-cases (is_status v (lookup j baseline))) [
            | inl old ↦ rw (e, old, later, ← same, fresh, changed-is_status, old) refl
            | inr new ↦ rw (e, new, e, ← same, changed-is_status, new) refl
          ]
      | inr e ↦ elim (Bool-cases (is_status v (lookup j baseline))) [
        | inl old ↦ rw (e, old, later) refl
        | inr new ↦ rw (e, new, e, later) refl
      ]
    ]

changed_statuses-IsDict :
    (xs baseline : Dict String) → IsDict xs → IsDict (changed_statuses xs baseline)
unfolding changed_statuses
changed_statuses-IsDict [] baseline h = h
changed_statuses-IsDict ((j, v) ∷ xs) baseline (fresh, h) =
    elim (Bool-cases (is_status v (lookup j baseline))) [
      | inl old ↦ rw old (changed_statuses-IsDict xs baseline h)
      | inr new ↦ rw new (
        rw (changed_statuses-lookup j xs baseline h, fresh) refl,
        changed_statuses-IsDict xs baseline h,
      )
    ]

module _ (keys : Keys) (s base m : ShortTermMemoryStore) where
  -- After a department's working set, which started from the statuses of a baseline, is merged into
  -- the memory, a task has the memory's status where the working set has none or still that of the
  -- baseline. Otherwise it has the working set's status, unless that is pending and the memory has
  -- another.
  pub merge_from-task_statuses :
      (k : String)
      → IsDict s.task_statuses
      → lookup k (merge_from m (delta_from keys s base)).task_statuses
        ≡ met_status
            (lookup k m.task_statuses)
            (changed (lookup k base.task_statuses) (lookup k s.task_statuses))
  unfolding merge_from delta_from
  merge_from-task_statuses k h =
      merge_statuses-lookup k m.task_statuses (changed_statuses s.task_statuses base.task_statuses)
        (changed_statuses-IsDict s.task_statuses base.task_statuses h)
      ∙ ap (met_status (lookup k m.task_statuses))
          (changed_statuses-lookup k s.task_statuses base.task_statuses h)

-- ===== src/Memory/Reviewed.antt =====
-- A critic's review in a department's working set, and what the merge makes of it.
use multi_agent_intel_pipeli.Prelude.{
  String, Bool, List, [], ◌∷◌, Option, none, some, ◌==◌, ◌≡◌, refl, ◌∙◌, arith, eq_iff, eq_refl,
  Bool-cases, inl, inr, if◌then◌else◌, Dict, lookup, insert, lookup-insert,
}
use multi_agent_intel_pipeli.Value.{Value}
use multi_agent_intel_pipeli.Python.{Python}
use multi_agent_intel_pipeli.Memory.{
  ShortTermMemoryStore, Keys, create_working_set, delta_from, merge_from,
}
use multi_agent_intel_pipeli.Memory.Writes.{StoredReview, mark_critic_review}
use multi_agent_intel_pipeli.Memory.Merge.{IsDict, met_status, changed, merge_from-task_statuses}

insert-IsDict {ℓ} :
    {V : Type ℓ} (k : String) (v : V) (d : Dict V) → IsDict d → IsDict (insert k v d)
unfolding insert lookup
insert-IsDict k v [] h = (refl, tt)
insert-IsDict k v ((j, w) ∷ d) (fresh, h) = elim (Bool-cases (j == k)) [
  | inl e ↦ rw e (fresh, h)
  | inr e ↦
      rw e
        (rw lookup-insert (ground (arith, e, fresh, eq_iff j k, eq_iff k j)), insert-IsDict k v d h)
]

changed-same : (status : Option String) → changed status status ≡ none
changed-same none = refl
changed-same (some status) = rw (eq_refl status) refl

module _ (py : Python) (keys : Keys) (base m : ShortTermMemoryStore) where
  -- If the statuses that a working set starts from are a dict, the critic's review of a task in the
  -- working set reaches the memory by the merge as follows. An approval makes the task accepted,
  -- whatever status the memory has by then, unless it was accepted when the working set was created.
  -- A refusal makes it pending only where the memory has no status of the task. The memory's
  -- statuses of all other tasks stay.
  pub mark_critic_review-merged :
      (task_key : String) (approved : Bool) (issues : List Value) (review : Option StoredReview)
      (department : Option String) (k : String)
      → IsDict base.task_statuses
      → let ws = create_working_set base in
        let reviewed = mark_critic_review py task_key approved issues review department ws in
        lookup k (merge_from m (delta_from keys reviewed ws)).task_statuses ≡ (
          if task_key == k
          then met_status (lookup k m.task_statuses) (
              changed
                (lookup k base.task_statuses)
                (some (if approved then "accepted" else "pending")))
          else lookup k m.task_statuses)
  unfolding mark_critic_review create_working_set
  mark_critic_review-merged task_key approved issues review department k h =
      let status = if approved then "accepted" else "pending" in
      let ws = create_working_set base in
      merge_from-task_statuses keys
        (mark_critic_review py task_key approved issues review department ws) ws m k
        (insert-IsDict task_key status base.task_statuses h)
      ∙ elim (Bool-cases (task_key == k)) [
        | inl e ↦ rw (lookup-insert, e) refl
        | inr e ↦ rw (lookup-insert, e, changed-same) refl
      ]

-- ===== src/Memory/WorkingSet.antt =====
-- What a working set adds to the run's memory: nothing, if the department writes nothing, and each
-- item that it appends and that the memory lacked.
use multi_agent_intel_pipeli.Prelude.{
  String, Bool, true, false, not, List, [], ◌∷◌, ◌++◌, map, none, some, ◌==◌, ◌≡◌, refl, ◌∙◌, ap,
  arith, eq_iff, eq_refl, Bool-cases, Option-cases, inl, inr, Dict, lookup, insert, get_or, keep,
  str_mem, All,
}
use mathlib.Core.List.{append-nil}
use multi_agent_intel_pipeli.Value.{Value, ℤ, pos}
use multi_agent_intel_pipeli.Value.Int.{◌-ℤ◌, add_zero}
use multi_agent_intel_pipeli.Models.{GapCandidate, EvidencePacket}
use multi_agent_intel_pipeli.Memory.{
  ShortTermMemoryStore, Keys, no_usage, fresh_assessment, create_working_set, new_items, has_entry,
  new_entries, changed_statuses, is_status, drop, update, merge_statuses, extend_histories,
  add_usage, merge_from, delta_from,
}
use multi_agent_intel_pipeli.Memory.Merge.{IsDict}

keep-none {ℓ} :
    {A : Type ℓ} (p : A → Bool) (xs : List A)
    → All (λ x. p x ≡ true) xs
    → keep (λ x. not (p x)) xs ≡ []
keep-none p [] h = refl
keep-none p (x ∷ xs) (h, hs) = rw h (keep-none p xs hs)

keep-append {ℓ} :
    {A : Type ℓ} (p : A → Bool) (xs ys : List A) → keep p (xs ++ ys) ≡ keep p xs ++ keep p ys
keep-append p [] ys = refl
keep-append p (x ∷ xs) ys = ground (arith, keep-append p xs ys)

module _ {ℓ} {A : Type ℓ} (key : A → String) where
  known-cons :
      (y : A) (ys xs : List A)
      → All (λ x. str_mem (key x) (map key ys) ≡ true) xs
      → All (λ x. str_mem (key x) (map key (y ∷ ys)) ≡ true) xs
  known-cons y ys [] h = h
  known-cons y ys (x ∷ xs) (h, hs) = (ground (arith, h), known-cons y ys xs hs)

  known : (xs : List A) → All (λ x. str_mem (key x) (map key xs) ≡ true) xs
  known [] = tt
  known (x ∷ xs) = (rw (eq_refl (key x)) refl, known-cons x xs xs (known xs))

  -- What stands in the baseline is not new.
  new_items_self : (xs : List A) → new_items key xs xs ≡ []
  new_items_self xs = keep-none (λ x. str_mem (key x) (map key xs)) xs (known xs)

  -- Of a list that grew from the baseline, the new items are among those that it grew by.
  new_items-append :
      (base added : List A) → new_items key (base ++ added) base ≡ new_items key added base
  new_items-append base added =
      keep-append (λ x. not (str_mem (key x) (map key base))) base added
      ∙ ap (λ (xs : List A). xs ++ new_items key added base) (new_items_self base)

  -- All of them, where the baseline has none of them.
  new_items-fresh :
      (base added : List A)
      → All (λ x. str_mem (key x) (map key base) ≡ false) added
      → new_items key added base ≡ added
  new_items-fresh base [] h = refl
  new_items-fresh base (x ∷ added) (h, hs) =
      rw h (ap (λ (xs : List A). x ∷ xs) (new_items-fresh base added hs))

new_entries-known {ℓ} :
    {V : Type ℓ} (xs baseline : Dict V)
    → All (λ (k, v). has_entry k baseline ≡ true) xs
    → new_entries xs baseline ≡ []
unfolding new_entries
new_entries-known [] baseline h = refl
new_entries-known ((k, v) ∷ xs) baseline (h, hs) = rw h (new_entries-known xs baseline hs)

entries-cons {ℓ} :
    {V : Type ℓ} (j : String) (w : V) (ys xs : Dict V)
    → All (λ (k, v). has_entry k ys ≡ true) xs
    → All (λ (k, v). has_entry k ((j, w) ∷ ys) ≡ true) xs
unfolding lookup
entries-cons j w ys [] h = h
entries-cons j w ys ((k, v) ∷ xs) (h, hs) = (ground (arith, h), entries-cons j w ys xs hs)

entries {ℓ} : {V : Type ℓ} (xs : Dict V) → All (λ (k, v). has_entry k xs ≡ true) xs
unfolding lookup
entries [] = tt
entries ((k, v) ∷ xs) = (rw eq_refl refl, entries-cons k v xs xs (entries xs))

-- Statuses of which each is the baseline's.
Unchanged : Dict String → Dict String → Type 0
Unchanged baseline xs = All (λ (k, v). is_status v (lookup k baseline) ≡ true) xs

changed_statuses-none :
    (xs baseline : Dict String) → Unchanged baseline xs → changed_statuses xs baseline ≡ []
unfolding changed_statuses Unchanged
changed_statuses-none [] baseline h = refl
changed_statuses-none ((k, v) ∷ xs) baseline (h, hs) = rw h (changed_statuses-none xs baseline hs)

insert-same {ℓ} :
    {V : Type ℓ} (k : String) (v : V) (m : Dict V) → lookup k m ≡ some v → insert k v m ≡ m
unfolding insert lookup
insert-same k v [] h = absurd (cc)
insert-same k v ((j, w) ∷ m) h = ground (arith, eq_iff j k, insert-same k v m)

Unchanged-cons :
    (j w : String) (ys xs : Dict String)
    → lookup j ys ≡ none
    → Unchanged ys xs
    → Unchanged ((j, w) ∷ ys) xs
unfolding Unchanged lookup
Unchanged-cons j w ys [] fresh h = h
Unchanged-cons j w ys ((k, v) ∷ xs) fresh (h, hs) = (
  elim (Bool-cases (j == k)) [
    | inl e ↦
        let gone : lookup k ys ≡ none = rw (← (eq_iff j k).0 e) fresh in absurd (cc (rw gone at h))
    | inr e ↦ rw e h
  ],
  Unchanged-cons j w ys xs fresh hs,
)

Unchanged-self : (xs : Dict String) → IsDict xs → Unchanged xs xs
unfolding Unchanged lookup
Unchanged-self [] h = tt
Unchanged-self ((k, v) ∷ xs) (fresh, h) =
    (rw (eq_refl k, eq_refl v) refl, Unchanged-cons k v xs xs fresh (Unchanged-self xs h))

-- Usage that adds nothing: zeros under keys that the totals have.
Zeros : Dict ℤ → Dict ℤ → Type 0
Zeros target zs = All (λ (k, v). (has_entry k target ≡ true) × (v ≡ pos 0)) zs

add_usage-Zeros : (target zs : Dict ℤ) → Zeros target zs → add_usage target zs ≡ target
unfolding add_usage Zeros get_or
add_usage-Zeros target [] h = refl
add_usage-Zeros target ((k, v) ∷ zs) ((here, zero_v), hs) = elim (Option-cases (lookup k target)) [
  | inl e ↦ absurd (cc (rw e at here))
  | inr (n, e) ↦ rw (zero_v, e, add_zero, insert-same k n target e) (add_usage-Zeros target zs hs)
]

Zeros-both :
    (target zs : Dict ℤ)
    → All (λ (k, v). has_entry k target ≡ true) zs
    → All (λ (k, v). v ≡ pos 0) zs
    → Zeros target zs
unfolding Zeros
Zeros-both target [] h z = tt
Zeros-both target ((k, v) ∷ zs) (h, hs) (z, rest) = ((h, z), Zeros-both target zs hs rest)

-- The totals have each of the keys that a new store has.
abbrev pub HasUsage : Dict ℤ → Type 0
HasUsage totals = All (λ (k, v). has_entry k totals ≡ true) no_usage

add_usage-untouched : (totals : Dict ℤ) → HasUsage totals → add_usage totals no_usage ≡ totals
add_usage-untouched totals u =
    let zeros : All (λ (k, v). v ≡ pos 0) no_usage =
      (refl, (refl, (refl, (refl, (refl, (refl, tt)))))) in
    add_usage-Zeros totals no_usage (Zeros-both totals no_usage u zeros)

drop-none {ℓ} : {A : Type ℓ} (xs : List A) → drop 0 xs ≡ xs
unfolding drop
drop-none [] = refl
drop-none (x ∷ xs) = refl

module _ (keys : Keys) (m : ShortTermMemoryStore) where
  -- If the memory's statuses are a dict and its usage totals have their keys, then the merge of a
  -- working set to which nothing was written leaves the memory as it was, but for the assessment of
  -- meeting readiness, which it resets.
  pub merge_from-untouched :
      IsDict m.task_statuses
      → HasUsage m.usage_totals
      → let ws = create_working_set m in
        merge_from m (delta_from keys ws ws)
        ≡ record m { meeting_readiness_assessment = fresh_assessment }
  unfolding merge_from delta_from create_working_set new_entries update merge_statuses
      extend_histories drop insert get_or ◌-ℤ◌
  merge_from-untouched h u = simp (
    new_items_self,
    append-nil,
    changed_statuses-none _ _ (Unchanged-self m.task_statuses h),
    new_entries-known _ _ (entries m.section_outputs),
    add_usage-untouched m.usage_totals u,
  )

  -- A working set to which a department appended facts, open questions, gaps, evidence and reports
  -- brings into the memory that it started from, in their order, all its reports and exactly those
  -- of the appended facts, questions, gaps and packets whose key the memory has not.
  pub merge_from-appended :
      (s : ShortTermMemoryStore) (facts questions : List Value) (gaps : List GapCandidate)
      (packets : List EvidencePacket)
      → s.facts ≡ m.facts ++ facts
      → s.open_questions ≡ m.open_questions ++ questions
      → s.gap_candidates ≡ m.gap_candidates ++ gaps
      → s.evidence_packets ≡ m.evidence_packets ++ packets
      → let t = merge_from m (delta_from keys s (create_working_set m)) in
        (t.facts ≡ m.facts ++ new_items keys.item facts m.facts)
        × (t.open_questions ≡ m.open_questions ++ new_items keys.item questions m.open_questions)
        × (t.gap_candidates ≡ m.gap_candidates ++ new_items (λ g. g.gap_id) gaps m.gap_candidates)
        × (t.evidence_packets
            ≡ m.evidence_packets ++ new_items (λ p. p.packet_id) packets m.evidence_packets)
        × (t.worker_reports ≡ m.worker_reports ++ s.worker_reports)
  unfolding merge_from delta_from create_working_set
  merge_from-appended s facts questions gaps packets f q g p = (
    rw (f, new_items-append keys.item m.facts facts) refl,
    rw (q, new_items-append keys.item m.open_questions questions) refl,
    rw (g, new_items-append (λ g. g.gap_id) m.gap_candidates gaps) refl,
    rw (p, new_items-append (λ p. p.packet_id) m.evidence_packets packets) refl,
    rw (drop-none s.worker_reports) refl,
  )

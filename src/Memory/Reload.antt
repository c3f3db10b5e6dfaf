-- ===== src/Memory/Reload.antt =====
-- A run's memory, saved and loaded again.
use multi_agent_intel_pipeli.Prelude.{
  String, true, List, [], ◌∷◌, map, Option, none, some, ◌≡◌, refl, ap, Bool-cases, Option-cases,
  inl, inr, str_mem,
}
use multi_agent_intel_pipeli.Value.{Value, truthy}
use multi_agent_intel_pipeli.Python.{Python}
use multi_agent_intel_pipeli.Memory.{ShortTermMemoryStore, Keys}
use multi_agent_intel_pipeli.Memory.Snapshot.{
  Codec, Codecs, Reloads, AllReload, dedup_values, dedup_from, unique_sources, unique_from,
  source_url, snapshot, from_snapshot, loaded_briefing,
}

dedup_from_twice :
    (key : Value → String) (seen : List String) (xs : List Value)
    → dedup_from key seen (dedup_from key seen xs) ≡ dedup_from key seen xs
unfolding dedup_from
dedup_from_twice key seen [] = refl
dedup_from_twice key seen (x ∷ xs) = elim (Bool-cases (str_mem (key x) seen)) [
  | inl e ↦ rw e (dedup_from_twice key seen xs)
  | inr e ↦
      rw (e, dedup_from, e)
        (ap (λ (ys : List Value). x ∷ ys) (dedup_from_twice key (key x ∷ seen) xs))
]

dedup_values_twice :
    (key : Value → String) (xs : List Value)
    → dedup_values key (dedup_values key xs) ≡ dedup_values key xs
unfolding dedup_values
dedup_values_twice key xs = dedup_from_twice key [] xs

unique_from_twice :
    (url : Value → Option String) (seen : List String) (xs : List Value)
    → unique_from url seen (unique_from url seen xs) ≡ unique_from url seen xs
unfolding unique_from
unique_from_twice url seen [] = refl
unique_from_twice url seen (x ∷ xs) = elim (Option-cases (url x)) [
  | inl e ↦
      rw (e, unique_from, e, unique_from)
        (ap (λ (ys : List Value). x ∷ ys) (unique_from_twice url seen xs))
  | inr (u, e) ↦ elim (Bool-cases (str_mem u seen)) [
    | inl f ↦ rw (e, unique_from, f) (unique_from_twice url seen xs)
    | inr f ↦
        rw (e, unique_from, f, unique_from, e, f)
          (ap (λ (ys : List Value). x ∷ ys) (unique_from_twice url (u ∷ seen) xs))
  ]
]

unique_sources_twice :
    (url : Value → Option String) (xs : List Value)
    → unique_sources url (unique_sources url xs) ≡ unique_sources url xs
unfolding unique_sources
unique_sources_twice url xs = unique_from_twice url [] xs

map-reload :
    {A : Type 0} (c : Codec A) → Reloads c → (xs : List A) → map c.load (map c.dump xs) ≡ xs
map-reload c h [] = refl
map-reload c h (x ∷ xs) = rw (h x, map-reload c h xs) refl

-- A briefing that is there dumps to a dict with entries.
abbrev pub IsDumped : Option Value → Type 0
IsDumped none = Unit
IsDumped (some v) = truthy v ≡ true

loaded_briefing-dumped :
    (briefing : Option Value) → IsDumped briefing → loaded_briefing briefing ≡ briefing
unfolding loaded_briefing
loaded_briefing-dumped none h = refl
loaded_briefing-dumped (some v) h = rw h refl

module _ (py : Python) (keys : Keys) (c : Codecs) (reload : AllReload c) where
  -- Where pydantic loads what it dumps, a run's memory that is saved and loaded is the memory without
  -- the repetitions in its lists of texts and sources. Saving it once more gives the same dict.
  pub from_snapshot-snapshot :
      (s : ShortTermMemoryStore)
      → IsDumped s.final_briefing
      → let again = from_snapshot py keys c (snapshot py keys c s) in
        (again ≡ record s {
          facts = dedup_values keys.item s.facts;
          sources = unique_sources (source_url keys) s.sources;
          market_signals = dedup_values keys.item s.market_signals;
          buyer_hypotheses = dedup_values keys.item s.buyer_hypotheses;
          open_questions = dedup_values keys.item s.open_questions;
          next_actions = dedup_values keys.item s.next_actions;
          rejected_claims = dedup_values keys.item s.rejected_claims;
        })
        × (snapshot py keys c again ≡ snapshot py keys c s)
  unfolding from_snapshot snapshot
  from_snapshot-snapshot s h = (
    simp (
      map-reload c.gap reload.gap,
      map-reload c.packet reload.packet,
      map-reload c.matrix_update reload.matrix_update,
      map-reload c.decision reload.decision,
      map-reload c.plan reload.plan,
      map-reload c.action reload.action,
      loaded_briefing-dumped s.final_briefing h,
    ),
    simp (
      map-reload c.gap reload.gap,
      map-reload c.packet reload.packet,
      map-reload c.matrix_update reload.matrix_update,
      map-reload c.decision reload.decision,
      map-reload c.plan reload.plan,
      map-reload c.action reload.action,
      loaded_briefing-dumped s.final_briefing h,
      dedup_values_twice,
      unique_sources_twice,
    ),
  )

-- ===== src/StepBus/Trace.antt =====
-- The trace without its index: a step replaces the one with its key, or comes last.
use multi_agent_intel_pipeli.Prelude.{
  ℕ, zero, suc, ◌≡◌, refl, sym, ap, ◌∙◌, String, true, false, List, [], ◌∷◌, ◌++◌, Option, none,
  some, ◌==◌, if◌then◌else◌, lookup, length, nonempty_text, lookup-insert, arith, eq_iff,
  Bool-cases, Option-cases, inl, inr,
}
use multi_agent_intel_pipeli.StepBus.{
  Step, TraceConsumer, empty_trace, set_at, append_step, consume_at, consume, consume_all,
}

abbrev next_index : Option ℕ → Option ℕ
next_index none = none
next_index (some i) = some (suc i)

-- The index of the first step with a key.
abbrev pub index_of : String → List Step → Option ℕ
index_of key [] = none
index_of key (s ∷ ss) = if s.idempotency_key == key then some 0 else next_index (index_of key ss)

-- The step in the place of the first one with its key, or at the end.
abbrev replace_or_add : Step → List Step → List Step
replace_or_add step [] = step ∷ []
replace_or_add step (s ∷ ss) =
    let rest = replace_or_add step ss in
    if s.idempotency_key == step.idempotency_key then step ∷ ss else s ∷ rest

-- A step without a key always comes last.
abbrev pub upsert : Step → List Step → List Step
upsert step ss =
    if nonempty_text step.idempotency_key then replace_or_add step ss else ss ++ step ∷ []

abbrev pub upsert_all : List Step → List Step → List Step
upsert_all [] ss = ss
upsert_all (step ∷ steps) ss = upsert_all steps (upsert step ss)

replace_or_add-none :
    (step : Step) (ss : List Step)
    → index_of step.idempotency_key ss ≡ none
    → replace_or_add step ss ≡ ss ++ step ∷ []
replace_or_add-none step [] h = refl
replace_or_add-none step (s ∷ ss) h = ground (arith, replace_or_add-none step ss)

replace_or_add-some :
    (step : Step) (ss : List Step) (i : ℕ)
    → index_of step.idempotency_key ss ≡ some i
    → replace_or_add step ss ≡ set_at i step ss
unfolding set_at
replace_or_add-some step [] i h = absurd (ground arith)
replace_or_add-some step (s ∷ ss) zero h = ground (arith, replace_or_add-none step ss)
replace_or_add-some step (s ∷ ss) (suc i) h = ground (arith, replace_or_add-some step ss i)

first_key :
    (step s : Step) (ss : List Step)
    → index_of step.idempotency_key (s ∷ ss) ≡ some 0
    → (s.idempotency_key == step.idempotency_key) ≡ true
first_key step s ss h = ground (arith, h)

index_of-set_at :
    (step : Step) (ss : List Step) (i : ℕ) (key : String)
    → index_of step.idempotency_key ss ≡ some i
    → index_of key (set_at i step ss) ≡ index_of key ss
unfolding set_at
index_of-set_at step [] i key h = absurd (ground arith)
index_of-set_at step (s ∷ ss) zero key h =
    rw ((eq_iff s.idempotency_key step.idempotency_key).0 (first_key step s ss h)) refl
index_of-set_at step (s ∷ ss) (suc i) key h = ground (arith, index_of-set_at step ss i key)

index_of-append :
    (step : Step) (ss : List Step) (key : String)
    → index_of step.idempotency_key ss ≡ none
    → index_of key (ss ++ step ∷ [])
      ≡ (if step.idempotency_key == key then some (length ss) else index_of key ss)
index_of-append step [] key h = refl
index_of-append step (s ∷ ss) key h = ground (
  arith,
  index_of-append step ss key,
  eq_iff step.idempotency_key key,
  eq_iff s.idempotency_key key,
  eq_iff s.idempotency_key step.idempotency_key,
)

-- The index holds the place of each key that is not empty.
abbrev pub IsIndexed : TraceConsumer → Type 0
IsIndexed c =
    (key : String) → nonempty_text key ≡ true → lookup key c.positions ≡ index_of key c.target

keyed_apart :
    (step : Step) (key : String)
    → nonempty_text step.idempotency_key ≡ false
    → nonempty_text key ≡ true
    → (step.idempotency_key == key) ≡ false
keyed_apart step key h k = ground (arith, h, k, eq_iff step.idempotency_key key)

index_of-append_apart :
    (step : Step) (ss : List Step) (key : String)
    → (step.idempotency_key == key) ≡ false
    → index_of key (ss ++ step ∷ []) ≡ index_of key ss
index_of-append_apart step [] key h = ground (arith, h)
index_of-append_apart step (s ∷ ss) key h = ground (arith, index_of-append_apart step ss key h)

consume-IsIndexed :
    (step : Step) (c : TraceConsumer)
    → IsIndexed c
    → ((consume step c).target ≡ upsert step c.target) × IsIndexed (consume step c)
unfolding consume consume_at append_step
consume-IsIndexed step c v = elim (Bool-cases (nonempty_text step.idempotency_key)) [
  | inl e ↦ elim (Option-cases (lookup step.idempotency_key c.positions)) [
    | inl n ↦
        let absent = sym (v step.idempotency_key e) ∙ n in
        rw (e, n, consume_at)
          (
            sym (replace_or_add-none step c.target absent),
            λ key k.
                rw lookup-insert
                  (ground (arith, v key k, index_of-append step c.target key absent)),
          )
    | inr (i, n) ↦
        let present = sym (v step.idempotency_key e) ∙ n in
        rw (e, n, consume_at)
          (
            sym (replace_or_add-some step c.target i present),
            λ key k. v key k ∙ sym (index_of-set_at step c.target i key present),
          )
  ]
  | inr e ↦ rw e (
    refl,
    λ key k. rw lookup-insert (
        ground (
          arith,
          v key k,
          keyed_apart step key e k,
          index_of-append_apart step c.target key (keyed_apart step key e k),
        )),
  )
]

consume_all-IsIndexed :
    (steps : List Step) (c : TraceConsumer)
    → IsIndexed c
    → (consume_all steps c).target ≡ upsert_all steps c.target
unfolding consume_all
consume_all-IsIndexed [] c v = refl
consume_all-IsIndexed (step ∷ steps) c v =
    let (same, w) = consume-IsIndexed step c v in
    consume_all-IsIndexed steps (consume step c) w ∙ ap (upsert_all steps) same

-- The trace that the consumer keeps from an empty list, with its index, is the plain one: each step
-- with a key replaces the first one with the same key in its place, and every other step comes last.
pub consume_all-upsert_all :
    (steps : List Step) → (consume_all steps empty_trace).target ≡ upsert_all steps []
consume_all-upsert_all steps =
    consume_all-IsIndexed steps empty_trace (unfold lookup in λ key k. refl)

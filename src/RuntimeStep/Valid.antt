-- ===== src/RuntimeStep/Valid.antt =====
-- What a validated step is: its reflection fits, and it is valid as it stands.
use Prim.Native.String.{count}
use mathlib.Core.Path.{subst}
use Prim.Native.String.count
use text.Mathlib.TextLemmas.{length-append}
use multi_agent_intel_pipeli.Prelude.{
  ℕ, zero, suc, ◌≤◌, String, false, Option, some, ◌≡◌, refl, ◌∙◌, ap, arith, ◌==◌, leb, leb→le,
  if◌then◌else◌, Bool-cases, inl, inr, eq_iff, eq_refl, or_default,
}
use multi_agent_intel_pipeli.Value.{
  Value, str, obj, list, Fields, end, field, ℤ, find, get, truthy, null, bool, int, float,
}
use multi_agent_intel_pipeli.Supervisor.{set_field}
use multi_agent_intel_pipeli.RuntimeStep.{
  Checked, valid, raised, ◌>>=◌, max_reflection_chars, prefix, truncate_text, truncate_reflection,
  require_mapping, check_parts, check_refs, with_reflection, validate_runtime_step,
}

count-prefix : (n : ℕ) (s : String) → count (prefix n s) ≤ n
unfolding prefix
count-prefix zero s = omega arith
count-prefix (suc n) String.[] = omega arith
count-prefix (suc n) (String.◌∷◌ c s) =
    rw (count.cons c (prefix n s)) (omega (arith, count-prefix n s))

-- A cut text fits.
truncate_text-le : (s : String) → count (truncate_text s) ≤ max_reflection_chars
unfolding truncate_text
truncate_text-le s = elim (Bool-cases (leb (count s) max_reflection_chars)) [
  | inl e ↦ rw e (leb→le (count s) max_reflection_chars e)
  | inr e ↦ let fits = count-prefix 1960 s in rw (e, length-append) (omega (arith, fits))
]

-- Cutting once more changes nothing.
truncate_text_twice : (s : String) → truncate_text (truncate_text s) ≡ truncate_text s
unfolding truncate_text
truncate_text_twice s = short (truncate_text s) (truncate_text-le s)
  where
    short : (t : String) → count t ≤ max_reflection_chars → truncate_text t ≡ t
    short t h = ground (arith, h)

find-set_field :
    (k j : String) (v : Value) (fs : Fields)
    → find j (set_field k v fs) ≡ (if k == j then some v else find j fs)
unfolding find set_field
find-set_field k j v end = refl
find-set_field k j v (field i w fs) =
    ground (arith, eq_iff k j, eq_iff i k, eq_iff i j, find-set_field k j v fs)

set_field_twice :
    (k : String) (v : Value) (fs : Fields) → set_field k v (set_field k v fs) ≡ set_field k v fs
unfolding set_field
set_field_twice k v end = rw eq_refl refl
set_field_twice k v (field i w fs) = elim (Bool-cases (i == k)) [
  | inl e ↦ rw (e, set_field, e) refl
  | inr e ↦ rw (e, set_field, e) (ap (field i w) (set_field_twice k v fs))
]

-- Writing back what stands there.
set_field_same : (k : String) (v : Value) (fs : Fields) → find k fs ≡ some v → set_field k v fs ≡ fs
unfolding set_field find
set_field_same k v end h = absurd (cc)
set_field_same k v (field i w fs) h = ground (arith, set_field_same k v fs)

-- A chain of checks ends well only where its first one does.
>>=-eq-valid :
    {A B : Type 0} (checked : Checked A) (next : A → Checked B) {result : B}
    → (checked >>= next) ≡ valid result
    → (part : A) × (checked ≡ valid part) × (next part ≡ valid result)
>>=-eq-valid (raised error) next ended = cc
>>=-eq-valid (valid part) next ended = (part, refl, ended)

require_mapping-valid :
    (v : Value) (key : String) {fs : Fields} → require_mapping v key ≡ valid fs → v ≡ obj fs
unfolding require_mapping
require_mapping-valid (obj gs) key h = cc
require_mapping-valid null key h = cc
require_mapping-valid (bool b) key h = cc
require_mapping-valid (int i) key h = cc
require_mapping-valid (float b) key h = cc
require_mapping-valid (str s) key h = cc
require_mapping-valid (list xs) key h = cc

get-set_field_other :
    (k j : String) (v : Value) (fs : Fields)
    → (k == j) ≡ false
    → get j (set_field k v fs) ≡ get j fs
unfolding get
get-set_field_other k j v fs h = rw (find-set_field, h) refl

module _ (text : Value → String) (to_int : Value → Option ℤ)
    (text-str : (s : String) → text (str s) ≡ s) where
  cut_again :
      (t : String)
      → truncate_text t ≡ t
      → truncate_text (if truthy (str t) then text (str t) else "") ≡ t
  unfolding truthy
  cut_again t h = elim (Bool-cases (t == "")) [
    | inl e ↦ rw e (rw (← (eq_iff t "").0 e) h)
    | inr e ↦ rw (e, text-str) h
  ]

  truncate_reflection_twice :
      (v : Value)
      → truncate_reflection text to_int (str (truncate_reflection text to_int v))
        ≡ truncate_reflection text to_int v
  unfolding truncate_reflection
  truncate_reflection_twice v = cut_again _ (truncate_text_twice _)

  -- The outcome of a validated step.
  cut : Fields → Fields
  cut outcome =
      set_field "reflection"
        (str (truncate_reflection text to_int (or_default (str "") (find "reflection" outcome))))
        outcome

  cut_twice : (outcome : Fields) → cut (cut outcome) ≡ cut outcome
  unfolding cut
  cut_twice outcome =
      rw (find-set_field, truncate_reflection_twice) (set_field_twice "reflection" _ outcome)

  with_reflection_twice :
      (outcome payload : Fields)
      → with_reflection text to_int (cut outcome) (with_reflection text to_int outcome payload)
        ≡ with_reflection text to_int outcome payload
  unfolding with_reflection cut
  with_reflection_twice outcome payload =
      ap
        (λ (o : Fields).
          set_field "outcome" (obj o) (set_field "outcome" (obj (cut outcome)) payload))
        (cut_twice outcome)
      ∙ set_field_twice "outcome" (obj (cut outcome)) payload

  check_parts-cut :
      (identity scope intent execution outcome : Fields)
      → check_parts text to_int identity scope intent execution (cut outcome)
        ≡ check_parts text to_int identity scope intent execution outcome
  unfolding check_parts check_refs cut
  check_parts-cut identity scope intent execution outcome =
      simp (get-set_field_other "reflection" "output_refs" _ outcome refl)

  get-with_reflection :
      (outcome payload : Fields)
      → get "outcome" (with_reflection text to_int outcome payload) ≡ obj (cut outcome)
  unfolding with_reflection cut get
  get-with_reflection outcome payload = rw find-set_field refl

  get-with_reflection_other :
      (key : String) (outcome payload : Fields) {v : Value}
      → ("outcome" == key) ≡ false
      → get key payload ≡ v
      → get key (with_reflection text to_int outcome payload) ≡ v
  unfolding with_reflection
  get-with_reflection_other key outcome payload h e =
      get-set_field_other "outcome" key _ payload h ∙ e

  -- What the validator returns is valid as it stands.
  again :
      (p identity scope intent execution outcome : Fields)
      → get "identity" p ≡ obj identity
      → get "scope" p ≡ obj scope
      → get "intent" p ≡ obj intent
      → get "execution" p ≡ obj execution
      → check_parts text to_int identity scope intent execution outcome ≡ valid tt
      → validate_runtime_step text to_int (with_reflection text to_int outcome p)
        ≡ valid (with_reflection text to_int outcome p)
  unfolding validate_runtime_step require_mapping
  again p identity scope intent execution outcome i s n x c =
      rw
        (
          get-with_reflection_other "identity" outcome p refl i,
          get-with_reflection_other "scope" outcome p refl s,
          get-with_reflection_other "intent" outcome p refl n,
          get-with_reflection_other "execution" outcome p refl x,
          get-with_reflection outcome p,
          check_parts-cut,
          c,
          with_reflection_twice,
        )
        refl

  find-written :
      (fs : Fields) (r : String)
      → find "reflection" (set_field "reflection" (str r) fs) ≡ some (str r)
  find-written fs r = rw find-set_field refl

  IsAdmitted : Fields → Type 0
  IsAdmitted q =
      ((o : Fields) × (r : String) × (get "outcome" q ≡ obj o)
        × (find "reflection" o ≡ some (str r))
        × (count r ≤ max_reflection_chars))
      × (validate_runtime_step text to_int q ≡ valid q)

  fits :
      (outcome p : Fields)
      → (o : Fields) × (r : String) × (get "outcome" (with_reflection text to_int outcome p)
          ≡ obj o)
        × (find "reflection" o ≡ some (str r))
        × (count r ≤ max_reflection_chars)
  unfolding cut truncate_reflection
  fits outcome p =
      let r = truncate_reflection text to_int (or_default (str "") (find "reflection" outcome)) in
      (cut outcome, r, get-with_reflection outcome p, find-written outcome r, truncate_text-le _)

  valid-inj : {a b : Fields} → valid a ≡ valid b → a ≡ b
  valid-inj h = cc

  admitted :
      (p q identity scope intent execution outcome : Fields)
      → get "identity" p ≡ obj identity
      → get "scope" p ≡ obj scope
      → get "intent" p ≡ obj intent
      → get "execution" p ≡ obj execution
      → check_parts text to_int identity scope intent execution outcome ≡ valid tt
      → valid (with_reflection text to_int outcome p) ≡ valid q
      → IsAdmitted q
  unfolding IsAdmitted
  admitted p q identity scope intent execution outcome i s n x c e =
      subst IsAdmitted (valid-inj e)
        (fits outcome p, again p identity scope intent execution outcome i s n x c)

  -- If Python's `str` of a text is the text, a step that the validator returns has a reflection of at
  -- most 2000 characters, and the validator returns it again as it stands.
  pub validate_runtime_step-valid :
      (p q : Fields)
      → validate_runtime_step text to_int p ≡ valid q
      → ((outcome : Fields) × (r : String) × (get "outcome" q ≡ obj outcome)
          × (find "reflection" outcome ≡ some (str r))
          × (count r ≤ max_reflection_chars))
        × (validate_runtime_step text to_int q ≡ valid q)
  unfolding validate_runtime_step IsAdmitted
  validate_runtime_step-valid p q h =
      let (identity, i, h1) = >>=-eq-valid (require_mapping (get "identity" p) "identity") _ h in
      let (scope, s, h2) = >>=-eq-valid (require_mapping (get "scope" p) "scope") _ h1 in
      let (intent, n, h3) = >>=-eq-valid (require_mapping (get "intent" p) "intent") _ h2 in
      let (execution, x, h4) =
        >>=-eq-valid (require_mapping (get "execution" p) "execution") _ h3 in
      let (outcome, o, h5) = >>=-eq-valid (require_mapping (get "outcome" p) "outcome") _ h4 in
      let (done, c, e) =
        >>=-eq-valid (check_parts text to_int identity scope intent execution outcome) _ h5 in
      admitted p q identity scope intent execution outcome
        (require_mapping-valid (get "identity" p) "identity" i)
        (require_mapping-valid (get "scope" p) "scope" s)
        (require_mapping-valid (get "intent" p) "intent" n)
        (require_mapping-valid (get "execution" p) "execution" x) c e

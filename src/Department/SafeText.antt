-- ===== src/Department/SafeText.antt =====
-- src/agents/lead.py: `_safe_prompt_text` and `_safe_output_value`, which escape what a package
-- shows.
use Prim.Native.Char.{Char, code}
use Prim.Native.String.{◌++◌}
use text.Mathlib.TextLemmas.{nil-append, cons-append}
use multi_agent_intel_pipeli.Prelude.{
  ℕ, String, Bool, true, false, not, ◌&&◌, ◌||◌, ◌≡◌, refl, arith, Bool-cases, inl, inr, eqb, leb,
  if◌then◌else◌,
}
use multi_agent_intel_pipeli.Value.{
  Value, null, bool, int, float, str, list, obj, Fields, end, field, Items, nil, cons,
}

-- What `_CONTROL_CHARS_RE` matches.
abbrev pub is_control : ℕ → Bool
is_control c = leb c 8 || eqb c 11 || eqb c 12 || (leb 14 c && leb c 31) || eqb c 127

-- `_CONTROL_CHARS_RE.sub("", text)`
drop_controls : String → String
drop_controls String.[] = String.[]
drop_controls (String.◌∷◌ c s) =
    let rest = drop_controls s in if is_control (code c) then rest else String.◌∷◌ c rest

abbrev entity : Char → String
entity c =
    if eqb (code c) 38
    then "&amp;"
    else if eqb (code c) 60
    then "&lt;"
    else if eqb (code c) 62
    then "&gt;"
    else if eqb (code c) 34
    then "&quot;"
    else if eqb (code c) 39
    then "&#x27;"
    else String.◌∷◌ c String.[]

-- `html.escape(text, quote=True)`
escape : String → String
escape String.[] = String.[]
escape (String.◌∷◌ c s) = entity c ++ escape s

-- `_safe_prompt_text`
unfoldable pub safe_prompt_text : String → String
unfolding drop_controls escape
safe_prompt_text text = escape (drop_controls text)

unfoldable mutual
  unfolding safe_prompt_text

  -- `_safe_output_value`
  pub safe_output_value : Value → Value
  safe_output_value (str s) = str (safe_prompt_text s)
  safe_output_value (list xs) = list (safe_output_items xs)
  safe_output_value (obj fs) = obj (safe_output_fields fs)
  safe_output_value v = v

  pub safe_output_items : Items → Items
  safe_output_items nil = nil
  safe_output_items (cons x xs) = cons (safe_output_value x) (safe_output_items xs)

  pub safe_output_fields : Fields → Fields
  safe_output_fields end = end
  safe_output_fields (field k v fs) = field k (safe_output_value v) (safe_output_fields fs)

-- Not one of < > " ', and of the characters below the space only tab, line feed and carriage return;
-- not the delete character.
abbrev pub is_inert : ℕ → Bool
is_inert c =
    not (eqb c 60 || eqb c 62 || eqb c 34 || eqb c 39 || eqb c 127)
    && (leb 32 c || eqb c 9 || eqb c 10 || eqb c 13)

-- Each character of a text passes a test.
abbrev pub every : (ℕ → Bool) → String → Bool
every p String.[] = true
every p (String.◌∷◌ c s) = p (code c) && every p s

mutual
  -- Each text in a value passes a test.
  pub texts : (String → Bool) → Value → Bool
  texts p (str s) = p s
  texts p (list xs) = texts_items p xs
  texts p (obj fs) = texts_fields p fs
  texts p v = true

  pub texts_items : (String → Bool) → Items → Bool
  texts_items p nil = true
  texts_items p (cons x xs) = texts p x && texts_items p xs

  pub texts_fields : (String → Bool) → Fields → Bool
  texts_fields p end = true
  texts_fields p (field k v fs) = texts p v && texts_fields p fs

every-append : (p : ℕ → Bool) (s t : String) → every p (s ++ t) ≡ (every p s && every p t)
every-append p String.[] t = rw (nil-append t) refl
every-append p (String.◌∷◌ c s) t = rw (cons-append c s t) (ground (arith, every-append p s t))

is_inert-kept :
    (c : ℕ)
    → is_control c ≡ false
    → eqb c 60 ≡ false
    → eqb c 62 ≡ false
    → eqb c 34 ≡ false
    → eqb c 39 ≡ false
    → is_inert c ≡ true
is_inert-kept c h e2 e3 e4 e5 = ground (arith, h, e2, e3, e4, e5)

every-entity : (c : Char) → is_control (code c) ≡ false → every is_inert (entity c) ≡ true
every-entity c h = elim (Bool-cases (eqb (code c) 38)) [
  | inl e ↦ rw e refl
  | inr e1 ↦ elim (Bool-cases (eqb (code c) 60)) [
    | inl e ↦ rw (e1, e) refl
    | inr e2 ↦ elim (Bool-cases (eqb (code c) 62)) [
      | inl e ↦ rw (e1, e2, e) refl
      | inr e3 ↦ elim (Bool-cases (eqb (code c) 34)) [
        | inl e ↦ rw (e1, e2, e3, e) refl
        | inr e4 ↦ elim (Bool-cases (eqb (code c) 39)) [
          | inl e ↦ rw (e1, e2, e3, e4, e) refl
          | inr e5 ↦ rw (e1, e2, e3, e4, e5) (rw (is_inert-kept (code c) h e2 e3 e4 e5) refl)
        ]
      ]
    ]
  ]
]

-- An escaped text has none of < > " ', no delete character, and of the characters below the space
-- only tab, line feed and carriage return.
pub safe_prompt_text-inert : (s : String) → every is_inert (safe_prompt_text s) ≡ true
unfolding safe_prompt_text
safe_prompt_text-inert String.[] = refl
safe_prompt_text-inert (String.◌∷◌ c s) = ground (
  arith,
  every-entity c,
  every-append is_inert (entity c) (escape (drop_controls s)),
  safe_prompt_text-inert s,
)

mutual
  unfolding safe_output_value texts

  value-inert : (v : Value) → texts (every is_inert) (safe_output_value v) ≡ true
  value-inert null = refl
  value-inert (bool b) = refl
  value-inert (int i) = refl
  value-inert (float nonzero) = refl
  value-inert (str s) = safe_prompt_text-inert s
  value-inert (list xs) = items-inert xs
  value-inert (obj fs) = fields-inert fs

  items-inert : (xs : Items) → texts_items (every is_inert) (safe_output_items xs) ≡ true
  items-inert nil = refl
  items-inert (cons x xs) = ground (arith, value-inert x, items-inert xs)

  fields-inert : (fs : Fields) → texts_fields (every is_inert) (safe_output_fields fs) ≡ true
  fields-inert end = refl
  fields-inert (field k v fs) = ground (arith, value-inert v, fields-inert fs)

-- No text in an escaped payload, at any depth, has one of < > " ', the delete character, or a
-- character below the space other than tab, line feed and carriage return. This is said of the
-- payload's values, not of its keys, and not of the control characters above the delete character,
-- which stay as they are.
pub safe_output_fields-inert :
    (fs : Fields) → texts_fields (every is_inert) (safe_output_fields fs) ≡ true
safe_output_fields-inert fs = fields-inert fs

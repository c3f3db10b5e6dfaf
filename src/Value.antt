-- ===== src/Value.antt =====
-- The values that the program handles without a schema: what a JSON text decodes to in Python. The
-- payloads that a model answers with, and the nested parts of a runtime step, are of this type.
pub mod Int
use multi_agent_intel_pipeli.Prelude.{
  ℕ, String, Bool, true, false, not, List, [], ◌∷◌, Option, none, some, ◌==◌, eqb, map,
  nonempty_text, or_default, if◌then◌else◌, ◌≡◌, refl,
}

-- An `int` is `pos n` for n and `negsuc n` for -(n + 1).
pub data ℤ : Type 0 where
  pos : ℕ → ℤ
  negsuc : ℕ → ℤ

mutual
  pub data Value : Type 0 where
    null : Value
    bool : Bool → Value
    int : ℤ → Value
    -- The program looks at no float's value, except whether it is zero.
    float : (nonzero : Bool) → Value
    str : String → Value
    list : Items → Value
    obj : Fields → Value

  pub data Fields : Type 0 where
    end : Fields
    field : String → Value → Fields → Fields

  pub data Items : Type 0 where
    nil : Items
    cons : Value → Items → Items

abbrev pub elements : Items → List Value
elements nil = []
elements (cons v vs) = v ∷ elements vs

abbrev pub keys : Fields → List String
keys end = []
keys (field k v fs) = k ∷ keys fs

-- `d[k]` where the key is there.
unfoldable pub find : String → Fields → Option Value
find k end = none
find k (field j v fs) = if j == k then some v else find k fs

-- `d.get(k)`, which answers `None` for a missing key.
unfoldable pub get : String → Fields → Value
unfolding find
get k fs = or_default null (find k fs)

abbrev pub has_items : Items → Bool
has_items nil = false
has_items (cons v vs) = true

abbrev pub has_fields : Fields → Bool
has_fields end = false
has_fields (field k v fs) = true

abbrev int_truthy : ℤ → Bool
int_truthy (pos n) = not (eqb n 0)
int_truthy (negsuc n) = true

-- `bool(v)`
unfoldable pub truthy : Value → Bool
truthy null = false
truthy (bool b) = b
truthy (int i) = int_truthy i
truthy (float nonzero) = nonzero
truthy (str s) = nonempty_text s
truthy (list xs) = has_items xs
truthy (obj fs) = has_fields fs

abbrev pub is_dict : Value → Bool
is_dict (obj fs) = true
is_dict _ = false

abbrev pub is_list : Value → Bool
is_list (list xs) = true
is_list _ = false

-- The one-character texts of a text.
abbrev chars : String → List Value
chars String.[] = []
chars (String.◌∷◌ c rest) = str (String.◌∷◌ c String.[]) ∷ chars rest

-- `for x in v`: `none` where Python raises `TypeError`. A text gives its characters and a dict its
-- keys.
unfoldable pub iterate : Value → Option (List Value)
iterate (list xs) = some (elements xs)
iterate (obj fs) = some (map str (keys fs))
iterate (str s) = some (chars s)
iterate _ = none

get_missing : get "b" (field "a" null end) ≡ null
unfolding get
get_missing = refl

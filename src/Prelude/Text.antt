-- ===== src/Prelude/Text.antt =====
-- Python's text operations that the program uses: `in`, `strip`, `split`, `startswith`, `find`.
use Prim.Native.Nat.{ℕ, zero, suc, ◌+◌, ◌/◌, ◌%◌}
use mathlib.Core.Path.{◌≡◌, refl}
use Prim.Native.Char.{Char, code}
use Prim.Native.String.{String, ◌++◌}
use text.Mathlib.Text.{◌==◌}
use mathlib.Core.Bool.{Bool, true, false, ◌&&◌, ◌||◌}
use mathlib.Core.List.{List, [], ◌∷◌}
use multi_agent_intel_pipeli.Prelude.Tests.{ltb, leb, eqb, if◌then◌else◌}
use multi_agent_intel_pipeli.Prelude.Lists.{any}

-- `key in {a, b, ...}` and `key in xs`
abbrev pub str_mem : String → List String → Bool
str_mem s xs = any (λ t. s == t) xs

-- The code points that `str.strip` and `str.split` take for white space.
unfoldable pub is_space : ℕ → Bool
is_space c =
    (leb 9 c && leb c 13)
    || (leb 28 c && leb c 32)
    || eqb c 133
    || eqb c 160
    || eqb c 5760
    || (leb 8192 c && leb c 8202)
    || eqb c 8232
    || eqb c 8233
    || eqb c 8239
    || eqb c 8287
    || eqb c 12288

unfoldable pub lstrip : String → String
unfolding is_space
lstrip String.[] = String.[]
lstrip (String.◌∷◌ c s) = if is_space (code c) then lstrip s else String.◌∷◌ c s

abbrev pub is_empty : String → Bool
is_empty String.[] = true
is_empty (String.◌∷◌ c s) = false

-- A character is kept if something that is no white space is left from it on.
unfoldable pub rstrip : String → String
unfolding is_space
rstrip String.[] = String.[]
rstrip (String.◌∷◌ c s) =
    let rest = rstrip s in
    if is_empty rest && is_space (code c) then String.[] else String.◌∷◌ c rest

-- `s.strip()`
unfoldable pub strip : String → String
unfolding lstrip rstrip
strip s = rstrip (lstrip s)

-- `bool(s.strip())`
unfoldable pub has_text : String → Bool
unfolding strip
has_text s = if strip s == "" then false else true

-- `bool(s)`
abbrev pub nonempty_text : String → Bool
nonempty_text s = if s == "" then false else true

-- Puts a character before the first piece.
abbrev push : Char → List String → List String
push c [] = String.◌∷◌ c String.[] ∷ []
push c (piece ∷ pieces) = String.◌∷◌ c piece ∷ pieces

-- `s.split(".")`: the pieces between the dots, one at least.
unfoldable pub split_dots : String → List String
split_dots String.[] = "" ∷ []
split_dots (String.◌∷◌ c s) =
    let rest = split_dots s in if eqb (code c) 46 then "" ∷ rest else push c rest

-- The parts of an f-string, one after the other.
abbrev pub concat : List String → String
concat [] = ""
concat (s ∷ ss) = s ++ concat ss

-- `sep.join(pieces)`
abbrev pub join : String → List String → String
join sep [] = ""
join sep (s ∷ []) = s
join sep (s ∷ t ∷ ts) = s ++ (sep ++ join sep (t ∷ ts))

-- `dedup_safe` of utils.py, for texts, beside the texts that were seen.
dedup_from : List String → List String → List String
dedup_from seen [] = []
dedup_from seen (x ∷ xs) =
    let fresh = x ∷ dedup_from (x ∷ seen) xs in
    let skip = dedup_from seen xs in if str_mem x seen then skip else fresh

unfoldable pub dedup_safe : List String → List String
unfolding dedup_from
dedup_safe = dedup_from []

abbrev digit : ℕ → String
digit zero = "0"
digit (suc zero) = "1"
digit (suc (suc zero)) = "2"
digit (suc (suc (suc zero))) = "3"
digit (suc (suc (suc (suc zero)))) = "4"
digit (suc (suc (suc (suc (suc zero))))) = "5"
digit (suc (suc (suc (suc (suc (suc zero)))))) = "6"
digit (suc (suc (suc (suc (suc (suc (suc zero))))))) = "7"
digit (suc (suc (suc (suc (suc (suc (suc (suc zero)))))))) = "8"
digit _ = "9"

-- The fuel is above the number, and so above the count of its digits.
decimal_from : ℕ → ℕ → String
decimal_from zero n = ""
decimal_from (suc fuel) n =
    let front = decimal_from fuel (n / 10) in if ltb n 10 then digit n else front ++ digit (n % 10)

-- `str(n)`
unfoldable pub decimal : ℕ → String
unfolding decimal_from
decimal n = decimal_from (n + 1) n

decimal_large : decimal 20506 ≡ "20506"
unfolding decimal
decimal_large = refl

-- `text.startswith(prefix)`, with the prefix first.
unfoldable pub starts_with : String → String → Bool
starts_with String.[] text = true
starts_with (String.◌∷◌ c prefix) String.[] = false
starts_with (String.◌∷◌ c prefix) (String.◌∷◌ d text) =
    eqb (code c) (code d) && starts_with prefix text

-- `needle in text`
unfoldable pub contains : String → String → Bool
unfolding starts_with
contains needle String.[] = starts_with needle String.[]
contains needle (String.◌∷◌ c text) = starts_with needle (String.◌∷◌ c text) || contains needle text

-- ===== src/Prelude/Maps.antt =====
-- A Python `dict` with text keys: an association list in insertion order. A write to a key that is
-- there replaces its value in place, as Python does.
use Prim.Native.String.{String}
use mathlib.Core.Path.{◌≡◌, refl}
use mathlib.Core.Option.{Option, none, some}
use mathlib.Core.List.{List, [], ◌∷◌}
use native.Mathlib.Omega.{arith}
use text.Mathlib.Text.{◌==◌}
use text.Mathlib.TextEquality.{eq_iff}
use multi_agent_intel_pipeli.Prelude.Tests.{if◌then◌else◌, or_default}

abbrev pub Dict {ℓ} : Type ℓ → Type ℓ
Dict V = List (String × V)

module _ {ℓ} {V : Type ℓ} where
  unfoldable pub lookup : String → Dict V → Option V
  lookup key [] = none
  lookup key ((here, value) ∷ rest) = if here == key then some value else lookup key rest

  -- `m[key] = value`
  unfoldable pub insert : String → V → Dict V → Dict V
  insert key value [] = (key, value) ∷ []
  insert key value ((here, old) ∷ rest) =
      let later = insert key value rest in
      if here == key then (here, value) ∷ rest else (here, old) ∷ later

  -- `m.get(key, default)`
  unfoldable pub get_or : String → V → Dict V → V
  unfolding lookup
  get_or key default m = or_default default (lookup key m)

  pub lookup-insert :
      (key asked : String) (value : V) (m : Dict V)
      → lookup asked (insert key value m) ≡ (if key == asked then some value else lookup asked m)
  unfolding lookup insert
  lookup-insert key asked value [] = refl
  lookup-insert key asked value ((here, old) ∷ rest) =
      let later = lookup-insert key asked value rest in
      ground (arith, later, eq_iff here key, eq_iff here asked, eq_iff key asked)

  pub get_or-insert :
      (key asked : String) (default value : V) (m : Dict V)
      → get_or asked default (insert key value m)
        ≡ (if key == asked then value else get_or asked default m)
  unfolding get_or
  get_or-insert key asked default value m = rw lookup-insert (ground arith)

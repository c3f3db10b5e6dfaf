-- ===== src/Prelude/Strip.antt =====
-- `strip` once more changes nothing.
use Prim.Native.Char.{code}
use Prim.Native.String.{String}
use mathlib.Core.Path.{◌≡◌, refl, ap, ◌∙◌}
use mathlib.Core.Logic.{inl, inr}
use mathlib.Core.Bool.{false, ◌&&◌}
use native.Mathlib.Omega.{arith}
use multi_agent_intel_pipeli.Prelude.Tests.{Bool-cases}
use multi_agent_intel_pipeli.Prelude.Text.{is_space, is_empty, lstrip, rstrip, strip}

rstrip_twice : (s : String) → rstrip (rstrip s) ≡ rstrip s
unfolding rstrip
rstrip_twice String.[] = refl
rstrip_twice (String.◌∷◌ c s) = elim (Bool-cases (is_empty (rstrip s) && is_space (code c))) [
  | inl e ↦ rw e refl
  | inr e ↦ rw (e, rstrip, rstrip_twice s, e) refl
]

-- The text is empty or starts with no white space.
Starts : String → Type 0
Starts String.[] = Unit
Starts (String.◌∷◌ c s) = is_space (code c) ≡ false

lstrip-Starts : (s : String) → Starts (lstrip s)
unfolding lstrip Starts
lstrip-Starts String.[] = tt
lstrip-Starts (String.◌∷◌ c s) = elim (Bool-cases (is_space (code c))) [
  | inl e ↦ rw e (lstrip-Starts s)
  | inr e ↦ rw e e
]

lstrip-rstrip : (s : String) → Starts s → lstrip (rstrip s) ≡ rstrip s
unfolding lstrip rstrip Starts
lstrip-rstrip String.[] h = refl
lstrip-rstrip (String.◌∷◌ c s) h = ground (arith, h)

pub strip_twice : (s : String) → strip (strip s) ≡ strip s
unfolding strip
strip_twice s = ap rstrip (lstrip-rstrip (lstrip s) (lstrip-Starts s)) ∙ rstrip_twice (lstrip s)

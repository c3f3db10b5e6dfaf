-- ===== src/Value/Int.antt =====
-- Sums and differences of Python's integers.
use multi_agent_intel_pipeli.Prelude.{ℕ, ◌+◌, ◌-◌, suc, leb, if◌then◌else◌, ◌≡◌, arith}
use multi_agent_intel_pipeli.Value.{ℤ, pos, negsuc}

abbrev pub pos_part : ℤ → ℕ
pos_part (pos n) = n
pos_part (negsuc n) = 0

abbrev pub neg_part : ℤ → ℕ
neg_part (pos n) = 0
neg_part (negsuc n) = suc n

-- a - b, as an integer.
abbrev pub sub_ℕ : ℕ → ℕ → ℤ
sub_ℕ a b = if leb b a then pos (a - b) else negsuc (b - a - 1)

infixl 65 ◌+ℤ◌ ◌-ℤ◌
unfoldable pub ◌+ℤ◌ : ℤ → ℤ → ℤ
a +ℤ b = sub_ℕ (pos_part a + pos_part b) (neg_part a + neg_part b)

unfoldable pub ◌-ℤ◌ : ℤ → ℤ → ℤ
a -ℤ b = sub_ℕ (pos_part a + neg_part b) (neg_part a + pos_part b)

pub sub_self : (a : ℤ) → a -ℤ a ≡ pos 0
unfolding ◌-ℤ◌
sub_self (pos n) = ground arith
sub_self (negsuc n) = ground arith

pub add_zero : (a : ℤ) → a +ℤ pos 0 ≡ a
unfolding ◌+ℤ◌
add_zero (pos n) = ground arith
add_zero (negsuc n) = ground arith

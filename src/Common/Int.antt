-- ===== src/Common/Int.antt =====
-- Signed durations: integers over the native numbers, in microseconds.
use Prim.Native.Nat.{ℕ, suc, ◌+◌, ◌-◌}
use mathlib.Core.Path.{◌≡◌}
use mathlib.Core.Bool.{Bool}
use native.Mathlib.Omega.{arith}
use portfolio_cv_project.Common.Tests.{leb, ltb, if◌then◌else◌}

-- `negsuc n` is -(n + 1).
pub data ℤ : Type 0 where
  pos : ℕ → ℤ
  negsuc : ℕ → ℤ

abbrev pub pos_part : ℤ → ℕ
pos_part (pos n) = n
pos_part (negsuc n) = 0

abbrev pub neg_part : ℤ → ℕ
neg_part (pos n) = 0
neg_part (negsuc n) = suc n

-- a - b, as an integer.
unfoldable pub sub_ℕ : ℕ → ℕ → ℤ
sub_ℕ a b = if leb b a then pos (a - b) else negsuc (b - a - 1)

infixl 65 ◌+ℤ◌
unfoldable pub ◌+ℤ◌ : ℤ → ℤ → ℤ
unfolding sub_ℕ
a +ℤ b = sub_ℕ (pos_part a + pos_part b) (neg_part a + neg_part b)

-- Whether an integer is at least, or more than, a natural number.
abbrev pub reaches : ℤ → ℕ → Bool
reaches a n = leb (n + neg_part a) (pos_part a)

abbrev pub exceeds : ℤ → ℕ → Bool
exceeds a n = ltb (n + neg_part a) (pos_part a)

-- The two parts of a difference and of a sum, which is all that arithmetic needs of them.
pub sub_ℕ_parts : (a b : ℕ) → pos_part (sub_ℕ a b) + b ≡ neg_part (sub_ℕ a b) + a
unfolding sub_ℕ
sub_ℕ_parts a b = ground arith

pub reaches-sub_ℕ : (a b n : ℕ) → reaches (sub_ℕ a b) n ≡ leb (n + b) a
unfolding sub_ℕ
reaches-sub_ℕ a b n = ground arith

pub exceeds-sub_ℕ : (a b n : ℕ) → exceeds (sub_ℕ a b) n ≡ ltb (n + b) a
unfolding sub_ℕ
exceeds-sub_ℕ a b n = ground arith

-- Elapsed times add up over an intermediate instant.
pub sub_ℕ_chain : (a b c : ℕ) → sub_ℕ b a +ℤ sub_ℕ c b ≡ sub_ℕ c a
unfolding ◌+ℤ◌
sub_ℕ_chain a b c = ground arith

pub sub_ℕ_self : (a : ℕ) → sub_ℕ a a ≡ pos 0
unfolding sub_ℕ
sub_ℕ_self a = ground arith

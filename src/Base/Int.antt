-- ===== src/Base/Int.antt =====
-- Go's `int` (64 bits): signed numbers, their order and equality, and the successor that wraps.
use Prim.Native.Nat.{ℕ, zero, suc, ◌+◌, ◌≤◌, ◌<◌}
use mathlib.Core.Path.{◌≡◌, refl}
use mathlib.Core.Bool.{Bool, true, false}
use mathlib.Core.Logic.{◌↔◌}
use native.Mathlib.Omega.{arith}
use tailhopper.Base.Tests.{ltb, leb, ◌==◌, if◌then◌else◌}

-- `negsuc n` is -(n + 1).
pub data ℤ : Type 0 where
  pos : ℕ → ℤ
  negsuc : ℕ → ℤ

abbrev pub pos_part : ℤ → ℕ
pos_part (pos n) = n
pos_part (negsuc n) = 0

abbrev pub neg_part : ℤ → ℕ
neg_part (pos n) = 0
neg_part (negsuc n) = suc n

infix 50 ◌<ℤ◌ ◌≤ℤ◌
abbrev pub ◌<ℤ◌ : ℤ → ℤ → Type 0
a <ℤ b = pos_part a + neg_part b < pos_part b + neg_part a

abbrev pub ◌≤ℤ◌ : ℤ → ℤ → Type 0
a ≤ℤ b = pos_part a + neg_part b ≤ pos_part b + neg_part a

-- `a < b`, `a <= b` and `a == b`
abbrev pub int_lt : ℤ → ℤ → Bool
int_lt a b = ltb (pos_part a + neg_part b) (pos_part b + neg_part a)

abbrev pub int_le : ℤ → ℤ → Bool
int_le a b = leb (pos_part a + neg_part b) (pos_part b + neg_part a)

unfoldable pub int_eq : ℤ → ℤ → Bool
int_eq (pos m) (pos n) = m == n
int_eq (pos m) (negsuc n) = false
int_eq (negsuc m) (pos n) = false
int_eq (negsuc m) (negsuc n) = m == n

pub int_eq_iff : (a b : ℤ) → (int_eq a b ≡ true) ↔ (a ≡ b)
unfolding int_eq
int_eq_iff (pos m) (pos n) = ground arith
int_eq_iff (pos m) (negsuc n) = ground arith
int_eq_iff (negsuc m) (pos n) = ground arith
int_eq_iff (negsuc m) (negsuc n) = ground arith

pub int_eq_refl : (a : ℤ) → int_eq a a ≡ true
int_eq_refl a = (int_eq_iff a a).1 refl

pub int_antisymm : (a b : ℤ) → a ≤ℤ b → b ≤ℤ a → a ≡ b
int_antisymm (pos m) (pos n) h k = ground arith
int_antisymm (pos m) (negsuc n) h k = ground arith
int_antisymm (negsuc m) (pos n) h k = ground arith
int_antisymm (negsuc m) (negsuc n) h k = ground arith

-- The largest `int`.
abbrev pub max_int : ℕ
max_int = 9223372036854775807

-- `a + 1`, which wraps round to the smallest `int`.
unfoldable pub int_succ : ℤ → ℤ
int_succ (pos n) = if n == max_int then negsuc max_int else pos (suc n)
int_succ (negsuc zero) = pos 0
int_succ (negsuc (suc n)) = negsuc n

pub int_succ-lt : (a : ℤ) → a <ℤ pos max_int → a <ℤ int_succ a
unfolding int_succ
int_succ-lt (pos n) h = ground arith
int_succ-lt (negsuc zero) h = omega arith
int_succ-lt (negsuc (suc n)) h = omega arith

-- ===== src/Prelude/Int.antt =====
-- Java's `Long` and `Integer` values: `negsuc n` is -(n + 1). Ranges are written out where the
-- source computes.
use Prim.Native.Nat.{ℕ, suc, ◌≤◌, ◌+◌, ◌-◌, ◌^◌}
use mathlib.Core.Path.{◌≡◌}
use mathlib.Core.Logic.{◌↔◌}
use mathlib.Core.Bool.{Bool, true, false}
use native.Mathlib.Omega.{arith}
use web_socketaa_s.Prelude.Tests.{ltb, leb, nat_eq, if◌then◌else◌}

pub data ℤ : Type 0 where
  pos : ℕ → ℤ
  negsuc : ℕ → ℤ

abbrev pub int_eq : ℤ → ℤ → Bool
int_eq (pos a) (pos b) = nat_eq a b
int_eq (negsuc a) (negsuc b) = nat_eq a b
int_eq _ _ = false

abbrev pub int_le : ℤ → ℤ → Bool
int_le (pos a) (pos b) = leb a b
int_le (pos a) (negsuc b) = false
int_le (negsuc a) (pos b) = true
int_le (negsuc a) (negsuc b) = leb b a

pub int_eq_iff : (a b : ℤ) → (int_eq a b ≡ true) ↔ (a ≡ b)
int_eq_iff (pos a) (pos b) = ground arith
int_eq_iff (negsuc a) (negsuc b) = ground arith
int_eq_iff (pos a) (negsuc b) = ground arith
int_eq_iff (negsuc a) (pos b) = ground arith

-- `n > 0`
abbrev pub is_positive : ℤ → Bool
is_positive (pos n) = ltb 0 n
is_positive (negsuc n) = false

-- a - b on `int`, where b is not negative: below -2^31 the value wraps by 2^32
abbrev pub int_sub : ℤ → ℕ → ℤ
int_sub (pos a) b = if leb b a then pos (a - b) else negsuc (b - a - 1)
int_sub (negsuc a) b = if ltb (a + b) (2 ^ 31) then negsuc (a + b) else pos (2 ^ 32 - 1 - (a + b))

abbrev pub pos_part : ℤ → ℕ
pos_part (pos n) = n
pos_part (negsuc n) = 0

abbrev pub neg_part : ℤ → ℕ
neg_part (pos n) = 0
neg_part (negsuc n) = suc n

infix 50 ◌≤ℤ◌
abbrev pub ◌≤ℤ◌ : ℤ → ℤ → Type 0
a ≤ℤ b = pos_part a + neg_part b ≤ pos_part b + neg_part a

pub int_le_iff : (a b : ℤ) → (int_le a b ≡ true) ↔ (a ≤ℤ b)
int_le_iff (pos a) (pos b) = ground arith
int_le_iff (negsuc a) (negsuc b) = ground arith
int_le_iff (pos a) (negsuc b) = ground arith
int_le_iff (negsuc a) (pos b) = ground arith

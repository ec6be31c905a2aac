-- ===== src/Base/Int.antt =====
-- C's `int` as a signed integer. The program's own `int`s hold identifiers, counters and the mark -1,
-- and stay far from the ends of the 32-bit range, so no wrap-around is written out for them; `atoi`,
-- which can meet those ends, has its bounds written out where it stands.
use Prim.Native.Nat.{ℕ, zero, suc, ◌+◌, ◌-◌, ◌/◌, ◌%◌}
use mathlib.Core.Path.{◌≡◌}
use mathlib.Core.Logic.{◌≢◌, ◌↔◌}
use mathlib.Core.Bool.{Bool, true, false}
use native.Mathlib.Omega.{arith}
use fleetos.Base.Tests.{◌==◌, ltb, if◌then◌else◌}

-- `negsuc n` is -(n + 1).
pub data ℤ : Type 0 where
  pos : ℕ → ℤ
  negsuc : ℕ → ℤ

-- -1, the program's mark for "no process", "no frame", "no block".
abbrev pub minus_one : ℤ
minus_one = negsuc 0

-- The value as an array index; the program has tested that it is not negative.
abbrev pub index : ℤ → ℕ
index (pos n) = n
index (negsuc n) = 0

abbrev pub is_neg : ℤ → Bool
is_neg (pos n) = false
is_neg (negsuc n) = true

abbrev pub eq_int : ℤ → ℤ → Bool
eq_int (pos a) (pos b) = a == b
eq_int (negsuc a) (negsuc b) = a == b
eq_int _ _ = false

abbrev pub suc_int : ℤ → ℤ
suc_int (pos n) = pos (suc n)
suc_int (negsuc zero) = pos 0
suc_int (negsuc (suc n)) = negsuc n

abbrev pub pred_int : ℤ → ℤ
pred_int (pos zero) = negsuc 0
pred_int (pos (suc n)) = pos n
pred_int (negsuc n) = negsuc (suc n)

-- `a - b` of two naturals.
abbrev pub sub_nat : ℕ → ℕ → ℤ
sub_nat a b = if ltb a b then negsuc (b - a - 1) else pos (a - b)

infixl 65 ◌+ℤ◌
abbrev pub ◌+ℤ◌ : ℤ → ℤ → ℤ
pos a +ℤ pos b = pos (a + b)
pos a +ℤ negsuc b = sub_nat a (suc b)
negsuc a +ℤ pos b = sub_nat b (suc a)
negsuc a +ℤ negsuc b = negsuc (suc (a + b))

-- -n
abbrev pub negate : ℕ → ℤ
negate zero = pos 0
negate (suc n) = negsuc n

-- `a / n` and `a % n`: C rounds towards 0, and the remainder has the sign of `a`.
abbrev pub quot_int : ℤ → ℕ → ℤ
quot_int (pos a) n = pos (a / n)
quot_int (negsuc a) n = negate (suc a / n)

abbrev pub rem_int : ℤ → ℕ → ℤ
rem_int (pos a) n = pos (a % n)
rem_int (negsuc a) n = negate (suc a % n)

-- `0 < a`
abbrev pub is_positive : ℤ → Bool
is_positive (pos n) = ltb 0 n
is_positive (negsuc n) = false

pub eq_int_iff : (a b : ℤ) → (eq_int a b ≡ true) ↔ (a ≡ b)
eq_int_iff a b = ground arith

pub eq_int_refl : (a : ℤ) → eq_int a a ≡ true
eq_int_refl a = ground arith

pub eq_int_ne : (a b : ℤ) → a ≢ b → eq_int a b ≡ false
eq_int_ne a b h = ground arith

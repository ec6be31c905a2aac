-- ===== src/Base/Text.antt =====
-- C strings as lists of bytes without the closing NUL, with what string.h and stdio.h do to them.
use Prim.Native.Nat.{ℕ, zero, suc, ◌+◌, ◌/◌, ◌%◌}
use Prim.Native.Char.{code}
use Prim.Native.String.{String}
use mathlib.Core.Path.{◌≡◌, refl}
use mathlib.Core.Logic.{◌↔◌}
use mathlib.Core.List.{List, [], ◌∷◌}
use mathlib.Core.Bool.{Bool, true, false}
use native.Mathlib.Omega.{arith}
use fleetos.Base.Tests.{◌==◌, ltb, if◌then◌else◌}
use fleetos.Base.Int.{ℤ, pos, negsuc}

-- The bytes of an ASCII text.
abbrev pub bytes : String → List ℕ
bytes String.[] = []
bytes (String.◌∷◌ c s) = code c ∷ bytes s

-- `strcmp(a, b) == 0`
unfoldable pub same_text : List ℕ → List ℕ → Bool
same_text [] [] = true
same_text [] (y ∷ ys) = false
same_text (x ∷ xs) [] = false
same_text (x ∷ xs) (y ∷ ys) = if x == y then same_text xs ys else false

-- `strncmp(text, prefix, strlen(prefix)) == 0`
unfoldable pub has_prefix : List ℕ → List ℕ → Bool
has_prefix [] text = true
has_prefix (p ∷ prefix) [] = false
has_prefix (p ∷ prefix) (x ∷ text) = if p == x then has_prefix prefix text else false

-- The decimal digits of `n`; `n + 1` rounds are more than it has digits.
unfoldable pub decimal_loop : ℕ → ℕ → List ℕ → List ℕ
decimal_loop zero n acc = acc
decimal_loop (suc fuel) n acc =
    let more = decimal_loop fuel (n / 10) ((48 + n % 10) ∷ acc) in
    if ltb n 10 then (48 + n) ∷ acc else more

-- `%d`
unfoldable pub print_int : ℤ → List ℕ
unfolding decimal_loop
print_int (pos n) = decimal_loop (suc n) n []
print_int (negsuc n) = b'-' ∷ decimal_loop (suc (suc n)) (suc n) []

pub same_text_iff : (xs ys : List ℕ) → (same_text xs ys ≡ true) ↔ (xs ≡ ys)
unfolding same_text
same_text_iff [] [] = ground arith
same_text_iff [] (y ∷ ys) = ground arith
same_text_iff (x ∷ xs) [] = ground arith
same_text_iff (x ∷ xs) (y ∷ ys) = ground (arith, same_text_iff xs ys)

pub same_text_refl : (xs : List ℕ) → same_text xs xs ≡ true
same_text_refl xs = (same_text_iff xs xs).1 refl

-- ===== src/Base/Arrays.antt =====
-- Loops over C arrays that several components share.
use Prim.Native.Nat.{ℕ, zero, suc, ◌≤◌}
use mathlib.Core.Path.{◌≡◌, refl, ap}
use mathlib.Core.List.{List, [], ◌∷◌}
use native.Mathlib.Omega.{arith}
use fleetos.Base.Lists.{length, take}

module _ {ℓ} {A : Type ℓ} where
  -- `for (i = 1; i <= n; i++) a[i - 1] = a[i];`
  abbrev pub shift_down : ℕ → List A → List A
  shift_down zero xs = xs
  shift_down (suc n) [] = []
  shift_down (suc n) (x ∷ []) = x ∷ []
  shift_down (suc n) (x ∷ y ∷ xs) = y ∷ shift_down n (y ∷ xs)

  pub length-shift_down : (n : ℕ) (xs : List A) → length (shift_down n xs) ≡ length xs
  length-shift_down zero xs = refl
  length-shift_down (suc n) [] = refl
  length-shift_down (suc n) (x ∷ []) = refl
  length-shift_down (suc n) (x ∷ y ∷ xs) = ap suc (length-shift_down n (y ∷ xs))

  -- The loop drops the first entry of the live part.
  pub take-shift_down :
      (n : ℕ) (x : A) (xs : List A) → n ≤ length xs → take n (shift_down n (x ∷ xs)) ≡ take n xs
  take-shift_down zero x xs h = refl
  take-shift_down (suc n) x [] h = absurd (omega arith)
  take-shift_down (suc n) x (y ∷ xs) h = ap (◌∷◌ y) (take-shift_down n y xs (omega arith))

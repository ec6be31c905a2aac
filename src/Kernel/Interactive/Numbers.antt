-- ===== src/Kernel/Interactive/Numbers.antt =====
-- `atoi`, as src/kernel.c and src/main.c use it, reads back what `%d` prints.
use fleetos.Base.{
  ℕ, zero, suc, ◌+◌, ◌*◌, ◌/◌, ◌%◌, ◌^◌, ◌<◌, ◌≡◌, refl, sym, ap, ◌∙◌, Bool-cases, inl, inr, arith,
  List, [], ◌∷◌, ltb, pos, decimal_loop, print_int,
}
use fleetos.Kernel.Interactive.{read_digits, read_signed, read_number, clamp_long, to_int, atoi}

-- One digit more.
read_digits-digit :
    (a d : ℕ) (text : List ℕ)
    → d < 10
    → read_digits a ((48 + d) ∷ text) ≡ read_digits (a * 10 + d) text
unfolding read_digits
read_digits-digit a d text h = ground arith

read_digits-decimal_loop :
    (fuel n : ℕ) (text : List ℕ)
    → n < fuel
    → read_digits 0 (decimal_loop fuel n text) ≡ read_digits n text
unfolding decimal_loop
read_digits-decimal_loop zero n text h = absurd (omega arith)
read_digits-decimal_loop (suc fuel) n text h = elim (Bool-cases (ltb n 10)) [
  | inl small ↦
      rw small
        (read_digits-digit 0 n text (ground arith) ∙ ap (λ m. read_digits m text) (omega arith))
  | inr large ↦ rw large (
      read_digits-decimal_loop fuel (n / 10) ((48 + n % 10) ∷ text) (ground arith)
      ∙ read_digits-digit (n / 10) (n % 10) text (omega arith)
      ∙ ap (λ m. read_digits m text) (omega arith))
]

-- The text starts with a digit.
abbrev Digits : List ℕ → Type 0
Digits text = (d : ℕ) × (rest : List ℕ) × (d < 10) × (text ≡ (48 + d) ∷ rest)

decimal_loop-Digits : (fuel n : ℕ) (text : List ℕ) → Digits text → Digits (decimal_loop fuel n text)
unfolding decimal_loop
decimal_loop-Digits zero n text h = h
decimal_loop-Digits (suc fuel) n text h = elim (Bool-cases (ltb n 10)) [
  | inl small ↦ rw small (n, text, ground arith, refl)
  | inr large ↦
      rw large
        (decimal_loop-Digits fuel (n / 10) ((48 + n % 10) ∷ text) (n % 10, text, omega arith, refl))
]

print_int-Digits : (n : ℕ) → Digits (print_int (pos n))
unfolding print_int decimal_loop
print_int-Digits n = elim (Bool-cases (ltb n 10)) [
  | inl small ↦ rw small (n, [], ground arith, refl)
  | inr large ↦
      rw large (decimal_loop-Digits n (n / 10) ((48 + n % 10) ∷ []) (n % 10, [], omega arith, refl))
]

read_number-digits :
    (d : ℕ) (rest : List ℕ)
    → d < 10
    → read_number ((48 + d) ∷ rest) ≡ pos (read_digits 0 ((48 + d) ∷ rest))
unfolding read_number read_signed
read_number-digits d rest h = ground arith

read_number-print_int : (n : ℕ) → read_number (print_int (pos n)) ≡ pos n
unfolding print_int read_digits
read_number-print_int n =
    let (d, rest, small, e) = print_int-Digits n in
    ap read_number e
    ∙ read_number-digits d rest small
    ∙ ap (λ text. pos (read_digits 0 text)) (sym e)
    ∙ ap pos (read_digits-decimal_loop (suc n) n [] (omega arith))

to_int-small : (n : ℕ) → n < 2 ^ 31 → to_int (clamp_long (pos n)) ≡ pos n
unfolding to_int clamp_long
to_int-small n h = ground arith

-- A natural number within `int` that `%d` prints is read back by `atoi`.
pub atoi-print_int : (n : ℕ) → n < 2 ^ 31 → atoi (print_int (pos n)) ≡ pos n
unfolding atoi
atoi-print_int n h = ap (λ x. to_int (clamp_long x)) (read_number-print_int n) ∙ to_int-small n h

-- ===== src/Kernel/Interactive/Steps.antt =====
-- How many rounds a line typed in the interactive mode of src/kernel.c lets pass.
use fleetos.Base.{
  ℕ, zero, suc, ◌<◌, ◌^◌, ◌≡◌, refl, ap, ◌∙◌, true, false, ltb, ◌==◌, Bool-cases, inl, inr, arith,
  List, [], ◌∷◌, ◌++◌, pos, Option, none, some, bytes, same_text, has_prefix, print_int, replicate,
}
use fleetos.Kernel.{Kernel}
use fleetos.Kernel.Interactive.{obey_line, waits, pause_idle, count_step, process_interactive}
use fleetos.Kernel.Interactive.Numbers.{atoi-print_int}

-- `n` calls of `process_interactive`, as `n` rounds of `kernel_run` make them.
unfoldable pub calls : ℕ → List (List ℕ) → Kernel → Option (Kernel × List (List ℕ))
calls zero lines k = some (k, lines)
calls (suc n) lines k = elim (process_interactive lines k) [
  | none ↦ none
  | some (l, rest) ↦ calls n rest l
]

-- `run ` and the number.
abbrev pub run_line : ℕ → List ℕ
run_line n = bytes "run " ++ print_int (pos n)

-- A kernel that owes `n` rounds.
abbrev pub stepping : ℕ → Kernel → Kernel
stepping n k = record k { step_target = n; interactive_paused = false }

one_step :
    (n : ℕ) (lines : List (List ℕ)) (k : Kernel)
    → process_interactive lines (stepping (suc n) k) ≡ some (stepping n k, lines)
unfolding process_interactive count_step
one_step n [] k =
    let owes : (suc n == 0) ≡ false = ground arith in
    rw owes (ap (λ m. some (stepping m k, [])) (omega arith))
one_step n (line ∷ lines) k =
    let owes : (suc n == 0) ≡ false = ground arith in
    rw owes (ap (λ m. some (stepping m k, line ∷ lines)) (omega arith))

calls_next :
    (n : ℕ) (lines rest : List (List ℕ)) (k l : Kernel)
    → process_interactive lines k ≡ some (l, rest)
    → calls (suc n) lines k ≡ calls n rest l
unfolding calls
calls_next n lines rest k l e =
    ap
      (λ (o : Option (Kernel × List (List ℕ))). elim o as (λ _. Option (Kernel × List (List ℕ))) [
        | none ↦ none
        | some (l, rest) ↦ calls n rest l
      ])
      e

calls-stepping :
    (n : ℕ) (lines : List (List ℕ)) (k : Kernel)
    → calls n lines (stepping n k) ≡ some (stepping 0 k, lines)
unfolding calls
calls-stepping zero lines k = refl
calls-stepping (suc n) lines k =
    calls_next n lines lines (stepping (suc n) k) (stepping n k) (one_step n lines k)
    ∙ calls-stepping n lines k

obey_line-run_line :
    (n : ℕ) (k : Kernel)
    → suc n < 2 ^ 31
    → obey_line (run_line (suc n)) (pause_idle k) ≡ stepping (suc n) k
unfolding obey_line same_text has_prefix pause_idle
obey_line-run_line n k h =
    let read = atoi-print_int (suc n) h in
    let positive : ltb 0 (suc n) ≡ true = ground arith in
    elim (Bool-cases (k.step_target == 0)) [
      | inl idle ↦ rw (read, positive, idle) refl
      | inr owing ↦ rw (read, positive, owing) refl
    ]

first_call :
    (n : ℕ) (lines : List (List ℕ)) (k : Kernel)
    → waits k ≡ true
    → suc n < 2 ^ 31
    → process_interactive (run_line (suc n) ∷ lines) k
      ≡ process_interactive lines (stepping (suc n) k)
unfolding process_interactive same_text
first_call n lines k w h =
    rw (w, process_interactive) (ap (process_interactive lines) (obey_line-run_line n k h))

-- In a kernel that waits for a command, the line `run N`, with an N in decimal that is above 0 and below
-- 2 ^ 31, lets exactly the next N calls return: they read no further line, and then the kernel owes no
-- more rounds.
pub calls-run_line :
    (n : ℕ) (lines : List (List ℕ)) (k : Kernel)
    → waits k ≡ true
    → suc n < 2 ^ 31
    → calls (suc n) (run_line (suc n) ∷ lines) k ≡ some (stepping 0 k, lines)
calls-run_line n lines k w h =
    calls_next n (run_line (suc n) ∷ lines) lines k (stepping n k)
      (first_call n lines k w h ∙ one_step n lines k)
    ∙ calls-stepping n lines k

-- The line `run` alone never lets a round pass: a kernel that waits for a command and is given this
-- line, any number of times, waits on.
pub run_waits :
    (n : ℕ) (k : Kernel) → waits k ≡ true → process_interactive (replicate n (bytes "run")) k ≡ none
unfolding process_interactive obey_line pause_idle same_text has_prefix
run_waits zero k w = rw (w, process_interactive) refl
run_waits (suc n) k w =
    rw (w, process_interactive)
      (run_waits n (record (pause_idle k) { step_target = 0; interactive_paused = false }) refl)

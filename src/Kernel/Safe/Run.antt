-- ===== src/Kernel/Safe/Run.antt =====
-- `kernel_run` of src/kernel.c with a tick limit: it returns, and leaves the kernel safe.
use fleetos.Base.{
  ℕ, zero, suc, ◌+◌, ◌≤◌, ◌≡◌, refl, sym, ap, ◌∙◌, subst, true, false, Bool-cases, inl, inr, arith,
  List, pos, Option, none, some,
}
use fleetos.Process.{Pcb}
use fleetos.Procs.Fate.{Fate, Fate-refl, Fate-trans}
use fleetos.Kernel.{Kernel, KernelConfig}
use fleetos.Kernel.Tick.{kernel_stages, any_alive, count_tick}
use fleetos.Kernel.Run.{at_limit, listen, with_stages, kernel_run}
use fleetos.Kernel.Safe.{IsSafe, IsSound, Returns, frame_of, restart}
use fleetos.Kernel.Safe.Stages.{kernel_stages-Returns}

-- What a run with the limit `limit` returns that starts with the process table `procs`.
abbrev Ends : List Pcb → ℕ → Option Kernel → Type 0
Ends procs limit o =
    (k : Kernel) × (o ≡ some k) × IsSound k × (k.current_tick ≤ limit) × Fate procs k.all_procs

-- A run that starts with an earlier table.
since :
    (ps qs : List Pcb) (limit : ℕ) (o : Option Kernel)
    → Fate ps qs
    → Ends qs limit o
    → Ends ps limit o
since ps qs limit o fate (k, ended, sound, within, later) =
    (k, ended, sound, within, Fate-trans ps qs k.all_procs fate later)

one_round :
    (n : ℕ) (lines : List (List ℕ)) (k : Kernel)
    → k.running ≡ true
    → at_limit k ≡ false
    → k.config.interactive ≡ false
    → kernel_run (suc n) lines k ≡ with_stages (kernel_stages k) (kernel_run n lines)
unfolding kernel_run listen
one_round n lines k runs below quiet = ground arith

stopped :
    (n : ℕ) (lines : List (List ℕ)) (k : Kernel)
    → k.running ≡ false
    → kernel_run (suc n) lines k ≡ some k
unfolding kernel_run
stopped n lines k e = ground arith

at_end :
    (n : ℕ) (lines : List (List ℕ)) (k : Kernel)
    → at_limit k ≡ true
    → kernel_run (suc n) lines k ≡ some k
unfolding kernel_run
at_end n lines k e = ground arith

-- A round's result, and the rounds after it.
module _ (limit : ℕ) (next : Kernel → Option Kernel) (k : Kernel)
    (below : suc k.current_tick ≤ limit)
    (later : (l : Kernel)
      → IsSafe (frame_of k) l
      → Ends k.all_procs limit (next (count_tick l))) where
  after_round :
      (o : Option Kernel) → Returns (frame_of k) o → Ends k.all_procs limit (with_stages o next)
  after_round none v = absurd v
  after_round (some l) v = elim (Bool-cases (any_alive l)) [
    | inl alive ↦ rw alive (later l v)
    | inr over ↦
        rw over (l, refl, restart l.current_tick v, omega (arith, v.same_tick, below), v.fate)
  ]

-- The limit is reached exactly when the tick says so.
limit_seen :
    (k : Kernel) (m : ℕ)
    → k.config.max_ticks ≡ pos (suc m)
    → at_limit k ≡ false
    → suc k.current_tick ≤ suc m
limit_seen k m limit below = ground arith

-- A run below its tick limit, with input off, ends within one round more than there are ticks left:
-- no fuel runs out, no walk of the file system strays, and every search for a deadlock ends. The tick
-- is at most the limit then, the kernel is safe, and the table holds the same processes, with those
-- terminated that were.
pub kernel_run-Ends :
    (n : ℕ) (lines : List (List ℕ)) (k : Kernel) (m : ℕ)
    → IsSound k
    → k.config.interactive ≡ false
    → k.config.max_ticks ≡ pos (suc m)
    → k.current_tick ≤ suc m
    → suc m ≤ k.current_tick + n
    → Ends k.all_procs (suc m) (kernel_run (suc n) lines k)
unfolding count_tick
kernel_run-Ends zero lines k m v quiet limit within enough = elim (Bool-cases k.running) [
  | inr halted ↦ (k, stopped 0 lines k halted, v, within, Fate-refl k.all_procs)
  | inl runs ↦ elim (Bool-cases (at_limit k)) [
    | inl reached ↦ (k, at_end 0 lines k reached, v, within, Fate-refl k.all_procs)
    | inr below ↦ absurd (omega (arith, limit_seen k m limit below, enough))
  ]
]
kernel_run-Ends (suc n) lines k m v quiet limit within enough = elim (Bool-cases k.running) [
  | inr halted ↦ (k, stopped (suc n) lines k halted, v, within, Fate-refl k.all_procs)
  | inl runs ↦ elim (Bool-cases (at_limit k)) [
    | inl reached ↦ (k, at_end (suc n) lines k reached, v, within, Fate-refl k.all_procs)
    | inr below ↦
        subst (Ends k.all_procs (suc m)) (sym (one_round (suc n) lines k runs below quiet)) (
          after_round (suc m) (kernel_run (suc n) lines) k (limit_seen k m limit below)
            (λ l w. since k.all_procs l.all_procs (suc m) _ w.fate (
              kernel_run-Ends n lines (count_tick l) m (restart (l.current_tick + 1) w)
                (ap (λ (c : KernelConfig). c.interactive) w.same_config ∙ quiet)
                (ap (λ (c : KernelConfig). c.max_ticks) w.same_config ∙ limit)
                (omega (arith, w.same_tick, limit_seen k m limit below))
                (omega (arith, w.same_tick, enough))))
            (kernel_stages k) (kernel_stages-Returns k v))
  ]
]

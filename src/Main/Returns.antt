-- ===== src/Main/Returns.antt =====
-- `main` of src/main.c returns: one simulation, or the two of the comparison.
use fleetos.Base.{ℕ, suc, ◌≢◌, List}
use fleetos.Types.{ThreadState}
use fleetos.Thread.{Tcb}
use fleetos.Process.{Pcb}
use fleetos.Kernel.{Kernel}
use fleetos.Kernel.Safe.Boot.{enough_memory}
use fleetos.Main.{Machine, Outcome}

-- Memory for every allocation, and one round of the loop more than the limit.
abbrev pub enough : ℕ → List (List ℕ) → (ℕ → Tcb) → (ℕ → Pcb) → Machine
enough limit lines threads procs = record {
  memory = enough_memory threads procs;
  fuel = suc (suc limit);
  lines = lines;
}

abbrev Idle : Kernel → Type 0
Idle k = (t : ℕ) → (k.sched.threads t).state ≢ ThreadState.running

-- ===== src/Kernel/Metrics.antt =====
-- `kernel_get_metrics` of src/kernel.c. An average, which C computes as a `double`, is the quotient of
-- two integers as it stands, 0 over 1 where C gives 0.0.
pub mod Exact
use fleetos.Base.{
  ℕ, suc, ◌+◌, ◌*◌, ◌≤◌, ◌≡◌, refl, subst, if◌then◌else◌, ltb, arith, List, [], ◌∷◌, length, ℤ,
  ◌+ℤ◌, sub_nat, pos, negsuc, index, is_neg, Bool, true, false, Bool-cases, inl, inr,
}
use Prim.Native.String.{String}
use native.Mathlib.Nat.{mul-le-mul_left}
use fleetos.Types.{ProcessState, sched_mode_to_string, same_process_state}
use fleetos.Process.{Pcb}
use fleetos.Kernel.{Kernel}

pub record Average : Type 0 where
  pub sum : ℤ
  pub over : ℕ

pub record KernelMetrics : Type 0 where
  pub mode : String
  pub ticks_run : ℕ
  pub context_switches : ℕ
  pub priority_boosts : ℕ
  pub total_wait : ℕ
  pub max_wait : ℕ
  pub avg_wait : Average
  pub avg_turnaround : Average
  pub max_turnaround : ℤ
  pub terminated_count : ℕ

-- The local variables of the loop.
pub record Sums : Type 0 where
  pub total_wait : ℕ
  pub max_wait : ℕ
  pub term_count : ℕ
  pub total_turnaround : ℤ
  pub max_turnaround : ℤ
  pub turnaround_count : ℕ

abbrev pub no_sums : Sums
no_sums = record {
  total_wait = 0;
  max_wait = 0;
  term_count = 0;
  total_turnaround = pos 0;
  max_turnaround = pos 0;
  turnaround_count = 0;
}

-- `a < b` on two integers.
abbrev pub less_int : ℤ → ℤ → Bool
less_int (pos a) (pos b) = ltb a b
less_int (negsuc a) (negsuc b) = ltb b a
less_int (negsuc a) (pos b) = true
less_int (pos a) (negsuc b) = false

-- The part of a round for a process that has ended.
unfoldable pub sum_turnaround : Pcb → Sums → Sums
sum_turnaround p a =
    let ta = sub_nat (index p.completion_tick) p.arrival_time in
    if is_neg p.completion_tick then a else record a {
      total_turnaround = a.total_turnaround +ℤ ta;
      max_turnaround = if less_int a.max_turnaround ta then ta else a.max_turnaround;
      turnaround_count = a.turnaround_count + 1;
    }

abbrev pub is_terminated : Pcb → Bool
is_terminated p = same_process_state p.state ProcessState.terminated

-- One round of the loop.
unfoldable pub sum_process : Pcb → Sums → Sums
sum_process p a = sum_turnaround p (record a {
  term_count = if is_terminated p then a.term_count + 1 else a.term_count;
  total_wait = a.total_wait + p.wait_time;
  max_wait = if ltb a.max_wait p.wait_time then p.wait_time else a.max_wait;
})

unfoldable pub sum_processes : List Pcb → Sums → Sums
sum_processes [] a = a
sum_processes (p ∷ ps) a = sum_processes ps (sum_process p a)

unfoldable pub average : ℤ → ℕ → Average
average sum count =
    if ltb 0 count then record { sum = sum; over = count } else record { sum = pos 0; over = 1 }

unfoldable pub kernel_get_metrics : Kernel → KernelMetrics
kernel_get_metrics k =
    let a = sum_processes k.all_procs no_sums in
    record {
      mode = sched_mode_to_string k.config.sched_mode;
      ticks_run = k.current_tick;
      context_switches = k.sched.context_switches;
      priority_boosts = k.sched.priority_boost_count;
      total_wait = a.total_wait;
      max_wait = a.max_wait;
      avg_wait = average (pos a.total_wait) (length k.all_procs);
      avg_turnaround = average a.total_turnaround a.turnaround_count;
      max_turnaround = a.max_turnaround;
      terminated_count = a.term_count;
    }

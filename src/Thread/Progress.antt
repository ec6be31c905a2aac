-- ===== src/Thread/Progress.antt =====
-- What repeated `thread_execute` does to a running thread, in src/thread.c.
use native.Mathlib.Nat.{mod-add-mod, mod-eq_of_lt}
use fleetos.Base.{
  ℕ, zero, suc, ◌+◌, ◌-◌, ◌%◌, ◌<◌, ◌≤◌, ◌≡◌, refl, ap, sym, ◌∙◌, List, [], ◌∷◌, arith, get_or, min,
  ℤ, pos, some, length, false, ◌==◌,
}
use fleetos.Types.{ThreadState, BlockReason, CommandType, compute, no_reason, max_commands}
use fleetos.Thread.{
  Tcb, copy_commands, thread_create, thread_block, thread_unblock, thread_execute,
  thread_current_command,
}

-- A thread between two ticks: at the start of a command of its program.
pub record IsRunnable (t : Tcb) : Type 0 where
  pub running : t.state ≡ ThreadState.running
  pub one_tick : t.command_ticks_remaining ≡ pos 1
  pub has_commands : 0 < t.command_count
  pub pc_within : t.local_pc < t.command_count

pub execute_times : ℕ → Tcb → Tcb
execute_times zero t = t
execute_times (suc k) t = execute_times k (thread_execute t)

-- A tick with work left ends the command, which is one tick long.
execute_step :
    (t : Tcb) (n : ℕ)
    → IsRunnable t
    → t.burst_remaining ≡ pos (suc n)
    → thread_execute t ≡ record t {
      local_pc = (t.local_pc + 1) % t.command_count;
      command_ticks_remaining = pos 1;
      burst_remaining = pos n;
    }
unfolding thread_execute
execute_step t n v e = ground arith

execute_idle : (t : Tcb) → t.burst_remaining ≡ pos 0 → thread_execute t ≡ t
unfolding thread_execute
execute_idle t e = ground arith

pub record Progress (t : Tcb) (k n : ℕ) (t' : Tcb) : Type 0 where
  pub burst : t'.burst_remaining ≡ pos (n - k)
  pub pc : t'.local_pc ≡ (t.local_pc + min k n) % t.command_count
  pub state : t'.state ≡ ThreadState.running
  pub program : (t'.commands ≡ t.commands) × (t'.command_count ≡ t.command_count)

-- `k` calls of `thread_execute` on a running thread with `n` ticks of work, at the start of a
-- command, leave `n - k` ticks, stopping at 0; the program counter has gone on by one command for
-- each tick worked, round the program; the thread still runs the same program.
pub execute_times-Progress :
    (k n : ℕ) (t : Tcb)
    → IsRunnable t
    → t.burst_remaining ≡ pos n
    → Progress t k n (execute_times k t)
unfolding execute_times
execute_times-Progress zero n t v e = record {
  burst = e ∙ ap pos (omega arith);
  pc = sym (ap (λ i. i % t.command_count) (omega arith) ∙ mod-eq_of_lt v.pc_within);
  state = v.running;
  program = (refl, refl);
}
execute_times-Progress (suc k) zero t v e =
    let ih = execute_times-Progress k zero t v e in
    rw (execute_idle t e) (record {
      burst = ih.burst ∙ ap pos (omega arith);
      pc = ih.pc ∙ ap (λ i. (t.local_pc + i) % t.command_count) (omega arith);
      state = ih.state;
      program = ih.program;
    })
execute_times-Progress (suc k) (suc n) t v e =
    let t1 : Tcb = record t {
      local_pc = (t.local_pc + 1) % t.command_count;
      command_ticks_remaining = pos 1;
      burst_remaining = pos n;
    } in
    let ih = execute_times-Progress k n t1 (runnable t v) refl in
    rw (execute_step t n v e) (record {
      burst = ih.burst ∙ ap pos (omega arith);
      pc =
          ih.pc
          ∙ mod-add-mod (t.local_pc + 1) t.command_count (min k n)
          ∙ ap (λ i. i % t.command_count) (omega arith);
      state = ih.state;
      program = ih.program;
    })
  where
    runnable :
        (t : Tcb)
        → IsRunnable t
        → IsRunnable (record t {
          local_pc = (t.local_pc + 1) % t.command_count;
          command_ticks_remaining = pos 1;
          burst_remaining = pos n;
        })
    runnable t v = ground (arith, v.has_commands)

-- A thread that is blocked and woken is ready for no reason to wait, and is otherwise unchanged.
pub unblock-block :
    (t : Tcb) (why : BlockReason)
    → thread_unblock (thread_block t why)
      ≡ record t { state = ThreadState.ready; wait_reason = no_reason }
unfolding thread_unblock thread_block
unblock-block t why = refl

get_or-copy_commands :
    (n i : ℕ) (from to : List CommandType) (d : CommandType)
    → i < n
    → n ≤ length from
    → n ≤ length to
    → get_or (copy_commands n from to) i d ≡ get_or from i d
get_or-copy_commands zero i from to d h f t = absurd (omega arith)
get_or-copy_commands (suc n) i [] to d h f t = absurd (omega arith)
get_or-copy_commands (suc n) i (c ∷ from) [] d h f t = absurd (omega arith)
get_or-copy_commands (suc n) zero (c ∷ from) (x ∷ to) d h f t = refl
get_or-copy_commands (suc n) (suc i) (c ∷ from) (x ∷ to) d h f t =
    get_or-copy_commands n i from to d (omega arith) (omega arith) (omega arith)

at_command :
    (t : Tcb) (n : ℕ) (program : List CommandType) (i : ℕ)
    → 0 < n
    → t.commands ≡ program
    → t.command_count ≡ n
    → t.local_pc ≡ i % n
    → thread_current_command t ≡ get_or program (i % n) compute
unfolding thread_current_command
at_command t n program i h c e p =
    rw (c, e, p)
      (rw (is_positive_count n h) (ap (λ k. get_or program k compute) (mod-eq_of_lt (omega arith))))
  where
    is_positive_count : (n : ℕ) → 0 < n → (n == 0) ≡ false
    is_positive_count n h = ground arith

abbrev pub started : Tcb → Tcb
started t = record t { state = ThreadState.running }

-- A thread created from a program of `cmd_count` commands, at most 32, is ready at its first
-- command; once it runs, `k` ticks bring it to the command at `min k burst`, round the program.
pub created_runs_program :
    (memory : Tcb) (tid owner_pid : ℤ) (cmds : List CommandType) (cmd_count burst k : ℕ)
    → 0 < cmd_count
    → cmd_count ≤ max_commands
    → cmd_count ≤ length cmds
    → length memory.commands ≡ max_commands
    → (t : Tcb) × (thread_create (some memory) tid owner_pid cmds cmd_count (pos burst) ≡ some t)
      × (t.state ≡ ThreadState.ready)
      × (thread_current_command (execute_times k (started t))
          ≡ get_or cmds (min k burst % cmd_count) compute)
unfolding thread_create
created_runs_program memory tid owner_pid cmds cmd_count burst k h le len size =
    let n = min cmd_count max_commands in
    let t : Tcb = record memory {
      tid = tid;
      owner_pid = owner_pid;
      state = ThreadState.ready;
      local_pc = 0;
      wait_reason = no_reason;
      command_count = n;
      commands = copy_commands n cmds memory.commands;
      burst_remaining = pos burst;
      command_ticks_remaining = pos 1;
    } in
    let same : n ≡ cmd_count = omega arith in
    let p =
      execute_times-Progress k burst (started t)
        (record {
          running = refl;
          one_tick = refl;
          has_commands = omega arith;
          pc_within = omega arith;
        })
        refl in
    (
      t,
      refl,
      refl,
      at_command (execute_times k (started t)) n (copy_commands n cmds memory.commands)
            (min k burst) (omega arith) p.program.0 p.program.1
            (p.pc ∙ ap (λ i. i % n) (omega arith))
          ∙ get_or-copy_commands n (min k burst % n) cmds memory.commands compute (omega arith)
              (omega arith) (omega arith)
          ∙ ap (λ m. get_or cmds (min k burst % m) compute) same,
    )

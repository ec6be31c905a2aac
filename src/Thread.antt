-- ===== src/Thread.antt =====
-- src/thread.c and src/thread.h: threads. A function returns the changed thread. `malloc` gives a
-- thread with any content, or nothing; what `thread_create` does not set keeps that content.
pub mod Progress
mod Tests
use fleetos.Base.{
  ℕ, zero, suc, ◌+◌, ◌%◌, ◌<◌, Bool, true, false, not, List, [], ◌∷◌, ◌++◌, if◌then◌else◌, ltb,
  ◌==◌, length, get_or, take, drop, min, ℤ, pos, negsuc, is_positive, pred_int, Option, none, some,
}
use fleetos.Types.{
  ThreadState, BlockReason, CommandType, Priority, no_reason, compute, max_commands,
  same_thread_state,
}

pub record Tcb : Type 0 where
  pub tid : ℤ
  pub owner_pid : ℤ
  pub state : ThreadState
  pub local_pc : ℕ
  pub wait_reason : BlockReason
  pub commands : List CommandType
  pub command_count : ℕ
  pub burst_remaining : ℤ
  pub command_ticks_remaining : ℤ
  pub priority : Priority
  pub mlfq_level : ℤ

-- `for (i = 0; i < n; i++) to[i] = from[i];`
abbrev pub copy_commands : ℕ → List CommandType → List CommandType → List CommandType
copy_commands (suc n) (c ∷ from) (d ∷ to) = c ∷ copy_commands n from to
copy_commands _ _ to = to

unfoldable pub thread_create :
    (memory : Option Tcb) (tid owner_pid : ℤ) (cmds : List CommandType) (cmd_count : ℕ) (burst : ℤ)
    → Option Tcb
thread_create none tid owner_pid cmds cmd_count burst = none
thread_create (some t) tid owner_pid cmds cmd_count burst =
    let n = min cmd_count max_commands in
    some (record t {
      tid = tid;
      owner_pid = owner_pid;
      state = ThreadState.ready;
      local_pc = 0;
      wait_reason = no_reason;
      command_count = n;
      commands = copy_commands n cmds t.commands;
      burst_remaining = burst;
      command_ticks_remaining = pos 1;
    })

unfoldable pub thread_spawn :
    (memory : Option Tcb) (tid owner_pid : ℤ) (cmds : List CommandType) (cmd_count : ℕ) (burst : ℤ)
    → Option Tcb
thread_spawn memory tid owner_pid cmds cmd_count burst =
    thread_create memory tid owner_pid cmds cmd_count burst

unfoldable pub thread_yield : Tcb → Tcb
thread_yield t =
    if same_thread_state t.state ThreadState.running
    then record t { state = ThreadState.ready }
    else t

unfoldable pub thread_block : Tcb → BlockReason → Tcb
thread_block t reason = record t { state = ThreadState.blocked; wait_reason = reason }

unfoldable pub thread_unblock : Tcb → Tcb
thread_unblock t =
    if same_thread_state t.state ThreadState.blocked
    then record t { state = ThreadState.ready; wait_reason = no_reason }
    else t

unfoldable pub thread_current_command : Tcb → CommandType
thread_current_command t =
    if t.command_count == 0
    then compute
    else get_or t.commands (t.local_pc % t.command_count) compute

-- One tick of the current command: the counters after `command_ticks_remaining--`. With no commands C
-- traps at `%`; no thread that the program creates is without.
unfoldable pub thread_execute : Tcb → Tcb
thread_execute t =
    let ticks = pred_int t.command_ticks_remaining in
    if not (same_thread_state t.state ThreadState.running)
    then t
    else if not (is_positive t.burst_remaining)
    then t
    else if is_positive ticks
    then record t { command_ticks_remaining = ticks; burst_remaining = pred_int t.burst_remaining }
    else record t {
      local_pc = (t.local_pc + 1) % t.command_count;
      command_ticks_remaining = pos 1;
      burst_remaining = pred_int t.burst_remaining;
    }

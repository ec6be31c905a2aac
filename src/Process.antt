-- ===== src/Process.antt =====
-- src/pcb.c, src/pcb.h and src/drone.c: process control blocks, the four drone programs, and the
-- choice of a process's primary thread. `malloc` gives a block with any content, or nothing.
use fleetos.Base.{
  ℕ, ◌+◌, ◌%◌, not, List, [], ◌∷◌, if◌then◌else◌, take, replicate, min, ℤ, pos, minus_one,
  is_positive, pred_int, eq_int, Option, none, some, bytes,
}
use fleetos.Types.{
  ProcessState, ThreadState, BlockReason, CommandType, Priority, no_reason, critical, high, normal,
  low, compute, produce_data, consume_data, acquire_resource, io_write, max_commands, max_pages,
  same_process_state,
}
use fleetos.Thread.{Tcb, copy_commands}

pub record Pcb : Type 0 where
  pub pid : ℤ
  pub name : List ℕ
  pub state : ProcessState
  pub priority : Priority
  pub program_counter : ℕ
  pub registers : List ℤ
  pub page_table : List ℤ
  pub pages_used : ℤ
  pub arrival_time : ℕ
  pub burst_remaining : ℤ
  pub wait_time : ℕ
  pub blocked_reason : BlockReason
  pub held_resources : List ℤ
  pub requested_resource : ℤ
  pub commands : List CommandType
  pub command_count : ℕ
  pub command_ticks_remaining : ℤ
  pub mlfq_level : ℤ
  pub completion_tick : ℤ

-- `CMD_COMPUTE` is 0, so that `memset` of the commands leaves `compute`.
unfoldable pub pcb_create : (memory : Option Pcb) (pid : ℤ) (name : List ℕ) → Priority → Option Pcb
pcb_create none pid name priority = none
pcb_create (some p) pid name priority = some (record {
  pid = pid;
  name = take 31 name;
  state = ProcessState.new;
  priority = priority;
  program_counter = 0;
  registers = replicate 8 (pos 0);
  page_table = replicate max_pages minus_one;
  pages_used = pos 0;
  arrival_time = 0;
  burst_remaining = pos 0;
  wait_time = 0;
  blocked_reason = no_reason;
  held_resources = replicate 4 minus_one;
  requested_resource = minus_one;
  commands = replicate max_commands compute;
  command_count = 0;
  command_ticks_remaining = pos 0;
  mlfq_level = minus_one;
  completion_tick = minus_one;
})

unfoldable pub pcb_set_state : Pcb → ProcessState → Pcb
pcb_set_state p state = record p { state = state }

-- The candidates of `select_primary_thread`, the first thread of each state.
pub record Candidates : Type 0 where
  pub running : Option Tcb
  pub ready : Option Tcb
  pub blocked : Option Tcb
  pub done : Option Tcb

-- `if (!slot) slot = t;`
abbrev pub fill : Option Tcb → Tcb → Option Tcb
fill none t = some t
fill (some old) t = some old

abbrev pub note_thread : Candidates → ThreadState → Tcb → Candidates
note_thread c ThreadState.running t = record c { running = fill c.running t }
note_thread c ThreadState.ready t = record c { ready = fill c.ready t }
note_thread c ThreadState.blocked t = record c { blocked = fill c.blocked t }
note_thread c ThreadState.done t = record c { done = fill c.done t }

-- The loop of `select_primary_thread`; an empty slot of the thread array is `none`.
unfoldable pub note_threads : List (Option Tcb) → ℤ → Candidates → Candidates
note_threads [] owner c = c
note_threads (none ∷ threads) owner c = note_threads threads owner c
note_threads (some t ∷ threads) owner c =
    note_threads threads owner (if eq_int t.owner_pid owner then note_thread c t.state t else c)

abbrev pub or_else : Option Tcb → Option Tcb → Option Tcb
or_else none b = b
or_else (some t) b = some t

abbrev pub no_candidates : Candidates
no_candidates = record { running = none; ready = none; blocked = none; done = none }

unfoldable pub select_primary_thread : List (Option Tcb) → ℤ → Option Tcb
select_primary_thread threads owner =
    let c = note_threads threads owner no_candidates in
    or_else c.running (or_else c.ready (or_else c.blocked c.done))

unfoldable pub drone_set_commands : Pcb → List CommandType → ℕ → ℤ → Pcb
drone_set_commands p cmds count burst = record p {
  command_count = count;
  commands = copy_commands (min count max_commands) cmds p.commands;
  program_counter = 0;
  command_ticks_remaining = pos 1;
  burst_remaining = burst;
}

abbrev pub flight_cmds : List CommandType
flight_cmds = compute ∷ produce_data ∷ acquire_resource ∷ []

abbrev pub battery_cmds : List CommandType
battery_cmds = compute ∷ acquire_resource ∷ io_write ∷ []

abbrev pub mapping_cmds : List CommandType
mapping_cmds = compute ∷ consume_data ∷ io_write ∷ []

abbrev pub log_cmds : List CommandType
log_cmds = consume_data ∷ io_write ∷ []

-- `if (!pcb) return NULL;`, then the program.
abbrev with_program : Option Pcb → List CommandType → ℕ → ℤ → Option Pcb
with_program none cmds count burst = none
with_program (some p) cmds count burst = some (drone_set_commands p cmds count burst)

unfoldable pub drone_create_flight : Option Pcb → ℤ → Option Pcb
drone_create_flight memory pid =
    with_program (pcb_create memory pid (bytes "Flight") high) flight_cmds 3 (pos 20)

unfoldable pub drone_create_battery : Option Pcb → ℤ → Option Pcb
drone_create_battery memory pid =
    with_program (pcb_create memory pid (bytes "Battery") critical) battery_cmds 3 (pos 25)

unfoldable pub drone_create_mapping : Option Pcb → ℤ → Option Pcb
drone_create_mapping memory pid =
    with_program (pcb_create memory pid (bytes "Mapping") normal) mapping_cmds 3 (pos 15)

unfoldable pub drone_create_log_collector : Option Pcb → ℤ → Option Pcb
drone_create_log_collector memory pid =
    with_program (pcb_create memory pid (bytes "LogCollector") low) log_cmds 2 (pos 10)

unfoldable pub drone_execute : Pcb → Pcb
drone_execute p =
    let ticks = pred_int p.command_ticks_remaining in
    if not (same_process_state p.state ProcessState.running)
    then p
    else if not (is_positive p.burst_remaining)
    then p
    else if is_positive ticks
    then record p { command_ticks_remaining = ticks; burst_remaining = pred_int p.burst_remaining }
    else record p {
      program_counter = (p.program_counter + 1) % p.command_count;
      command_ticks_remaining = pos 1;
      burst_remaining = pred_int p.burst_remaining;
    }

unfoldable pub drone_get_arrival_time : ℤ → ℕ
drone_get_arrival_time pid =
    if eq_int pid (pos 0)
    then 0
    else if eq_int pid (pos 1)
    then 0
    else if eq_int pid (pos 2)
    then 2
    else if eq_int pid (pos 3)
    then 4
    else 0

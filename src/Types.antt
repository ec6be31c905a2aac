-- ===== src/Types.antt =====
-- src/common.h: the enumerations, in the order of their C values, and the sizes; and the functions
-- at the top of src/pcb.c that spell the enumerations.
use Prim.Native.String.{String}
use fleetos.Base.{ℕ, ◌≡◌, ◌↔◌, Bool, true, ◌==◌, arith}

abbrev pub max_commands : ℕ
max_commands = 32

abbrev pub page_size : ℕ
page_size = 256

abbrev pub frame_count : ℕ
frame_count = 16

abbrev pub max_pages : ℕ
max_pages = 16

abbrev pub max_resources : ℕ
max_resources = 8

pub data ProcessState : Type 0 where
  new ready running blocked terminated suspended : ProcessState

pub data Priority : Type 0 where
  critical high normal low : Priority

pub data BlockReason : Type 0 where
  no_reason io_block page_fault mutex_wait resource_wait cond_wait : BlockReason

pub data CommandType : Type 0 where
  compute produce_data consume_data acquire_resource io_write : CommandType

pub data SchedMode : Type 0 where
  rr mlfq : SchedMode

pub data ThreadState : Type 0 where
  ready running blocked done : ThreadState

-- The C values.
abbrev pub priority_value : Priority → ℕ
priority_value critical = 0
priority_value high = 1
priority_value normal = 2
priority_value low = 3

abbrev pub process_state_value : ProcessState → ℕ
process_state_value ProcessState.new = 0
process_state_value ProcessState.ready = 1
process_state_value ProcessState.running = 2
process_state_value ProcessState.blocked = 3
process_state_value ProcessState.terminated = 4
process_state_value ProcessState.suspended = 5

abbrev pub thread_state_value : ThreadState → ℕ
thread_state_value ThreadState.ready = 0
thread_state_value ThreadState.running = 1
thread_state_value ThreadState.blocked = 2
thread_state_value ThreadState.done = 3

abbrev pub block_reason_value : BlockReason → ℕ
block_reason_value no_reason = 0
block_reason_value io_block = 1
block_reason_value page_fault = 2
block_reason_value mutex_wait = 3
block_reason_value resource_wait = 4
block_reason_value cond_wait = 5

-- `a == b` on two enumerations.
abbrev pub same_thread_state : ThreadState → ThreadState → Bool
same_thread_state a b = thread_state_value a == thread_state_value b

abbrev pub same_process_state : ProcessState → ProcessState → Bool
same_process_state a b = process_state_value a == process_state_value b

abbrev pub same_block_reason : BlockReason → BlockReason → Bool
same_block_reason a b = block_reason_value a == block_reason_value b

unfoldable pub state_to_string : ProcessState → String
state_to_string ProcessState.new = "NEW"
state_to_string ProcessState.ready = "READY"
state_to_string ProcessState.running = "RUNNING"
state_to_string ProcessState.blocked = "BLOCKED"
state_to_string ProcessState.terminated = "TERMINATED"
state_to_string ProcessState.suspended = "SUSPENDED"

unfoldable pub priority_to_string : Priority → String
priority_to_string critical = "CRITICAL"
priority_to_string high = "HIGH"
priority_to_string normal = "NORMAL"
priority_to_string low = "LOW"

unfoldable pub block_reason_to_string : BlockReason → String
block_reason_to_string no_reason = "NONE"
block_reason_to_string io_block = "IO_BLOCK"
block_reason_to_string page_fault = "PAGE_FAULT"
block_reason_to_string mutex_wait = "MUTEX_WAIT"
block_reason_to_string resource_wait = "RESOURCE_WAIT"
block_reason_to_string cond_wait = "COND_WAIT"

unfoldable pub command_to_string : CommandType → String
command_to_string compute = "COMPUTE"
command_to_string produce_data = "PRODUCE_DATA"
command_to_string consume_data = "CONSUME_DATA"
command_to_string acquire_resource = "ACQUIRE_RESOURCE"
command_to_string io_write = "IO_WRITE"

unfoldable pub sched_mode_to_string : SchedMode → String
sched_mode_to_string rr = "RR"
sched_mode_to_string mlfq = "MLFQ"

pub same_thread_state_iff : (a b : ThreadState) → (same_thread_state a b ≡ true) ↔ (a ≡ b)
same_thread_state_iff a b = ground arith

-- ===== src/Pending.antt =====
-- The pending events of src/kernel.c. The array is a function of its index; the first
-- `pending_count` slots are looked at.
pub mod Compact
pub mod Cancel
pub mod Bounds
mod Tests
use fleetos.Base.{
  ℕ, zero, suc, ◌+◌, Bool, true, false, ◌&&◌, not, List, if◌then◌else◌, ltb, ◌==◌, ℤ, pos, eq_int,
}
use fleetos.Types.{BlockReason, io_block, page_fault}
use fleetos.Deadlock.{put}

abbrev pub max_pending : ℕ
max_pending = 32

abbrev pub page_fault_duration : ℕ
page_fault_duration = 3

abbrev pub io_duration : ℕ
io_duration = 3

pub record PendingEvent : Type 0 where
  pub pid : ℤ
  pub completion_tick : ℕ
  pub reason : BlockReason
  pub path : List ℕ
  pub page : ℤ
  pub active : Bool

pub record Pending : Type 0 where
  pub events : ℕ → PendingEvent
  pub count : ℕ

-- The loop of `compact_pending_events`, for `n` rounds.
unfoldable pub compact_loop : ℕ → (read write : ℕ) → (ℕ → PendingEvent) → (ℕ → PendingEvent) × ℕ
compact_loop zero read write events = (events, write)
compact_loop (suc n) read write events =
    let kept = (events read).active in
    compact_loop n (suc read) (if kept then write + 1 else write)
      (if kept && not (write == read) then put write (events read) events else events)

unfoldable pub compact_pending_events : Pending → Pending
compact_pending_events p =
    let done = compact_loop p.count 0 0 p.events in record { events = done.0; count = done.1 }

-- The loop at the end of `CMD_IO_WRITE`, for `n` rounds.
unfoldable pub add_io_from : ℕ → ℕ → ℤ → ℕ → List ℕ → Pending → Pending
add_io_from zero i pid tick path p = p
add_io_from (suc n) i pid tick path p =
    let later = add_io_from n (suc i) pid tick path p in
    if not (p.events i).active
    then record {
      events =
          put i
            (record (p.events i) {
              pid = pid;
              completion_tick = tick + io_duration;
              reason = io_block;
              path = path;
              active = true;
            })
            p.events;
      count = if ltb i p.count then p.count else i + 1;
    }
    else later

unfoldable pub add_io_event : ℤ → ℕ → List ℕ → Pending → Pending
add_io_event pid tick path p = add_io_from max_pending 0 pid tick path p

-- The first loop of `cleanup_process`.
unfoldable pub cancel_from : ℕ → ℕ → ℤ → (ℕ → PendingEvent) → ℕ → PendingEvent
cancel_from zero i pid events = events
cancel_from (suc n) i pid events = cancel_from n (suc i) pid (
    if (events i).active && eq_int (events i).pid pid
    then put i (record (events i) { active = false }) events
    else events)

unfoldable pub cancel_events : ℤ → Pending → Pending
cancel_events pid p = record p { events = cancel_from p.count 0 pid p.events }

-- The assignments to the slot `i` for a new page fault; its path stays.
unfoldable pub fault_event : ℤ → ℕ → ℤ → PendingEvent → PendingEvent
fault_event pid tick page e = record e {
  pid = pid;
  completion_tick = tick + page_fault_duration;
  reason = page_fault;
  page = page;
  active = true;
}

-- The first inactive slot among the `n` from `i` on, or the slot behind the last, if there is one.
unfoldable pub add_fault_from : ℕ → ℕ → ℤ → ℕ → ℤ → Pending → Pending
add_fault_from zero i pid tick page p =
    if ltb p.count max_pending
    then record {
      events = put p.count (fault_event pid tick page (p.events p.count)) p.events;
      count = p.count + 1;
    }
    else p
add_fault_from (suc n) i pid tick page p =
    let later = add_fault_from n (suc i) pid tick page p in
    if not (p.events i).active
    then record p { events = put i (fault_event pid tick page (p.events i)) p.events }
    else later

unfoldable pub add_fault_event : ℤ → ℕ → ℤ → Pending → Pending
add_fault_event pid tick page p = add_fault_from p.count 0 pid tick page p

-- ===== src/Pending/Bounds.antt =====
-- The pending events of src/kernel.c never outgrow their array of 32.
use fleetos.Base.{ℕ, zero, suc, ◌+◌, ◌≤◌, arith, ℤ, if◌then◌else◌, ◌&&◌, not, ◌==◌, List}
use fleetos.Deadlock.{put}
use fleetos.Pending.{
  PendingEvent, Pending, max_pending, compact_loop, compact_pending_events, add_io_from,
  add_io_event, add_fault_from, add_fault_event,
}

compact_loop-bound :
    (n read write : ℕ) (events : ℕ → PendingEvent)
    → (compact_loop n read write events).1 ≤ write + n
unfolding compact_loop
compact_loop-bound zero read write events = omega arith
compact_loop-bound (suc n) read write events = ground (
  arith,
  compact_loop-bound n (suc read) (if (events read).active then write + 1 else write) (
      if (events read).active && not (write == read)
      then put write (events read) events
      else events),
)

pub compact_pending_events-slots :
    (p : Pending) → p.count ≤ max_pending → (compact_pending_events p).count ≤ max_pending
unfolding compact_pending_events
compact_pending_events-slots p h = omega (arith, compact_loop-bound p.count 0 0 p.events)

add_io_from-slots :
    (n i : ℕ) (pid : ℤ) (tick : ℕ) (path : List ℕ) (p : Pending)
    → i + n ≤ max_pending
    → p.count ≤ max_pending
    → (add_io_from n i pid tick path p).count ≤ max_pending
unfolding add_io_from
add_io_from-slots zero i pid tick path p within h = h
add_io_from-slots (suc n) i pid tick path p within h =
    ground (arith, add_io_from-slots n (suc i) pid tick path p (omega arith) h)

pub add_io_event-slots :
    (pid : ℤ) (tick : ℕ) (path : List ℕ) (p : Pending)
    → p.count ≤ max_pending
    → (add_io_event pid tick path p).count ≤ max_pending
unfolding add_io_event
add_io_event-slots pid tick path p h =
    add_io_from-slots max_pending 0 pid tick path p (omega arith) h

add_fault_from-slots :
    (n i : ℕ) (pid : ℤ) (tick : ℕ) (page : ℤ) (p : Pending)
    → p.count ≤ max_pending
    → (add_fault_from n i pid tick page p).count ≤ max_pending
unfolding add_fault_from
add_fault_from-slots zero i pid tick page p h = ground arith
add_fault_from-slots (suc n) i pid tick page p h =
    ground (arith, add_fault_from-slots n (suc i) pid tick page p h)

pub add_fault_event-slots :
    (pid : ℤ) (tick : ℕ) (page : ℤ) (p : Pending)
    → p.count ≤ max_pending
    → (add_fault_event pid tick page p).count ≤ max_pending
unfolding add_fault_event
add_fault_event-slots pid tick page p h = add_fault_from-slots p.count 0 pid tick page p h

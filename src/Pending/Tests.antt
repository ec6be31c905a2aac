-- ===== src/Pending/Tests.antt =====
-- Runs of the pending events of src/kernel.c, and the theorem about them at a concrete array.
use fleetos.Base.{ℕ, ◌≡◌, refl, [], ◌∷◌, ℤ, pos, true, false, if◌then◌else◌, ◌==◌}
use fleetos.Types.{io_block}
use fleetos.Pending.{
  PendingEvent, Pending, compact_loop, compact_pending_events, add_io_from, add_io_event,
}
use fleetos.Pending.Compact.{slots, live_events, compact_pending_events-live}

abbrev event : ℤ → ℕ → PendingEvent
event pid tick = record {
  pid = pid;
  completion_tick = tick;
  reason = io_block;
  path = [];
  page = pos 0;
  active = true;
}

abbrev free_slot : PendingEvent
free_slot = record {
  pid = pos 0;
  completion_tick = 0;
  reason = io_block;
  path = [];
  page = pos 0;
  active = false;
}

-- The first event is over, the second is not.
abbrev two_events : Pending
two_events = record { events = λ (i : ℕ). if i == 1 then event (pos 4) 9 else free_slot; count = 2 }

compact_pending_events-live_example :
    slots (compact_pending_events two_events).count 0 (compact_pending_events two_events).events
    ≡ live_events two_events
compact_pending_events-live_example = compact_pending_events-live two_events

-- Compaction leaves the copy in slot 1 active, and the event that is added then brings it back.
event_comes_back :
    live_events (add_io_event (pos 5) 20 [] (compact_pending_events two_events))
    ≡ event (pos 4) 9 ∷ event (pos 4) 9 ∷ event (pos 5) 23 ∷ []
unfolding compact_pending_events compact_loop add_io_event add_io_from slots
event_comes_back = refl

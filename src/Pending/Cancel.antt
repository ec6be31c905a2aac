-- ===== src/Pending/Cancel.antt =====
-- The cancelling of a process's events in `cleanup_process` of src/kernel.c.
use fleetos.Base.{
  ℕ, zero, suc, ◌<◌, ◌≡◌, refl, ap, ap₂, ◌∙◌, false, ◌&&◌, not, List, [], ◌∷◌, map, if◌then◌else◌,
  arith, ℤ, eq_int, keep_if,
}
use fleetos.Deadlock.{put}
use fleetos.Pending.{PendingEvent, Pending, cancel_from, cancel_events}
use fleetos.Pending.Compact.{slots, slots_same, is_active_event, live_events}

-- One event of the loop.
abbrev cancelled : ℤ → PendingEvent → PendingEvent
cancelled pid e = if e.active && eq_int e.pid pid then record e { active = false } else e

abbrev cancel_at : ℕ → ℤ → (ℕ → PendingEvent) → ℕ → PendingEvent
cancel_at i pid a =
    if (a i).active && eq_int (a i).pid pid then put i (record (a i) { active = false }) a else a

cancel_at_other : (i j : ℕ) (pid : ℤ) (a : ℕ → PendingEvent) → j < i → cancel_at i pid a j ≡ a j
cancel_at_other i j pid a h = ground arith

cancel_at_later : (i j : ℕ) (pid : ℤ) (a : ℕ → PendingEvent) → i < j → cancel_at i pid a j ≡ a j
cancel_at_later i j pid a h = ground arith

cancel_at_self :
    (i : ℕ) (pid : ℤ) (a : ℕ → PendingEvent) → cancel_at i pid a i ≡ cancelled pid (a i)
cancel_at_self i pid a = ground arith

cancel_from_before :
    (n i j : ℕ) (pid : ℤ) (a : ℕ → PendingEvent) → j < i → cancel_from n i pid a j ≡ a j
unfolding cancel_from
cancel_from_before zero i j pid a h = refl
cancel_from_before (suc n) i j pid a h =
    cancel_from_before n (suc i) j pid (cancel_at i pid a) (omega arith)
    ∙ cancel_at_other i j pid a h

cancel_from-slots :
    (n i : ℕ) (pid : ℤ) (a : ℕ → PendingEvent)
    → slots n i (cancel_from n i pid a) ≡ map (cancelled pid) (slots n i a)
unfolding cancel_from slots
cancel_from-slots zero i pid a = refl
cancel_from-slots (suc n) i pid a =
    let b = cancel_at i pid a in
    ap₂ ◌∷◌ (cancel_from_before n (suc i) i pid b (omega arith) ∙ cancel_at_self i pid a) (
      cancel_from-slots n (suc i) pid b
      ∙ ap (map (cancelled pid))
          (slots_same n (suc i) b a (λ j lo hi. cancel_at_later i j pid a (omega arith))))

keep_if-cancelled :
    (pid : ℤ) (es : List PendingEvent)
    → keep_if is_active_event (map (cancelled pid) es)
      ≡ keep_if (λ (e : PendingEvent). not (eq_int e.pid pid)) (keep_if is_active_event es)
keep_if-cancelled pid [] = refl
keep_if-cancelled pid (e ∷ es) = ground (arith, keep_if-cancelled pid es)

-- Cancelling takes the events of the process, and no others, out of the active events.
pub cancel_events-live :
    (pid : ℤ) (p : Pending)
    → live_events (cancel_events pid p)
      ≡ keep_if (λ (e : PendingEvent). not (eq_int e.pid pid)) (live_events p)
unfolding cancel_events
cancel_events-live pid p =
    ap (keep_if is_active_event) (cancel_from-slots p.count 0 pid p.events)
    ∙ keep_if-cancelled pid (slots p.count 0 p.events)

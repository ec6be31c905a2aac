-- ===== src/Pending/Compact.antt =====
-- The pending events of src/kernel.c as a list: what compaction and cancelling leave.
use fleetos.Base.{
  ℕ, zero, suc, ◌+◌, ◌<◌, ◌≤◌, ◌≡◌, refl, ap, ap₂, sym, ◌∙◌, Bool, true, false, ◌&&◌, not, List, [],
  ◌∷◌, ◌++◌, if◌then◌else◌, ◌==◌, arith, keep_if, Bool-cases, inl, inr, append_assoc, append-nil,
}
use fleetos.Deadlock.{put}
use fleetos.Pending.{PendingEvent, Pending, compact_loop, compact_pending_events}

-- The `n` events from slot `i` on.
unfoldable pub slots : ℕ → ℕ → (ℕ → PendingEvent) → List PendingEvent
slots zero i a = []
slots (suc n) i a = a i ∷ slots n (suc i) a

abbrev pub is_active_event : PendingEvent → Bool
is_active_event e = e.active

-- The active events that the loops of the kernel look at.
abbrev pub live_events : Pending → List PendingEvent
live_events p = keep_if is_active_event (slots p.count 0 p.events)

pub slots_same :
    (n i : ℕ) (a b : ℕ → PendingEvent)
    → ((j : ℕ) → i ≤ j → j < i + n → a j ≡ b j)
    → slots n i a ≡ slots n i b
unfolding slots
slots_same zero i a b h = refl
slots_same (suc n) i a b h =
    ap₂ ◌∷◌ (h i (omega arith) (omega arith))
      (slots_same n (suc i) a b (λ j lo hi. h j (omega arith) (omega arith)))

slots_end : (n i : ℕ) (a : ℕ → PendingEvent) → slots (n + 1) i a ≡ slots n i a ++ a (i + n) ∷ []
unfolding slots
slots_end zero i a =
    let one : 0 + 1 ≡ suc 0 = omega arith in
    ap (λ m. slots m i a) one ∙ ap (λ j. a j ∷ []) (omega arith)
slots_end (suc n) i a =
    let one : suc n + 1 ≡ suc (n + 1) = omega arith in
    ap (λ m. slots m i a) one
    ∙ ap (◌∷◌ (a i)) (slots_end n (suc i) a ∙ ap (λ j. slots n (suc i) a ++ a j ∷ []) (omega arith))

-- The array of one round that keeps the event it reads.
abbrev moved : ℕ → ℕ → (ℕ → PendingEvent) → ℕ → PendingEvent
moved read write a = if not (write == read) then put write (a read) a else a

moved_ahead :
    (n read write : ℕ) (a : ℕ → PendingEvent)
    → write ≤ read
    → slots n (suc read) (moved read write a) ≡ slots n (suc read) a
moved_ahead n read write a h =
    slots_same n (suc read) (moved read write a) a (λ j lo hi. ground arith)

moved_written :
    (read write : ℕ) (a : ℕ → PendingEvent)
    → write ≤ read
    → slots (write + 1) 0 (moved read write a) ≡ slots write 0 a ++ a read ∷ []
moved_written read write a h =
    slots_end write 0 (moved read write a)
    ∙ ap₂ (λ (xs : List PendingEvent) (e : PendingEvent). xs ++ e ∷ [])
        (slots_same write 0 (moved read write a) a (λ j lo hi. ground arith))
        (here (0 + write) (omega arith))
  where
    here : (k : ℕ) → k ≡ write → moved read write a k ≡ a read
    here k e = elim (Bool-cases (write == read)) [
      | inl same ↦ rw same (ap a (ground arith))
      | inr other ↦ rw other (ground arith)
    ]

-- What a run of the loop leaves in the slots it has written.
abbrev Packed : ℕ → ℕ → ℕ → (ℕ → PendingEvent) → Type 0
Packed n read write a =
    slots (compact_loop n read write a).1 0 (compact_loop n read write a).0
    ≡ slots write 0 a ++ keep_if is_active_event (slots n read a)

-- One round, which keeps the event or not.
compact_round :
    (n read write : ℕ) (a : ℕ → PendingEvent) (kept : Bool)
    → write ≤ read
    → ((w : ℕ) (b : ℕ → PendingEvent) → w ≤ suc read → Packed n (suc read) w b)
    → slots
        (compact_loop n
          (suc read)
          (if kept then write + 1 else write)
          (if kept && not (write == read) then put write (a read) a else a)).1
        0
        (compact_loop n
          (suc read)
          (if kept then write + 1 else write)
          (if kept && not (write == read) then put write (a read) a else a)).0
      ≡ slots write 0 a
        ++ (if kept
            then a read ∷ keep_if is_active_event (slots n (suc read) a)
            else keep_if is_active_event (slots n (suc read) a))
compact_round n read write a true h packed =
    packed (write + 1) (moved read write a) (omega arith)
    ∙ ap₂ ◌++◌ (moved_written read write a h)
        (ap (keep_if is_active_event) (moved_ahead n read write a h))
    ∙ append_assoc (slots write 0 a) (a read ∷ []) (keep_if is_active_event (slots n (suc read) a))
compact_round n read write a false h packed = packed write a (omega arith)

compact_loop-slots :
    (n read write : ℕ) (a : ℕ → PendingEvent) → write ≤ read → Packed n read write a
unfolding compact_loop slots
compact_loop-slots zero read write a h = sym (append-nil (slots write 0 a))
compact_loop-slots (suc n) read write a h =
    compact_round n read write a (a read).active h
      (λ w b hw. compact_loop-slots n (suc read) w b hw)

-- Compaction leaves exactly the active events in the slots that are looked at, in order.
pub compact_pending_events-live :
    (p : Pending)
    → slots (compact_pending_events p).count 0 (compact_pending_events p).events ≡ live_events p
unfolding compact_pending_events slots
compact_pending_events-live p = compact_loop-slots p.count 0 0 p.events (omega arith)

-- ===== src/Scheduler/RoundRobin.antt =====
-- `scheduler_next` and `scheduler_add` of src/scheduler.c in round robin mode, on the list of ready
-- threads.
use fleetos.Base.{
  ℕ, zero, suc, ◌<◌, ◌≤◌, ◌≡◌, refl, ap, ap₂, sym, ◌∙◌, true, if◌then◌else◌, ltb, List, [], ◌∷◌,
  ◌++◌, arith, pos, Option, none, some, Bool-cases, inl, inr, length, ltb→lt, lt→ltb, subst, get_or,
  drop, take, append_assoc, length-append, ◌⊎◌,
}
use fleetos.Types.{ThreadState, rr, same_thread_state}
use fleetos.Thread.{thread_yield}
use fleetos.Ready.{append_ready, take_head, max_ready_queue}
use fleetos.Ready.Ring.{
  ready_list, IsRing, append_ready-list, take_head-list, take_head-IsRing, append_ready-IsRing,
  length-entries,
}
use fleetos.Scheduler.{
  Scheduler, is_rr, is_running, update_thread, set_state, requeue_rr, switch_to, next_rr,
  scheduler_next, sched_quantum_rr,
}

-- The ready list with the running thread behind it.
abbrev pub with_current : Scheduler → Option ℕ → List ℕ
with_current s none = ready_list s.rr_ready
with_current s (some t) =
    if is_running s (some t) then ready_list s.rr_ready ++ t ∷ [] else ready_list s.rr_ready

-- What a turn makes of the ready threads: the first runs for a whole quantum.
abbrev pub Turn : Scheduler → List ℕ → Type 0
Turn s [] = ⊥
Turn s (t ∷ ts) =
    (s.current_thread ≡ some t)
    × (ready_list s.rr_ready ≡ ts)
    × ((s.threads t).state ≡ ThreadState.running)
    × (s.quantum_remaining ≡ pos sched_quantum_rr)

requeued :
    (s : Scheduler) (c : Option ℕ)
    → IsRing s.rr_ready
    → s.rr_ready.count < max_ready_queue
    → (ready_list (if is_running s c then requeue_rr s c else s).rr_ready ≡ with_current s c)
      × IsRing (if is_running s c then requeue_rr s c else s).rr_ready
      × (s.rr_ready.count ≤ (if is_running s c then requeue_rr s c else s).rr_ready.count)
unfolding requeue_rr
requeued s none ok h = (refl, ok, omega arith)
requeued s (some t) ok h = elim (Bool-cases (is_running s (some t))) [
  | inl runs ↦ rw runs (
    append_ready-list s.rr_ready t h,
    append_ready-IsRing s.rr_ready t ok h,
    (unfold append_ready in omega arith),
  )
  | inr rests ↦ rw rests (refl, ok, omega arith)
]

switch_to-runs :
    (t q : ℕ) (s : Scheduler)
    → ((switch_to t q s).current_thread ≡ some t)
      × (ready_list (switch_to t q s).rr_ready ≡ ready_list s.rr_ready)
      × (((switch_to t q s).threads t).state ≡ ThreadState.running)
      × ((switch_to t q s).quantum_remaining ≡ pos q)
unfolding switch_to update_thread set_state
switch_to-runs t q s = (refl, refl, ground arith, refl)

next_rr-empty : (s : Scheduler) → s.rr_ready.count ≡ 0 → next_rr s ≡ s
unfolding next_rr
next_rr-empty s e = rw e refl

next_rr-Turn :
    (s : Scheduler)
    → IsRing s.rr_ready
    → s.rr_ready.count < max_ready_queue
    → 0 < s.rr_ready.count
    → Turn (next_rr s) (with_current s s.current_thread)
unfolding next_rr
next_rr-Turn s ok room some_ready =
    let c = s.current_thread in
    let waiting = if is_running s c then requeue_rr s c else s in
    let taken = take_head waiting.rr_ready in
    let (listed, ring, more) = requeued s c ok room in
    let first : with_current s c ≡ taken.1 ∷ ready_list taken.0 =
      sym listed ∙ take_head-list waiting.rr_ready ring (omega (arith, more)) in
    rw (lt→ltb 0 s.rr_ready.count some_ready) (
      subst (Turn (switch_to taken.1 sched_quantum_rr (record waiting { rr_ready = taken.0 })))
        (sym first)
        (switch_to-runs taken.1 sched_quantum_rr (record waiting { rr_ready = taken.0 })))

-- In round robin mode, with room for one more thread in the ring: if no thread is ready, nothing at all
-- changes, also where a thread runs; if one is, the first of the ready threads, the running one counted
-- last, is the current thread and runs for a whole quantum, and the others stay ready in order.
pub scheduler_next-rr :
    (s : Scheduler)
    → s.sched_mode ≡ rr
    → IsRing s.rr_ready
    → s.rr_ready.count < max_ready_queue
    → ((s.rr_ready.count ≡ 0) × (scheduler_next s ≡ s))
      ⊎ ((0 < s.rr_ready.count) × Turn (scheduler_next s) (with_current s s.current_thread))
unfolding scheduler_next
scheduler_next-rr s mode ok room =
    let by_mode : is_rr s.sched_mode ≡ true = ap is_rr mode in
    elim (Bool-cases (ltb 0 s.rr_ready.count)) [
      | inl some_ready ↦
          (let ready : 0 < s.rr_ready.count = ltb→lt 0 s.rr_ready.count some_ready in
            rw by_mode (inr (ready, next_rr-Turn s ok room ready)))
      | inr idle ↦ rw by_mode (inl (ground arith, next_rr-empty s (ground arith)))
    ]

-- A thread runs, and these are ready behind it.
pub record Rotating (s : Scheduler) (c : ℕ) (xs : List ℕ) : Type 0 where
  pub mode : s.sched_mode ≡ rr
  pub ring : IsRing s.rr_ready
  pub room : s.rr_ready.count < max_ready_queue
  pub current : s.current_thread ≡ some c
  pub runs : (s.threads c).state ≡ ThreadState.running
  pub list : ready_list s.rr_ready ≡ xs

abbrev dispatched : Scheduler → Option ℕ → Scheduler
dispatched s c =
    let waiting = if is_running s c then requeue_rr s c else s in
    let taken = take_head waiting.rr_ready in
    switch_to taken.1 sched_quantum_rr (record waiting { rr_ready = taken.0 })

next_rr-dispatched :
    (s : Scheduler)
    → s.sched_mode ≡ rr
    → 0 < s.rr_ready.count
    → scheduler_next s ≡ dispatched s s.current_thread
unfolding scheduler_next next_rr
next_rr-dispatched s mode some_ready =
    let by_mode : is_rr s.sched_mode ≡ true = ap is_rr mode in
    rw (by_mode, lt→ltb 0 s.rr_ready.count some_ready) refl

requeued_turn :
    (s : Scheduler) (c x : ℕ) (xs : List ℕ)
    → Rotating s c (x ∷ xs)
    → ready_list (append_ready s.rr_ready c) ≡ x ∷ (xs ++ c ∷ [])
    → Rotating (dispatched s (some c)) x (xs ++ c ∷ [])
unfolding requeue_rr switch_to update_thread append_ready take_head
requeued_turn s c x xs h list =
    let q = append_ready s.rr_ready c in
    let taken = take_head q in
    let yielded = update_thread c thread_yield s in
    let left = record yielded { rr_ready = taken.0 } in
    let runs : is_running s (some c) ≡ true =
      ap (λ t. same_thread_state t ThreadState.running) h.runs in
    let ring : IsRing q = append_ready-IsRing s.rr_ready c h.ring h.room in
    let first : taken.1 ∷ ready_list taken.0 ≡ x ∷ (xs ++ c ∷ []) =
      sym (take_head-list q ring (omega arith)) ∙ list in
    let is_x : taken.1 ≡ x = ap (λ l. get_or l 0 0) first in
    rw runs (record {
      mode = h.mode;
      ring = take_head-IsRing q ring;
      room = omega (arith, h.room);
      current = ap some is_x;
      runs =
          subst
            (λ t. ((switch_to taken.1 sched_quantum_rr left).threads t).state ≡ ThreadState.running)
            is_x (switch_to-runs taken.1 sched_quantum_rr left).2;
      list = ap (drop 1) first;
    })

scheduler_next-Rotating :
    (s : Scheduler) (c x : ℕ) (xs : List ℕ)
    → Rotating s c (x ∷ xs)
    → Rotating (scheduler_next s) x (xs ++ c ∷ [])
scheduler_next-Rotating s c x xs h =
    let some_ready : 0 < s.rr_ready.count =
      omega (
        arith,
        length-entries s.rr_ready.count s.rr_ready.head s.rr_ready.queue,
        ap length h.list,
      ) in
    subst (λ y. Rotating y x (xs ++ c ∷ []))
      (sym (next_rr-dispatched s h.mode some_ready ∙ ap (dispatched s) h.current))
      (requeued_turn s c x xs h
        (append_ready-list s.rr_ready c h.room ∙ ap (λ (ys : List ℕ). ys ++ c ∷ []) h.list))

unfoldable pub turns : ℕ → Scheduler → Scheduler
turns zero s = s
turns (suc n) s = turns n (scheduler_next s)

get_or-append : (xs ys : List ℕ) (i d : ℕ) → i < length xs → get_or (xs ++ ys) i d ≡ get_or xs i d
get_or-append [] ys i d h = absurd (omega arith)
get_or-append (x ∷ xs) ys zero d h = refl
get_or-append (x ∷ xs) ys (suc i) d h = get_or-append xs ys i d (omega arith)

drop-append : (xs ys : List ℕ) (i : ℕ) → i ≤ length xs → drop i (xs ++ ys) ≡ drop i xs ++ ys
drop-append xs ys zero h = refl
drop-append [] ys (suc i) h = absurd (omega arith)
drop-append (x ∷ xs) ys (suc i) h = drop-append xs ys i (omega arith)

take-append : (xs ys : List ℕ) (i : ℕ) → i ≤ length xs → take i (xs ++ ys) ≡ take i xs
take-append xs ys zero h = refl
take-append [] ys (suc i) h = absurd (omega arith)
take-append (x ∷ xs) ys (suc i) h = ap (◌∷◌ x) (take-append xs ys i (omega arith))

-- The ready threads after `i + 1` turns, where `c` ran before: those behind the place `i`, then `c` and
-- those before the place.
abbrev pub rotated : ℕ → ℕ → List ℕ → List ℕ
rotated i c xs = drop (suc i) xs ++ c ∷ take i xs

rotated-next :
    (i c x : ℕ) (xs : List ℕ)
    → i < length xs
    → rotated i x (xs ++ c ∷ []) ≡ rotated (suc i) c (x ∷ xs)
rotated-next i c x xs h =
    ap₂ (λ (ys zs : List ℕ). ys ++ x ∷ zs) (drop-append xs (c ∷ []) (suc i) (omega arith))
      (take-append xs (c ∷ []) i (omega arith))
    ∙ append_assoc (drop (suc i) xs) (c ∷ []) (x ∷ take i xs)

-- In round robin mode, with a thread `c` running, room in the ring and the threads `xs` ready in order:
-- after `i + 1` turns the thread at place `i` is the current thread and its state is running, and ready
-- are, in order, the threads behind that place, `c`, and the threads before that place.
pub ready_runs :
    (i : ℕ) (s : Scheduler) (c : ℕ) (xs : List ℕ) (d : ℕ)
    → Rotating s c xs
    → i < length xs
    → Rotating (turns (suc i) s) (get_or xs i d) (rotated i c xs)
unfolding turns
ready_runs zero s c [] d h hi = absurd (omega arith)
ready_runs (suc i) s c [] d h hi = absurd (omega arith)
ready_runs zero s c (x ∷ xs) d h hi = scheduler_next-Rotating s c x xs h
ready_runs (suc i) s c (x ∷ xs) d h hi =
    let later =
      ready_runs i (scheduler_next s) x (xs ++ c ∷ []) d (scheduler_next-Rotating s c x xs h)
        (omega (arith, length-append xs (c ∷ []))) in
    subst (λ y. Rotating (turns (suc (suc i)) s) y (rotated (suc i) c (x ∷ xs)))
      (get_or-append xs (c ∷ []) i d (omega arith))
      (subst (Rotating (turns (suc (suc i)) s) (get_or (xs ++ c ∷ []) i d))
        (rotated-next i c x xs (omega arith)) later)

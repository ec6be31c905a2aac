-- ===== src/Scheduler/Calls.antt =====
-- The calls of src/scheduler.c over any history: at most one thread runs, and it is the current one.
-- A history also holds what src/kernel.c does to a thread right before such a call.
use fleetos.Base.{
  ℕ, zero, suc, ◌+◌, ◌≡◌, ◌≢◌, refl, ap, sym, ◌∙◌, Bool, true, false, ◌==◌, ==_iff, not,
  if◌then◌else◌, ltb, ◌&&◌, arith, is_neg, Option, none, some, Bool-cases, inl, inr, subst, leb,
  pred_int, is_positive,
}
use fleetos.Types.{ThreadState, same_thread_state}
use fleetos.Thread.{Tcb}
use fleetos.Ready.{find_in_queue, max_ready_queue}
use fleetos.Sync.{max_threads}
use fleetos.Scheduler.{
  Scheduler, is_rr, is_running, same_thread, update_thread, set_state, set_level, level_of,
  note_ready, push_level, scheduler_add, scheduler_next, scheduler_block, remove_level,
  remove_queued, scheduler_terminate, move_up, drain_level, scheduler_priority_boost, demote,
  is_none, scheduler_tick, in_table,
}
use fleetos.Scheduler.OneRunning.{
  OneRunning, Calm, update_thread-OneRunning, set_level-Calm, moved_down-Idle,
  scheduler_next-OneRunning,
}

pub ready-Calm : Calm (set_state ThreadState.ready)
unfolding set_state
ready-Calm t h = ground arith

note_ready-OneRunning : (t : ℕ) (s : Scheduler) → OneRunning s → OneRunning (note_ready t s)
unfolding note_ready
note_ready-OneRunning t s one =
    let marked = update_thread t (set_state ThreadState.ready) s in
    let calm : OneRunning marked =
      update_thread-OneRunning t (set_state ThreadState.ready) s ready-Calm one in
    elim (Bool-cases
      (not (in_table s.thread_count 0 s.thread_table t) && ltb s.thread_count max_threads)) [
        | inl fresh ↦ rw fresh calm
        | inr known ↦ rw known calm
      ]

pub scheduler_add-OneRunning :
    (s : Scheduler) (tcb : Option ℕ) → OneRunning s → OneRunning (scheduler_add s tcb)
unfolding scheduler_add push_level
scheduler_add-OneRunning s none one = one
scheduler_add-OneRunning s (some t) one =
    let level = level_of (s.threads t) in
    elim (Bool-cases (is_rr s.sched_mode)) [
      | inl is_round ↦ elim (Bool-cases (is_neg (find_in_queue s.rr_ready t))) [
        | inl new ↦ elim (Bool-cases (ltb s.rr_ready.count max_ready_queue)) [
          | inl room ↦ rw (is_round, new, room) (note_ready-OneRunning t _ one)
          | inr full ↦ rw (is_round, new, full) one
        ]
        | inr there ↦ rw (is_round, there) one
      ]
      | inr by_level ↦ elim (Bool-cases (is_neg (find_in_queue (s.mlfq_queues level) t))) [
        | inl new ↦
            rw (by_level, new)
              (note_ready-OneRunning t _
                (update_thread-OneRunning t (set_level level) _ (set_level-Calm level) one))
        | inr there ↦ rw (by_level, there) one
      ]
    ]

-- What a removal leaves alone.
remove_queued-threads :
    (t : ℕ) (s : Scheduler)
    → ((remove_queued t s).threads ≡ s.threads)
      × ((remove_queued t s).current_thread ≡ s.current_thread)
unfolding remove_queued remove_level
remove_queued-threads t s = ground arith

remove_queued-OneRunning : (t : ℕ) (s : Scheduler) → OneRunning s → OneRunning (remove_queued t s)
remove_queued-OneRunning t s one u runs =
    let (threads, current) = remove_queued-threads t s in
    current ∙ one u (ap (λ (a : ℕ → Tcb). (a u).state) (sym threads) ∙ runs)

same_thread_iff : (c : Option ℕ) (t : ℕ) → same_thread c (some t) ≡ true → c ≡ some t
same_thread_iff none t h = absurd (ground arith)
same_thread_iff (some a) t h = ap some ((==_iff a t).0 h)

-- Taking a thread that does not run from the processor or from its queue.
set_aside-OneRunning :
    (t : ℕ) (s : Scheduler)
    → (s.threads t).state ≢ ThreadState.running
    → OneRunning s
    → OneRunning (
        if same_thread s.current_thread (some t)
        then scheduler_next (record s { current_thread = none })
        else remove_queued t s)
set_aside-OneRunning t s stopped one = elim (Bool-cases (same_thread s.current_thread (some t))) [
  | inl is_current ↦ rw is_current (
      scheduler_next-OneRunning (record s { current_thread = none })
        (λ u runs. absurd (vacated u runs (same_thread_iff s.current_thread t is_current))))
  | inr is_other ↦ rw is_other (remove_queued-OneRunning t s one)
]
  where
    vacated : (u : ℕ) → (s.threads u).state ≡ ThreadState.running → s.current_thread ≡ some t → ⊥
    vacated u runs e =
        let same : t ≡ u = ground (arith, one u runs) in
        stopped (subst (λ x. (s.threads x).state ≡ ThreadState.running) (sym same) runs)

pub scheduler_block-OneRunning :
    (s : Scheduler) (t : ℕ)
    → (s.threads t).state ≢ ThreadState.running
    → OneRunning s
    → OneRunning (scheduler_block s (some t))
unfolding scheduler_block update_thread
scheduler_block-OneRunning s t stopped one =
    let noted = update_thread t (set_level s.current_queue) s in
    elim (Bool-cases (same_thread_state (s.threads t).state ThreadState.done)) [
      | inl finished ↦ rw finished one
      | inr unfinished ↦
          elim (Bool-cases (not (is_rr s.sched_mode) && same_thread s.current_thread (some t))) [
            | inl levelled ↦
                rw (unfinished, levelled)
                  (set_aside-OneRunning t noted (λ h. stopped (level_kept h))
                    (update_thread-OneRunning t (set_level s.current_queue) s
                      (set_level-Calm s.current_queue) one))
            | inr plain ↦ rw (unfinished, plain) (set_aside-OneRunning t s stopped one)
          ]
    ]
  where
    level_kept :
        ((update_thread t (set_level s.current_queue) s).threads t).state ≡ ThreadState.running
        → (s.threads t).state ≡ ThreadState.running
    level_kept h = unfold update_thread set_level in ground arith

pub done-OneRunning :
    (t : ℕ) (s : Scheduler)
    → ((u : ℕ) → u ≢ t → (s.threads u).state ≡ ThreadState.running → s.current_thread ≡ some u)
    → OneRunning (update_thread t (set_state ThreadState.done) s)
unfolding update_thread set_state
done-OneRunning t s one u runs = elim (Bool-cases (u == t)) [
  | inl same ↦ absurd (ground arith)
  | inr other ↦ one u (λ e. ground arith) (ground arith)
]

pub scheduler_terminate-OneRunning :
    (s : Scheduler) (t : ℕ) → OneRunning s → OneRunning (scheduler_terminate s (some t))
unfolding scheduler_terminate
scheduler_terminate-OneRunning s t one = elim (Bool-cases (same_thread s.current_thread (some t))) [
  | inl is_current ↦
      (let left = record s { current_thread = none } in
        let at : s.current_thread ≡ some t = same_thread_iff s.current_thread t is_current in
        let (threads, current) = remove_queued-threads t left in
        rw is_current (
          done-OneRunning t (remove_queued t left) (λ u ne runs.
            absurd
              (ground (arith, one u (ap (λ (a : ℕ → Tcb). (a u).state) (sym threads) ∙ runs))))))
  | inr is_other ↦
      rw is_other (
        done-OneRunning t (remove_queued t s)
          (λ u ne runs. remove_queued-OneRunning t s one u runs))
]

move_up-OneRunning : (i : ℕ) (s : Scheduler) → OneRunning s → OneRunning (move_up i s)
unfolding move_up push_level
move_up-OneRunning i s one = update_thread-OneRunning _ (set_level 0) _ (set_level-Calm 0) one

drain_level-OneRunning : (n i : ℕ) (s : Scheduler) → OneRunning s → OneRunning (drain_level n i s)
unfolding drain_level
drain_level-OneRunning zero i s one = one
drain_level-OneRunning (suc n) i s one = elim (Bool-cases (ltb 0 (s.mlfq_queues i).count)) [
  | inl more ↦ rw more (drain_level-OneRunning n i (move_up i s) (move_up-OneRunning i s one))
  | inr empty ↦ rw empty one
]

pub scheduler_priority_boost-OneRunning :
    (s : Scheduler) (tick : ℕ) → OneRunning s → OneRunning (scheduler_priority_boost s tick)
unfolding scheduler_priority_boost
scheduler_priority_boost-OneRunning s tick one = elim (Bool-cases (is_rr s.sched_mode)) [
  | inl is_round ↦ rw is_round one
  | inr by_level ↦ rw by_level (drain_level-OneRunning _ 2 _ (drain_level-OneRunning _ 1 _ one))
]

demote-OneRunning :
    (s : Scheduler) (c : Option ℕ) → s.current_thread ≡ c → OneRunning s → OneRunning (demote s c)
unfolding demote
demote-OneRunning s none e one = λ u runs. one u runs
demote-OneRunning s (some t) e one = λ u runs. absurd (
    moved_down-Idle t (if ltb 2 (s.current_queue + 1) then 2 else s.current_queue + 1) s e one u
      runs)

-- The boost at the end of a tick.
boosted-OneRunning :
    (b : Bool) (s : Scheduler) (tick : ℕ)
    → OneRunning s
    → OneRunning (if b then scheduler_priority_boost s tick else s)
boosted-OneRunning true s tick one = scheduler_priority_boost-OneRunning s tick one
boosted-OneRunning false s tick one = one

if-OneRunning :
    (b : Bool) (s h : Scheduler) → OneRunning s → OneRunning h → OneRunning (if b then s else h)
if-OneRunning true s h one two = one
if-OneRunning false s h one two = two

pub scheduler_tick-OneRunning :
    (s : Scheduler) (tick : ℕ) → OneRunning s → OneRunning (scheduler_tick s tick).0
unfolding scheduler_tick
scheduler_tick-OneRunning s tick one =
    let is_mlfq = not (is_rr s.sched_mode) in
    let begun =
      if is_mlfq && (s.last_boost_tick == 0) then record s { last_boost_tick = tick } else s in
    let do_boost = is_mlfq && leb (begun.last_boost_tick + 30) tick in
    let counted = record begun { quantum_remaining = pred_int begun.quantum_remaining } in
    let begins : OneRunning begun =
      if-OneRunning (is_mlfq && (s.last_boost_tick == 0)) (record s { last_boost_tick = tick }) s
        one one in
    let lowers : OneRunning (
        if is_mlfq && is_running counted counted.current_thread
        then demote counted counted.current_thread
        else counted) =
      if-OneRunning (is_mlfq && is_running counted counted.current_thread)
        (demote counted counted.current_thread) counted
        (demote-OneRunning counted counted.current_thread refl begins) begins in
    elim (Bool-cases (is_none begun.current_thread)) [
      | inl nobody ↦
          rw nobody (boosted-OneRunning do_boost _ tick (scheduler_next-OneRunning begun begins))
      | inr somebody ↦ elim (Bool-cases (is_positive counted.quantum_remaining)) [
        | inl left ↦ rw (somebody, left) (boosted-OneRunning do_boost counted tick begins)
        | inr used ↦
            rw (somebody, used)
              (boosted-OneRunning do_boost _ tick (scheduler_next-OneRunning _ lowers))
      ]
    ]

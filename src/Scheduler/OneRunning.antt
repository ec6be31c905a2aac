-- ===== src/Scheduler/OneRunning.antt =====
-- Histories of calls of src/scheduler.c, with the changes that src/kernel.c makes to a thread around
-- them: no two threads run at a time.
use fleetos.Base.{
  ℕ, ◌≡◌, ◌≢◌, refl, ap, sym, ◌∙◌, false, ◌==◌, ==_iff, if◌then◌else◌, ltb, arith, is_neg, Option,
  none, some, Bool-cases, inl, inr,
}
use fleetos.Types.{ThreadState}
use fleetos.Thread.{Tcb, thread_yield}
use fleetos.Scheduler.{
  Scheduler, is_rr, is_running, update_thread, set_level, level_of, push_level, requeue_rr,
  requeue_mlfq, switch_to, next_rr, next_mlfq, choose_level, mlfq_has_ready, run_level,
  scheduler_next,
}

-- A thread that runs is the current one.
abbrev pub OneRunning : Scheduler → Type 0
OneRunning s = (u : ℕ) → (s.threads u).state ≡ ThreadState.running → s.current_thread ≡ some u

abbrev pub Idle : Scheduler → Type 0
Idle s = (u : ℕ) → (s.threads u).state ≢ ThreadState.running

-- A change that sets no thread running.
abbrev pub Calm : (Tcb → Tcb) → Type 0
Calm f = (t : Tcb) → (f t).state ≡ ThreadState.running → t.state ≡ ThreadState.running

pub update_thread-OneRunning :
    (t : ℕ) (f : Tcb → Tcb) (s : Scheduler)
    → Calm f
    → OneRunning s
    → OneRunning (update_thread t f s)
unfolding update_thread
update_thread-OneRunning t f s calm one u runs = elim (Bool-cases (u == t)) [
  | inl same ↦ one t (calm (s.threads t) (ground arith)) ∙ ap some (sym ((==_iff u t).0 same))
  | inr other ↦ one u (ground arith)
]

pub update_thread-Idle :
    (t : ℕ) (f : Tcb → Tcb) (s : Scheduler) → Calm f → Idle s → Idle (update_thread t f s)
unfolding update_thread
update_thread-Idle t f s calm idle u runs = elim (Bool-cases (u == t)) [
  | inl same ↦ idle t (calm (s.threads t) (ground arith))
  | inr other ↦ idle u (ground arith)
]

pub thread_yield-Calm : Calm thread_yield
unfolding thread_yield
thread_yield-Calm t h = ground arith

pub set_level-Calm : (level : ℕ) → Calm (set_level level)
unfolding set_level
set_level-Calm level t h = h

-- The current thread yields, so none runs.
yielded-Idle :
    (t : ℕ) (s : Scheduler)
    → s.current_thread ≡ some t
    → OneRunning s
    → Idle (update_thread t thread_yield s)
unfolding update_thread thread_yield
yielded-Idle t s current one u runs = elim (Bool-cases (u == t)) [
  | inl same ↦ ground arith
  | inr other ↦ ground (arith, one u)
]

-- The current thread goes to a level and yields.
pub moved_down-Idle :
    (t level : ℕ) (s : Scheduler)
    → s.current_thread ≡ some t
    → OneRunning s
    → Idle (update_thread t thread_yield (update_thread t (set_level level) (push_level level t s)))
unfolding push_level
moved_down-Idle t level s e one =
    let pushed = push_level level t s in
    yielded-Idle t (update_thread t (set_level level) pushed) (unfold update_thread in e)
      (update_thread-OneRunning t (set_level level) pushed (set_level-Calm level) one)

switch_to-OneRunning : (t q : ℕ) (s : Scheduler) → Idle s → OneRunning (switch_to t q s)
unfolding switch_to update_thread
switch_to-OneRunning t q s idle u runs = elim (Bool-cases (u == t)) [
  | inl same ↦ ap some (sym ((==_iff u t).0 same))
  | inr other ↦ absurd (idle u (ground arith))
]

no_current-Idle : (s : Scheduler) → s.current_thread ≡ none → OneRunning s → Idle s
no_current-Idle s e one u runs = ground (arith, one u)

still-Idle :
    (s : Scheduler) (t : ℕ)
    → s.current_thread ≡ some t
    → is_running s (some t) ≡ false
    → OneRunning s
    → Idle s
still-Idle s t e rests one u runs = ground (arith, one u, ap (λ x. is_running s x) (one u runs))

requeue_rr-Idle :
    (s : Scheduler) (c : Option ℕ)
    → s.current_thread ≡ c
    → OneRunning s
    → Idle (if is_running s c then requeue_rr s c else s)
unfolding requeue_rr
requeue_rr-Idle s none e one = no_current-Idle s e one
requeue_rr-Idle s (some t) e one = elim (Bool-cases (is_running s (some t))) [
  | inl runs ↦ rw runs (yielded-Idle t s e one)
  | inr rests ↦ rw rests (still-Idle s t e rests one)
]

requeue_mlfq-Idle :
    (s : Scheduler) (c : Option ℕ)
    → s.current_thread ≡ c
    → OneRunning s
    → Idle (if is_running s c then requeue_mlfq s c else s)
unfolding requeue_mlfq
requeue_mlfq-Idle s none e one = no_current-Idle s e one
requeue_mlfq-Idle s (some t) e one = elim (Bool-cases (is_running s (some t))) [
  | inl runs ↦ rw runs (moved_down-Idle t (level_of (s.threads t)) s e one)
  | inr rests ↦ rw rests (still-Idle s t e rests one)
]

pub next_rr-OneRunning : (s : Scheduler) → OneRunning s → OneRunning (next_rr s)
unfolding next_rr
next_rr-OneRunning s one = elim (Bool-cases (ltb 0 s.rr_ready.count)) [
  | inl some_ready ↦
      rw some_ready (switch_to-OneRunning _ _ _ (requeue_rr-Idle s s.current_thread refl one))
  | inr nothing ↦ rw nothing one
]

run_level-OneRunning : (k : ℕ) (s : Scheduler) → Idle s → OneRunning (run_level k s)
unfolding run_level
run_level-OneRunning k s idle = switch_to-OneRunning _ _ _ idle

next_mlfq-OneRunning : (s : Scheduler) → OneRunning s → OneRunning (next_mlfq s)
unfolding next_mlfq
next_mlfq-OneRunning s one =
    let waiting = if is_running s s.current_thread then requeue_mlfq s s.current_thread else s in
    let idle : Idle waiting = requeue_mlfq-Idle s s.current_thread refl one in
    elim (Bool-cases (mlfq_has_ready s)) [
      | inl some_ready ↦ elim (Bool-cases (is_neg (choose_level waiting))) [
        | inl stuck ↦ rw (some_ready, stuck) (λ u runs. absurd (idle u runs))
        | inr chosen ↦ rw (some_ready, chosen) (run_level-OneRunning _ waiting idle)
      ]
      | inr nothing ↦ rw nothing one
    ]

pub scheduler_next-OneRunning : (s : Scheduler) → OneRunning s → OneRunning (scheduler_next s)
unfolding scheduler_next
scheduler_next-OneRunning s one = elim (Bool-cases (is_rr s.sched_mode)) [
  | inl is_round ↦ rw is_round (next_rr-OneRunning s one)
  | inr by_level ↦ rw by_level (next_mlfq-OneRunning s one)
]

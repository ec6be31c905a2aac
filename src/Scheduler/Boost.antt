-- ===== src/Scheduler/Boost.antt =====
-- `scheduler_priority_boost` of src/scheduler.c on the lists of the three levels.
use fleetos.Base.{
  ℕ, zero, suc, ◌+◌, ◌<◌, ◌≡◌, refl, ap, ap₂, sym, ◌∙◌, false, ◌==◌, List, [], ◌∷◌, arith, subst,
  lt→ltb,
}
use fleetos.Types.{mlfq}
use fleetos.Ready.{ReadyQueue, queue_push, take_head}
use fleetos.Ready.Ring.{
  entries, ready_list, IsRing, pushed, queue_push-list, take_head-list, take_head-IsRing,
}
use fleetos.Scheduler.{
  Scheduler, is_rr, update_thread, push_level, move_up, drain_level, scheduler_priority_boost,
}

abbrev pub level_list : Scheduler → ℕ → List ℕ
level_list s i = ready_list (s.mlfq_queues i)

-- Adding the threads of a list one by one.
abbrev pub pushed_all : List ℕ → List ℕ → List ℕ
pushed_all [] to = to
pushed_all (t ∷ ts) to = pushed_all ts (pushed t to)

-- Level `i` has been emptied into level 0, and the third level is as it was.
record Emptied (i k : ℕ) (s h : Scheduler) : Type 0 where
  empty : (h.mlfq_queues i).count ≡ 0
  top : level_list h 0 ≡ pushed_all (level_list s i) (level_list s 0)
  other : h.mlfq_queues k ≡ s.mlfq_queues k

move_up-source :
    (i : ℕ) (s : Scheduler) → 0 < i → (move_up i s).mlfq_queues i ≡ (take_head (s.mlfq_queues i)).0
unfolding move_up push_level update_thread
move_up-source i s h = ground arith

move_up-top :
    (i : ℕ) (s : Scheduler)
    → 0 < i
    → (move_up i s).mlfq_queues 0 ≡ queue_push (s.mlfq_queues 0) (take_head (s.mlfq_queues i)).1
unfolding move_up push_level update_thread
move_up-top i s h = ground arith

move_up-other :
    (i k : ℕ) (s : Scheduler)
    → 0 < k
    → (k == i) ≡ false
    → (move_up i s).mlfq_queues k ≡ s.mlfq_queues k
unfolding move_up push_level update_thread
move_up-other i k s h ne = ground arith

drain_level-Emptied :
    (n i k : ℕ) (s : Scheduler)
    → 0 < i
    → 0 < k
    → (k == i) ≡ false
    → IsRing (s.mlfq_queues i)
    → (s.mlfq_queues i).count ≡ n
    → Emptied i k s (drain_level n i s)
unfolding drain_level
drain_level-Emptied zero i k s hi hk ne ok e = record {
  empty = e;
  top = ap (λ xs. pushed_all xs (level_list s 0)) (sym (nothing (s.mlfq_queues i) e));
  other = refl;
}
  where
    nothing : (q : ReadyQueue) → q.count ≡ 0 → ready_list q ≡ []
    nothing q h = unfold entries in ap (λ m. entries m q.head q.queue) h
drain_level-Emptied (suc n) i k s hi hk ne ok e =
    let q = s.mlfq_queues i in
    let m = move_up i s in
    let source = move_up-source i s hi in
    let rest : Emptied i k m (drain_level n i m) =
      drain_level-Emptied n i k m hi hk ne (subst IsRing (sym source) (take_head-IsRing q ok))
        (ap (λ (x : ReadyQueue). x.count) source ∙ one_less q e) in
    rw (lt→ltb 0 q.count (omega (arith, e))) (record {
      empty = rest.empty;
      top =
          rest.top
          ∙ ap₂ pushed_all (ap ready_list source) (
              ap ready_list (move_up-top i s hi)
              ∙ queue_push-list (s.mlfq_queues 0) (take_head q).1)
          ∙ sym
              (ap (λ xs. pushed_all xs (level_list s 0)) (take_head-list q ok (omega (arith, e))));
      other = rest.other ∙ move_up-other i k s hk ne;
    })
  where
    one_less : (q : ReadyQueue) → q.count ≡ suc n → (take_head q).0.count ≡ n
    one_less q h = unfold take_head in omega (arith, h)

-- What a boost makes of the three levels.
abbrev pub Boosted : Scheduler → Scheduler → Type 0
Boosted s h =
    ((h.mlfq_queues 1).count ≡ 0)
    × ((h.mlfq_queues 2).count ≡ 0)
    × (level_list h 0 ≡ pushed_all (level_list s 2) (pushed_all (level_list s 1) (level_list s 0)))

-- In multilevel mode a boost empties the two lower levels, and the threads of level 1 and then those
-- of level 2 stand behind those of level 0, in order, each once, while there is room.
pub scheduler_priority_boost-Boosted :
    (s : Scheduler) (tick : ℕ)
    → s.sched_mode ≡ mlfq
    → IsRing (s.mlfq_queues 1)
    → IsRing (s.mlfq_queues 2)
    → Boosted s (scheduler_priority_boost s tick)
unfolding scheduler_priority_boost
scheduler_priority_boost-Boosted s tick mode one two =
    let noted = record s {
      last_boost_tick = tick;
      priority_boost_count = s.priority_boost_count + 1;
    } in
    let first = drain_level (s.mlfq_queues 1).count 1 noted in
    let a : Emptied 1 2 noted first =
      drain_level-Emptied (s.mlfq_queues 1).count 1 2 noted (omega arith) (omega arith) refl one
        refl in
    let b : Emptied 2 1 first (drain_level (first.mlfq_queues 2).count 2 first) =
      drain_level-Emptied (first.mlfq_queues 2).count 2 1 first (omega arith) (omega arith) refl
        (subst IsRing (sym a.other) two) refl in
    rw (ap is_rr mode) (
      ap (λ (q : ReadyQueue). q.count) b.other ∙ a.empty,
      b.empty,
      b.top ∙ ap₂ pushed_all (ap ready_list a.other) a.top,
    )

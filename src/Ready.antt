-- ===== src/Ready.antt =====
-- The ready queues of src/scheduler.c: rings of `TCB *`. A pointer is the number of the thread in the
-- scheduler's heap, and the array a function of its index. `rr_ready_queue`, `rr_head` and `rr_count`
-- form one such ring, and `find_in_rr` and `rr_remove_at` repeat the calls below on it.
pub mod Ring
pub mod Remove
use fleetos.Base.{
  ℕ, zero, suc, ◌+◌, ◌-◌, ◌%◌, Bool, true, false, not, if◌then◌else◌, ltb, ◌==◌, ℤ, pos, minus_one,
  is_neg, Option, none, some, index,
}
use fleetos.Deadlock.{put}

abbrev pub max_ready_queue : ℕ
max_ready_queue = 32

pub record ReadyQueue : Type 0 where
  pub queue : ℕ → ℕ
  pub head : ℕ
  pub count : ℕ

-- The loop with `n` rounds left at `i`.
unfoldable pub find_from : ℕ → ℕ → ReadyQueue → ℕ → ℤ
find_from zero i q tcb = minus_one
find_from (suc n) i q tcb =
    let at = (q.head + i) % max_ready_queue in
    let later = find_from n (suc i) q tcb in if q.queue at == tcb then pos at else later

unfoldable pub find_in_queue : ReadyQueue → ℕ → ℤ
find_in_queue q tcb = find_from q.count 0 q tcb

-- The loop that moves each entry from `i` to `tail` one place down: it goes round at most once, so
-- as many rounds as there are slots are enough.
unfoldable pub shift_until : ℕ → ℕ → ℕ → (ℕ → ℕ) → ℕ → ℕ
shift_until zero i tail queue = queue
shift_until (suc fuel) i tail queue =
    let next = (i + 1) % max_ready_queue in
    let rest = shift_until fuel next tail (put i (queue next) queue) in
    if i == tail then queue else rest

unfoldable pub queue_remove_at : ReadyQueue → ℕ → ReadyQueue
queue_remove_at q idx =
    let tail = (q.head + q.count - 1) % max_ready_queue in
    if not (ltb 0 q.count)
    then q
    else if idx == q.head
    then record q { head = (q.head + 1) % max_ready_queue; count = q.count - 1 }
    else record q { queue = shift_until max_ready_queue idx tail q.queue; count = q.count - 1 }

-- `queue[(head + count) % MAX] = tcb; count++;`
unfoldable pub append_ready : ReadyQueue → ℕ → ReadyQueue
append_ready q tcb = record q {
  queue = put ((q.head + q.count) % max_ready_queue) tcb q.queue;
  count = q.count + 1;
}

unfoldable pub queue_push : ReadyQueue → ℕ → ReadyQueue
queue_push q tcb =
    if not (ltb q.count max_ready_queue)
    then q
    else if not (is_neg (find_in_queue q tcb))
    then q
    else append_ready q tcb

-- The queue without its first thread, and that thread.
unfoldable pub take_head : ReadyQueue → ReadyQueue × ℕ
take_head q =
    (record q { head = (q.head + 1) % max_ready_queue; count = q.count - 1 }, q.queue q.head)

unfoldable pub queue_pop : ReadyQueue → ReadyQueue × Option ℕ
queue_pop q =
    let popped = take_head q in if not (ltb 0 q.count) then (q, none) else (popped.0, some popped.1)

-- `idx = find(...); if (idx >= 0) remove_at(idx);`
unfoldable pub remove_ready : ReadyQueue → ℕ → ReadyQueue
remove_ready q tcb =
    let idx = find_in_queue q tcb in if is_neg idx then q else queue_remove_at q (index idx)

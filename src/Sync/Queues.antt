-- ===== src/Sync/Queues.antt =====
-- The wait queues of src/sync.c: their live entries, and what each loop does to them.
use fleetos.Base.{
  ℕ, zero, suc, ◌+◌, ◌<◌, ◌≤◌, ◌≡◌, refl, ap, sym, ◌∙◌, Bool, false, not, List, [], ◌∷◌, ◌++◌,
  arith, length, get_or, set, take, drop, keep_if, shift_down, length-set, length-take,
  length-shift_down, take-shift_down, take-set_end, append_assoc, append-nil, Bool-cases, inl, inr,
  ℤ, minus_one, is_neg,
}
use fleetos.Sync.{
  CondVar, Mutex, max_threads, cond_signal, cond_wait, cond_broadcast, copy_waiters, mark_removed,
  compact_queue, remove_waiter, remove_from_cond,
}
use fleetos.Sync.Monitor.{join, leave, without}

abbrev pub waiters : CondVar → List ℤ
waiters cv = take cv.wait_count cv.wait_queue

pub record IsQueue (cv : CondVar) : Type 0 where
  pub full_array : length cv.wait_queue ≡ max_threads
  pub within : cv.wait_count ≤ max_threads

pub length-waiters : {cv : CondVar} → IsQueue cv → length (waiters cv) ≡ cv.wait_count
length-waiters {cv} v = omega (arith, length-take cv.wait_count cv.wait_queue)

-- The entry that leaves, and the entries that stay.
shift_leaves :
    (n : ℕ) (queue : List ℤ)
    → n < length queue
    → leave (take (suc n) queue) ≡ (take n (shift_down n queue), get_or queue 0 minus_one)
unfolding leave
shift_leaves n [] h = absurd (omega arith)
shift_leaves n (q ∷ queue) h = rw (take-shift_down n q queue (omega arith))

-- The entries as the code sees them, with `wait_count` written out.
signal_suc :
    (queue : List ℤ) (n : ℕ)
    → cond_signal (record { wait_queue = queue; wait_count = suc n })
      ≡ (record { wait_queue = shift_down n queue; wait_count = n }, get_or queue 0 minus_one)
unfolding cond_signal
signal_suc queue n = ground arith

signal_leaves :
    (queue : List ℤ) (n : ℕ)
    → length queue ≡ max_threads
    → n ≤ max_threads
    → let (cv, wp) = cond_signal (record { wait_queue = queue; wait_count = n }) in
      ((waiters cv, wp) ≡ leave (take n queue)) × IsQueue cv
unfolding leave
signal_leaves queue zero e h = unfold cond_signal in (refl, omega arith)
signal_leaves queue (suc n) e h =
    rw (signal_suc queue n)
      (sym (shift_leaves n queue (omega arith)), omega (arith, length-shift_down n queue))

-- `cond_signal` takes the longest waiter out, or returns -1 when nobody waits.
pub cond_signal_leaves :
    {cv : CondVar}
    → IsQueue cv
    → let (cv', wp) = cond_signal cv in ((waiters cv', wp) ≡ leave (waiters cv)) × IsQueue cv'
cond_signal_leaves {cv} v = signal_leaves cv.wait_queue cv.wait_count v.full_array v.within

-- `cond_wait` queues the caller once.
pub cond_wait_joins :
    {cv : CondVar} (m : Mutex) (pid : ℤ)
    → IsQueue cv
    → (waiters (cond_wait cv m pid).0 ≡ join pid (waiters cv)) × IsQueue (cond_wait cv m pid).0
unfolding cond_wait join
cond_wait_joins {cv} m pid v =
    ground (arith, length-waiters v, take-set_end n queue pid, length-set queue n pid)
  where
    open cv use {wait_queue as queue, wait_count as n}

copy_take :
    (n room : ℕ) (queue : List ℤ) → copy_waiters n room queue ≡ copy_waiters n room (take n queue)
copy_take zero room queue = refl
copy_take (suc n) zero [] = refl
copy_take (suc n) (suc room) [] = refl
copy_take (suc n) zero (q ∷ queue) = refl
copy_take (suc n) (suc room) (q ∷ queue) = ap (◌∷◌ q) (copy_take n room queue)

-- A broadcast empties the queue and hands out its entries in order, as far as there is room.
pub cond_broadcast_empties :
    {cv : CondVar} (room : ℕ)
    → IsQueue cv
    → let (cv', pids) = cond_broadcast cv room in
      (waiters cv' ≡ [])
      × (pids ≡ copy_waiters (length (waiters cv)) room (waiters cv))
      × IsQueue cv'
unfolding cond_broadcast
cond_broadcast_empties {cv} room v =
    (refl, rw (length-waiters v) (copy_take cv.wait_count room cv.wait_queue), omega arith)

-- Removal: the marking loop, then the compaction in place.
length-mark_removed :
    (pid : ℤ) (n : ℕ) (queue : List ℤ) → length (mark_removed pid n queue) ≡ length queue
unfolding mark_removed
length-mark_removed pid zero queue = refl
length-mark_removed pid (suc n) [] = refl
length-mark_removed pid (suc n) (q ∷ queue) = ap suc (length-mark_removed pid n queue)

abbrev live_entry : ℤ → Bool
live_entry q = not (is_neg q)

without-mark_removed :
    (pid : ℤ) (n : ℕ) (queue : List ℤ)
    → keep_if live_entry (take n (mark_removed pid n queue)) ≡ without pid (take n queue)
unfolding mark_removed without
without-mark_removed pid zero queue = refl
without-mark_removed pid (suc n) [] = refl
without-mark_removed pid (suc n) (q ∷ queue) = ground (arith, without-mark_removed pid n queue)

drop-set : (q : List ℤ) (w j : ℕ) (v : ℤ) → w < j → drop j (set q w v) ≡ drop j q
drop-set [] w j v h = refl
drop-set (x ∷ q) w zero v h = absurd (omega arith)
drop-set (x ∷ q) zero (suc j) v h = refl
drop-set (x ∷ q) (suc w) (suc j) v h = drop-set q w j v (omega arith)

drop-cons : (q : List ℤ) (i : ℕ) → i < length q → drop i q ≡ get_or q i minus_one ∷ drop (suc i) q
drop-cons [] i h = absurd (omega arith)
drop-cons (x ∷ q) zero h = refl
drop-cons (x ∷ q) (suc i) h = drop-cons q i (omega arith)

-- What is left of the loop's work from index `i` on.
abbrev rest : ℕ → ℕ → List ℤ → List ℤ
rest n i queue = keep_if live_entry (take n (drop i queue))

record Compacted (n i w : ℕ) (queue : List ℤ) (out : List ℤ × ℕ) : Type 0 where
  entries : take out.1 out.0 ≡ take w queue ++ rest n i queue
  size : length out.0 ≡ length queue
  bound : out.1 ≤ w + n

compact_step :
    (n i w : ℕ) (queue : List ℤ)
    → w ≤ i
    → i < length queue
    → is_neg (get_or queue i minus_one) ≡ false
    → take (suc w) (set queue w (get_or queue i minus_one))
        ++ rest n (suc i) (set queue w (get_or queue i minus_one))
      ≡ take w queue ++ rest (suc n) i queue
compact_step n i w queue le h e = rw (
  take-set_end w queue (get_or queue i minus_one) (omega arith),
  drop-set queue w (suc i) (get_or queue i minus_one) (omega arith),
  drop-cons queue i h,
  e,
  append_assoc,
)

compact_queue-Compacted :
    (n i w : ℕ) (queue : List ℤ)
    → w ≤ i
    → i + n ≤ length queue
    → Compacted n i w queue (compact_queue n i w queue)
unfolding compact_queue
compact_queue-Compacted zero i w queue le h = record {
  entries = sym (append-nil (take w queue));
  size = refl;
  bound = omega arith;
}
compact_queue-Compacted (suc n) i w queue le h =
    elim (Bool-cases (is_neg (get_or queue i minus_one))) [
      | inl e ↦
          (let ih = compact_queue-Compacted n (suc i) w queue (omega arith) (omega arith) in
            rw e (record {
              entries = ih.entries ∙ rw (drop-cons queue i (omega arith), e) refl;
              size = ih.size;
              bound = omega (arith, ih.bound);
            }))
      | inr e ↦
          (let moved = set queue w (get_or queue i minus_one) in
            let same = length-set queue w (get_or queue i minus_one) in
            let ih =
              compact_queue-Compacted n (suc i) (suc w) moved (omega arith) (omega (arith, same)) in
            rw e (record {
              entries = ih.entries ∙ compact_step n i w queue le (omega arith) e;
              size = ih.size ∙ same;
              bound = omega (arith, ih.bound);
            }))
    ]

-- The two loops of a removal leave the entries that are not `pid`, in order, at the front.
pub remove_waiter_lem :
    (pid : ℤ) (n : ℕ) (queue : List ℤ)
    → n ≤ length queue
    → let (queue', w) = remove_waiter pid n queue in
      (take w queue' ≡ without pid (take n queue)) × (length queue' ≡ length queue) × (w ≤ n)
unfolding remove_waiter
remove_waiter_lem pid n queue h =
    let marked = mark_removed pid n queue in
    let same = length-mark_removed pid n queue in
    let c = compact_queue-Compacted n 0 0 marked (omega arith) (omega (arith, same)) in
    (c.entries ∙ without-mark_removed pid n queue, c.size ∙ same, omega (arith, c.bound))

pub remove_from_cond_lem :
    {cv : CondVar} (pid : ℤ)
    → IsQueue cv
    → (waiters (remove_from_cond pid cv) ≡ without pid (waiters cv))
      × IsQueue (remove_from_cond pid cv)
unfolding remove_from_cond
remove_from_cond_lem {cv} pid v =
    let r = remove_waiter_lem pid cv.wait_count cv.wait_queue (omega arith) in
    (r.0, record { full_array = r.1 ∙ v.full_array; within = omega (arith, r.2) })

-- ===== src/Sync.antt =====
-- src/sync.c and src/sync.h: the mutex, the condition variables and the bounded sensor buffer.
-- A C array is a list of its fixed length, of which the first `wait_count` entries are live.
-- A function returns the new object first, then its C result. The log lines that the functions
-- print are left out, and with them `sync_tick`, which only stamps those lines.
pub mod Monitor
pub mod Queues
pub mod Fifo
pub mod History
mod Tests
use fleetos.Base.{
  ℕ, zero, suc, ◌+◌, ◌-◌, ◌%◌, ◌<◌, Bool, true, false, ◌&&◌, ◌||◌, not, List, [], ◌∷◌, ◌++◌, ltb,
  leb, ◌==◌, if◌then◌else◌, length, get_or, set, take, replicate, any_of, shift_down, ℤ, pos,
  negsuc, minus_one, is_neg, eq_int,
}

abbrev pub max_procs : ℕ
max_procs = 16

abbrev pub max_threads : ℕ
max_threads = 32

abbrev pub ring_buffer_size : ℕ
ring_buffer_size = 8

abbrev pub max_wake_pids : ℕ
max_wake_pids = 4

pub record Mutex : Type 0 where
  pub locked : Bool
  pub owner_pid : ℤ
  pub wait_queue : List ℤ
  pub wait_count : ℕ

pub record CondVar : Type 0 where
  pub wait_queue : List ℤ
  pub wait_count : ℕ

pub record BoundedBuffer : Type 0 where
  pub buffer : List ℤ
  pub in_index : ℕ
  pub out_index : ℕ
  pub count : ℕ
  pub mutex : Mutex
  pub not_full : CondVar
  pub not_empty : CondVar

unfoldable pub mutex_init : Mutex
mutex_init = record {
  locked = false;
  owner_pid = minus_one;
  wait_queue = replicate max_procs minus_one;
  wait_count = 0;
}

-- `for (i = 0; i < count; i++) if (queue[i] == pid) ...`: is `pid` among the live entries?
abbrev pub is_queued : ℤ → ℕ → List ℤ → Bool
is_queued pid count queue = any_of (λ q. eq_int q pid) (take count queue)

-- 0 when the lock is taken, -1 when the caller has to wait.
unfoldable pub mutex_lock : Mutex → ℤ → Mutex × ℤ
mutex_lock m pid =
    if not m.locked
    then (record m { locked = true; owner_pid = pid }, pos 0)
    else if is_queued pid m.wait_count m.wait_queue
    then (m, minus_one)
    else if ltb m.wait_count max_procs
    then (
      record m { wait_queue = set m.wait_queue m.wait_count pid; wait_count = m.wait_count + 1 },
      minus_one,
    )
    else (m, minus_one)

-- The pid at the head of the wait queue, or -1.
unfoldable pub mutex_unlock : Mutex → Mutex × ℤ
mutex_unlock m =
    if ltb 0 m.wait_count
    then (
      record {
        locked = false;
        owner_pid = minus_one;
        wait_queue = shift_down (m.wait_count - 1) m.wait_queue;
        wait_count = m.wait_count - 1;
      },
      get_or m.wait_queue 0 minus_one,
    )
    else (record m { locked = false; owner_pid = minus_one }, minus_one)

-- `cond_wait` drops what `mutex_unlock` returns.
unfoldable pub cond_wait : CondVar → Mutex → ℤ → CondVar × Mutex
cond_wait cv m pid =
    let m' = (mutex_unlock m).0 in
    if is_queued pid cv.wait_count cv.wait_queue
    then (cv, m')
    else if ltb cv.wait_count max_threads
    then (
      record { wait_queue = set cv.wait_queue cv.wait_count pid; wait_count = cv.wait_count + 1 },
      m',
    )
    else (cv, m')

unfoldable pub cond_signal : CondVar → CondVar × ℤ
cond_signal cv =
    if ltb 0 cv.wait_count
    then (
      record {
        wait_queue = shift_down (cv.wait_count - 1) cv.wait_queue;
        wait_count = cv.wait_count - 1;
      },
      get_or cv.wait_queue 0 minus_one,
    )
    else (cv, minus_one)

-- `for (i = 0; i < wait_count && count < max_count; i++) pids[count++] = wait_queue[i];`
abbrev pub copy_waiters : ℕ → ℕ → List ℤ → List ℤ
copy_waiters (suc n) (suc room) (q ∷ queue) = q ∷ copy_waiters n room queue
copy_waiters _ _ _ = []

-- The pids written to the caller's array; C returns their number.
unfoldable pub cond_broadcast : CondVar → ℕ → CondVar × List ℤ
cond_broadcast cv max_count =
    (record cv { wait_count = 0 }, copy_waiters cv.wait_count max_count cv.wait_queue)

unfoldable pub buffer_init : BoundedBuffer
unfolding mutex_init
buffer_init = record {
  buffer = replicate ring_buffer_size (pos 0);
  in_index = 0;
  out_index = 0;
  count = 0;
  mutex = mutex_init;
  not_full = record { wait_queue = replicate max_threads minus_one; wait_count = 0 };
  not_empty = record { wait_queue = replicate max_threads minus_one; wait_count = 0 };
}

-- `for (i = 0; i < count; i++) if (queue[i] == pid) queue[i] = -1;`
unfoldable pub mark_removed : ℤ → ℕ → List ℤ → List ℤ
mark_removed pid (suc n) (q ∷ queue) =
    (if eq_int q pid then minus_one else q) ∷ mark_removed pid n queue
mark_removed pid _ queue = queue

-- `for (; i < count; i++) if (queue[i] >= 0) queue[w++] = queue[i];` with `n` rounds left. The
-- array is changed in place; `w` is returned with it.
unfoldable pub compact_queue : (n i w : ℕ) → List ℤ → List ℤ × ℕ
compact_queue zero i w queue = (queue, w)
compact_queue (suc n) i w queue =
    let kept = compact_queue n (suc i) (suc w) (set queue w (get_or queue i minus_one)) in
    let skipped = compact_queue n (suc i) w queue in
    if is_neg (get_or queue i minus_one) then skipped else kept

unfoldable pub remove_waiter : ℤ → ℕ → List ℤ → List ℤ × ℕ
unfolding mark_removed compact_queue
remove_waiter pid count queue = compact_queue count 0 0 (mark_removed pid count queue)

unfoldable pub remove_from_cond : ℤ → CondVar → CondVar
remove_from_cond pid cv =
    let (queue, count) = remove_waiter pid cv.wait_count cv.wait_queue in
    record { wait_queue = queue; wait_count = count }

unfoldable pub buffer_remove_pid : BoundedBuffer → ℤ → BoundedBuffer
buffer_remove_pid b pid =
    let (queue, count) = remove_waiter pid b.mutex.wait_count b.mutex.wait_queue in
    record b {
      not_full = remove_from_cond pid b.not_full;
      not_empty = remove_from_cond pid b.not_empty;
      mutex = record (b.mutex) { wait_queue = queue; wait_count = count };
    }

-- `if (wp >= 0) wake_pids[(*wake_count)++] = wp;`
abbrev pub add_wake : ℤ → List ℤ → List ℤ
add_wake wp wake_pids = if is_neg wp then wake_pids else wake_pids ++ wp ∷ []

-- The same under the test `*wake_count < MAX_WAKE_PIDS`.
abbrev pub add_wake_bounded : ℤ → List ℤ → List ℤ
add_wake_bounded wp wake_pids =
    if not (is_neg wp) && ltb (length wake_pids) max_wake_pids
    then wake_pids ++ wp ∷ []
    else wake_pids

-- A result of `buffer_produce`: the buffer, 0 or -1, and the pids to wake.
pub record Produced : Type 0 where
  pub after : BoundedBuffer
  pub result : ℤ
  pub wake_pids : List ℤ

-- The part of `buffer_produce` that runs with the mutex `m` taken.
unfoldable pub produce_locked : BoundedBuffer → Mutex → ℤ → ℤ → Produced
produce_locked b m item pid =
    if leb ring_buffer_size b.count
    then (let (cv, m') = cond_wait b.not_full m pid in
        record {
          after = record b { not_full = cv; mutex = m' };
          result = minus_one;
          wake_pids = [];
        })
    else (let (cv, first) = cond_signal b.not_empty in
        let (m', second) = mutex_unlock m in
        record {
          after = record b {
            buffer = set b.buffer b.in_index item;
            in_index = (b.in_index + 1) % ring_buffer_size;
            count = b.count + 1;
            not_empty = cv;
            mutex = m';
          };
          result = pos 0;
          wake_pids = add_wake_bounded second (add_wake first []);
        })

unfoldable pub buffer_produce : BoundedBuffer → ℤ → ℤ → Produced
buffer_produce b item pid =
    let (m, status) = mutex_lock b.mutex pid in
    if is_neg status
    then record { after = record b { mutex = m }; result = minus_one; wake_pids = [] }
    else produce_locked b m item pid

-- A result of `buffer_consume`; `item` is what `*item` receives, if it is written.
pub record Consumed : Type 0 where
  pub after : BoundedBuffer
  pub result : ℤ
  pub item : ℤ
  pub wake_pids : List ℤ

unfoldable pub consume_locked : BoundedBuffer → Mutex → ℤ → ℤ → Consumed
consume_locked b m old pid =
    if ltb 0 b.count
    then (let (cv, first) = cond_signal b.not_full in
        let (m', second) = mutex_unlock m in
        record {
          after = record b {
            out_index = (b.out_index + 1) % ring_buffer_size;
            count = b.count - 1;
            not_full = cv;
            mutex = m';
          };
          result = pos 0;
          item = get_or b.buffer b.out_index old;
          wake_pids = add_wake_bounded second (add_wake first []);
        })
    else (let (cv, m') = cond_wait b.not_empty m pid in
        record {
          after = record b { not_empty = cv; mutex = m' };
          result = minus_one;
          item = old;
          wake_pids = [];
        })

-- `old` is the value of the caller's `*item` before the call.
unfoldable pub buffer_consume : BoundedBuffer → ℤ → ℤ → Consumed
buffer_consume b old pid =
    let (m, status) = mutex_lock b.mutex pid in
    if is_neg status
    then record { after = record b { mutex = m }; result = minus_one; item = old; wake_pids = [] }
    else consume_locked b m old pid

unfoldable pub buffer_release_mutex : BoundedBuffer → ℤ → BoundedBuffer
buffer_release_mutex b pid =
    if b.mutex.locked && eq_int b.mutex.owner_pid pid
    then record b { mutex = (mutex_unlock b.mutex).0 }
    else b

-- ===== src/Sync/Fifo.antt =====
-- The bounded buffer of src/sync.c: its invariant, and its refinement of the monitor.
use fleetos.Base.{
  ℕ, zero, suc, ◌+◌, ◌-◌, ◌%◌, ◌<◌, ◌≤◌, ◌≡◌, refl, ap, ap₂, sym, ◌∙◌, ◌≢◌, true, false, List, [],
  ◌∷◌, ◌++◌, arith, ltb, length, get_or, set, length-set, get_or-set_ne, get_or-set_self,
  Bool-cases, ltb→lt, inl, inr, ℤ, pos, minus_one,
}
use fleetos.Sync.{
  CondVar, Mutex, BoundedBuffer, Produced, Consumed, ring_buffer_size, mutex_lock, mutex_unlock,
  cond_wait, buffer_init, produce_locked, buffer_produce, consume_locked, buffer_consume,
  buffer_remove_pid, buffer_release_mutex, remove_waiter, compact_queue, mark_removed,
}
use fleetos.Sync.Queues.{
  waiters, IsQueue, cond_signal_leaves, cond_wait_joins, remove_from_cond_lem,
}
use fleetos.Sync.Monitor.{Monitor, Reply, produce_spec, consume_items, without}

-- Between two calls nobody holds the mutex and nobody waits for it.
pub record IsValid (b : BoundedBuffer) : Type 0 where
  pub storage : length b.buffer ≡ ring_buffer_size
  pub in_follows : b.in_index ≡ (b.out_index + b.count) % ring_buffer_size
  pub out_within : b.out_index < ring_buffer_size
  pub count_within : b.count ≤ ring_buffer_size
  pub unlocked : b.mutex.locked ≡ false
  pub nobody_queued : b.mutex.wait_count ≡ 0
  pub producers : IsQueue b.not_full
  pub consumers : IsQueue b.not_empty

pub buffer_init-IsValid : IsValid buffer_init
unfolding buffer_init
buffer_init-IsValid = ground arith

-- The `n` items from index `o` on, going round at the end of the array.
abbrev pub stored : List ℤ → (o n : ℕ) → List ℤ
stored buffer o zero = []
stored buffer o (suc n) = get_or buffer (o % ring_buffer_size) (pos 0) ∷ stored buffer (suc o) n

length-stored : (buffer : List ℤ) (o n : ℕ) → length (stored buffer o n) ≡ n
length-stored buffer o zero = refl
length-stored buffer o (suc n) = ap suc (length-stored buffer (suc o) n)

stored_mod :
    (buffer : List ℤ) (o p n : ℕ)
    → o % ring_buffer_size ≡ p % ring_buffer_size
    → stored buffer o n ≡ stored buffer p n
stored_mod buffer o p zero e = refl
stored_mod buffer o p (suc n) e =
    ap₂ ◌∷◌ (ap (λ k. get_or buffer k (pos 0)) e)
      (stored_mod buffer (suc o) (suc p) n (omega arith))

-- `stored` matches on `suc`, the code tests `count <= 0`.
stored_pos :
    (buffer : List ℤ) (o n : ℕ)
    → 0 < n
    → stored buffer o n
      ≡ get_or buffer (o % ring_buffer_size) (pos 0) ∷ stored buffer (suc o) (n - 1)
stored_pos buffer o zero h = absurd (omega arith)
stored_pos buffer o (suc n) h =
    ap (λ k. get_or buffer (o % ring_buffer_size) (pos 0) ∷ stored buffer (suc o) k) (omega arith)

get_or_default : (xs : List ℤ) (i : ℕ) (d e : ℤ) → i < length xs → get_or xs i d ≡ get_or xs i e
get_or_default [] i d e h = absurd (omega arith)
get_or_default (x ∷ xs) zero d e h = refl
get_or_default (x ∷ xs) (suc i) d e h = get_or_default xs i d e (omega arith)

-- A write outside the stored part does not show.
stored-set :
    (buffer : List ℤ) (o n i : ℕ) (v : ℤ)
    → ((k : ℕ) → k < n → i ≢ (o + k) % ring_buffer_size)
    → stored (set buffer i v) o n ≡ stored buffer o n
stored-set buffer o zero i v away = refl
stored-set buffer o (suc n) i v away =
    ap₂ ◌∷◌
      (get_or-set_ne buffer i (o % ring_buffer_size) v (pos 0)
        (λ e. away 0 (omega arith) (omega arith)))
      (stored-set buffer (suc o) n i v (λ k h e. away (suc k) (omega arith) (omega arith)))

stored_end :
    (buffer : List ℤ) (o n : ℕ)
    → stored buffer o (suc n)
      ≡ stored buffer o n ++ get_or buffer ((o + n) % ring_buffer_size) (pos 0) ∷ []
stored_end buffer o zero = ap (λ k. get_or buffer k (pos 0) ∷ []) (omega arith)
stored_end buffer o (suc n) = ap (◌∷◌ (get_or buffer (o % ring_buffer_size) (pos 0))) (
    stored_end buffer (suc o) n
    ∙ ap (λ k. stored buffer (suc o) n ++ get_or buffer k (pos 0) ∷ []) (omega arith))

-- Writing behind the last item appends to what is stored.
pub stored_push :
    (buffer : List ℤ) (o n i : ℕ) (v : ℤ)
    → length buffer ≡ ring_buffer_size
    → n < ring_buffer_size
    → i ≡ (o + n) % ring_buffer_size
    → stored (set buffer i v) o (suc n) ≡ stored buffer o n ++ v ∷ []
stored_push buffer o n i v size room e =
    stored_end (set buffer i v) o n
    ∙ ap₂ (λ s x. s ++ x ∷ []) (stored-set buffer o n i v (λ k h. omega arith))
        (ap (λ k. get_or (set buffer i v) k (pos 0)) (sym e)
          ∙ get_or-set_self buffer i v (pos 0) (omega arith))

-- What the buffer stands for.
unfoldable pub view : BoundedBuffer → Monitor
view b = record {
  items = stored b.buffer b.out_index b.count;
  producers = waiters b.not_full;
  consumers = waiters b.not_empty;
}

abbrev taken : BoundedBuffer → ℤ → Mutex
taken b pid = record (b.mutex) { locked = true; owner_pid = pid }

-- A call finds the mutex free, and so never waits for it.
pub lock_free :
    {b : BoundedBuffer} (pid : ℤ) → IsValid b → mutex_lock b.mutex pid ≡ (taken b pid, pos 0)
unfolding mutex_lock
lock_free pid v = ground arith

unlock_taken :
    {b : BoundedBuffer} (pid : ℤ)
    → IsValid b
    → mutex_unlock (taken b pid)
      ≡ (record (b.mutex) { locked = false; owner_pid = minus_one }, minus_one)
unfolding mutex_unlock
unlock_taken pid v = ground arith

cond_wait_unlocks :
    {b : BoundedBuffer} (cv : CondVar) (pid : ℤ)
    → IsValid b
    → (cond_wait cv (taken b pid) pid).1
      ≡ record (b.mutex) { locked = false; owner_pid = minus_one }
unfolding cond_wait
cond_wait_unlocks {b} cv pid v = ground (arith, unlock_taken {b = b} pid v)

abbrev pub produced : Produced → Monitor × Reply
produced r = (view r.after, record { result = r.result; item = minus_one; wake_pids = r.wake_pids })

abbrev pub consumed : Consumed → Monitor × Reply
consumed r = (view r.after, record { result = r.result; item = r.item; wake_pids = r.wake_pids })

module _ {b : BoundedBuffer} (v : IsValid b) where
  -- `buffer_produce` is the monitor's `produce`: -1 and a place in the queue when eight items are
  -- stored, and else the item goes to the end and the longest waiting consumer is woken.
  pub buffer_produce-refines :
      (item pid : ℤ) → produced (buffer_produce b item pid) ≡ produce_spec (view b) item pid
  unfolding buffer_produce produce_locked produce_spec view
  buffer_produce-refines item pid = ground (
    arith,
    lock_free pid v,
    unlock_taken pid v,
    length-stored b.buffer b.out_index b.count,
    cond_wait_joins (taken b pid) pid v.producers,
    cond_signal_leaves v.consumers,
    stored_push b.buffer b.out_index b.count b.in_index item v.storage,
  )

  pub buffer_produce-IsValid : (item pid : ℤ) → IsValid (buffer_produce b item pid).after
  unfolding buffer_produce produce_locked
  buffer_produce-IsValid item pid = ground (
    arith,
    lock_free pid v,
    unlock_taken pid v,
    cond_wait_unlocks b.not_full pid v,
    cond_wait_joins (taken b pid) pid v.producers,
    cond_signal_leaves v.consumers,
    length-set b.buffer b.in_index item,
  )

  stored_consume :
      0 < b.count
      → stored b.buffer b.out_index b.count
        ≡ get_or b.buffer b.out_index (pos 0)
          ∷ stored b.buffer ((b.out_index + 1) % ring_buffer_size) (b.count - 1)
  stored_consume h =
      stored_pos b.buffer b.out_index b.count h
      ∙ ap₂ ◌∷◌ (ap (λ k. get_or b.buffer k (pos 0)) (omega arith)) (
          stored_mod b.buffer (suc b.out_index) ((b.out_index + 1) % ring_buffer_size) (b.count - 1)
            (omega arith))

  -- `buffer_consume` is the monitor's `consume`: -1 and a place in the queue when nothing is
  -- stored, and else the oldest item comes out and the longest waiting producer is woken.
  pub buffer_consume-refines :
      (old pid : ℤ)
      → consumed (buffer_consume b old pid) ≡ consume_items (view b).items (view b) old pid
  unfolding buffer_consume consume_locked consume_items view
  buffer_consume-refines old pid = elim (Bool-cases (ltb 0 b.count)) [
    | inl some_stored ↦ rw (stored_consume (ltb→lt 0 b.count some_stored)) (
        ground (
          arith,
          lock_free pid v,
          unlock_taken pid v,
          cond_signal_leaves v.producers,
          get_or_default b.buffer b.out_index old (pos 0),
        ))
    | inr empty ↦
        (let none_stored : b.count ≡ 0 = ground arith in
          rw none_stored (
            ground (
              arith,
              lock_free pid v,
              unlock_taken pid v,
              cond_wait_unlocks b.not_empty pid v,
              cond_wait_joins (taken b pid) pid v.consumers,
            )))
  ]

  pub buffer_consume-IsValid : (old pid : ℤ) → IsValid (buffer_consume b old pid).after
  unfolding buffer_consume consume_locked
  buffer_consume-IsValid old pid = ground (
    arith,
    lock_free pid v,
    unlock_taken pid v,
    cond_wait_unlocks b.not_empty pid v,
    cond_wait_joins (taken b pid) pid v.consumers,
    cond_signal_leaves v.producers,
  )

  remove_none :
      (pid : ℤ) → remove_waiter pid b.mutex.wait_count b.mutex.wait_queue ≡ (b.mutex.wait_queue, 0)
  unfolding remove_waiter compact_queue mark_removed
  remove_none pid = rw v.nobody_queued

  pub buffer_remove_pid-refines :
      (pid : ℤ)
      → (view (buffer_remove_pid b pid) ≡ record (view b) {
        producers = without pid (view b).producers;
        consumers = without pid (view b).consumers;
      })
        × IsValid (buffer_remove_pid b pid)
  unfolding buffer_remove_pid view
  buffer_remove_pid-refines pid = ground (
    arith,
    remove_none pid,
    remove_from_cond_lem pid v.producers,
    remove_from_cond_lem pid v.consumers,
  )

  pub release_does_nothing : (pid : ℤ) → buffer_release_mutex b pid ≡ b
  unfolding buffer_release_mutex
  release_does_nothing pid = rw v.unlocked

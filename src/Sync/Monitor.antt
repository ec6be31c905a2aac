-- ===== src/Sync/Monitor.antt =====
-- The monitor that src/sync.c promises: a FIFO of at most eight items and two FIFO wait queues.
use fleetos.Base.{
  ℕ, Bool, List, [], ◌∷◌, ◌++◌, if◌then◌else◌, ltb, leb, length, any_of, keep_if, not, ◌&&◌, ℤ, pos,
  minus_one, is_neg, eq_int,
}
use fleetos.Sync.{ring_buffer_size, max_threads, add_wake, copy_waiters}

-- `items` is oldest first; the wait queues have their longest waiter first.
pub record Monitor : Type 0 where
  pub items : List ℤ
  pub producers : List ℤ
  pub consumers : List ℤ

-- What a client can ask of the buffer. `wake_producers` and `wake_consumers` are the broadcasts of
-- the kernel, with the room in its array.
pub data Op : Type 0 where
  produce : (item pid : ℤ) → Op
  consume : (old pid : ℤ) → Op
  remove_pid : ℤ → Op
  release_mutex : ℤ → Op
  wake_producers : ℕ → Op
  wake_consumers : ℕ → Op

-- What the client sees: the C result, the item read, and the pids to wake.
pub record Reply : Type 0 where
  pub result : ℤ
  pub item : ℤ
  pub wake_pids : List ℤ

-- A waiter queues once, and only while there is room.
unfoldable pub join : ℤ → List ℤ → List ℤ
join pid queue =
    if any_of (λ q. eq_int q pid) queue
    then queue
    else if ltb (length queue) max_threads
    then queue ++ pid ∷ []
    else queue

unfoldable pub leave : List ℤ → List ℤ × ℤ
leave [] = ([], minus_one)
leave (q ∷ queue) = (queue, q)

abbrev pub stays : ℤ → ℤ → Bool
stays pid q = not (is_neg q) && not (eq_int q pid)

unfoldable pub without : ℤ → List ℤ → List ℤ
without pid queue = keep_if (stays pid) queue

unfoldable pub produce_spec : Monitor → ℤ → ℤ → Monitor × Reply
produce_spec m item pid =
    if leb ring_buffer_size (length m.items)
    then (
      record m { producers = join pid m.producers },
      record { result = minus_one; item = minus_one; wake_pids = [] },
    )
    else (let (consumers, first) = leave m.consumers in
        (
          record m { items = m.items ++ item ∷ []; consumers = consumers },
          record { result = pos 0; item = minus_one; wake_pids = add_wake first [] },
        ))

unfoldable pub consume_items : List ℤ → Monitor → ℤ → ℤ → Monitor × Reply
consume_items [] m old pid = (
  record m { consumers = join pid m.consumers },
  record { result = minus_one; item = old; wake_pids = [] },
)
consume_items (x ∷ items) m old pid =
    let (producers, first) = leave m.producers in
    (
      record m { items = items; producers = producers },
      record { result = pos 0; item = x; wake_pids = add_wake first [] },
    )

unfoldable pub step_spec : Monitor → Op → Monitor × Reply
step_spec m (produce item pid) = produce_spec m item pid
step_spec m (consume old pid) = consume_items m.items m old pid
step_spec m (remove_pid pid) = (
  record m { producers = without pid m.producers; consumers = without pid m.consumers },
  record { result = pos 0; item = minus_one; wake_pids = [] },
)
step_spec m (release_mutex pid) = (m, record { result = pos 0; item = minus_one; wake_pids = [] })
step_spec m (wake_producers room) = (
  record m { producers = [] },
  record {
    result = pos 0;
    item = minus_one;
    wake_pids = copy_waiters (length m.producers) room m.producers;
  },
)
step_spec m (wake_consumers room) = (
  record m { consumers = [] },
  record {
    result = pos 0;
    item = minus_one;
    wake_pids = copy_waiters (length m.consumers) room m.consumers;
  },
)

unfoldable pub run_spec : Monitor → List Op → List Reply
run_spec m [] = []
run_spec m (op ∷ ops) = let (m', reply) = step_spec m op in reply ∷ run_spec m' ops

abbrev pub fresh : Monitor
fresh = record { items = []; producers = []; consumers = [] }

-- ===== src/Sync/History.antt =====
-- Any history of calls on the buffer of src/sync.c, from `buffer_init` on.
use fleetos.Base.{
  ◌≡◌, refl, ap, sym, ◌∙◌, List, [], ◌∷◌, arith, ℤ, pos, is_neg, if◌then◌else◌, ◌++◌, append-nil,
  append_assoc, minus_one,
}
use fleetos.Sync.{
  BoundedBuffer, buffer_init, buffer_produce, buffer_consume, buffer_remove_pid,
  buffer_release_mutex, cond_broadcast,
}
use fleetos.Sync.Queues.{cond_broadcast_empties}
use fleetos.Sync.Fifo.{
  IsValid, view, buffer_init-IsValid, buffer_produce-refines, buffer_produce-IsValid,
  buffer_consume-refines, buffer_consume-IsValid, buffer_remove_pid-refines, release_does_nothing,
}
use fleetos.Sync.Monitor.{
  Monitor, Reply, Op, produce, consume, remove_pid, release_mutex, wake_producers, wake_consumers,
  step_spec, produce_spec, consume_items, run_spec, fresh,
}

abbrev silent : List ℤ → Reply
silent wake_pids = record { result = pos 0; item = minus_one; wake_pids = wake_pids }

-- One call on the buffer, with what its caller sees. The broadcasts are the first two blocks of
-- `wake_buffer_waiters` in src/kernel.c.
unfoldable pub step : BoundedBuffer → Op → BoundedBuffer × Reply
step b (produce item pid) =
    let r = buffer_produce b item pid in
    (r.after, record { result = r.result; item = minus_one; wake_pids = r.wake_pids })
step b (consume old pid) =
    let r = buffer_consume b old pid in
    (r.after, record { result = r.result; item = r.item; wake_pids = r.wake_pids })
step b (remove_pid pid) = (buffer_remove_pid b pid, silent [])
step b (release_mutex pid) = (buffer_release_mutex b pid, silent [])
step b (wake_producers room) =
    let (cv, pids) = cond_broadcast b.not_full room in (record b { not_full = cv }, silent pids)
step b (wake_consumers room) =
    let (cv, pids) = cond_broadcast b.not_empty room in (record b { not_empty = cv }, silent pids)

unfoldable pub run : BoundedBuffer → List Op → List Reply
run b [] = []
run b (op ∷ ops) = let (b', reply) = step b op in reply ∷ run b' ops

unfoldable pub after : BoundedBuffer → List Op → BoundedBuffer
after b [] = b
after b (op ∷ ops) = after (step b op).0 ops

pub step-IsValid : {b : BoundedBuffer} (op : Op) → IsValid b → IsValid (step b op).0
unfolding step
step-IsValid (produce item pid) v = buffer_produce-IsValid v item pid
step-IsValid (consume old pid) v = buffer_consume-IsValid v old pid
step-IsValid (remove_pid pid) v = (buffer_remove_pid-refines v pid).1
step-IsValid (release_mutex pid) v = rw (release_does_nothing v pid) v
step-IsValid (wake_producers room) v = ground (arith, cond_broadcast_empties room v.producers)
step-IsValid (wake_consumers room) v = ground (arith, cond_broadcast_empties room v.consumers)

pub step-refines :
    {b : BoundedBuffer} (op : Op)
    → IsValid b
    → let (b', reply) = step b op in (view b', reply) ≡ step_spec (view b) op
unfolding step step_spec
step-refines (produce item pid) v = buffer_produce-refines v item pid
step-refines (consume old pid) v = buffer_consume-refines v old pid
step-refines (remove_pid pid) v = ap (λ m. (m, silent [])) (buffer_remove_pid-refines v pid).0
step-refines {b} (release_mutex pid) v = ap (λ c. (view c, silent [])) (release_does_nothing v pid)
step-refines (wake_producers room) v =
    unfold view in ground (arith, cond_broadcast_empties room v.producers)
step-refines (wake_consumers room) v =
    unfold view in ground (arith, cond_broadcast_empties room v.consumers)

run-eq-run_spec :
    (ops : List Op) {b : BoundedBuffer} → IsValid b → run b ops ≡ run_spec (view b) ops
unfolding run run_spec
run-eq-run_spec [] v = refl
run-eq-run_spec (op ∷ ops) v = rw (run-eq-run_spec ops (step-IsValid op v), ← step-refines op v)

view-buffer_init : view buffer_init ≡ fresh
unfolding view buffer_init
view-buffer_init = refl

-- From `buffer_init` on, every history of calls gets the replies of the monitor.
pub run_refines : (ops : List Op) → run buffer_init ops ≡ run_spec fresh ops
run_refines ops =
    run-eq-run_spec ops buffer_init-IsValid ∙ ap (λ m. run_spec m ops) view-buffer_init

after-IsValid : (ops : List Op) {b : BoundedBuffer} → IsValid b → IsValid (after b ops)
unfolding after
after-IsValid [] v = v
after-IsValid (op ∷ ops) v = after-IsValid ops (step-IsValid op v)

-- After every history of calls from `buffer_init` on, the buffer is valid: the mutex is free with
-- nobody in its queue, at most eight items are stored, and the indices fit the count.
pub after_init-IsValid : (ops : List Op) → IsValid (after buffer_init ops)
after_init-IsValid ops = after-IsValid ops buffer_init-IsValid

-- The items that a history's successful `produce` calls put in, in order.
abbrev accepted_by : Op → Reply → List ℤ
accepted_by (produce item pid) r = if is_neg r.result then [] else item ∷ []
accepted_by _ r = []

-- The items that its successful `consume` calls took out.
abbrev delivered_by : Op → Reply → List ℤ
delivered_by (consume old pid) r = if is_neg r.result then [] else r.item ∷ []
delivered_by _ r = []

abbrev pub accepted : List Op → List Reply → List ℤ
accepted (op ∷ ops) (r ∷ rs) = accepted_by op r ++ accepted ops rs
accepted _ _ = []

abbrev pub delivered : List Op → List Reply → List ℤ
delivered (op ∷ ops) (r ∷ rs) = delivered_by op r ++ delivered ops rs
delivered _ _ = []

consume_moves :
    (items : List ℤ) (m : Monitor) (old pid : ℤ)
    → m.items ≡ items
    → let (m', r) = consume_items items m old pid in
      items ≡ delivered_by (consume old pid) r ++ m'.items
unfolding consume_items
consume_moves [] m old pid e = sym e
consume_moves (x ∷ items) m old pid e = refl

-- What a call puts in and takes out accounts for the change of the items.
step_spec_moves :
    (m : Monitor) (op : Op)
    → let (m', r) = step_spec m op in m.items ++ accepted_by op r ≡ delivered_by op r ++ m'.items
unfolding step_spec produce_spec
step_spec_moves m (produce item pid) = ground (arith, append-nil m.items)
step_spec_moves m (consume old pid) = append-nil m.items ∙ consume_moves m.items m old pid refl
step_spec_moves m (remove_pid pid) = append-nil m.items
step_spec_moves m (release_mutex pid) = append-nil m.items
step_spec_moves m (wake_producers room) = append-nil m.items
step_spec_moves m (wake_consumers room) = append-nil m.items

after_spec : Monitor → List Op → Monitor
after_spec m [] = m
after_spec m (op ∷ ops) = after_spec (step_spec m op).0 ops

spec_conserves :
    (m : Monitor) (ops : List Op)
    → m.items ++ accepted ops (run_spec m ops)
      ≡ delivered ops (run_spec m ops) ++ (after_spec m ops).items
unfolding run_spec after_spec
spec_conserves m [] = append-nil m.items
spec_conserves m (op ∷ ops) =
    let (m', r) = step_spec m op in
    sym (append_assoc m.items (accepted_by op r) (accepted ops (run_spec m' ops)))
    ∙ ap (λ l. l ++ accepted ops (run_spec m' ops)) (step_spec_moves m op)
    ∙ append_assoc (delivered_by op r) m'.items (accepted ops (run_spec m' ops))
    ∙ ap (λ l. delivered_by op r ++ l) (spec_conserves m' ops)
    ∙ sym (
        append_assoc (delivered_by op r) (delivered ops (run_spec m' ops))
          (after_spec m' ops).items)

view-after :
    (ops : List Op) {b : BoundedBuffer} → IsValid b → view (after b ops) ≡ after_spec (view b) ops
unfolding after after_spec
view-after [] v = refl
view-after (op ∷ ops) v =
    view-after ops (step-IsValid op v) ∙ ap (λ s. after_spec s.0 ops) (step-refines op v)

-- From `buffer_init` on, no history loses, repeats or reorders an item: what its successful
-- `buffer_produce` calls put in is what its successful `buffer_consume` calls took out, in the same
-- order, followed by what is still stored.
pub history_conserves :
    (ops : List Op)
    → accepted ops (run buffer_init ops)
      ≡ delivered ops (run buffer_init ops) ++ (view (after buffer_init ops)).items
history_conserves ops =
    rw (run_refines ops, view-after ops buffer_init-IsValid, view-buffer_init)
      (spec_conserves fresh ops)

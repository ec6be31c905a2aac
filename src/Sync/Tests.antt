-- ===== src/Sync/Tests.antt =====
-- Runs of the buffer of src/sync.c, and its theorems at concrete histories.
use fleetos.Base.{◌≡◌, ◌≤◌, refl, arith, List, [], ◌∷◌, ◌++◌, ℤ, pos, minus_one, take, length}
use fleetos.Sync.{
  buffer_init, mutex_lock, mutex_unlock, buffer_produce, buffer_consume, produce_locked,
  consume_locked, cond_wait, cond_signal, remove_waiter, cond_broadcast,
}
use fleetos.Sync.Monitor.{
  Op, produce, consume, remove_pid, wake_producers, run_spec, fresh, produce_spec, consume_items,
  without,
}
use fleetos.Sync.Queues.{remove_waiter_lem}
use fleetos.Sync.Fifo.{
  IsValid, view, produced, consumed, buffer_init-IsValid, buffer_produce-refines,
  buffer_produce-IsValid, buffer_consume-refines,
}
use fleetos.Sync.History.{
  run, after, step, run_refines, after_init-IsValid, accepted, delivered, history_conserves,
}

-- Pid 3 finds the buffer empty and waits; pid 0 produces twice; pid 3 is woken and consumes.
abbrev history : List Op
history =
    consume (pos 0) (pos 3)
    ∷ produce (pos 100) (pos 0)
    ∷ produce (pos 200) (pos 0)
    ∷ consume (pos 0) (pos 3)
    ∷ wake_producers 16
    ∷ remove_pid (pos 3)
    ∷ []

delivered-history : delivered history (run buffer_init history) ≡ pos 100 ∷ []
unfolding run step buffer_init buffer_produce buffer_consume produce_locked consume_locked
    mutex_lock mutex_unlock cond_wait cond_signal cond_broadcast
delivered-history = refl

run_refines_example : run buffer_init history ≡ run_spec fresh history
run_refines_example = run_refines history

history_conserves_example :
    accepted history (run buffer_init history)
    ≡ delivered history (run buffer_init history) ++ (view (after buffer_init history)).items
history_conserves_example = history_conserves history

after_init-IsValid_example : IsValid (after buffer_init history)
after_init-IsValid_example = after_init-IsValid history

buffer_produce-refines_example :
    produced (buffer_produce buffer_init (pos 100) (pos 0))
    ≡ produce_spec (view buffer_init) (pos 100) (pos 0)
buffer_produce-refines_example = buffer_produce-refines buffer_init-IsValid (pos 100) (pos 0)

buffer_consume-refines_example :
    consumed (buffer_consume (buffer_produce buffer_init (pos 100) (pos 0)).after (pos 7) (pos 3))
    ≡ consume_items
        (view (buffer_produce buffer_init (pos 100) (pos 0)).after).items
        (view (buffer_produce buffer_init (pos 100) (pos 0)).after)
        (pos 7)
        (pos 3)
buffer_consume-refines_example =
    buffer_consume-refines (buffer_produce-IsValid buffer_init-IsValid (pos 100) (pos 0)) (pos 7)
      (pos 3)

-- Pids 5, 7, 5 and 9 wait, and 5 goes.
abbrev queue : List ℤ
queue = pos 5 ∷ pos 7 ∷ pos 5 ∷ pos 9 ∷ minus_one ∷ []

remove_waiter_lem_example :
    (take (remove_waiter (pos 5) 4 queue).1 (remove_waiter (pos 5) 4 queue).0
      ≡ without (pos 5) (take 4 queue))
    × (length (remove_waiter (pos 5) 4 queue).0 ≡ 5)
    × ((remove_waiter (pos 5) 4 queue).1 ≤ 4)
remove_waiter_lem_example = remove_waiter_lem (pos 5) 4 queue (omega arith)

remove_five : without (pos 5) (take 4 queue) ≡ pos 7 ∷ pos 9 ∷ []
unfolding without
remove_five = refl

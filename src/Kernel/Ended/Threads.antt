-- ===== src/Kernel/Ended/Threads.antt =====
-- The loop of `cleanup_process` of src/kernel.c over the threads: it changes the heap and nothing else.
use fleetos.Base.{
  ℕ, zero, suc, ◌+◌, ◌<◌, ◌≤◌, ◌≡◌, refl, ap, ◌∙◌, false, if◌then◌else◌, Bool-cases, inl, inr,
  arith, ℤ, ◌==◌,
}
use fleetos.Types.{ThreadState}
use fleetos.Thread.{Tcb}
use fleetos.Deadlock.{put}
use fleetos.Status.{is_live, process_has_live_threads}
use fleetos.Scheduler.{update_thread, set_state}
use fleetos.Kernel.{Kernel, all_threads, threads_from}
use fleetos.Kernel.Cleanup.{finish_from, finish_threads}

-- The heap after the loop: the threads from `t` on, `n` of them, are done if they are the process's.
unfoldable finished_heap : ℕ → ℕ → ℤ → (ℕ → Tcb) → ℕ → Tcb
finished_heap zero t pid heap = heap
finished_heap (suc n) t pid heap =
    finished_heap n (suc t) pid
      (if is_live pid (heap t) then put t (set_state ThreadState.done (heap t)) heap else heap)

abbrev pub with_heap : Kernel → (ℕ → Tcb) → Kernel
with_heap k heap = record k { sched = record k.sched { threads = heap } }

finish_from-heap :
    (n t : ℕ) (pid : ℤ) (k : Kernel)
    → finish_from n t pid k ≡ with_heap k (finished_heap n t pid k.sched.threads)
unfolding finish_from finished_heap update_thread
finish_from-heap zero t pid k = refl
finish_from-heap (suc n) t pid k = elim (Bool-cases (is_live pid (k.sched.threads t))) [
  | inl live ↦ rw live (finish_from-heap n (suc t) pid _)
  | inr other ↦ rw other (finish_from-heap n (suc t) pid k)
]

finished_heap-before :
    (n t j : ℕ) (pid : ℤ) (heap : ℕ → Tcb) → j < t → finished_heap n t pid heap j ≡ heap j
unfolding finished_heap
finished_heap-before zero t j pid heap h = refl
finished_heap-before (suc n) t j pid heap h =
    finished_heap-before n (suc t) j pid _ (omega arith) ∙ ground arith

stopped :
    (t : ℕ) (pid : ℤ) (heap : ℕ → Tcb)
    → is_live pid (
        (if is_live pid (heap t) then put t (set_state ThreadState.done (heap t)) heap else heap) t)
      ≡ false
unfolding set_state
stopped t pid heap = ground arith

finished_heap-idle :
    (n t j : ℕ) (pid : ℤ) (heap : ℕ → Tcb)
    → t ≤ j
    → j < t + n
    → is_live pid (finished_heap n t pid heap j) ≡ false
unfolding finished_heap
finished_heap-idle zero t j pid heap lo hi = ground arith
finished_heap-idle (suc n) t j pid heap lo hi = elim (Bool-cases (j == t)) [
  | inl here ↦
      (let at : j ≡ t = ground arith in
        ap (is_live pid) (finished_heap-before n (suc t) j pid _ (omega arith))
        ∙ ap (λ i. is_live pid (rest i)) at
        ∙ stopped t pid heap)
  | inr later ↦ finished_heap-idle n (suc t) j pid rest (ground arith) (omega arith)
]
  where
    rest : ℕ → Tcb
    rest = if is_live pid (heap t) then put t (set_state ThreadState.done (heap t)) heap else heap

idle_threads :
    (n i : ℕ) (pid : ℤ) (heap : ℕ → Tcb)
    → ((j : ℕ) → i ≤ j → j < i + n → is_live pid (heap j) ≡ false)
    → process_has_live_threads pid (threads_from n i heap) ≡ false
unfolding process_has_live_threads threads_from
idle_threads zero i pid heap h = refl
idle_threads (suc n) i pid heap h =
    rw (h i (omega arith) (omega arith))
      (idle_threads n (suc i) pid heap (λ j lo hi. h j (omega arith) (omega arith)))

-- After the loop no thread of the process is live, and nothing but the heap has changed.
pub finish_threads-finished :
    (pid : ℤ) (k : Kernel)
    → (heap : ℕ → Tcb) × (finish_threads pid k ≡ with_heap k heap)
      × (process_has_live_threads pid (all_threads (with_heap k heap)) ≡ false)
unfolding finish_threads all_threads
finish_threads-finished pid k =
    let heap = finished_heap k.thread_count 0 pid k.sched.threads in
    (
      heap,
      finish_from-heap k.thread_count 0 pid k,
      idle_threads k.thread_count 0 pid heap
          (λ j lo hi. finished_heap-idle k.thread_count 0 j pid k.sched.threads lo hi),
    )

-- ===== src/Kernel/Safe/Events.antt =====
-- The completed events, the page fault and the wake-ups of src/kernel.c keep the kernel safe.
use fleetos.Base.{
  pos, quot_int, is_neg, ◌||◌, ℕ, zero, suc, ◌≡◌, sym, ◌∙◌, subst, if◌then◌else◌, Bool-cases, inl,
  inr, arith, List, ltb, leb, index, get_or, eq_int, All-mono, ◌*◌, not, ◌&&◌, set, length-set, ℤ,
  is_neg, minus_one, Option, none, some,
}
use fleetos.Types.{io_block, page_fault, max_pages, page_size}
use fleetos.Process.{Pcb}
use fleetos.Procs.{find_proc, resolve_fault}
use fleetos.Procs.Fate.{resolve_fault-Fate}
use fleetos.Procs.Fault.{IsSystem, resolve_fault-IsSystem}
use fleetos.Memory.{PhysicalMemory, mem_access, mem_get_page_count}
use fleetos.Memory.Allocate.{Tables}
use fleetos.Pending.Bounds.{add_fault_event-slots}
use fleetos.FileSystem.{FileSystem, fs_write}
use fleetos.FileSystem.Inert.{IsInert, fs_write-fails, after_write, find_or_create-IsInert}
use fleetos.Sync.{cond_broadcast, ring_buffer_size, max_procs}
use fleetos.Sync.Monitor.{wake_producers, wake_consumers}
use fleetos.Sync.History.{step, step-IsValid}
use fleetos.Sync.Fifo.{IsValid}
use fleetos.Scheduler.{is_running}
use fleetos.Kernel.{Kernel, tcb_of}
use fleetos.Kernel.Events
use fleetos.Kernel.Events.{
  is_due, close_event, sensor_line, complete_io, complete_io_from, complete_io_events,
  complete_fault, complete_faults_from, complete_page_faults, fault_next_page, fault_current,
  trigger_page_fault, wake_mutex_waiter, wake_buffer_waiters, with_fs, bind_kernel,
  page_fault_interval,
}
use fleetos.Kernel.Safe.{
  Frame, IsSafe, Returns, on_slots, on_files, on_system, on_memory, on_buffer, bind_kernel-Returns,
}
use fleetos.Kernel.Safe.Threads.{
  if-IsSafe, elim-IsSafe, elim-Returns, if-Returns, block_thread-IsSafe, unblock_waiting-IsSafe,
  wake_threads-IsSafe,
}

after_write-IsInert :
    (k : Kernel) (path content : List ℕ) → IsInert k.fs → IsInert (after_write k.fs path content)
after_write-IsInert k path content v = ground (arith, find_or_create-IsInert path v)

touched-IsSystem :
    {m : PhysicalMemory} {ps : List Pcb} (i tick : ℕ)
    → IsSystem m ps
    → IsSystem (record m { last_access = set m.last_access i tick }) ps
touched-IsSystem {m} {ps} i tick v = record {
  memory = record {
    frames = v.memory.frames;
    pages = v.memory.pages;
    ticks = length-set m.last_access i tick ∙ v.memory.ticks;
    counted = v.memory.counted;
  };
  tables =
      All-mono (Tables m) (Tables (record m { last_access = set m.last_access i tick })) ps
        (λ p t. record { real = t.real; owns = t.owns }) v.tables;
  distinct = v.distinct;
}

mem_access-IsSystem :
    {m : PhysicalMemory} {ps : List Pcb} (p : Pcb) (addr : ℤ)
    → IsSystem m ps
    → IsSystem (mem_access m p addr).mem ps
unfolding mem_access
mem_access-IsSystem {m} p addr v =
    let page = quot_int addr page_size in
    let entry = get_or p.page_table (index page) minus_one in
    elim (Bool-cases (is_neg page || leb max_pages (index page))) [
      | inl out ↦ rw out v
      | inr within ↦ elim (Bool-cases (eq_int entry minus_one)) [
        | inl absent ↦ rw (within, absent) v
        | inr mapped ↦ rw (within, mapped) (touched-IsSystem (index entry) m.current_tick v)
      ]
    ]

with_fs-Returns :
    (fr : Frame) (o : Option (FileSystem × ℤ)) (next : FileSystem → Option Kernel) (fs : FileSystem)
    (r : ℤ)
    → o ≡ some (fs, r)
    → Returns fr (next fs)
    → Returns fr (with_fs o next)
with_fs-Returns fr o next fs r e v = subst (λ x. Returns fr (with_fs x next)) (sym e) v

module _ {fr : Frame} where
  close_event-IsSafe : (i : ℕ) (k : Kernel) → IsSafe fr k → IsSafe fr (close_event i k)
  unfolding close_event
  close_event-IsSafe i k v = v

  complete_io-Returns : (i : ℕ) (k : Kernel) → IsSafe fr k → Returns fr (complete_io i k)
  unfolding complete_io
  complete_io-Returns i k v =
      let e = k.pending.events i in
      let fs' = after_write k.fs e.path (sensor_line e) in
      elim-Returns fr (find_proc k.all_procs e.pid) _ _ (close_event-IsSafe i k v) (λ p.
        with_fs-Returns fr (fs_write k.fs e.path (sensor_line e)) _ fs' minus_one
          (fs_write-fails e.path (sensor_line e) v.inert)
          (close_event-IsSafe i _ (
            unblock_waiting-IsSafe e.pid io_block (record k { fs = fs' })
              (on_files v (after_write-IsInert k e.path (sensor_line e) v.inert)))))

  complete_io_from-Returns :
      (n i : ℕ) (k : Kernel) → IsSafe fr k → Returns fr (complete_io_from n i k)
  unfolding complete_io_from
  complete_io_from-Returns zero i k v = v
  complete_io_from-Returns (suc n) i k v =
      bind_kernel-Returns fr (if is_due k io_block i then complete_io i k else some k)
        (complete_io_from n (suc i))
        (if-Returns fr (is_due k io_block i) _ (some k) (complete_io-Returns i k v) v)
        (λ l w. complete_io_from-Returns n (suc i) l w)

  pub complete_io_events-Returns : (k : Kernel) → IsSafe fr k → Returns fr (complete_io_events k)
  unfolding complete_io_events
  complete_io_events-Returns k v = complete_io_from-Returns k.pending.count 0 k v

  complete_fault-IsSafe : (i : ℕ) (k : Kernel) → IsSafe fr k → IsSafe fr (complete_fault i k)
  unfolding complete_fault
  complete_fault-IsSafe i k v =
      let e = k.pending.events i in
      let resolved = resolve_fault k.mem k.all_procs e.pid e.page in
      elim-IsSafe (find_proc k.all_procs e.pid) (close_event i k) _ (close_event-IsSafe i k v) (λ p.
        close_event-IsSafe i _ (
          unblock_waiting-IsSafe e.pid page_fault
            (record k { mem = resolved.0; all_procs = resolved.1 })
            (on_system v (resolve_fault-IsSystem k.mem k.all_procs e.pid e.page v.system)
              (resolve_fault-Fate k.mem k.all_procs e.pid e.page))))

  complete_faults_from-IsSafe :
      (n i : ℕ) (k : Kernel) → IsSafe fr k → IsSafe fr (complete_faults_from n i k)
  unfolding complete_faults_from
  complete_faults_from-IsSafe zero i k v = v
  complete_faults_from-IsSafe (suc n) i k v =
      complete_faults_from-IsSafe n (suc i) _
        (if-IsSafe (is_due k page_fault i) _ k (complete_fault-IsSafe i k v) v)

  pub complete_page_faults-IsSafe : (k : Kernel) → IsSafe fr k → IsSafe fr (complete_page_faults k)
  unfolding complete_page_faults
  complete_page_faults-IsSafe k v = complete_faults_from-IsSafe k.pending.count 0 k v

  fault_next_page-IsSafe :
      (t : ℕ) (p : Pcb) (k : Kernel) → IsSafe fr k → IsSafe fr (fault_next_page t p k)
  unfolding fault_next_page
  fault_next_page-IsSafe t p k v =
      let access = mem_access k.mem p (pos (mem_get_page_count p * page_size)) in
      let seen = record k { mem = access.mem } in
      let w : IsSafe fr seen =
        on_memory v (mem_access-IsSystem p (pos (mem_get_page_count p * page_size)) v.system) in
      let blocked = block_thread-IsSafe t page_fault seen w in
      if-IsSafe (leb max_pages (mem_get_page_count p)) k _ v (
        if-IsSafe (is_neg access.result) _ seen
          (on_slots blocked (add_fault_event-slots p.pid k.current_tick _ _ blocked.slots)) w)

  fault_current-IsSafe : (o : Option ℕ) (k : Kernel) → IsSafe fr k → IsSafe fr (fault_current o k)
  unfolding fault_current
  fault_current-IsSafe none k v = v
  fault_current-IsSafe (some t) k v =
      if-IsSafe (is_running k.sched (some t)) _ k
        (elim-IsSafe (find_proc k.all_procs (tcb_of k t).owner_pid) k _ v
          (λ p. fault_next_page-IsSafe t p k v))
        v

  pub trigger_page_fault-IsSafe : (k : Kernel) → IsSafe fr k → IsSafe fr (trigger_page_fault k)
  unfolding trigger_page_fault
  trigger_page_fault-IsSafe k v =
      if-IsSafe k.config.deadlock_enabled k _ v
        (if-IsSafe _ k _ v (fault_current-IsSafe k.sched.current_thread k v))

  wake_consumers-IsSafe : (k : Kernel) → IsSafe fr k → IsSafe fr (Events.wake_consumers k)
  unfolding Events.wake_consumers
  wake_consumers-IsSafe k v =
      let cv = cond_broadcast k.sensor_buf.not_empty max_procs in
      let emptied = record (k.sensor_buf) { not_empty = cv.0 } in
      let valid : IsValid emptied =
        unfold step in step-IsValid (wake_consumers max_procs) v.buffer in
      if-IsSafe (ltb 0 k.sensor_buf.count) _ k
        (wake_threads-IsSafe cv.1 (record k { sensor_buf = emptied }) (on_buffer v valid)) v

  wake_producers-IsSafe : (k : Kernel) → IsSafe fr k → IsSafe fr (Events.wake_producers k)
  unfolding Events.wake_producers
  wake_producers-IsSafe k v =
      let cv = cond_broadcast k.sensor_buf.not_full max_procs in
      let emptied = record (k.sensor_buf) { not_full = cv.0 } in
      let valid : IsValid emptied =
        unfold step in step-IsValid (wake_producers max_procs) v.buffer in
      if-IsSafe (ltb k.sensor_buf.count ring_buffer_size) _ k
        (wake_threads-IsSafe cv.1 (record k { sensor_buf = emptied }) (on_buffer v valid)) v

  -- Nobody waits for the mutex, since every call finds it free.
  wake_mutex_waiter-IsSafe : (k : Kernel) → IsSafe fr k → IsSafe fr (wake_mutex_waiter k)
  unfolding wake_mutex_waiter
  wake_mutex_waiter-IsSafe k v =
      let m = k.sensor_buf.mutex in
      elim (Bool-cases (not m.locked && ltb 0 m.wait_count)) [
        | inl queued ↦ absurd (ground (arith, v.buffer.nobody_queued))
        | inr nobody ↦ rw (nobody, wake_mutex_waiter) v
      ]

  pub wake_buffer_waiters-IsSafe : (k : Kernel) → IsSafe fr k → IsSafe fr (wake_buffer_waiters k)
  unfolding wake_buffer_waiters
  wake_buffer_waiters-IsSafe k v =
      wake_mutex_waiter-IsSafe _ (wake_producers-IsSafe _ (wake_consumers-IsSafe k v))

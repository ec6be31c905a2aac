-- ===== src/Kernel/Events.antt =====
-- src/kernel.c: the loops that complete due events, the page fault of the simulation, and the waking
-- of the threads that wait for the sensor buffer. A walk of the file system that C does not end, or
-- that leaves its arrays, makes the result `none`.
use fleetos.Base.{
  ℕ, zero, suc, ◌*◌, ◌-◌, ◌%◌, Bool, false, ◌&&◌, ◌||◌, not, List, ◌++◌, ltb, leb, ◌==◌,
  if◌then◌else◌, take, get_or, shift_down, ℤ, pos, minus_one, is_neg, Option, none, some, bytes,
  print_int,
}
use fleetos.Types.{BlockReason, io_block, page_fault, max_pages, page_size, same_block_reason}
use fleetos.Process.{Pcb}
use fleetos.Procs.{find_proc, resolve_fault}
use fleetos.Pending.{PendingEvent, add_fault_event}
use fleetos.Memory.{mem_access, mem_get_page_count}
use fleetos.FileSystem.{FileSystem, fs_write}
use fleetos.Deadlock.{put}
use fleetos.Sync.{Mutex, cond_broadcast, max_procs, ring_buffer_size}
use fleetos.Scheduler.{is_running}
use fleetos.Kernel.{Kernel, tcb_of, block_thread, unblock_waiting, wake_thread, wake_threads}

abbrev pub page_fault_interval : ℕ
page_fault_interval = 8

-- `pending_events[i].active && pending_events[i].reason == reason && current_tick >= completion_tick`
abbrev pub is_due : Kernel → BlockReason → ℕ → Bool
is_due k reason i =
    let e = k.pending.events i in
    (e.active && same_block_reason e.reason reason) && leb e.completion_tick k.current_tick

-- `pending_events[i].active = 0;`
unfoldable pub close_event : ℕ → Kernel → Kernel
close_event i k = record k {
  pending = record (k.pending) {
    events = put i (record (k.pending.events i) { active = false }) k.pending.events;
  };
}

-- What a completed write appends, in an array of 64 bytes.
unfoldable pub sensor_line : PendingEvent → List ℕ
sensor_line e = take 63 (
    bytes "drone="
    ++ print_int e.pid
    ++ bytes " tick="
    ++ print_int (pos e.completion_tick)
    ++ bytes " sensor_data")

abbrev pub with_fs : Option (FileSystem × ℤ) → (FileSystem → Option Kernel) → Option Kernel
with_fs none next = none
with_fs (some (fs, r)) next = next fs

-- An event of input and output that is due.
unfoldable pub complete_io : ℕ → Kernel → Option Kernel
complete_io i k =
    let e = k.pending.events i in
    elim (find_proc k.all_procs e.pid) [
      | none ↦ some (close_event i k)
      | some proc ↦ with_fs (fs_write k.fs e.path (sensor_line e)) (λ (fs : FileSystem).
          some (close_event i (unblock_waiting e.pid io_block (record k { fs = fs }))))
    ]

abbrev pub bind_kernel : Option Kernel → (Kernel → Option Kernel) → Option Kernel
bind_kernel none next = none
bind_kernel (some k) next = next k

-- The loop, with `n` events left from `i` on.
unfoldable pub complete_io_from : ℕ → ℕ → Kernel → Option Kernel
complete_io_from zero i k = some k
complete_io_from (suc n) i k =
    bind_kernel (if is_due k io_block i then complete_io i k else some k)
      (complete_io_from n (suc i))

unfoldable pub complete_io_events : Kernel → Option Kernel
complete_io_events k = complete_io_from k.pending.count 0 k

-- A page fault that is due.
unfoldable pub complete_fault : ℕ → Kernel → Kernel
complete_fault i k =
    let e = k.pending.events i in
    let resolved = resolve_fault k.mem k.all_procs e.pid e.page in
    elim (find_proc k.all_procs e.pid) [
      | none ↦ close_event i k
      | some proc ↦
          close_event i (
            unblock_waiting e.pid page_fault
              (record k { mem = resolved.0; all_procs = resolved.1 }))
    ]

unfoldable pub complete_faults_from : ℕ → ℕ → Kernel → Kernel
complete_faults_from zero i k = k
complete_faults_from (suc n) i k =
    complete_faults_from n (suc i) (if is_due k page_fault i then complete_fault i k else k)

unfoldable pub complete_page_faults : Kernel → Kernel
complete_page_faults k = complete_faults_from k.pending.count 0 k

-- The part of `trigger_page_fault` for the current thread `t` of the process `proc`. A fault always
-- names its page here, since the page is below `max_pages`.
unfoldable pub fault_next_page : ℕ → Pcb → Kernel → Kernel
fault_next_page t proc k =
    let next_page = mem_get_page_count proc in
    let access = mem_access k.mem proc (pos (next_page * page_size)) in
    let page : ℤ = elim access.fault_page [ none ↦ minus_one | some q ↦ q ] in
    let blocked = block_thread t page_fault (record k { mem = access.mem }) in
    if leb max_pages next_page
    then k
    else if is_neg access.result
    then record blocked { pending = add_fault_event proc.pid k.current_tick page blocked.pending }
    else record k { mem = access.mem }

unfoldable pub fault_current : Option ℕ → Kernel → Kernel
fault_current none k = k
fault_current (some t) k =
    if is_running k.sched (some t)
    then (elim (find_proc k.all_procs (tcb_of k t).owner_pid) [
      | none ↦ k
      | some proc ↦ fault_next_page t proc k
    ])
    else k

unfoldable pub trigger_page_fault : Kernel → Kernel
trigger_page_fault k =
    if k.config.deadlock_enabled
    then k
    else if (k.current_tick == 0) || not (k.current_tick % page_fault_interval == 0)
    then k
    else fault_current k.sched.current_thread k

-- The first block of `wake_buffer_waiters`.
unfoldable pub wake_consumers : Kernel → Kernel
wake_consumers k =
    let (cv, wpids) = cond_broadcast k.sensor_buf.not_empty max_procs in
    if ltb 0 k.sensor_buf.count
    then wake_threads wpids (record k { sensor_buf = record (k.sensor_buf) { not_empty = cv } })
    else k

unfoldable pub wake_producers : Kernel → Kernel
wake_producers k =
    let (cv, wpids) = cond_broadcast k.sensor_buf.not_full max_procs in
    if ltb k.sensor_buf.count ring_buffer_size
    then wake_threads wpids (record k { sensor_buf = record (k.sensor_buf) { not_full = cv } })
    else k

unfoldable pub pop_mutex_waiter : Mutex → Mutex
pop_mutex_waiter m = record m {
  wait_queue = shift_down (m.wait_count - 1) m.wait_queue;
  wait_count = m.wait_count - 1;
}

unfoldable pub wake_mutex_waiter : Kernel → Kernel
wake_mutex_waiter k =
    let m = k.sensor_buf.mutex in
    if not m.locked && ltb 0 m.wait_count
    then wake_thread (get_or m.wait_queue 0 minus_one)
        (record k { sensor_buf = record (k.sensor_buf) { mutex = pop_mutex_waiter m } })
    else k

unfoldable pub wake_buffer_waiters : Kernel → Kernel
wake_buffer_waiters k = wake_mutex_waiter (wake_producers (wake_consumers k))

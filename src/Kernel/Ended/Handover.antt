-- ===== src/Kernel/Ended/Handover.antt =====
-- What `cleanup_process` of src/kernel.c leaves alone while it hands the resources on.
use fleetos.Base.{
  ℕ, zero, suc, ◌≡◌, refl, ap, sym, ◌∙◌, Bool, true, false, if◌then◌else◌, Bool-cases, inl, inr,
  arith, List, [], ◌∷◌, ℤ, pos, eq_int, eq_int_iff, some,
}
use fleetos.Types.{resource_wait}
use fleetos.Process.{Pcb}
use fleetos.Procs.{find_proc, update_proc}
use fleetos.Pending.{Pending}
use fleetos.Deadlock.{deadlock_cleanup_process, deadlock_wake_waiters}
use fleetos.Kernel.{
  Kernel, sync_process, unblock_thread, next_phase, grant_thread, grant_from, is_waiting,
  deadlock_wake_callback, run_callbacks,
}
use fleetos.Kernel.Cleanup.{wake_resource, release_resources}
use fleetos.Kernel.Safe.Procs.{Keeps, sync_pcb_state-Keeps}

-- The pending events stay as they are, and a process that is in the table stays in it.
pub record Listed (pending : Pending) (pid : ℤ) (l : Kernel) : Type 0 where
  pub same_pending : l.pending ≡ pending
  pub process : Pcb
  pub found : find_proc l.all_procs pid ≡ some process

-- The process found after a change through the pointer that finds it.
pub find_proc-changed :
    (f : Pcb → Pcb) (ps : List Pcb) (pid : ℤ) (p : Pcb)
    → (f p).pid ≡ pid
    → find_proc ps pid ≡ some p
    → find_proc (update_proc pid f ps) pid ≡ some (f p)
unfolding find_proc update_proc
find_proc-changed f [] pid p kept e = ground arith
find_proc-changed f (q ∷ ps) pid p kept e = elim (Bool-cases (eq_int q.pid pid)) [
  | inl hit ↦
      (let same : f q ≡ f p = ground (arith, ap f) in
        rw (hit, same, (eq_int_iff (f p).pid pid).1 kept) refl)
  | inr miss ↦ rw (miss, miss) (find_proc-changed f ps pid p kept (sym (rw miss refl) ∙ e))
]

find_proc-kept :
    (f : Pcb → Pcb) (ps : List Pcb) (x pid : ℤ) (p : Pcb)
    → Keeps f
    → find_proc ps pid ≡ some p
    → (q : Pcb) × (find_proc (update_proc x f ps) pid ≡ some q)
unfolding find_proc update_proc
find_proc-kept f [] x pid p keeps e = ground arith
find_proc-kept f (q ∷ ps) x pid p keeps e = elim (Bool-cases (eq_int q.pid x)) [
  | inl changed ↦ rw changed (elim (Bool-cases (eq_int q.pid pid)) [
    | inl hit ↦ (f q, ground (arith, keeps q))
    | inr miss ↦ (p, ground (arith, keeps q))
  ])
  | inr same ↦ rw same (elim (Bool-cases (eq_int q.pid pid)) [
    | inl hit ↦ (q, rw hit refl)
    | inr miss ↦ rw miss (find_proc-kept f ps x pid p keeps (sym (rw miss refl) ∙ e))
  ])
]

module _ {pending : Pending} {pid : ℤ} where
  if-Listed :
      (b : Bool) (k l : Kernel)
      → Listed pending pid k
      → Listed pending pid l
      → Listed pending pid (if b then k else l)
  if-Listed true k l v w = v
  if-Listed false k l v w = w

  grant_thread-Listed :
      (t : ℕ) (x : ℤ) (k : Kernel) → Listed pending pid k → Listed pending pid (grant_thread t x k)
  unfolding grant_thread next_phase unblock_thread sync_process
  grant_thread-Listed t x k v =
      let (q, e) =
        find_proc-kept _ k.all_procs (k.sched.threads t).owner_pid pid v.process
          (sync_pcb_state-Keeps _) v.found in
      record { same_pending = v.same_pending; process = q; found = e }

  grant_from-Listed :
      (n t : ℕ) (x : ℤ) (k : Kernel)
      → Listed pending pid k
      → Listed pending pid (grant_from n t x k)
  unfolding grant_from
  grant_from-Listed zero t x k v = v
  grant_from-Listed (suc n) t x k v = grant_from-Listed n (suc t) x _ (
      if-Listed (is_waiting k x resource_wait t) (grant_thread t x k) k
        (grant_thread-Listed t x k v) v)

  run_callbacks-Listed :
      (pids : List ℤ) (k : Kernel)
      → Listed pending pid k
      → Listed pending pid (run_callbacks pids k)
  unfolding run_callbacks deadlock_wake_callback
  run_callbacks-Listed [] k v = v
  run_callbacks-Listed (x ∷ pids) k v =
      run_callbacks-Listed pids _ (grant_from-Listed k.thread_count 0 x k v)

  wake_resource-Listed :
      (r : ℕ) (k : Kernel) → Listed pending pid k → Listed pending pid (wake_resource r k)
  unfolding wake_resource
  wake_resource-Listed r k v =
      let woken = deadlock_wake_waiters k.graph (pos r) in
      run_callbacks-Listed woken.1 (record k { graph = woken.0 })
        (record { same_pending = v.same_pending; process = v.process; found = v.found })

  pub release_resources-Listed :
      (x : ℤ) (k : Kernel) → Listed pending pid k → Listed pending pid (release_resources x k)
  unfolding release_resources
  release_resources-Listed x k v = wake_resource-Listed 2 _ (
      wake_resource-Listed 1 _ (
        wake_resource-Listed 0 (record k { graph = deadlock_cleanup_process k.graph x })
          (record { same_pending = v.same_pending; process = v.process; found = v.found })))

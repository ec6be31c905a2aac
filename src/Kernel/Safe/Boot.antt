-- ===== src/Kernel/Safe/Boot.antt =====
-- `kernel_init` of src/kernel.c makes a safe kernel.
use fleetos.Base.{
  ℕ, suc, ◌+◌, ◌==◌, ◌≡◌, ◌≢◌, refl, sym, ap, ◌∙◌, subst, Bool, true, false, if◌then◌else◌, arith,
  List, [], ◌∷◌, map, pos, Option, none, some,
}
use fleetos.Types.{SchedMode, ThreadState}
use fleetos.Thread.{Tcb, thread_create, thread_spawn}
use fleetos.Process.{
  Pcb, pcb_create, drone_set_commands, drone_create_flight, drone_create_battery,
  drone_create_mapping, drone_create_log_collector,
}
use fleetos.Procs.Fate.{Fate-refl}
use fleetos.Procs.Fault.{IsSystem}
use fleetos.Pending.{Pending}
use fleetos.Memory.{PhysicalMemory}
use fleetos.Deadlock.Exclusion
use fleetos.Deadlock.Exclusion.{graph_call, graph_call-amount, deadlock_init-amount}
use fleetos.Deadlock.Account.{amount}
use fleetos.FileSystem.Inert.{IsInert, fs_init-IsInert}
use fleetos.Sync.Fifo.{IsValid, buffer_init-IsValid}
use fleetos.Scheduler.{Scheduler, update_thread, scheduler_init, scheduler_add}
use fleetos.Scheduler.OneRunning.{OneRunning, update_thread-OneRunning}
use fleetos.Scheduler.Calls.{scheduler_add-OneRunning}
use fleetos.Kernel.{Kernel, KernelConfig}
use fleetos.Kernel.Boot.{
  Allocations, register_thread, start_threads, boot_process, boot_procs, init_modules, create_procs,
  kernel_init,
}
use fleetos.Kernel.Events.{bind_kernel}
use fleetos.Kernel.Safe.{IsSound}
use fleetos.Kernel.Safe.Pages.{prepare_all, four, prepared-IsSystem}

-- Every allocation succeeds.
abbrev pub enough_memory : (ℕ → Tcb) → (ℕ → Pcb) → Allocations
enough_memory threads procs = record {
  thread_memory = λ (i : ℕ). some (threads i);
  proc_memory = λ (i : ℕ). some (procs i);
}

-- What holds after the loop over the processes `ps`.
record Booted (i : ℕ) (ps : List Pcb) (k l : Kernel) : Type 0 where
  one : OneRunning k.sched → OneRunning l.sched
  system : (l.mem, l.all_procs) ≡ prepare_all i ps k.mem k.all_procs
  pools : (r : ℕ) → amount l.graph r ≡ amount k.graph r
  fs : l.fs ≡ k.fs
  buffer : l.sensor_buf ≡ k.sensor_buf
  pending : l.pending ≡ k.pending
  config : l.config ≡ k.config
  tick : l.current_tick ≡ k.current_tick

-- A new thread is ready.
new-OneRunning :
    (t : ℕ) (x : Tcb) (s : Scheduler)
    → x.state ≡ ThreadState.ready
    → OneRunning s
    → OneRunning (update_thread t (λ _. x) s)
new-OneRunning t x s e one =
    update_thread-OneRunning t (λ _. x) s (λ y h. absurd (ground arith)) one

start-OneRunning :
    (b : Bool) (tid : ℕ) (s : Scheduler)
    → OneRunning s
    → OneRunning (if b then scheduler_add (scheduler_add s (some tid)) (some (tid + 1)) else s)
start-OneRunning true tid s one =
    scheduler_add-OneRunning _ (some (tid + 1)) (scheduler_add-OneRunning s (some tid) one)
start-OneRunning false tid s one = one

module _ (threads : ℕ → Tcb) (procs : ℕ → Pcb) where
  boot_process-Booted :
      (i tid : ℕ) (p : Pcb) (k : Kernel)
      → (l : Kernel) × (boot_process (enough_memory threads procs) i tid p k ≡ some l)
        × Booted i (p ∷ []) k l
  unfolding boot_process register_thread thread_create thread_spawn start_threads prepare_all
      graph_call
  boot_process-Booted i tid p k = (
    _,
    refl,
    record {
      one = λ one.
          start-OneRunning _ tid _
            (new-OneRunning (tid + 1) _ _ refl (new-OneRunning tid _ k.sched refl one));
      system = refl;
      pools = λ r. graph_call-amount (Exclusion.set_priority p.pid p.priority) k.graph r;
      fs = refl;
      buffer = refl;
      pending = refl;
      config = refl;
      tick = refl;
    },
  )

  boot_procs-Booted :
      (i tid : ℕ) (ps : List Pcb) (k : Kernel)
      → (l : Kernel) × (boot_procs (enough_memory threads procs) i tid (map some ps) k ≡ some l)
        × Booted i ps k l
  unfolding boot_procs prepare_all
  boot_procs-Booted i tid [] k = (
    record k { thread_count = tid },
    refl,
    record {
      one = λ one. one;
      system = refl;
      pools = λ r. refl;
      fs = refl;
      buffer = refl;
      pending = refl;
      config = refl;
      tick = refl;
    },
  )
  boot_procs-Booted i tid (p ∷ ps) k =
      let (a, done, first) = boot_process-Booted i tid p k in
      let (l, ended, rest) = boot_procs-Booted (suc i) (tid + 2) ps a in
      (
        l,
        ap
              (λ o.
                bind_kernel o
                  (boot_procs (enough_memory threads procs) (suc i) (tid + 2) (map some ps)))
              done
            ∙ ended,
        record {
          one = λ one. rest.one (first.one one);
          system =
              rest.system
              ∙ ap (λ (x : PhysicalMemory × List Pcb). prepare_all (suc i) ps x.0 x.1) first.system;
          pools = λ r. rest.pools r ∙ first.pools r;
          fs = rest.fs ∙ first.fs;
          buffer = rest.buffer ∙ first.buffer;
          pending = rest.pending ∙ first.pending;
          config = rest.config ∙ first.config;
          tick = rest.tick ∙ first.tick;
        },
      )

-- The process that a successful creation returns.
abbrev made : Option Pcb → Pcb → Pcb
made none p = p
made (some q) p = q

unfoldable drone : (ℕ → Pcb) → ℕ → Pcb
drone procs i = made (create_drone i (some (procs i))) (procs i)
  where
    create_drone : ℕ → Option Pcb → Option Pcb
    create_drone i memory =
        if i == 0
        then drone_create_flight memory (pos 0)
        else if i == 1
        then drone_create_battery memory (pos 1)
        else if i == 2
        then drone_create_mapping memory (pos 2)
        else drone_create_log_collector memory (pos 3)

drones-created :
    (threads : ℕ → Tcb) (procs : ℕ → Pcb)
    → create_procs (enough_memory threads procs) ≡ map some (four (drone procs))
unfolding create_procs drone drone_create_flight drone_create_battery drone_create_mapping
    drone_create_log_collector pcb_create drone_set_commands
drones-created threads procs = refl

start-OneRunning_init :
    (k : Kernel) (mode : SchedMode)
    → ((t : ℕ) → (k.sched.threads t).state ≢ ThreadState.running)
    → OneRunning (scheduler_init k.sched mode)
unfolding scheduler_init
start-OneRunning_init k mode idle t h = absurd (idle t h)

-- With memory for everything, and no thread running in what is there before, `kernel_init` makes a
-- safe kernel at tick 0 with the given configuration.
pub kernel_init-IsSound :
    (cfg : KernelConfig) (threads : ℕ → Tcb) (procs : ℕ → Pcb) (k : Kernel)
    → ((t : ℕ) → (k.sched.threads t).state ≢ ThreadState.running)
    → (l : Kernel) × (kernel_init cfg (enough_memory threads procs) k ≡ some l)
      × IsSound l
      × (l.config ≡ cfg)
      × (l.current_tick ≡ 0)
unfolding kernel_init init_modules
kernel_init-IsSound cfg threads procs k idle =
    let start = init_modules cfg k in
    let (l, done, b) = boot_procs-Booted threads procs 0 0 (four (drone procs)) start in
    (
      l,
      ap (λ ps. boot_procs (enough_memory threads procs) 0 0 ps start)
            (drones-created threads procs)
          ∙ done,
      record {
        same_config = refl;
        same_tick = refl;
        slots = omega (arith, ap (λ (p : Pending). p.count) b.pending);
        one = b.one (start-OneRunning_init k cfg.sched_mode idle);
        system =
            subst (λ (x : PhysicalMemory × List Pcb). IsSystem x.0 x.1) (sym b.system)
              (prepared-IsSystem (drone procs));
        fate = Fate-refl l.all_procs;
        inert = subst IsInert (sym b.fs) fs_init-IsInert;
        pools = λ r h. b.pools r ∙ deadlock_init-amount k.graph r h;
        buffer = subst IsValid (sym b.buffer) buffer_init-IsValid;
      },
      b.config,
      b.tick,
    )

-- ===== src/Kernel/Safe.antt =====
-- What the parts of the kernel of src/kernel.c keep together, over each of its stages.
pub mod Procs
pub mod Threads
pub mod Events
pub mod Cleanup
pub mod Commands
pub mod Stages
pub mod Pages
pub mod Run
pub mod Boot
pub mod Outcome
use fleetos.Base.{ℕ, ◌≡◌, refl, ◌∙◌, ◌<◌, ◌≤◌, List, Option, none, some}
use fleetos.Process.{Pcb}
use fleetos.Procs.Fault.{IsSystem}
use fleetos.Procs.Fate.{Fate, Fate-refl, Fate-trans}
use fleetos.Memory.{PhysicalMemory}
use fleetos.FileSystem.{FileSystem}
use fleetos.FileSystem.Inert.{IsInert}
use fleetos.Deadlock.{ResourceGraph, num_resources}
use fleetos.Deadlock.Account.{amount}
use fleetos.Sync.{BoundedBuffer}
use fleetos.Sync.Fifo.{IsValid}
use fleetos.Scheduler.{Scheduler}
use fleetos.Scheduler.OneRunning.{OneRunning}
use fleetos.Pending.{max_pending}
use fleetos.Kernel.{Kernel, KernelConfig}
use fleetos.Kernel.Events.{bind_kernel}

-- What a round starts with: the configuration and the tick stay.
pub record Frame : Type 0 where
  pub config : KernelConfig
  pub tick : ℕ
  -- The process table at the start.
  pub procs : List Pcb

-- Memory and page tables fit, only the current thread runs, each resource exists once, the buffer is
-- well formed, the file system has no free block, as after `fs_init`, the pending events fit in
-- their array, and the table holds the same processes, with those terminated that were.
pub record Safe (fr : Frame) (c : KernelConfig) (t n : ℕ) (s : Scheduler) (m : PhysicalMemory)
    (ps : List Pcb) (fs : FileSystem) (g : ResourceGraph) (b : BoundedBuffer) : Type 0 where
  pub same_config : c ≡ fr.config
  pub same_tick : t ≡ fr.tick
  pub slots : n ≤ max_pending
  pub one : OneRunning s
  pub system : IsSystem m ps
  pub fate : Fate fr.procs ps
  pub inert : IsInert fs
  pub pools : (r : ℕ) → r < num_resources → amount g r ≡ 1
  pub buffer : IsValid b

abbrev pub IsSafe : Frame → Kernel → Type 0
IsSafe fr k =
    Safe fr k.config k.current_tick k.pending.count k.sched k.mem k.all_procs k.fs k.graph
      k.sensor_buf

-- The step returns a safe kernel.
abbrev pub Returns : Frame → Option Kernel → Type 0
Returns fr none = ⊥
Returns fr (some k) = IsSafe fr k

module _ {fr : Frame} {c : KernelConfig} {t n : ℕ} {s : Scheduler} {m : PhysicalMemory}
    {ps : List Pcb} {fs : FileSystem} {g : ResourceGraph} {b : BoundedBuffer}
    (v : Safe fr c t n s m ps fs g b) where
  pub on_slots : {n' : ℕ} → n' ≤ max_pending → Safe fr c t n' s m ps fs g b
  on_slots slots = record {
    same_config = v.same_config;
    same_tick = v.same_tick;
    slots = slots;
    one = v.one;
    system = v.system;
    fate = v.fate;
    inert = v.inert;
    pools = v.pools;
    buffer = v.buffer;
  }

  pub on_sched : {s' : Scheduler} → OneRunning s' → Safe fr c t n s' m ps fs g b
  on_sched one = record {
    same_config = v.same_config;
    same_tick = v.same_tick;
    slots = v.slots;
    one = one;
    system = v.system;
    fate = v.fate;
    inert = v.inert;
    pools = v.pools;
    buffer = v.buffer;
  }

  pub on_memory : {m' : PhysicalMemory} → IsSystem m' ps → Safe fr c t n s m' ps fs g b
  on_memory system = record {
    same_config = v.same_config;
    same_tick = v.same_tick;
    slots = v.slots;
    one = v.one;
    system = system;
    fate = v.fate;
    inert = v.inert;
    pools = v.pools;
    buffer = v.buffer;
  }

  pub on_system :
      {m' : PhysicalMemory} {ps' : List Pcb}
      → IsSystem m' ps'
      → Fate ps ps'
      → Safe fr c t n s m' ps' fs g b
  on_system {ps'} system fate = record {
    same_config = v.same_config;
    same_tick = v.same_tick;
    slots = v.slots;
    one = v.one;
    system = system;
    fate = Fate-trans fr.procs ps ps' v.fate fate;
    inert = v.inert;
    pools = v.pools;
    buffer = v.buffer;
  }

  pub on_files : {fs' : FileSystem} → IsInert fs' → Safe fr c t n s m ps fs' g b
  on_files inert = record {
    same_config = v.same_config;
    same_tick = v.same_tick;
    slots = v.slots;
    one = v.one;
    system = v.system;
    fate = v.fate;
    inert = inert;
    pools = v.pools;
    buffer = v.buffer;
  }

  pub on_graph :
      {g' : ResourceGraph} → ((r : ℕ) → amount g' r ≡ amount g r) → Safe fr c t n s m ps fs g' b
  on_graph same = record {
    same_config = v.same_config;
    same_tick = v.same_tick;
    slots = v.slots;
    one = v.one;
    system = v.system;
    fate = v.fate;
    inert = v.inert;
    pools = λ r h. same r ∙ v.pools r h;
    buffer = v.buffer;
  }

  pub on_buffer : {b' : BoundedBuffer} → IsValid b' → Safe fr c t n s m ps fs g b'
  on_buffer buffer = record {
    same_config = v.same_config;
    same_tick = v.same_tick;
    slots = v.slots;
    one = v.one;
    system = v.system;
    fate = v.fate;
    inert = v.inert;
    pools = v.pools;
    buffer = buffer;
  }

-- The kernel is safe as it stands.
abbrev pub frame_of : Kernel → Frame
frame_of k = record { config = k.config; tick = k.current_tick; procs = k.all_procs }

abbrev pub IsSound : Kernel → Type 0
IsSound k = IsSafe (frame_of k) k

-- The tick that the frame names can be another one.
pub restart :
    {fr : Frame} {c : KernelConfig} {t n : ℕ} {s : Scheduler} {m : PhysicalMemory} {ps : List Pcb}
    {fs : FileSystem} {g : ResourceGraph} {b : BoundedBuffer} (u : ℕ)
    → Safe fr c t n s m ps fs g b
    → Safe (record { config = c; tick = u; procs = ps }) c u n s m ps fs g b
restart {ps} u v = record {
  same_config = refl;
  same_tick = refl;
  slots = v.slots;
  one = v.one;
  system = v.system;
  fate = Fate-refl ps;
  inert = v.inert;
  pools = v.pools;
  buffer = v.buffer;
}

-- A step after a step.
pub bind_kernel-Returns :
    (fr : Frame) (o : Option Kernel) (next : Kernel → Option Kernel)
    → Returns fr o
    → ((k : Kernel) → IsSafe fr k → Returns fr (next k))
    → Returns fr (bind_kernel o next)
bind_kernel-Returns fr none next v h = absurd v
bind_kernel-Returns fr (some k) next v h = h k v

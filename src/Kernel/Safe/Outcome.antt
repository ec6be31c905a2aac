-- ===== src/Kernel/Safe/Outcome.antt =====
-- A whole simulation of src/kernel.c, from `kernel_init` through `kernel_run`.
use fleetos.Base.{ℕ, suc, ◌≤◌, ◌≡◌, ◌≢◌, ap, ◌∙◌, false, arith, List, pos, Option, none, some, refl}
use fleetos.Types.{ThreadState}
use fleetos.Thread.{Tcb}
use fleetos.Process.{Pcb}
use fleetos.Procs.Fate.{Fate}
use fleetos.Kernel.{Kernel, KernelConfig}
use fleetos.Kernel.Boot.{kernel_init, kernel_shutdown}
use fleetos.Kernel.Run.{kernel_run}
use fleetos.Kernel.Tick.{kernel_stages}
use fleetos.Kernel.Safe.{IsSound, Returns, frame_of, restart}
use fleetos.Kernel.Safe.Stages.{kernel_stages-Returns}
use fleetos.Kernel.Safe.Run.{kernel_run-Ends}
use fleetos.Kernel.Safe.Boot.{enough_memory, kernel_init-IsSound}

shut_down : (k : Kernel) (t : ℕ) → ((kernel_shutdown k).sched.threads t).state ≢ ThreadState.running
unfolding kernel_shutdown
shut_down k t e = ground arith

-- With a tick limit above 0, input off, memory for every allocation and a heap in which no thread runs,
-- the simulation comes to its end: `kernel_init` makes a kernel, and `kernel_run` on it returns within
-- one round more than the limit, at a tick that is at most the limit. At the end at most the current
-- thread runs, memory and page tables fit, each resource exists once, the buffer is well formed, the
-- file system has no free block, and the pending events fit in their array. After `kernel_shutdown` of
-- it no thread runs in the heap, so that another simulation can follow.
pub simulation_ends :
    (cfg : KernelConfig) (limit : ℕ) (lines : List (List ℕ)) (threads : ℕ → Tcb) (procs : ℕ → Pcb)
    (before : Kernel)
    → ((t : ℕ) → (before.sched.threads t).state ≢ ThreadState.running)
    → cfg.interactive ≡ false
    → cfg.max_ticks ≡ pos (suc limit)
    → (start end : Kernel) × (kernel_init cfg (enough_memory threads procs) before ≡ some start)
      × (kernel_run (suc (suc limit)) lines start ≡ some end)
      × IsSound end
      × (end.current_tick ≤ suc limit)
      × ((t : ℕ) → ((kernel_shutdown end).sched.threads t).state ≢ ThreadState.running)
simulation_ends cfg limit lines threads procs before idle quiet limited =
    let (start, begun, sound, same, zero_tick) =
      kernel_init-IsSound cfg threads procs before idle in
    let (end, ended, safe, within, _) =
      kernel_run-Ends (suc limit) lines start limit sound
        (ap (λ (c : KernelConfig). c.interactive) same ∙ quiet)
        (ap (λ (c : KernelConfig). c.max_ticks) same ∙ limited) (omega (arith, zero_tick))
        (omega (arith, zero_tick)) in
    (start, end, begun, ended, safe, within, shut_down end)

returned :
    (k : Kernel) (o : Option Kernel)
    → Returns (frame_of k) o
    → (l : Kernel) × (o ≡ some l)
      × IsSound l
      × (l.config ≡ k.config)
      × (l.current_tick ≡ k.current_tick)
returned k none v = absurd v
returned k (some l) v = (l, refl, restart l.current_tick v, v.same_config, v.same_tick)

-- A round of the loop of `kernel_run` on a kernel that is sound always returns: completed events,
-- arrivals, the command of the running thread, deadlock detection, the crash, the page fault, the
-- quantum and the wake-ups. The configuration and the tick are the same afterwards, and the kernel is
-- sound again: at most the current thread runs, memory and page tables fit, each resource exists once,
-- the buffer is well formed, the file system has no free block, and the pending events fit.
pub kernel_stages-IsSound :
    (k : Kernel)
    → IsSound k
    → (l : Kernel) × (kernel_stages k ≡ some l)
      × IsSound l
      × (l.config ≡ k.config)
      × (l.current_tick ≡ k.current_tick)
kernel_stages-IsSound k v = returned k (kernel_stages k) (kernel_stages-Returns k v)

-- A run of `kernel_run` from a sound kernel, with input off and a tick limit above 0 that is not yet
-- passed, returns within one round more than the limit. The process table holds the same processes
-- then, by their pids and in their order, and no process that was terminated has come to life: each of
-- them is terminated still.
pub terminated_stay :
    (lines : List (List ℕ)) (k : Kernel) (m : ℕ)
    → IsSound k
    → k.config.interactive ≡ false
    → k.config.max_ticks ≡ pos (suc m)
    → k.current_tick ≤ suc m
    → (end : Kernel) × (kernel_run (suc (suc m)) lines k ≡ some end)
      × Fate k.all_procs end.all_procs
terminated_stay lines k m v quiet limit within =
    let (end, ended, _, _, fate) =
      kernel_run-Ends (suc m) lines k m v quiet limit within (omega arith) in
    (end, ended, fate)

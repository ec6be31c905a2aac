-- ===== src/Kernel/Shutdown.antt =====
-- `kernel_shutdown` of src/kernel.c: the frames that it gives back.
use fleetos.Base.{ℕ, ◌≡◌, ◌≢◌, List, [], ◌∷◌, All, ℤ, pos, minus_one, get_or, count_if}
use fleetos.Memory.Frames.{is_unowned}
use fleetos.Process.{Pcb}
use fleetos.Memory.{PhysicalMemory}
use fleetos.Memory.Allocate.{IsMemory, Tables}
use fleetos.Procs.Release.{freed_IsMemory, freed_mine, freed_without}
use fleetos.Kernel.{Kernel}
use fleetos.Kernel.Boot.{free_all, kernel_shutdown}
use fleetos.Kernel.Safe.{IsSound}
use fleetos.Kernel.Safe.Stages.{mem_set_tick-IsSystem}

-- No frame is the process's.
abbrev Without : PhysicalMemory → ℤ → Type 0
Without m pid = (f : ℕ) → get_or m.frames f minus_one ≢ pid

abbrev IsReal : Pcb → Type 0
IsReal p = p.pid ≢ minus_one

Tables-IsReal : (m : PhysicalMemory) (ps : List Pcb) → All (Tables m) ps → All IsReal ps
Tables-IsReal m [] h = tt
Tables-IsReal m (p ∷ ps) h = (h.0.real, Tables-IsReal m ps h.1)

free_all-IsMemory :
    (ps : List Pcb) (m : PhysicalMemory) → IsMemory m → All IsReal ps → IsMemory (free_all ps m)
unfolding free_all
free_all-IsMemory [] m v h = v
free_all-IsMemory (p ∷ ps) m v h = free_all-IsMemory ps _ (freed_IsMemory m p v h.0) h.1

free_all-stays :
    (ps : List Pcb) (m : PhysicalMemory) (pid : ℤ)
    → IsMemory m
    → All IsReal ps
    → pid ≢ minus_one
    → Without m pid
    → Without (free_all ps m) pid
unfolding free_all
free_all-stays [] m pid v h given w = w
free_all-stays (p ∷ ps) m pid v h given w =
    free_all-stays ps _ pid (freed_IsMemory m p v h.0) h.1 given
      (freed_without m p v h.0 pid given w)

free_all-Without :
    (ps : List Pcb) (m : PhysicalMemory)
    → IsMemory m
    → All IsReal ps
    → All (λ (p : Pcb). Without (free_all ps m) p.pid) ps
unfolding free_all
free_all-Without [] m v h = tt
free_all-Without (p ∷ ps) m v h =
    let freed = freed_IsMemory m p v h.0 in
    (
      free_all-stays ps _ p.pid freed h.1 h.0 (freed_mine m p v h.0),
      free_all-Without ps _ freed h.1,
    )

-- After `kernel_shutdown` of a sound kernel no frame belongs to a process that was in its table, and
-- the counter of free frames is the number of frames that have no owner.
pub kernel_shutdown-frees :
    (k : Kernel)
    → IsSound k
    → All
        (λ (p : Pcb). (f : ℕ) → get_or (kernel_shutdown k).mem.frames f minus_one ≢ p.pid)
        k.all_procs
      × ((kernel_shutdown k).mem.free_frame_count
          ≡ pos (count_if is_unowned (kernel_shutdown k).mem.frames))
unfolding kernel_shutdown
kernel_shutdown-frees k v =
    let stamped = mem_set_tick-IsSystem k.current_tick v.system in
    let real = Tables-IsReal _ k.all_procs stamped.tables in
    (
      free_all-Without k.all_procs _ stamped.memory real,
      (free_all-IsMemory k.all_procs _ stamped.memory real).counted,
    )

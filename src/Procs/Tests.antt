-- ===== src/Procs/Tests.antt =====
-- The theorems on memory and processes at concrete states of src/kernel.c and src/memory.c.
use fleetos.Base.{ℕ, ◌≢◌, refl, arith, List, [], ◌∷◌, ℤ, pos, minus_one, replicate, bytes, get_or}
use fleetos.Types.{ProcessState, no_reason, high, compute, max_pages, max_commands}
use fleetos.Process.{Pcb}
use fleetos.Memory.{
  PhysicalMemory, mem_init, mem_allocate_page, allocate_absent, install, mem_access,
  free_frame_from,
}
use fleetos.Memory.Allocate.{Tables}
use fleetos.Memory.Choice.{Choice, allocate_absent-Choice}
use fleetos.Memory.Start.{mem_init-IsMemory, mem_init-Tables}
use fleetos.Procs.{find_proc, update_proc, resolve_fault}
use fleetos.Procs.Fault.{IsSystem, resolve_fault-IsSystem}
use fleetos.Procs.Release.{release_process, release_process-IsSystem}
use fleetos.Memory.Lookup.{Lookup, mem_access-Lookup}

abbrev process : ℤ → Pcb
process pid = record {
  pid = pid;
  name = bytes "Flight";
  state = ProcessState.ready;
  priority = high;
  program_counter = 0;
  registers = replicate 8 (pos 0);
  page_table = replicate max_pages minus_one;
  pages_used = pos 0;
  arrival_time = 0;
  burst_remaining = pos 20;
  wait_time = 0;
  blocked_reason = no_reason;
  held_resources = replicate 4 minus_one;
  requested_resource = minus_one;
  commands = replicate max_commands compute;
  command_count = 3;
  command_ticks_remaining = pos 1;
  mlfq_level = minus_one;
  completion_tick = minus_one;
}

abbrev fleet : List Pcb
fleet = process (pos 0) ∷ process (pos 1) ∷ []

pids_apart : (pos 1 ≢ pos 0) × (pos 0 ≢ minus_one) × (pos 1 ≢ minus_one)
pids_apart = ground arith

fleet-IsSystem : IsSystem mem_init fleet
fleet-IsSystem = record {
  memory = mem_init-IsMemory;
  tables = (
    mem_init-Tables (process (pos 0)) pids_apart.1 refl,
    (mem_init-Tables (process (pos 1)) pids_apart.2 refl, tt),
  );
  distinct = ((pids_apart.0, tt), (tt, tt));
}

resolve_fault-IsSystem_example :
    IsSystem
      (resolve_fault mem_init fleet (pos 1) (pos 4)).0
      (resolve_fault mem_init fleet (pos 1) (pos 4)).1
resolve_fault-IsSystem_example =
    resolve_fault-IsSystem mem_init fleet (pos 1) (pos 4) fleet-IsSystem

-- Page 4 of process 0 in frame 0.
abbrev mapped_system : PhysicalMemory × List Pcb
mapped_system = resolve_fault mem_init fleet (pos 0) (pos 4)

mapped_fleet : IsSystem mapped_system.0 mapped_system.1
mapped_fleet = resolve_fault-IsSystem mem_init fleet (pos 0) (pos 4) fleet-IsSystem

abbrev mapped_process : Pcb
mapped_process = record (process (pos 0)) {
  page_table = minus_one ∷ minus_one ∷ minus_one ∷ minus_one ∷ pos 0 ∷ replicate 11 minus_one;
  pages_used = pos 1;
}

mapped_process-Tables : Tables mapped_system.0 mapped_process
unfolding resolve_fault find_proc update_proc mem_init mem_allocate_page allocate_absent install
    free_frame_from
mapped_process-Tables = mapped_fleet.tables.0

mem_access-Lookup_example :
    Lookup mapped_system.0 mapped_process
      (pos 1030)
      (mem_access mapped_system.0 mapped_process (pos 1030))
mem_access-Lookup_example =
    mem_access-Lookup {m = mapped_system.0} {p = mapped_process} (pos 1030) mapped_process-Tables

release_process-IsSystem_example :
    IsSystem
      (release_process mem_init fleet (process (pos 1))).0
      (release_process mem_init fleet (process (pos 1))).1
    × ((f : ℕ)
        → get_or (release_process mem_init fleet (process (pos 1))).0.frames f minus_one ≢ pos 1)
unfolding find_proc
release_process-IsSystem_example =
    release_process-IsSystem mem_init fleet (pos 1) (process (pos 1)) fleet-IsSystem refl

allocate_absent-Choice_example :
    Choice mem_init (process (pos 0)) 3 (allocate_absent mem_init (process (pos 0)) 3)
allocate_absent-Choice_example =
    allocate_absent-Choice mem_init (process (pos 0)) 3 mem_init-IsMemory (omega arith)

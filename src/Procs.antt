-- ===== src/Procs.antt =====
-- The process table of src/kernel.c, `all_procs`: search, change through the pointer found, and the
-- handling of a resolved page fault. Every entry is a process: allocation succeeded.
pub mod Update
pub mod Fault
pub mod Release
pub mod Fate
mod Tests
use fleetos.Base.{
  ℕ, Bool, true, false, List, [], ◌∷◌, if◌then◌else◌, set, ℤ, pos, minus_one, index, is_neg, eq_int,
  pred_int, Option, none, some,
}
use fleetos.Process.{Pcb}
use fleetos.Memory.{PhysicalMemory, EvictionInfo, Allocated, mem_allocate_page}

unfoldable pub find_proc : List Pcb → ℤ → Option Pcb
find_proc [] pid = none
find_proc (p ∷ ps) pid = if eq_int p.pid pid then some p else find_proc ps pid

-- A change through the pointer that `find_proc` returns.
unfoldable pub update_proc : ℤ → (Pcb → Pcb) → List Pcb → List Pcb
update_proc pid f [] = []
update_proc pid f (p ∷ ps) = if eq_int p.pid pid then f p ∷ ps else p ∷ update_proc pid f ps

-- `victim->page_table[page] = -1; victim->pages_used--;`
abbrev pub unmap : ℕ → Pcb → Pcb
unmap page p = record p {
  page_table = set p.page_table page minus_one;
  pages_used = pred_int p.pages_used;
}

unfoldable pub unmap_victim : EvictionInfo → List Pcb → List Pcb
unmap_victim info ps = elim (find_proc ps info.victim_pid) [
  | none ↦ ps
  | some victim ↦
      if is_neg info.victim_page
      then ps
      else update_proc info.victim_pid (unmap (index info.victim_page)) ps
]

-- `EvictionInfo ei = {0};`
abbrev pub zero_eviction : EvictionInfo
zero_eviction = record { evicted = false; victim_pid = pos 0; victim_page = pos 0; frame = pos 0 }

-- What `complete_page_faults` does to the memory and the processes for one event that is due.
unfoldable pub resolve_fault :
    PhysicalMemory → List Pcb → (pid page : ℤ) → PhysicalMemory × List Pcb
resolve_fault m ps pid page = elim (find_proc ps pid) [
  | none ↦ (m, ps)
  | some proc ↦
      (let a = mem_allocate_page m proc page zero_eviction in
        let ps' = update_proc pid (λ _. a.pcb) ps in
        (a.mem, if a.eviction.evicted then unmap_victim a.eviction ps' else ps'))
]

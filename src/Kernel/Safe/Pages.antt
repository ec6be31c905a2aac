-- ===== src/Kernel/Safe/Pages.antt =====
-- The first pages that `kernel_init` of src/kernel.c gives out: two for each of the four processes, in
-- the order of the frames.
use fleetos.Base.{
  ℕ, suc, ◌==◌, ◌≡◌, refl, sym, ap, ◌∙◌, subst, if◌then◌else◌, arith, List, [], ◌∷◌, ◌++◌, map,
  replicate, ℤ, pos, minus_one,
}
use fleetos.Types.{ProcessState, max_pages, frame_count}
use fleetos.Process.{Pcb, pcb_set_state, drone_get_arrival_time}
use fleetos.Procs.{resolve_fault, find_proc, update_proc}
use fleetos.Procs.Fault.{IsSystem, resolve_fault-IsSystem}
use fleetos.Memory.{
  PhysicalMemory, mem_init, mem_allocate_page, allocate_absent, install, free_frame_from,
}
use fleetos.Memory.Start.{mem_init-IsMemory, mem_init-Tables}
use fleetos.Kernel.Boot.{prepare_process}
use fleetos.Kernel.Safe.Procs.{Places, map-Places-IsSystem}

-- What the loop over the processes does to the memory and the process table.
unfoldable pub prepare_all : ℕ → List Pcb → PhysicalMemory → List Pcb → PhysicalMemory × List Pcb
prepare_all i [] m done = (m, done)
prepare_all i (p ∷ ps) m done =
    let (m', p') = prepare_process i p m in prepare_all (suc i) ps m' (done ++ p' ∷ [])

-- A process without pages.
abbrev pub blank : ℕ → Pcb → Pcb
blank i p = record p { pid = pos i; page_table = replicate max_pages minus_one; pages_used = pos 0 }

abbrev pub four : (ℕ → Pcb) → List Pcb
four p = blank 0 (p 0) ∷ blank 1 (p 1) ∷ blank 2 (p 2) ∷ blank 3 (p 3) ∷ []

-- What the loop sets besides the pages.
abbrev timed : Pcb → Pcb
timed p = record p {
  arrival_time = drone_get_arrival_time p.pid;
  state = if drone_get_arrival_time p.pid == 0 then ProcessState.ready else p.state;
}

timed-Places : Places timed
timed-Places p = (refl, refl)

-- The process `i` with its two pages.
abbrev pub paged : ℕ → (a b : ℕ) → Pcb → Pcb
paged i a b p = record (blank i p) {
  page_table = pos a ∷ pos b ∷ replicate 14 minus_one;
  pages_used = pos 2;
}

abbrev memory_with : List ℤ → List ℤ → ℕ → PhysicalMemory
memory_with frames pages free = record {
  frames = frames;
  frame_pages = pages;
  last_access = replicate frame_count 0;
  free_frame_count = pos free;
  current_tick = 0;
}

abbrev after_1 : PhysicalMemory
after_1 =
    memory_with (pos 0 ∷ pos 0 ∷ replicate 14 minus_one) (pos 0 ∷ pos 1 ∷ replicate 14 minus_one) 14

abbrev after_2 : PhysicalMemory
after_2 =
    memory_with (pos 0 ∷ pos 0 ∷ pos 1 ∷ pos 1 ∷ replicate 12 minus_one)
      (pos 0 ∷ pos 1 ∷ pos 0 ∷ pos 1 ∷ replicate 12 minus_one) 12

abbrev after_3 : PhysicalMemory
after_3 =
    memory_with (pos 0 ∷ pos 0 ∷ pos 1 ∷ pos 1 ∷ pos 2 ∷ pos 2 ∷ replicate 10 minus_one)
      (pos 0 ∷ pos 1 ∷ pos 0 ∷ pos 1 ∷ pos 0 ∷ pos 1 ∷ replicate 10 minus_one) 10

abbrev pub after_4 : PhysicalMemory
after_4 =
    memory_with
      (pos 0 ∷ pos 0 ∷ pos 1 ∷ pos 1 ∷ pos 2 ∷ pos 2 ∷ pos 3 ∷ pos 3 ∷ replicate 8 minus_one)
      (pos 0 ∷ pos 1 ∷ pos 0 ∷ pos 1 ∷ pos 0 ∷ pos 1 ∷ pos 0 ∷ pos 1 ∷ replicate 8 minus_one) 8

prepare_0 : (p : Pcb) → prepare_process 0 (blank 0 p) mem_init ≡ (after_1, timed (paged 0 0 1 p))
unfolding prepare_process mem_init mem_allocate_page allocate_absent install free_frame_from
    drone_get_arrival_time pcb_set_state
prepare_0 p = refl

prepare_1 : (p : Pcb) → prepare_process 1 (blank 1 p) after_1 ≡ (after_2, timed (paged 1 2 3 p))
unfolding prepare_process mem_init mem_allocate_page allocate_absent install free_frame_from
    drone_get_arrival_time pcb_set_state
prepare_1 p = refl

prepare_2 : (p : Pcb) → prepare_process 2 (blank 2 p) after_2 ≡ (after_3, timed (paged 2 4 5 p))
unfolding prepare_process mem_init mem_allocate_page allocate_absent install free_frame_from
    drone_get_arrival_time pcb_set_state
prepare_2 p = refl

prepare_3 : (p : Pcb) → prepare_process 3 (blank 3 p) after_3 ≡ (after_4, timed (paged 3 6 7 p))
unfolding prepare_process mem_init mem_allocate_page allocate_absent install free_frame_from
    drone_get_arrival_time pcb_set_state
prepare_3 p = refl

prepare_next :
    (i : ℕ) (p q : Pcb) (ps done : List Pcb) (m l : PhysicalMemory)
    → prepare_process i p m ≡ (l, q)
    → prepare_all i (p ∷ ps) m done ≡ prepare_all (suc i) ps l (done ++ q ∷ [])
unfolding prepare_all
prepare_next i p q ps done m l e =
    ap (λ (x : PhysicalMemory × Pcb). prepare_all (suc i) ps x.0 (done ++ x.1 ∷ [])) e

abbrev fault : ℤ → ℤ → PhysicalMemory × List Pcb → PhysicalMemory × List Pcb
fault pid page x = resolve_fault x.0 x.1 pid page

fault_0 :
    (p : ℕ → Pcb)
    → fault (pos 0) (pos 1) (
        fault
          (pos 0)
          (pos 0)
          (mem_init, blank 0 (p 0) ∷ blank 1 (p 1) ∷ blank 2 (p 2) ∷ blank 3 (p 3) ∷ []))
      ≡ (after_1, paged 0 0 1 (p 0) ∷ blank 1 (p 1) ∷ blank 2 (p 2) ∷ blank 3 (p 3) ∷ [])
unfolding resolve_fault find_proc update_proc mem_init mem_allocate_page allocate_absent install
    free_frame_from
fault_0 p = refl

fault_1 :
    (p : ℕ → Pcb)
    → fault (pos 1) (pos 1) (
        fault
          (pos 1)
          (pos 0)
          (after_1, paged 0 0 1 (p 0) ∷ blank 1 (p 1) ∷ blank 2 (p 2) ∷ blank 3 (p 3) ∷ []))
      ≡ (after_2, paged 0 0 1 (p 0) ∷ paged 1 2 3 (p 1) ∷ blank 2 (p 2) ∷ blank 3 (p 3) ∷ [])
unfolding resolve_fault find_proc update_proc mem_init mem_allocate_page allocate_absent install
    free_frame_from
fault_1 p = refl

fault_2 :
    (p : ℕ → Pcb)
    → fault (pos 2) (pos 1) (
        fault
          (pos 2)
          (pos 0)
          (after_2, paged 0 0 1 (p 0) ∷ paged 1 2 3 (p 1) ∷ blank 2 (p 2) ∷ blank 3 (p 3) ∷ []))
      ≡ (after_3, paged 0 0 1 (p 0) ∷ paged 1 2 3 (p 1) ∷ paged 2 4 5 (p 2) ∷ blank 3 (p 3) ∷ [])
unfolding resolve_fault find_proc update_proc mem_init mem_allocate_page allocate_absent install
    free_frame_from
fault_2 p = refl

fault_3 :
    (p : ℕ → Pcb)
    → fault (pos 3) (pos 1) (
        fault
          (pos 3)
          (pos 0)
          (after_3, paged 0 0 1 (p 0) ∷ paged 1 2 3 (p 1) ∷ paged 2 4 5 (p 2) ∷ blank 3 (p 3) ∷ []))
      ≡ (
        after_4,
        paged 0 0 1 (p 0) ∷ paged 1 2 3 (p 1) ∷ paged 2 4 5 (p 2) ∷ paged 3 6 7 (p 3) ∷ [],
      )
unfolding resolve_fault find_proc update_proc mem_init mem_allocate_page allocate_absent install
    free_frame_from
fault_3 p = refl

blank-IsSystem : (p : ℕ → Pcb) → IsSystem mem_init (four p)
blank-IsSystem p = record {
  memory = mem_init-IsMemory;
  tables = (
    mem_init-Tables (blank 0 (p 0)) (λ e. ground arith) refl,
    (
      mem_init-Tables (blank 1 (p 1)) (λ e. ground arith) refl,
      (
        mem_init-Tables (blank 2 (p 2)) (λ e. ground arith) refl,
        (mem_init-Tables (blank 3 (p 3)) (λ e. ground arith) refl, tt),
      ),
    ),
  );
  distinct = (
    ((λ e. ground arith), ((λ e. ground arith), ((λ e. ground arith), tt))),
    (((λ e. ground arith), ((λ e. ground arith), tt)), (((λ e. ground arith), tt), (tt, tt))),
  );
}

abbrev Fits : PhysicalMemory × List Pcb → Type 0
Fits x = IsSystem x.0 x.1

two_faults-Fits :
    (pid : ℤ) (x y : PhysicalMemory × List Pcb)
    → fault pid (pos 1) (fault pid (pos 0) x) ≡ y
    → Fits x
    → Fits y
two_faults-Fits pid x y e v =
    subst Fits e
      (resolve_fault-IsSystem _ _ pid (pos 1) (resolve_fault-IsSystem x.0 x.1 pid (pos 0) v))

-- Giving out the pages is resolving eight page faults.
pub paged-IsSystem :
    (p : ℕ → Pcb)
    → IsSystem after_4
        (paged 0 0 1 (p 0) ∷ paged 1 2 3 (p 1) ∷ paged 2 4 5 (p 2) ∷ paged 3 6 7 (p 3) ∷ [])
paged-IsSystem p = two_faults-Fits (pos 3) _ _ (fault_3 p) (
    two_faults-Fits (pos 2) _ _ (fault_2 p) (
      two_faults-Fits (pos 1) _ _ (fault_1 p)
        (two_faults-Fits (pos 0) _ _ (fault_0 p) (blank-IsSystem p))))

prepared :
    (p : ℕ → Pcb)
    → prepare_all 0 (four p) mem_init [] ≡ (
      after_4,
      map timed
          (paged 0 0 1 (p 0) ∷ paged 1 2 3 (p 1) ∷ paged 2 4 5 (p 2) ∷ paged 3 6 7 (p 3) ∷ []),
    )
prepared p =
    prepare_next 0 _ _ _ _ mem_init after_1 (prepare_0 (p 0))
    ∙ prepare_next 1 _ _ _ _ after_1 after_2 (prepare_1 (p 1))
    ∙ prepare_next 2 _ _ _ _ after_2 after_3 (prepare_2 (p 2))
    ∙ prepare_next 3 _ _ _ _ after_3 after_4 (prepare_3 (p 3))
    ∙ unfold prepare_all in refl

-- After the pages are given out, memory and page tables fit.
pub prepared-IsSystem :
    (p : ℕ → Pcb)
    → IsSystem (prepare_all 0 (four p) mem_init []).0 (prepare_all 0 (four p) mem_init []).1
prepared-IsSystem p =
    subst Fits (sym (prepared p)) (map-Places-IsSystem timed (paged-IsSystem p) timed-Places)

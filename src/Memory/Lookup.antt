-- ===== src/Memory/Lookup.antt =====
-- `mem_access` of src/memory.c at every value of its address.
use fleetos.Base.{
  ℕ, suc, ◌+◌, ◌*◌, ◌/◌, ◌%◌, ◌<◌, ◌≤◌, ◌≡◌, refl, Bool-cases, inl, inr, arith, get_or, set, ltb, ℤ,
  pos, negsuc, minus_one, sub_nat, none, some,
}
use fleetos.Types.{frame_count, max_pages, page_size}
use fleetos.Process.{Pcb}
use fleetos.Memory.{PhysicalMemory, Access, mem_access}
use fleetos.Memory.Allocate.{Tables}

-- The frame `f` belongs to the process and holds its page `page`, and the table says so.
pub record Maps (m : PhysicalMemory) (p : Pcb) (page f : ℕ) : Type 0 where
  pub entry : get_or p.page_table page minus_one ≡ pos f
  pub within : f < frame_count
  pub owner : get_or m.frames f minus_one ≡ p.pid
  pub holds : get_or m.frame_pages f minus_one ≡ pos page

-- The memory after an access to the frame `f`.
abbrev pub touched : PhysicalMemory → ℕ → PhysicalMemory
touched m f = record m { last_access = set m.last_access f m.current_tick }

-- What an access at the address gives. A negative address above -256 is taken for one of page 0.
pub data Lookup (m : PhysicalMemory) (p : Pcb) (addr : ℤ) (a : Access) : Type 0 where
  above :
      (n : ℕ)
      → addr ≡ pos n
      → max_pages * page_size ≤ n
      → a ≡ record { mem = m; result = minus_one; fault_page = none }
      → Lookup m p addr a
  faults :
      (n : ℕ)
      → addr ≡ pos n
      → n < max_pages * page_size
      → get_or p.page_table (n / page_size) minus_one ≡ minus_one
      → a ≡ record { mem = m; result = minus_one; fault_page = some (pos (n / page_size)) }
      → Lookup m p addr a
  translated :
      (n f : ℕ)
      → addr ≡ pos n
      → n < max_pages * page_size
      → Maps m p (n / page_size) f
      → a ≡ record {
        mem = touched m f;
        result = pos (f * page_size + n % page_size);
        fault_page = none;
      }
      → Lookup m p addr a
  below :
      (n : ℕ)
      → addr ≡ negsuc n
      → page_size ≤ suc n
      → a ≡ record { mem = m; result = minus_one; fault_page = none }
      → Lookup m p addr a
  faults_below :
      (n : ℕ)
      → addr ≡ negsuc n
      → suc n < page_size
      → get_or p.page_table 0 minus_one ≡ minus_one
      → a ≡ record { mem = m; result = minus_one; fault_page = some (pos 0) }
      → Lookup m p addr a
  before_frame :
      (n f : ℕ)
      → addr ≡ negsuc n
      → suc n < page_size
      → Maps m p 0 f
      → a
        ≡ record { mem = touched m f; result = sub_nat (f * page_size) (suc n); fault_page = none }
      → Lookup m p addr a

entry-Maps :
    {m : PhysicalMemory} {p : Pcb} (page f : ℕ)
    → Tables m p
    → page < max_pages
    → get_or p.page_table page minus_one ≡ pos f
    → Maps m p page f
entry-Maps page f t h e =
    let (within, owner, holds) = t.owns.forward page f h e in
    record { entry = e; within = within; owner = owner; holds = holds }

-- For a process whose page table and frames fit, an access at any `int`: at a natural number beyond the
-- sixteen pages, or at -256 and below, the result is -1, memory stays and no page is reported; within
-- the pages it either reports the page, which has no frame, with -1 and memory as before, or it stamps
-- the frame with the tick and gives the same offset in it, and the frame is the process's and holds
-- that page. At an address between -256 and 0 the code takes page 0: it reports page 0, or it stamps
-- its frame and gives the number that lies so far before the frame's start.
pub mem_access-Lookup :
    {m : PhysicalMemory} {p : Pcb} (addr : ℤ) → Tables m p → Lookup m p addr (mem_access m p addr)
unfolding mem_access
mem_access-Lookup {m} {p} (pos n) t = elim (Bool-cases (ltb n (max_pages * page_size))) [
  | inr far ↦ above n refl (ground arith) (ground arith)
  | inl near ↦
      (let small : n < max_pages * page_size = ground arith in
        let page : n / page_size < max_pages = omega arith in
        elim (t.owns.mapped_or_not (n / page_size)) [
          | inl absent ↦ faults n refl small absent (ground arith)
          | inr (f, entry) ↦
              translated n f refl small (entry-Maps (n / page_size) f t page entry) (ground arith)
        ])
]
mem_access-Lookup {m} {p} (negsuc n) t = elim (Bool-cases (ltb (suc n) page_size)) [
  | inr far ↦ below n refl (ground arith) (ground arith)
  | inl near ↦
      (let small : suc n < page_size = ground arith in
        elim (t.owns.mapped_or_not 0) [
          | inl absent ↦ faults_below n refl small absent (ground arith)
          | inr (f, entry) ↦
              before_frame n f refl small (entry-Maps 0 f t (omega arith) entry) (ground arith)
        ])
]

-- ===== src/Memory/Choice.antt =====
-- Which frame `mem_allocate_page` of src/memory.c gives to a page that has none, and what that changes.
use fleetos.Base.{
  ℕ, ◌<◌, ◌≡◌, ◌≢◌, refl, sym, ap, ◌∙◌, subst, true, inl, inr, arith, length, get_or,
  get_or-set_self, get_or-set_ne, pos, minus_one, pred_int, suc_int, ℤ,
}
use fleetos.Types.{frame_count}
use fleetos.Process.{Pcb}
use fleetos.Memory.{
  PhysicalMemory, Allocated, EvictionInfo, allocate_absent, install, evict_info, no_eviction,
  find_free_frame, select_lru_victim,
}
use fleetos.Memory.Frames.{FreeFrame-cases, IsLeast, lru_of-IsLeast}
use fleetos.Memory.Allocate.{IsMemory}

-- The frame `f` holds the page of the process, and nothing else has changed in the frames and in the
-- page table.
pub record Given (m : PhysicalMemory) (p : Pcb) (page : ℕ) (a : Allocated) (f : ℕ) : Type 0 where
  pub result : a.result ≡ pos f
  pub owner : get_or a.mem.frames f minus_one ≡ p.pid
  pub holds : get_or a.mem.frame_pages f minus_one ≡ pos page
  pub accessed : get_or a.mem.last_access f 0 ≡ m.current_tick
  pub entry : get_or a.pcb.page_table page minus_one ≡ pos f
  pub used : a.pcb.pages_used ≡ suc_int p.pages_used
  pub others :
      (g : ℕ)
      → g ≢ f
      → (get_or a.mem.frames g minus_one ≡ get_or m.frames g minus_one)
        × (get_or a.mem.frame_pages g minus_one ≡ get_or m.frame_pages g minus_one)
        × (get_or a.mem.last_access g 0 ≡ get_or m.last_access g 0)
  pub entries :
      (i : ℕ) → i ≢ page → get_or a.pcb.page_table i minus_one ≡ get_or p.page_table i minus_one

-- The choice of the frame. Free: the first frame without an owner. Evicted, when no frame is without
-- one: the first frame with the least access tick, and the eviction names its page.
pub data Choice (m : PhysicalMemory) (p : Pcb) (page : ℕ) (a : Allocated) : Type 0 where
  free :
      (f : ℕ)
      → f < frame_count
      → get_or m.frames f minus_one ≡ minus_one
      → ((g : ℕ) → g < f → get_or m.frames g minus_one ≢ minus_one)
      → a.mem.free_frame_count ≡ pred_int m.free_frame_count
      → a.eviction ≡ no_eviction
      → Given m p page a f
      → Choice m p page a
  evicted :
      (f : ℕ)
      → ((g : ℕ) → g < frame_count → get_or m.frames g minus_one ≢ minus_one)
      → IsLeast m.last_access frame_count f
      → a.mem.free_frame_count ≡ m.free_frame_count
      → a.eviction.evicted ≡ true
      → a.eviction.victim_pid ≡ get_or m.frames f minus_one
      → a.eviction.victim_page ≡ get_or m.frame_pages f minus_one
      → Given m p page a f
      → Choice m p page a

install-Given :
    (m : PhysicalMemory) (p : Pcb) (page f : ℕ) (count : ℤ) (info : EvictionInfo)
    → IsMemory m
    → page < length p.page_table
    → f < frame_count
    → Given m p page (install (record m { free_frame_count = count }) p page f info) f
unfolding install
install-Given m p page f count info v within small = record {
  result = refl;
  owner = get_or-set_self m.frames f p.pid minus_one (omega (arith, v.frames));
  holds = get_or-set_self m.frame_pages f (pos page) minus_one (omega (arith, v.pages));
  accessed = get_or-set_self m.last_access f m.current_tick 0 (omega (arith, v.ticks));
  entry = get_or-set_self p.page_table page (pos f) minus_one within;
  used = refl;
  others = λ g ne. (
    get_or-set_ne m.frames f g p.pid minus_one (λ e. ne (sym e)),
    get_or-set_ne m.frame_pages f g (pos page) minus_one (λ e. ne (sym e)),
    get_or-set_ne m.last_access f g m.current_tick 0 (λ e. ne (sym e)),
  );
  entries = λ i ne. get_or-set_ne p.page_table page i (pos f) minus_one (λ e. ne (sym e));
}

-- A page of the process that has no frame is given one, in a memory that is well formed and with a page
-- number within the page table. If a frame has no owner, it is the first such frame, the counter goes
-- down by one and nothing is evicted; if every frame has an owner, it is the first of those that were
-- accessed least recently, the counter stays and the eviction names the owner and the page that lose
-- it. The frame and the page table then name each other at the current tick, and the other frames and
-- entries are as before.
pub allocate_absent-Choice :
    (m : PhysicalMemory) (p : Pcb) (page : ℕ)
    → IsMemory m
    → page < length p.page_table
    → Choice m p page (allocate_absent m p page)
unfolding allocate_absent
allocate_absent-Choice m p page v within = elim (FreeFrame-cases 0 m.frames) [
  | inl (f, found) ↦
      (let at : find_free_frame m ≡ pos f = found.result ∙ ap pos (omega arith) in
        let small : f < frame_count = omega (arith, found.within, v.frames) in
        rw at (
          free f small found.unowned found.first (unfold install in refl) (unfold install in refl)
            (install-Given m p page f (pred_int m.free_frame_count) no_eviction v within small)))
  | inr (none_free, _, owned) ↦
      (let f = select_lru_victim m in
        let least : IsLeast m.last_access frame_count f =
          subst (λ n. IsLeast m.last_access n f) v.ticks
            (unfold select_lru_victim in lru_of-IsLeast m.last_access (omega (arith, v.ticks))) in
        rw none_free (
          evicted f (λ g small. owned g (omega (arith, v.frames, small))) least
            (unfold install in refl) (unfold install in refl) (unfold install in refl)
            (unfold install in refl)
            (install-Given m p page f m.free_frame_count (evict_info m f) v within least.within)))
]

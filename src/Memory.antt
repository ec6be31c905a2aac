-- ===== src/Memory.antt =====
-- src/memory.c and src/memory.h: sixteen physical frames, demand paging with LRU eviction. The
-- module's static `mem` is the state argument. The log lines are left out. A null `pcb`, which no
-- caller passes, is not modelled; `eviction` is always filled in, and its caller may ignore it.
pub mod Owner
pub mod Frames
pub mod Allocate
pub mod Choice
pub mod Lookup
pub mod Start
mod Tests
use fleetos.Base.{
  ℕ, zero, suc, ◌+◌, ◌-◌, ◌*◌, ◌/◌, ◌%◌, ◌<◌, Bool, true, false, ◌&&◌, ◌||◌, not, List, [], ◌∷◌,
  if◌then◌else◌, ltb, leb, length, get_or, set, replicate, count_if, ℤ, pos, negsuc, minus_one,
  index, is_neg, eq_int, suc_int, pred_int, quot_int, rem_int, ◌+ℤ◌, Option, none, some,
}
use fleetos.Types.{frame_count, max_pages, page_size}
use fleetos.Process.{Pcb}

pub record PhysicalMemory : Type 0 where
  pub frames : List ℤ
  pub frame_pages : List ℤ
  pub last_access : List ℕ
  pub free_frame_count : ℤ
  pub current_tick : ℕ

pub record EvictionInfo : Type 0 where
  pub evicted : Bool
  pub victim_pid : ℤ
  pub victim_page : ℤ
  pub frame : ℤ

unfoldable pub mem_init : PhysicalMemory
mem_init = record {
  frames = replicate frame_count minus_one;
  frame_pages = replicate frame_count minus_one;
  last_access = replicate frame_count 0;
  free_frame_count = pos frame_count;
  current_tick = 0;
}

unfoldable pub mem_set_tick : PhysicalMemory → ℕ → PhysicalMemory
mem_set_tick m tick = record m { current_tick = tick }

-- The first index from `i` on of a frame with no owner, or -1.
unfoldable pub free_frame_from : ℕ → List ℤ → ℤ
free_frame_from i [] = minus_one
free_frame_from i (f ∷ frames) =
    if eq_int f minus_one then pos i else free_frame_from (suc i) frames

abbrev pub find_free_frame : PhysicalMemory → ℤ
find_free_frame m = free_frame_from 0 m.frames

-- The loop of `select_lru_victim` over the rest of `last_access`, from index `i` on.
unfoldable pub oldest_from : ℕ → List ℕ → (oldest oldest_tick : ℕ) → ℕ
oldest_from i [] oldest oldest_tick = oldest
oldest_from i (t ∷ ticks) oldest oldest_tick =
    let here = ltb t oldest_tick in
    oldest_from (suc i) ticks (if here then i else oldest) (if here then t else oldest_tick)

abbrev pub lru_of : List ℕ → ℕ
lru_of [] = 0
lru_of (t ∷ ticks) = oldest_from 1 ticks 0 t

unfoldable pub select_lru_victim : PhysicalMemory → ℕ
select_lru_victim m = lru_of m.last_access

abbrev pub no_eviction : EvictionInfo
no_eviction = record {
  evicted = false;
  victim_pid = minus_one;
  victim_page = minus_one;
  frame = minus_one;
}

-- The changed memory and process, the frame or -1, and what `*eviction` receives.
pub record Allocated : Type 0 where
  pub mem : PhysicalMemory
  pub pcb : Pcb
  pub result : ℤ
  pub eviction : EvictionInfo

-- The end of `mem_allocate_page`: `frame` goes to the page.
unfoldable pub install : PhysicalMemory → Pcb → (page frame : ℕ) → EvictionInfo → Allocated
install m p page frame info = record {
  mem = record m {
    frames = set m.frames frame p.pid;
    frame_pages = set m.frame_pages frame (pos page);
    last_access = set m.last_access frame m.current_tick;
  };
  pcb = record p {
    page_table = set p.page_table page (pos frame);
    pages_used = suc_int p.pages_used;
  };
  result = pos frame;
  eviction = info;
}

abbrev pub evict_info : PhysicalMemory → ℕ → EvictionInfo
evict_info m frame = record {
  evicted = true;
  victim_pid = get_or m.frames frame minus_one;
  victim_page = get_or m.frame_pages frame minus_one;
  frame = pos frame;
}

-- A page in range that has no frame.
unfoldable pub allocate_absent : PhysicalMemory → Pcb → ℕ → Allocated
allocate_absent m p page =
    let frame = find_free_frame m in
    let victim = select_lru_victim m in
    if is_neg frame
    then install m p page victim (evict_info m victim)
    else install (record m { free_frame_count = pred_int m.free_frame_count }) p page (index frame)
        no_eviction

-- `eviction` before a call that returns at its first test keeps the caller's value `old`.
unfoldable pub mem_allocate_page : PhysicalMemory → Pcb → ℤ → EvictionInfo → Allocated
mem_allocate_page m p page old =
    let entry = get_or p.page_table (index page) minus_one in
    if is_neg page || leb max_pages (index page)
    then record { mem = m; pcb = p; result = minus_one; eviction = old }
    else if not (eq_int entry minus_one)
    then record { mem = m; pcb = p; result = entry; eviction = no_eviction }
    else allocate_absent m p (index page)

-- The changed memory, the physical address or -1, and what `*fault_page` receives, if anything.
pub record Access : Type 0 where
  pub mem : PhysicalMemory
  pub result : ℤ
  pub fault_page : Option ℤ

unfoldable pub mem_access : PhysicalMemory → Pcb → ℤ → Access
mem_access m p virtual_addr =
    let page = quot_int virtual_addr page_size in
    let offset = rem_int virtual_addr page_size in
    let entry = get_or p.page_table (index page) minus_one in
    if is_neg page || leb max_pages (index page)
    then record { mem = m; result = minus_one; fault_page = none }
    else if eq_int entry minus_one
    then record { mem = m; result = minus_one; fault_page = some page }
    else record {
      mem = record m { last_access = set m.last_access (index entry) m.current_tick };
      result = pos (index entry * page_size) +ℤ offset;
      fault_page = none;
    }

-- The loop of `mem_free_process` over the frames; the lists that it changes, and the counter.
pub record Freed : Type 0 where
  pub frames : List ℤ
  pub frame_pages : List ℤ
  pub free_frame_count : ℤ

unfoldable pub free_frames : ℤ → List ℤ → List ℤ → ℤ → Freed
free_frames pid (f ∷ frames) (q ∷ pages) count =
    let mine = eq_int f pid in
    let rest = free_frames pid frames pages (if mine then suc_int count else count) in
    record {
      frames = (if mine then minus_one else f) ∷ rest.frames;
      frame_pages = (if mine then minus_one else q) ∷ rest.frame_pages;
      free_frame_count = rest.free_frame_count;
    }
free_frames pid frames pages count = record {
  frames = frames;
  frame_pages = pages;
  free_frame_count = count;
}

unfoldable pub mem_free_process : PhysicalMemory → Pcb → PhysicalMemory × Pcb
mem_free_process m p =
    let freed = free_frames p.pid m.frames m.frame_pages m.free_frame_count in
    (
      record m {
        frames = freed.frames;
        frame_pages = freed.frame_pages;
        free_frame_count = freed.free_frame_count;
      },
      record p { page_table = replicate max_pages minus_one; pages_used = pos 0 },
    )

unfoldable pub mem_get_page_count : Pcb → ℕ
mem_get_page_count p = count_if (λ f. not (eq_int f minus_one)) p.page_table

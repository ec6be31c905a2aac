-- ===== src/Memory/Allocate.antt =====
-- `mem_allocate_page` of src/memory.c on one process and on the others.
use fleetos.Base.{
  ℕ, zero, suc, ◌+◌, ◌<◌, ◌≡◌, ◌≢◌, refl, ap, sym, ◌∙◌, inl, inr, List, [], ◌∷◌, arith, length,
  get_or, set, count_if, length-set, pos, minus_one, pred_int,
}
use fleetos.Types.{frame_count}
use fleetos.Process.{Pcb}
use fleetos.Memory.{
  PhysicalMemory, EvictionInfo, Allocated, allocate_absent, install, evict_info, no_eviction,
  find_free_frame, select_lru_victim,
}
use fleetos.Memory.Frames.{
  is_unowned, FreeFrame-cases, lru_of-IsLeast, count-set_owned, count-set_again,
}
use fleetos.Memory.Owner.{Owns}

-- The lists have their lengths, and the counter is the number of frames with no owner.
pub record IsMemory (m : PhysicalMemory) : Type 0 where
  pub frames : length m.frames ≡ frame_count
  pub pages : length m.frame_pages ≡ frame_count
  pub ticks : length m.last_access ≡ frame_count
  pub counted : m.free_frame_count ≡ pos (count_if is_unowned m.frames)

-- The process is real, and its page table and the frames name each other.
pub record Tables (m : PhysicalMemory) (p : Pcb) : Type 0 where
  pub real : p.pid ≢ minus_one
  pub owns : Owns m.frames m.frame_pages p.pid p.page_table

pub set-set {ℓ} : {A : Type ℓ} (xs : List A) (i : ℕ) (v w : A) → set (set xs i v) i w ≡ set xs i w
set-set [] i v w = refl
set-set (x ∷ xs) zero v w = refl
set-set (x ∷ xs) (suc i) v w = ap (◌∷◌ x) (set-set xs i v w)

pub set_comm {ℓ} :
    {A : Type ℓ} (xs : List A) (i j : ℕ) (v w : A)
    → i ≢ j
    → set (set xs i v) j w ≡ set (set xs j w) i v
set_comm [] i j v w ne = refl
set_comm (x ∷ xs) zero zero v w ne = absurd (ne refl)
set_comm (x ∷ xs) zero (suc j) v w ne = refl
set_comm (x ∷ xs) (suc i) zero v w ne = refl
set_comm (x ∷ xs) (suc i) (suc j) v w ne = ap (◌∷◌ x) (set_comm xs i j v w (λ e. ne (ap suc e)))

module _ (m : PhysicalMemory) (v : IsMemory m) (p : Pcb) (page : ℕ) where
  pub install-IsMemory_again :
      (f : ℕ) (info : EvictionInfo)
      → p.pid ≢ minus_one
      → get_or m.frames f minus_one ≢ minus_one
      → IsMemory (install m p page f info).mem
  unfolding install
  install-IsMemory_again f info real owned = record {
    frames = length-set m.frames f p.pid ∙ v.frames;
    pages = length-set m.frame_pages f (pos page) ∙ v.pages;
    ticks = length-set m.last_access f m.current_tick ∙ v.ticks;
    counted = v.counted ∙ ap pos (sym (count-set_again m.frames f p.pid owned real));
  }

  pub install-IsMemory_free :
      (f : ℕ) (info : EvictionInfo)
      → f < length m.frames
      → p.pid ≢ minus_one
      → get_or m.frames f minus_one ≡ minus_one
      → IsMemory
          (install (record m { free_frame_count = pred_int m.free_frame_count }) p page f info).mem
  unfolding install
  install-IsMemory_free f info within real free = record {
    frames = length-set m.frames f p.pid ∙ v.frames;
    pages = length-set m.frame_pages f (pos page) ∙ v.pages;
    ticks = length-set m.last_access f m.current_tick ∙ v.ticks;
    counted =
        ap pred_int (
          v.counted
          ∙ ap pos (sym (count-set_owned m.frames f p.pid within free real) ∙ one_more _));
  }
    where
      one_more : (n : ℕ) → n + 1 ≡ suc n
      one_more n = omega arith

-- The outcome of `allocate_absent`: a free frame, or the eviction of the least recently used one.
pub data Outcome (m : PhysicalMemory) (p : Pcb) (page : ℕ) (a : Allocated) : Type 0 where
  fresh :
      (f : ℕ)
      → f < frame_count
      → get_or m.frames f minus_one ≡ minus_one
      → a
        ≡ install (record m { free_frame_count = pred_int m.free_frame_count }) p page f no_eviction
      → Outcome m p page a
  evicted :
      (f : ℕ)
      → f < frame_count
      → get_or m.frames f minus_one ≢ minus_one
      → f ≡ select_lru_victim m
      → a ≡ install m p page f (evict_info m f)
      → Outcome m p page a

pub allocate_absent-Outcome :
    (m : PhysicalMemory) (p : Pcb) (page : ℕ)
    → IsMemory m
    → Outcome m p page (allocate_absent m p page)
unfolding allocate_absent
allocate_absent-Outcome m p page v = elim (FreeFrame-cases 0 m.frames) [
  | inl (f, found) ↦
      (let at : find_free_frame m ≡ pos f = found.result ∙ ap pos (omega arith) in
        fresh f (omega (arith, found.within, v.frames)) found.unowned (rw at))
  | inr (none_free, _, owned) ↦
      (let within : select_lru_victim m < frame_count = victim_within m v in
        evicted (select_lru_victim m) within (owned (select_lru_victim m) (omega (arith, v.frames)))
          refl (rw none_free))
]
  where
    victim_within : (m : PhysicalMemory) → IsMemory m → select_lru_victim m < frame_count
    victim_within m v =
        unfold select_lru_victim in
        let l = lru_of-IsLeast m.last_access (omega (arith, v.ticks)) in
        omega (arith, l.within, v.ticks)

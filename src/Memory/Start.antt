-- ===== src/Memory/Start.antt =====
-- The memory that `mem_init` of src/memory.c leaves, against processes with empty page tables.
use fleetos.Base.{
  ℕ, ◌≡◌, ◌≢◌, sym, ◌∙◌, inl, subst, arith, length-replicate, get_or-replicate, replicate, ℤ, pos,
  minus_one,
}
use fleetos.Types.{frame_count, max_pages}
use fleetos.Process.{Pcb}
use fleetos.Memory.{mem_init}
use fleetos.Memory.Owner.{Owns}
use fleetos.Memory.Allocate.{IsMemory, Tables}

pos-ne : {f : ℕ} → pos f ≢ minus_one
pos-ne e = ground arith

pub mem_init-IsMemory : IsMemory mem_init
unfolding mem_init
mem_init-IsMemory = ground arith

no_frames :
    (pid : ℤ)
    → pid ≢ minus_one
    → Owns
        (replicate frame_count minus_one)
        (replicate frame_count minus_one)
        pid
        (replicate max_pages minus_one)
no_frames pid real = record {
  size = length-replicate max_pages minus_one;
  forward = λ q f h e. absurd (pos-ne (sym e ∙ get_or-replicate max_pages q minus_one));
  backward = λ f h e. absurd (real (sym e ∙ get_or-replicate frame_count f minus_one));
  mapped_or_not = λ q. inl (get_or-replicate max_pages q minus_one);
}

-- A process whose page table is empty has no frame at the start.
pub mem_init-Tables :
    (p : Pcb) → p.pid ≢ minus_one → p.page_table ≡ replicate max_pages minus_one → Tables mem_init p
unfolding mem_init
mem_init-Tables p real empty = record {
  real = real;
  owns =
      subst (Owns (replicate frame_count minus_one) (replicate frame_count minus_one) p.pid)
        (sym empty) (no_frames p.pid real);
}

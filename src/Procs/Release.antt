-- ===== src/Procs/Release.antt =====
-- `mem_free_process` of src/memory.c in a fitting system.
use fleetos.Base.{
  ℕ, zero, suc, ◌+◌, ◌≡◌, ◌≢◌, refl, ap, sym, ◌∙◌, inl, inr, true, false, List, [], ◌∷◌, arith,
  if◌then◌else◌, length, length-replicate, get_or, get_or-replicate, Bool-cases, count_if, ℤ, pos,
  minus_one, eq_int, suc_int, eq_int_iff, eq_int_ne, some,
}
use fleetos.Types.{max_pages}
use fleetos.Process.{Pcb}
use fleetos.Memory.{PhysicalMemory, Freed, free_frames, mem_free_process}
use fleetos.Memory.Frames.{is_unowned}
use fleetos.Memory.Allocate.{IsMemory, Tables}
use fleetos.Procs.{find_proc, update_proc}
use fleetos.Procs.Update.{find_proc-All, update_proc-All, update_proc-DistinctPids}
use fleetos.Procs.Fault.{IsSystem}

-- The loop over the frames: lengths, the new count, and each frame and page.
record Swept (pid : ℤ) (frames pages : List ℤ) (count : ℕ) (r : Freed) : Type 0 where
  frames_size : length r.frames ≡ length frames
  pages_size : length r.frame_pages ≡ length pages
  counted : r.free_frame_count ≡ pos (count + count_if is_unowned r.frames)
  mine : (f : ℕ) → get_or frames f minus_one ≡ pid → get_or r.frames f minus_one ≡ minus_one
  other :
      (f : ℕ)
      → get_or frames f minus_one ≢ pid
      → (get_or r.frames f minus_one ≡ get_or frames f minus_one)
        × (get_or r.frame_pages f minus_one ≡ get_or pages f minus_one)

unowned-ne : (pid f : ℤ) → pid ≢ minus_one → f ≡ pid → is_unowned f ≡ false
unowned-ne pid f real e = eq_int_ne f minus_one (λ s. real (sym e ∙ s))

eq_int→eq : (a b : ℤ) → eq_int a b ≡ true → a ≡ b
eq_int→eq a b = (eq_int_iff a b).0

abbrev cons_frame : ℤ → ℤ → Freed → Freed
cons_frame f q r = record {
  frames = f ∷ r.frames;
  frame_pages = q ∷ r.frame_pages;
  free_frame_count = r.free_frame_count;
}

-- A frame of the process is swept.
Swept-mine :
    (pid f q : ℤ) (frames pages : List ℤ) (count : ℕ) (r : Freed)
    → f ≡ pid
    → Swept pid frames pages (suc count) r
    → Swept pid (f ∷ frames) (q ∷ pages) count (cons_frame minus_one minus_one r)
Swept-mine pid f q frames pages count r e s = record {
  frames_size = ap suc s.frames_size;
  pages_size = ap suc s.pages_size;
  counted = s.counted ∙ ap pos (omega arith);
  mine = mine_at;
  other = other_at;
}
  where
    mine_at :
        (i : ℕ)
        → get_or (f ∷ frames) i minus_one ≡ pid
        → get_or (minus_one ∷ r.frames) i minus_one ≡ minus_one
    mine_at zero h = refl
    mine_at (suc i) h = s.mine i h

    other_at :
        (i : ℕ)
        → get_or (f ∷ frames) i minus_one ≢ pid
        → (get_or (minus_one ∷ r.frames) i minus_one ≡ get_or (f ∷ frames) i minus_one)
          × (get_or (minus_one ∷ r.frame_pages) i minus_one ≡ get_or (q ∷ pages) i minus_one)
    other_at zero h = absurd (h e)
    other_at (suc i) h = s.other i h

-- Another frame stays; it counts if it has no owner.
Swept-other :
    (pid f q : ℤ) (frames pages : List ℤ) (count : ℕ) (r : Freed)
    → f ≢ pid
    → Swept pid frames pages (if is_unowned f then suc count else count) r
    → Swept pid (f ∷ frames) (q ∷ pages) count (cons_frame f q r)
Swept-other pid f q frames pages count r e s = record {
  frames_size = ap suc s.frames_size;
  pages_size = ap suc s.pages_size;
  counted = ground (arith, s.counted);
  mine = mine_at;
  other = other_at;
}
  where
    mine_at :
        (i : ℕ)
        → get_or (f ∷ frames) i minus_one ≡ pid
        → get_or (f ∷ r.frames) i minus_one ≡ minus_one
    mine_at zero h = absurd (e h)
    mine_at (suc i) h = s.mine i h

    other_at :
        (i : ℕ)
        → get_or (f ∷ frames) i minus_one ≢ pid
        → (get_or (f ∷ r.frames) i minus_one ≡ get_or (f ∷ frames) i minus_one)
          × (get_or (q ∷ r.frame_pages) i minus_one ≡ get_or (q ∷ pages) i minus_one)
    other_at zero h = (refl, refl)
    other_at (suc i) h = s.other i h

-- `count` free frames stand before the part that the loop has still to do.
free_frames-Swept :
    (pid : ℤ) (frames pages : List ℤ) (count : ℕ) (c : ℤ)
    → pid ≢ minus_one
    → length frames ≡ length pages
    → c ≡ pos (count + count_if is_unowned frames)
    → Swept pid frames pages count (free_frames pid frames pages c)
unfolding free_frames
free_frames-Swept pid [] [] count c real e k = record {
  frames_size = refl;
  pages_size = refl;
  counted = k;
  mine = λ f s. refl;
  other = λ f s. (refl, refl);
}
free_frames-Swept pid [] (q ∷ pages) count c real e k = absurd (omega arith)
free_frames-Swept pid (f ∷ frames) [] count c real e k = absurd (omega arith)
free_frames-Swept pid (f ∷ frames) (q ∷ pages) count c real e k = elim (Bool-cases (eq_int f pid)) [
  | inl hit ↦
      (let at_pid = eq_int→eq f pid hit in
        let more : suc_int c ≡ pos (suc count + count_if is_unowned frames) =
          ground (arith, unowned-ne pid f real at_pid) in
        rw hit (
          Swept-mine pid f q frames pages count _ at_pid
            (free_frames-Swept pid frames pages (suc count) (suc_int c) real (omega arith) more)))
  | inr miss ↦ rw miss (
      Swept-other pid f q frames pages count _ (λ s. ground (arith, eq_int_iff f pid))
        (free_frames-Swept pid frames pages (if is_unowned f then suc count else count) c real
          (omega arith) (ground arith)))
]

module _ (m : PhysicalMemory) (p : Pcb) (v : IsMemory m) (real : p.pid ≢ minus_one) where
  swept :
      Swept p.pid m.frames m.frame_pages 0
        (free_frames p.pid m.frames m.frame_pages m.free_frame_count)
  swept =
      free_frames-Swept p.pid m.frames m.frame_pages 0 m.free_frame_count real
        (v.frames ∙ sym v.pages) (v.counted ∙ ap pos (omega arith))

  pub freed_IsMemory : IsMemory (mem_free_process m p).0
  unfolding mem_free_process
  freed_IsMemory = record {
    frames = swept.frames_size ∙ v.frames;
    pages = swept.pages_size ∙ v.pages;
    ticks = v.ticks;
    counted = swept.counted ∙ ap pos (omega arith);
  }

  -- No frame is the process's, and no process gets a frame.
  pub freed_mine : (f : ℕ) → get_or (mem_free_process m p).0.frames f minus_one ≢ p.pid
  unfolding mem_free_process
  freed_mine f e = elim (Bool-cases (eq_int (get_or m.frames f minus_one) p.pid)) [
    | inl hit ↦ real (sym e ∙ swept.mine f (eq_int→eq _ p.pid hit))
    | inr miss ↦ ground (arith, eq_int_iff (get_or m.frames f minus_one) p.pid, swept.other f)
  ]

  pub freed_without :
      (pid : ℤ)
      → pid ≢ minus_one
      → ((f : ℕ) → get_or m.frames f minus_one ≢ pid)
      → (f : ℕ) → get_or (mem_free_process m p).0.frames f minus_one ≢ pid
  unfolding mem_free_process
  freed_without pid given clear f e =
      elim (Bool-cases (eq_int (get_or m.frames f minus_one) p.pid)) [
        | inl hit ↦ given (sym e ∙ swept.mine f (eq_int→eq _ p.pid hit))
        | inr miss ↦ clear f (
            sym
              (swept.other f
                (λ s. ground (arith, eq_int_iff (get_or m.frames f minus_one) p.pid))).0
            ∙ e)
      ]

  -- Another process keeps its frames.
  freed_other : (q : Pcb) → Tables m q → q.pid ≢ p.pid → Tables (mem_free_process m p).0 q
  unfolding mem_free_process
  freed_other q t ne = record {
    real = t.real;
    owns = record {
      size = t.owns.size;
      forward = λ i f h e.
          let (w, owner, page) = t.owns.forward i f h e in
          let (same, same_page) = swept.other f (λ s. ne (sym owner ∙ s)) in
          (w, same ∙ owner, same_page ∙ page);
      backward = λ f h e. elim (Bool-cases (eq_int (get_or m.frames f minus_one) p.pid)) [
        | inl hit ↦ absurd (t.real (sym e ∙ swept.mine f (eq_int→eq _ p.pid hit)))
        | inr miss ↦
            (let (same, same_page) =
                swept.other f
                  (λ s. ground (arith, eq_int_iff (get_or m.frames f minus_one) p.pid)) in
              let (i, small, page, entry) = t.owns.backward f h (sym same ∙ e) in
              (i, small, same_page ∙ page, entry))
      ];
      mapped_or_not = t.owns.mapped_or_not;
    };
  }

  freed_self : Tables (mem_free_process m p).0 (mem_free_process m p).1
  unfolding mem_free_process
  freed_self = record {
    real = real;
    owns = record {
      size = length-replicate max_pages minus_one;
      forward = λ i f h e. absurd (unmapped (sym e ∙ get_or-replicate max_pages i minus_one));
      backward = λ f h e. elim (Bool-cases (eq_int (get_or m.frames f minus_one) p.pid)) [
        | inl hit ↦ absurd (real (sym e ∙ swept.mine f (eq_int→eq _ p.pid hit)))
        | inr miss ↦ ground (arith, eq_int_iff (get_or m.frames f minus_one) p.pid, swept.other f)
      ];
      mapped_or_not = λ i. inl (get_or-replicate max_pages i minus_one);
    };
  }
    where
      unmapped : {f : ℕ} → pos f ≢ minus_one
      unmapped e = ground arith

-- The memory and the processes after `mem_free_process` of the process `pid`.
unfoldable pub release_process : PhysicalMemory → List Pcb → Pcb → PhysicalMemory × List Pcb
release_process m ps p = let (m', p') = mem_free_process m p in (m', update_proc p.pid (λ _. p') ps)

-- Freeing the memory of a process of the table keeps the system fitting, and afterwards no frame is
-- the process's.
pub release_process-IsSystem :
    (m : PhysicalMemory) (ps : List Pcb) (pid : ℤ) (p : Pcb)
    → IsSystem m ps
    → find_proc ps pid ≡ some p
    → IsSystem (release_process m ps p).0 (release_process m ps p).1
      × ((f : ℕ) → get_or (release_process m ps p).0.frames f minus_one ≢ p.pid)
unfolding release_process
release_process-IsSystem m ps pid p s found =
    let (t, at_pid) = find_proc-All (Tables m) ps pid p s.tables found in
    let found' : find_proc ps p.pid ≡ some p = ap (find_proc ps) at_pid ∙ found in
    (
      record {
        memory = freed_IsMemory m p s.memory t.real;
        tables =
            update_proc-All (Tables m) (Tables (mem_free_process m p).0) ps p.pid p
              (λ _. (mem_free_process m p).1) s.tables s.distinct found'
              (λ q u ne. freed_other m p s.memory t.real q u ne) (freed_self m p s.memory t.real);
        distinct =
            update_proc-DistinctPids ps p.pid (λ _. (mem_free_process m p).1) (λ q e. same_pid m p)
              s.distinct;
      },
      freed_mine m p s.memory t.real,
    )
  where
    same_pid : (m : PhysicalMemory) (p : Pcb) → (mem_free_process m p).1.pid ≡ p.pid
    same_pid m p = unfold mem_free_process in refl

-- ===== src/Procs/Fault.antt =====
-- A resolved page fault keeps memory isolated: `mem_allocate_page` of src/memory.c with the repair
-- of the victim's page table in `complete_page_faults` of src/kernel.c.
use fleetos.Base.{
  ℕ, ◌<◌, ◌≡◌, ◌≢◌, refl, ap, sym, ◌∙◌, inl, inr, false, ◌||◌, List, arith, if◌then◌else◌, leb,
  length, length-set, get_or, get_or-set_ne, set, All, Bool-cases, Option-cases, ℤ, pos, minus_one,
  index, is_neg, eq_int, pred_int, suc_int, eq_int_iff, subst, some,
}
use fleetos.Types.{frame_count, max_pages}
use fleetos.Process.{Pcb}
use fleetos.Memory.{
  PhysicalMemory, EvictionInfo, Allocated, mem_allocate_page, allocate_absent, install, evict_info,
  no_eviction,
}
use fleetos.Memory.Owner.{
  Owns, release_other, release_mine, install_other, install_self, get_or-set_default,
}
use fleetos.Memory.Allocate.{
  IsMemory, Tables, Outcome, fresh, evicted, allocate_absent-Outcome, install-IsMemory_again,
  install-IsMemory_free, set-set, set_comm,
}
use fleetos.Procs.{find_proc, update_proc, unmap, unmap_victim, zero_eviction, resolve_fault}
use fleetos.Procs.Update.{
  DistinctPids, find_proc-All, find_proc-none, update_proc-All, update_proc-DistinctPids,
}

-- Memory and processes fit: every process's page table and the frames name each other.
pub record IsSystem (m : PhysicalMemory) (ps : List Pcb) : Type 0 where
  pub memory : IsMemory m
  pub tables : All (Tables m) ps
  pub distinct : DistinctPids ps

mapped_absent : {f : ℕ} → pos f ≢ minus_one
mapped_absent e = ground arith

-- What holds of a process after an eviction and before the repair of the victim's page table.
abbrev Repairable : PhysicalMemory → (victim victim_page : ℤ) → Pcb → Type 0
Repairable m victim victim_page q =
    (q.pid ≢ victim → Tables m q)
    × (q.pid ≡ victim → (k : ℕ) × (victim_page ≡ pos k) × Tables m (unmap k q))

-- The process with the page in frame `f`.
abbrev mapped : Pcb → ℕ → ℕ → ℤ → Pcb
mapped p page f used = record p { page_table = set p.page_table page (pos f); pages_used = used }

module _ (m m' : PhysicalMemory) (p : Pcb) (page f : ℕ) (v : IsMemory m) (t : Tables m p)
    (small : page < max_pages) (within : f < frame_count)
    (absent : get_or p.page_table page minus_one ≡ minus_one)
    (same_frames : m'.frames ≡ set m.frames f p.pid)
    (same_pages : m'.frame_pages ≡ set m.frame_pages f (pos page)) where
  to_tables :
      (q : Pcb)
      → q.pid ≢ minus_one
      → Owns (set m.frames f p.pid) (set m.frame_pages f (pos page)) q.pid q.page_table
      → Tables m' q
  to_tables q real o = record { real = real; owns = rw (same_frames, same_pages) o }

  -- A free frame: the other processes, and the process itself.
  fresh_other :
      get_or m.frames f minus_one ≡ minus_one → (q : Pcb) → Tables m q → q.pid ≢ p.pid → Tables m' q
  fresh_other free q s ne = to_tables q s.real (
      install_other m.frames m.frame_pages q.pid q.page_table f s.owns s.real free p.pid page
        (omega (arith, v.frames)) (λ e. ne (sym e)))

  fresh_self :
      get_or m.frames f minus_one ≡ minus_one → (used : ℤ) → Tables m' (mapped p page f used)
  fresh_self free used = to_tables (mapped p page f used) t.real (
      install_self m.frames m.frame_pages p.pid p.page_table f t.owns t.real free page
        (omega (arith, v.frames)) (omega (arith, v.pages)) within small absent)

  module _ (owned : get_or m.frames f minus_one ≢ minus_one) where
    abbrev victim : ℤ
    victim = get_or m.frames f minus_one

    abbrev bare : List ℤ
    bare = set m.frames f minus_one

    bare_free : get_or bare f minus_one ≡ minus_one
    bare_free = get_or-set_default m.frames f minus_one

    bare_size : f < length bare
    bare_size = omega (arith, v.frames, length-set m.frames f minus_one)

    -- Owned frames after the eviction and the installation, from those after the eviction.
    installed_other :
        (q : Pcb) (table : List ℤ)
        → q.pid ≢ minus_one
        → q.pid ≢ p.pid
        → Owns bare m.frame_pages q.pid table
        → Owns (set m.frames f p.pid) (set m.frame_pages f (pos page)) q.pid table
    installed_other q table real ne o =
        subst (λ fs. Owns fs (set m.frame_pages f (pos page)) q.pid table)
          (set-set m.frames f minus_one p.pid)
          (install_other bare m.frame_pages q.pid table f o real bare_free p.pid page bare_size
            (λ e. ne (sym e)))

    installed_self :
        (table : List ℤ)
        → get_or table page minus_one ≡ minus_one
        → Owns bare m.frame_pages p.pid table
        → Owns
            (set m.frames f p.pid)
            (set m.frame_pages f (pos page))
            p.pid
            (set table page (pos f))
    installed_self table free o =
        subst (λ fs. Owns fs (set m.frame_pages f (pos page)) p.pid (set table page (pos f)))
          (set-set m.frames f minus_one p.pid)
          (install_self bare m.frame_pages p.pid table f o t.real bare_free page bare_size
            (omega (arith, v.pages)) within small free)

    evicted_other :
        (q : Pcb)
        → Tables m q
        → q.pid ≢ p.pid
        → Repairable m' victim (get_or m.frame_pages f minus_one) q
    evicted_other q s ne = (
      λ apart. to_tables q s.real (
          installed_other q q.page_table s.real ne (
            release_other m.frames m.frame_pages q.pid q.page_table f s.owns s.real
              (λ e. apart (sym e)))),
      λ mine.
          let (k, _, held, _) = s.owns.backward f within (sym mine) in
          (
            k,
            held,
            to_tables (unmap k q) s.real (
                installed_other q (set q.page_table k minus_one) s.real ne (
                  release_mine m.frames m.frame_pages q.pid q.page_table f s.owns s.real k within
                    (sym mine) held)),
          ),
    )

    evicted_self :
        (used : ℤ) → Repairable m' victim (get_or m.frame_pages f minus_one) (mapped p page f used)
    evicted_self used = (
      λ apart. to_tables (mapped p page f used) t.real (
          installed_self p.page_table absent (
            release_other m.frames m.frame_pages p.pid p.page_table f t.owns t.real
              (λ e. apart (sym e)))),
      λ mine.
          let (k, _, held, entry) = t.owns.backward f within (sym mine) in
          let ne : k ≢ page =
            λ e. mapped_absent (sym entry ∙ ap (λ i. get_or p.page_table i minus_one) e ∙ absent) in
          (
            k,
            held,
            to_tables (unmap k (mapped p page f used)) t.real (
                subst (Owns (set m.frames f p.pid) (set m.frame_pages f (pos page)) p.pid)
                  (set_comm p.page_table k page minus_one (pos f) ne)
                  (installed_self (set p.page_table k minus_one)
                    (get_or-set_ne p.page_table k page minus_one minus_one ne ∙ absent)
                    (release_mine m.frames m.frame_pages p.pid p.page_table f t.owns t.real k within
                      (sym mine) held))),
          ),
    )

repair :
    (m : PhysicalMemory) (info : EvictionInfo) (ps : List Pcb)
    → All (Repairable m info.victim_pid info.victim_page) ps
    → DistinctPids ps
    → All (Tables m) (unmap_victim info ps) × DistinctPids (unmap_victim info ps)
unfolding unmap_victim
repair m info ps h d = elim (Option-cases (find_proc ps info.victim_pid)) [
  | inl none_found ↦
      rw (none_found, unmap_victim)
        (
          find_proc-none (Repairable m info.victim_pid info.victim_page) (Tables m) ps
              info.victim_pid h none_found (λ q r ne. r.0 ne),
          d,
        )
  | inr (q, found) ↦
      (let (r, at_pid) =
          find_proc-All (Repairable m info.victim_pid info.victim_page) ps info.victim_pid q h
            found in
        let (k, e, fixed) = r.1 at_pid in
        rw (found, unmap_victim)
          (rw e (
            update_proc-All (Repairable m info.victim_pid info.victim_page) (Tables m) ps
                info.victim_pid q (unmap k) h d found (λ x rx ne. rx.0 ne) fixed,
            update_proc-DistinctPids ps info.victim_pid (unmap k) (λ x s. s) d,
          )))
]

-- What `complete_page_faults` does after an allocation.
abbrev settle : (pid : ℤ) → Allocated → List Pcb → List Pcb
settle pid a ps =
    let ps' = update_proc pid (λ _. a.pcb) ps in
    if a.eviction.evicted then unmap_victim a.eviction ps' else ps'

module _ (m : PhysicalMemory) (ps : List Pcb) (pid : ℤ) (p : Pcb) (s : IsSystem m ps)
    (found : find_proc ps pid ≡ some p) where
  at_pid : p.pid ≡ pid
  at_pid = (find_proc-All (Tables m) ps pid p s.tables found).1

  p-Tables : Tables m p
  p-Tables = (find_proc-All (Tables m) ps pid p s.tables found).0

  -- An allocation that changes nothing.
  settle_same :
      (r : ℤ) (info : EvictionInfo)
      → info.evicted ≡ false
      → IsSystem m (settle pid (record { mem = m; pcb = p; result = r; eviction = info }) ps)
  settle_same r info e = rw e (record {
    memory = s.memory;
    tables =
        update_proc-All (Tables m) (Tables m) ps pid p (λ _. p) s.tables s.distinct found
          (λ q t ne. t) p-Tables;
    distinct = update_proc-DistinctPids ps pid (λ _. p) (λ q e. at_pid) s.distinct;
  })

  settle_absent :
      (page : ℕ) (a : Allocated)
      → page < max_pages
      → get_or p.page_table page minus_one ≡ minus_one
      → Outcome m p page a
      → IsSystem a.mem (settle pid a ps)
  unfolding install
  settle_absent page a small absent (fresh f within free e) =
      let m0 = record m { free_frame_count = pred_int m.free_frame_count } in
      let b = install m0 p page f no_eviction in
      let new = mapped p page f (suc_int p.pages_used) in
      subst (λ a. IsSystem a.mem (settle pid a ps)) (sym e)
        (record {
          memory =
              install-IsMemory_free m s.memory p page f no_eviction (omega (arith, s.memory.frames))
                p-Tables.real free;
          tables =
              update_proc-All (Tables m) (Tables b.mem) ps pid p (λ _. new) s.tables s.distinct
                found
                (λ q t ne.
                  fresh_other m b.mem p page f s.memory p-Tables small within absent refl refl free
                    q t (λ e. ne (e ∙ at_pid)))
                (fresh_self m b.mem p page f s.memory p-Tables small within absent refl refl free
                  (suc_int p.pages_used));
          distinct = update_proc-DistinctPids ps pid (λ _. new) (λ q e. at_pid) s.distinct;
        })
  settle_absent page a small absent (evicted f within owned lru e) =
      let info = evict_info m f in
      let b = install m p page f info in
      let new = mapped p page f (suc_int p.pages_used) in
      let fixed =
        repair b.mem info (update_proc pid (λ _. new) ps)
          (update_proc-All (Tables m) (Repairable b.mem info.victim_pid info.victim_page) ps pid p
            (λ _. new) s.tables s.distinct found
            (λ q t ne.
              evicted_other m b.mem p page f s.memory p-Tables small within absent refl refl owned q
                t (λ e. ne (e ∙ at_pid)))
            (evicted_self m b.mem p page f s.memory p-Tables small within absent refl refl owned
              (suc_int p.pages_used)))
          (update_proc-DistinctPids ps pid (λ _. new) (λ q e. at_pid) s.distinct) in
      subst (λ a. IsSystem a.mem (settle pid a ps)) (sym e)
        (record {
          memory = install-IsMemory_again m s.memory p page f info p-Tables.real owned;
          tables = fixed.0;
          distinct = fixed.1;
        })

  settle_any :
      (page : ℤ)
      → IsSystem
          (mem_allocate_page m p page zero_eviction).mem
          (settle pid (mem_allocate_page m p page zero_eviction) ps)
  unfolding mem_allocate_page
  settle_any page = elim (Bool-cases (is_neg page || leb max_pages (index page))) [
    | inl out ↦ rw out (settle_same minus_one zero_eviction refl)
    | inr in_range ↦
        (let entry = get_or p.page_table (index page) minus_one in
          elim (Bool-cases (eq_int entry minus_one)) [
            | inl absent ↦
                rw (in_range, absent)
                  (settle_absent (index page) (allocate_absent m p (index page)) (ground arith)
                    ((eq_int_iff entry minus_one).0 absent)
                    (allocate_absent-Outcome m p (index page) s.memory))
            | inr present ↦ rw (in_range, present) (settle_same entry no_eviction refl)
          ])
  ]

-- A page fault that is resolved, whichever process and page it is for, and with or without an
-- eviction, keeps memory and processes fitting: the free-frame counter counts the free frames, and
-- every process's page table and the frames name each other.
pub resolve_fault-IsSystem :
    (m : PhysicalMemory) (ps : List Pcb) (pid page : ℤ)
    → IsSystem m ps
    → IsSystem (resolve_fault m ps pid page).0 (resolve_fault m ps pid page).1
unfolding resolve_fault
resolve_fault-IsSystem m ps pid page s = elim (Option-cases (find_proc ps pid)) [
  | inl missing ↦ rw (missing, resolve_fault) s
  | inr (p, found) ↦ rw (found, resolve_fault) (settle_any m ps pid p s found page)
]

-- ===== src/Procs/Fate.antt =====
-- What the process table of src/kernel.c keeps over the changes made through `find_proc`, by page
-- faults and by freed memory: its pids, and the processes that are terminated.
use fleetos.Base.{
  Bool, true, false, if◌then◌else◌, ◌≡◌, refl, subst, ◌∙◌, Bool-cases, inl, inr, arith, List, [],
  ◌∷◌, map, ℤ, eq_int, Option, none, some, index, Option-cases, is_neg,
}
use fleetos.Types.{ProcessState}
use fleetos.Process.{Pcb}
use fleetos.Procs.{find_proc, update_proc, unmap, unmap_victim, zero_eviction, resolve_fault}
use fleetos.Procs.Release.{release_process}
use fleetos.Memory.{
  PhysicalMemory, EvictionInfo, mem_allocate_page, allocate_absent, install, mem_free_process,
}

-- The same process later on: terminated if it was.
abbrev pub Lasts : Pcb → Pcb → Type 0
Lasts p q =
    (q.pid ≡ p.pid) × (p.state ≡ ProcessState.terminated → q.state ≡ ProcessState.terminated)

-- The table later on: the same processes in the same order.
abbrev pub Fate : List Pcb → List Pcb → Type 0
Fate [] [] = Unit
Fate [] (q ∷ qs) = ⊥
Fate (p ∷ ps) [] = ⊥
Fate (p ∷ ps) (q ∷ qs) = Lasts p q × Fate ps qs

pub Fate-refl : (ps : List Pcb) → Fate ps ps
Fate-refl [] = tt
Fate-refl (p ∷ ps) = ((refl, λ e. e), Fate-refl ps)

pub Fate-trans : (ps qs rs : List Pcb) → Fate ps qs → Fate qs rs → Fate ps rs
Fate-trans [] [] rs a b = b
Fate-trans [] (q ∷ qs) rs a b = absurd a
Fate-trans (p ∷ ps) [] rs a b = absurd a
Fate-trans (p ∷ ps) (q ∷ qs) [] a b = absurd b
Fate-trans (p ∷ ps) (q ∷ qs) (r ∷ rs) a b =
    ((b.0.0 ∙ a.0.0, λ e. b.0.1 (a.0.1 e)), Fate-trans ps qs rs a.1 b.1)

pub map-Fate : (f : Pcb → Pcb) (ps : List Pcb) → ((p : Pcb) → Lasts p (f p)) → Fate ps (map f ps)
map-Fate f [] lasts = tt
map-Fate f (p ∷ ps) lasts = (lasts p, map-Fate f ps lasts)

-- A change of the process that is found, if there is one.
update_found-Fate :
    (f : Pcb → Pcb) (ps : List Pcb) (pid : ℤ)
    → ((p : Pcb) → find_proc ps pid ≡ some p → Lasts p (f p))
    → Fate ps (update_proc pid f ps)
unfolding find_proc update_proc
update_found-Fate f [] pid lasts = tt
update_found-Fate f (p ∷ ps) pid lasts = elim (Bool-cases (eq_int p.pid pid)) [
  | inl hit ↦ rw hit (lasts p (rw hit refl), Fate-refl ps)
  | inr miss ↦ rw miss ((refl, λ e. e), update_found-Fate f ps pid (λ q e. lasts q (rw miss e)))
]

pub update_proc-Fate :
    (f : Pcb → Pcb) (ps : List Pcb) (pid : ℤ)
    → ((p : Pcb) → Lasts p (f p))
    → Fate ps (update_proc pid f ps)
update_proc-Fate f ps pid lasts = update_found-Fate f ps pid (λ p _. lasts p)

if-Fate :
    (b : Bool) (ps qs rs : List Pcb) → Fate ps qs → Fate ps rs → Fate ps (if b then qs else rs)
if-Fate true ps qs rs v w = v
if-Fate false ps qs rs v w = w

unmap_victim-Fate : (info : EvictionInfo) (ps : List Pcb) → Fate ps (unmap_victim info ps)
unfolding unmap_victim
unmap_victim-Fate info ps = after (find_proc ps info.victim_pid)
  where
    after :
        (o : Option Pcb)
        → Fate ps (elim o [
          | none ↦ ps
          | some victim ↦
              if is_neg info.victim_page
              then ps
              else update_proc info.victim_pid (unmap (index info.victim_page)) ps
        ])
    after none = Fate-refl ps
    after (some victim) =
        if-Fate (is_neg info.victim_page) ps ps _ (Fate-refl ps) (
          update_proc-Fate (unmap (index info.victim_page)) ps info.victim_pid
            (λ p. (refl, λ e. e)))

mem_allocate_page-Lasts :
    (m : PhysicalMemory) (p : Pcb) (page : ℤ) (old : EvictionInfo)
    → Lasts p (mem_allocate_page m p page old).pcb
unfolding mem_allocate_page allocate_absent install
mem_allocate_page-Lasts m p page old = ground arith

-- The process that is found takes the place of the one that is found there.
replaced-Fate :
    (ps : List Pcb) (pid : ℤ) (p q : Pcb)
    → find_proc ps pid ≡ some p
    → Lasts p q
    → Fate ps (update_proc pid (λ _. q) ps)
replaced-Fate ps pid p q found lasts =
    update_found-Fate (λ _. q) ps pid (λ r e. subst (λ x. Lasts x q) (same r e) lasts)
  where
    same : (r : Pcb) → find_proc ps pid ≡ some r → p ≡ r
    same r e = ground arith

pub resolve_fault-Fate :
    (m : PhysicalMemory) (ps : List Pcb) (pid page : ℤ) → Fate ps (resolve_fault m ps pid page).1
unfolding resolve_fault
resolve_fault-Fate m ps pid page = elim (Option-cases (find_proc ps pid)) [
  | inl absent ↦ rw (absent, resolve_fault) (Fate-refl ps)
  | inr (p, found) ↦
      (let a = mem_allocate_page m p page zero_eviction in
        let changed = update_proc pid (λ _. a.pcb) ps in
        let first =
          replaced-Fate ps pid p a.pcb found (mem_allocate_page-Lasts m p page zero_eviction) in
        rw (found, resolve_fault)
          (if-Fate a.eviction.evicted ps (unmap_victim a.eviction changed) changed
            (Fate-trans ps changed (unmap_victim a.eviction changed) first
              (unmap_victim-Fate a.eviction changed))
            first))
]

pub release_process-Fate :
    (m : PhysicalMemory) (ps : List Pcb) (p : Pcb)
    → find_proc ps p.pid ≡ some p
    → Fate ps (release_process m ps p).1
unfolding release_process mem_free_process
release_process-Fate m ps p found = replaced-Fate ps p.pid p _ found (refl, λ e. e)

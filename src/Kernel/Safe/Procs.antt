-- ===== src/Kernel/Safe/Procs.antt =====
-- Changes of processes in src/kernel.c that leave pids and page tables alone: memory keeps fitting.
use fleetos.Base.{
  ℕ, ◌≡◌, ◌≢◌, refl, ap, sym, ◌∙◌, subst, if◌then◌else◌, Bool-cases, inl, inr, arith, List, [], ◌∷◌,
  map, All, ℤ, eq_int,
}
use fleetos.Types.{ProcessState}
use fleetos.Thread.{Tcb}
use fleetos.Process.{Pcb, pcb_set_state}
use fleetos.Procs.{update_proc}
use fleetos.Procs.Fate.{Fate, update_proc-Fate, map-Fate}
use fleetos.Procs.Update.{DistinctPids, update_proc-DistinctPids}
use fleetos.Procs.Fault.{IsSystem}
use fleetos.Memory.{PhysicalMemory}
use fleetos.Memory.Allocate.{Tables}
use fleetos.Memory.Owner.{Owns}
use fleetos.Status.{sync_pcb_state_from_threads}
use fleetos.Status.Agree.{sync_pcb_state-status}
use fleetos.Scheduler.{Scheduler}
use fleetos.Kernel.Cleanup.{finish_process}
use fleetos.Kernel.Tick.{add_threads, is_arriving, arrive_procs, count_wait, sync_live}

-- The pid and the page table stay.
abbrev pub Places : (Pcb → Pcb) → Type 0
Places f = (p : Pcb) → ((f p).pid ≡ p.pid) × ((f p).page_table ≡ p.page_table)

-- They stay, and a terminated process stays terminated.
abbrev pub Keeps : (Pcb → Pcb) → Type 0
Keeps f =
    (p : Pcb)
    → ((f p).pid ≡ p.pid)
      × ((f p).page_table ≡ p.page_table)
      × (p.state ≡ ProcessState.terminated → (f p).state ≡ ProcessState.terminated)

kept-Tables :
    (m : PhysicalMemory) (f : Pcb → Pcb) (p : Pcb) → Places f → Tables m p → Tables m (f p)
kept-Tables m f p keeps t =
    let (pid, table) = keeps p in
    record {
      real = λ e. t.real (sym pid ∙ e);
      owns =
          subst (λ x. Owns m.frames m.frame_pages x (f p).page_table) (sym pid)
            (subst (Owns m.frames m.frame_pages p.pid) (sym table) t.owns);
    }

update_proc-Tables :
    (m : PhysicalMemory) (f : Pcb → Pcb) (pid : ℤ) (ps : List Pcb)
    → Places f
    → All (Tables m) ps
    → All (Tables m) (update_proc pid f ps)
unfolding update_proc
update_proc-Tables m f pid [] keeps h = tt
update_proc-Tables m f pid (p ∷ ps) keeps h = elim (Bool-cases (eq_int p.pid pid)) [
  | inl hit ↦ rw hit (kept-Tables m f p keeps h.0, h.1)
  | inr miss ↦ rw miss (h.0, update_proc-Tables m f pid ps keeps h.1)
]

map-Tables :
    (m : PhysicalMemory) (f : Pcb → Pcb) (ps : List Pcb)
    → Places f
    → All (Tables m) ps
    → All (Tables m) (map f ps)
map-Tables m f [] keeps h = tt
map-Tables m f (p ∷ ps) keeps h = (kept-Tables m f p keeps h.0, map-Tables m f ps keeps h.1)

map-apart :
    (f : Pcb → Pcb) (pid : ℤ) (ps : List Pcb)
    → Places f
    → All (λ (q : Pcb). q.pid ≢ pid) ps
    → All (λ (q : Pcb). q.pid ≢ pid) (map f ps)
map-apart f pid [] keeps h = tt
map-apart f pid (p ∷ ps) keeps h = ((λ e. h.0 (sym (keeps p).0 ∙ e)), map-apart f pid ps keeps h.1)

map-DistinctPids :
    (f : Pcb → Pcb) (ps : List Pcb) → Places f → DistinctPids ps → DistinctPids (map f ps)
map-DistinctPids f [] keeps d = tt
map-DistinctPids f (p ∷ ps) keeps d = (
  subst (λ k. All (λ (q : Pcb). q.pid ≢ k) (map f ps)) (sym (keeps p).0)
      (map-apart f p.pid ps keeps d.0),
  map-DistinctPids f ps keeps d.1,
)

module _ (f : Pcb → Pcb) (keeps : Keeps f) (ps : List Pcb) where
  pub changed-Fate : (pid : ℤ) → Fate ps (update_proc pid f ps)
  changed-Fate pid = update_proc-Fate f ps pid (λ p. ((keeps p).0, (keeps p).2))

  pub mapped-Fate : Fate ps (map f ps)
  mapped-Fate = map-Fate f ps (λ p. ((keeps p).0, (keeps p).2))

-- Memory keeps fitting.
module _ {m : PhysicalMemory} {ps : List Pcb} (f : Pcb → Pcb) (v : IsSystem m ps) where
  pub map-Places-IsSystem : Places f → IsSystem m (map f ps)
  map-Places-IsSystem keeps = record {
    memory = v.memory;
    tables = map-Tables m f ps keeps v.tables;
    distinct = map-DistinctPids f ps keeps v.distinct;
  }

  update-Places-IsSystem : Places f → (pid : ℤ) → IsSystem m (update_proc pid f ps)
  update-Places-IsSystem keeps pid = record {
    memory = v.memory;
    tables = update_proc-Tables m f pid ps keeps v.tables;
    distinct = update_proc-DistinctPids ps pid f (λ p e. (keeps p).0 ∙ e) v.distinct;
  }

module _ {m : PhysicalMemory} {ps : List Pcb} (f : Pcb → Pcb) (keeps : Keeps f)
    (v : IsSystem m ps) where
  pub update_proc-IsSystem : (pid : ℤ) → IsSystem m (update_proc pid f ps)
  update_proc-IsSystem pid = update-Places-IsSystem f v (λ p. ((keeps p).0, (keeps p).1)) pid

  pub map-IsSystem : IsSystem m (map f ps)
  map-IsSystem = map-Places-IsSystem f v (λ p. ((keeps p).0, (keeps p).1))

pub sync_pcb_state-Keeps :
    (threads : List Tcb) → Keeps (λ (p : Pcb). sync_pcb_state_from_threads p threads)
sync_pcb_state-Keeps threads p = rw (sync_pcb_state-status p threads) (ground arith)

pub finish_process-Keeps : (tick : ℕ) → Keeps (finish_process tick)
unfolding finish_process pcb_set_state
finish_process-Keeps tick p = (refl, refl, λ e. refl)

pub count_wait-Keeps : Keeps count_wait
unfolding count_wait
count_wait-Keeps p = ground arith

pub sync_live-Keeps : (threads : List Tcb) → Keeps (sync_live threads)
unfolding sync_live
sync_live-Keeps threads p = ground (arith, sync_pcb_state-Keeps threads p)

-- What an arrival does to the process.
abbrev pub arrived : ℕ → Pcb → Pcb
arrived tick p = if is_arriving tick p then pcb_set_state p ProcessState.ready else p

pub arrived-Keeps : (tick : ℕ) → Keeps (arrived tick)
arrived-Keeps tick p = unfold pcb_set_state in ground arith

-- The scheduler has no part in what happens to the processes.
pub arrive_procs-map :
    (n tick : ℕ) (ps : List Pcb) (s : Scheduler)
    → (arrive_procs n tick ps s).0 ≡ map (arrived tick) ps
unfolding arrive_procs
arrive_procs-map n tick [] s = refl
arrive_procs-map n tick (p ∷ ps) s =
    ap (◌∷◌ (arrived tick p))
      (arrive_procs-map n tick ps (if is_arriving tick p then add_threads n 0 p.pid s else s))

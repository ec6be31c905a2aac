-- ===== src/Procs/Update.antt =====
-- Search and change in the process table of src/kernel.c.
use fleetos.Base.{
  ◌≡◌, ◌≢◌, ap, sym, ◌∙◌, List, [], ◌∷◌, arith, All, ℤ, eq_int, eq_int_iff, none, some, Bool-cases,
  inl, inr, subst,
}
use fleetos.Process.{Pcb}
use fleetos.Procs.{find_proc, update_proc}

abbrev pub DistinctPids : List Pcb → Type 0
DistinctPids [] = Unit
DistinctPids (p ∷ ps) = All (λ (q : Pcb). q.pid ≢ p.pid) ps × DistinctPids ps

module _ (P : Pcb → Type 0) where
  pub find_proc-All :
      (ps : List Pcb) (pid : ℤ) (p : Pcb)
      → All P ps
      → find_proc ps pid ≡ some p
      → P p × (p.pid ≡ pid)
  unfolding find_proc
  find_proc-All [] pid p h e = ground arith
  find_proc-All (q ∷ ps) pid p h e = elim (Bool-cases (eq_int q.pid pid)) [
    | inl hit ↦
        (let same : q ≡ p = ground arith in
          (subst P same h.0, sym (ap (λ (x : Pcb). x.pid) same) ∙ (eq_int_iff q.pid pid).0 hit))
    | inr miss ↦ find_proc-All ps pid p h.1 (ground arith)
  ]

  pub find_proc-none :
      (Q : Pcb → Type 0) (ps : List Pcb) (pid : ℤ)
      → All P ps
      → find_proc ps pid ≡ none
      → ((q : Pcb) → P q → q.pid ≢ pid → Q q)
      → All Q ps
  unfolding find_proc
  find_proc-none Q [] pid h e keep = tt
  find_proc-none Q (q ∷ ps) pid h e keep = elim (Bool-cases (eq_int q.pid pid)) [
    | inl hit ↦ ground arith
    | inr miss ↦ (
      keep q h.0 (λ s. ground (arith, eq_int_iff q.pid pid)),
      find_proc-none Q ps pid h.1 (ground arith) keep,
    )
  ]

  pub All-apart :
      (Q : Pcb → Type 0) (ps : List Pcb) (pid : ℤ)
      → All P ps
      → All (λ (q : Pcb). q.pid ≢ pid) ps
      → ((q : Pcb) → P q → q.pid ≢ pid → Q q)
      → All Q ps
  All-apart Q [] pid h d keep = tt
  All-apart Q (q ∷ ps) pid h d keep = (keep q h.0 d.0, All-apart Q ps pid h.1 d.1 keep)

  -- A change of the process found: what holds of it afterwards, and what the others keep.
  pub update_proc-All :
      (Q : Pcb → Type 0) (ps : List Pcb) (pid : ℤ) (p : Pcb) (f : Pcb → Pcb)
      → All P ps
      → DistinctPids ps
      → find_proc ps pid ≡ some p
      → ((q : Pcb) → P q → q.pid ≢ pid → Q q)
      → Q (f p)
      → All Q (update_proc pid f ps)
  unfolding find_proc update_proc
  update_proc-All Q [] pid p f h d e keep new = tt
  update_proc-All Q (q ∷ ps) pid p f h d e keep new = elim (Bool-cases (eq_int q.pid pid)) [
    | inl hit ↦
        (let same : q ≡ p = ground arith in
          let at_pid : q.pid ≡ pid = (eq_int_iff q.pid pid).0 hit in
          rw hit (
            subst (λ x. Q (f x)) (sym same) new,
            All-apart Q ps q.pid h.1 d.0 (λ x px ne. keep x px (λ s. ne (s ∙ sym at_pid))),
          ))
    | inr miss ↦ rw miss (
      keep q h.0 (λ s. ground (arith, eq_int_iff q.pid pid)),
      update_proc-All Q ps pid p f h.1 d.1 (ground arith) keep new,
    )
  ]

apart-update_proc :
    (ps : List Pcb) (pid old : ℤ) (f : Pcb → Pcb)
    → ((p : Pcb) → p.pid ≡ pid → (f p).pid ≡ pid)
    → All (λ (q : Pcb). q.pid ≢ old) ps
    → All (λ (q : Pcb). q.pid ≢ old) (update_proc pid f ps)
unfolding update_proc
apart-update_proc [] pid old f same h = tt
apart-update_proc (q ∷ ps) pid old f same h = elim (Bool-cases (eq_int q.pid pid)) [
  | inl hit ↦
      (let at_pid : q.pid ≡ pid = (eq_int_iff q.pid pid).0 hit in
        rw hit ((λ s. h.0 (at_pid ∙ sym (same q at_pid) ∙ s)), h.1))
  | inr miss ↦ rw miss (h.0, apart-update_proc ps pid old f same h.1)
]

-- A change that keeps the pid keeps the pids distinct.
pub update_proc-DistinctPids :
    (ps : List Pcb) (pid : ℤ) (f : Pcb → Pcb)
    → ((p : Pcb) → p.pid ≡ pid → (f p).pid ≡ pid)
    → DistinctPids ps
    → DistinctPids (update_proc pid f ps)
unfolding update_proc
update_proc-DistinctPids [] pid f same d = tt
update_proc-DistinctPids (q ∷ ps) pid f same d = elim (Bool-cases (eq_int q.pid pid)) [
  | inl hit ↦
      (let at_pid : q.pid ≡ pid = (eq_int_iff q.pid pid).0 hit in
        rw hit
          (subst (λ k. All (λ (x : Pcb). x.pid ≢ k) ps) (at_pid ∙ sym (same q at_pid)) d.0, d.1))
  | inr miss ↦
      rw miss
        (apart-update_proc ps pid q.pid f same d.0, update_proc-DistinctPids ps pid f same d.1)
]

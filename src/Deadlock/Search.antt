-- ===== src/Deadlock/Search.antt =====
-- `dfs_cycle` of src/deadlock.c: it always ends, and it finds a cycle exactly where there is one.
use fleetos.Base.{
  ℕ, zero, suc, ◌+◌, ◌<◌, ◌≤◌, ◌≡◌, ◌≢◌, sym, Bool, true, false, Option, none, some, arith, ltb,
  ◌==◌, if◌then◌else◌, Bool-cases, inl, inr, ◌⊎◌, pos, ==_iff, subst, ◌∙◌, ltb→lt,
}
use fleetos.Sync.{max_procs}
use fleetos.Deadlock.{
  ResourceGraph, Marks, put, is_active, probe, scan_procs, unless_found, num_resources,
}
use fleetos.Deadlock.WaitFor.{WaitsFor, WaitPath, last, Safe, extend, is_active_lem}

-- How many of the processes below `n` have not been visited.
pub unvisited : ℕ → (ℕ → Bool) → ℕ
unvisited zero v = 0
unvisited (suc n) v = (if v n then 0 else 1) + unvisited n v

unvisited-less :
    (n : ℕ) (v w : ℕ → Bool) → ((i : ℕ) → v i ≡ true → w i ≡ true) → unvisited n w ≤ unvisited n v
unfolding unvisited
unvisited-less zero v w h = omega arith
unvisited-less (suc n) v w h = ground (arith, h n, unvisited-less n v w h)

pub unvisited-put :
    (n i : ℕ) (v : ℕ → Bool) → i < n → v i ≡ false → unvisited n (put i true v) < unvisited n v
unfolding unvisited
unvisited-put zero i v h e = absurd (omega arith)
unvisited-put (suc n) i v h e = elim (Bool-cases (i == n)) [
  | inl same ↦ ground (arith, unvisited-less n v (put i true v) (λ j d. ground arith))
  | inr other ↦ ground (arith, unvisited-put n i v (ground arith) e)
]

pub unvisited-bound : (n : ℕ) (v : ℕ → Bool) → unvisited n v ≤ n
unfolding unvisited
unvisited-bound zero v = omega arith
unvisited-bound (suc n) v = ground (arith, unvisited-bound n v)

-- The search ends; what it found, or what it has settled.
abbrev pub Found : ResourceGraph → Marks → Type 0
Found g s =
    (c : ℕ) × WaitPath g c c
    × (s.in_stack c ≡ true)
    × ((v : ℕ) → s.in_stack v ≡ true → WaitPath g v c)

abbrev pub Settled : ResourceGraph → Marks → Type 0
Settled g s = (v : ℕ) → s.visited v ≡ true → s.in_stack v ≡ false → Safe g v

abbrev pub Kept : Marks → Marks → Type 0
Kept s t =
    ((v : ℕ) → t.in_stack v ≡ true → s.in_stack v ≡ true)
    × ((v : ℕ) → s.visited v ≡ true → t.visited v ≡ true)

abbrev pub Outcome : ResourceGraph → Type 0 → Marks → Option (Bool × Marks) → Type 0
Outcome g P s none = ⊥
Outcome g P s (some (true, t)) = Found g t
Outcome g P s (some (false, t)) = Kept s t × Settled g t × P

-- Everything on the stack waits for `p`, or is `p`.
abbrev pub Leads : ResourceGraph → Marks → ℕ → Type 0
Leads g s p = (v : ℕ) → s.in_stack v ≡ true → (v ≡ p) ⊎ WaitPath g v p

abbrev pub Visits : ResourceGraph → ℕ → (ℕ → Marks → Option (Bool × Marks)) → Type 0
Visits g k visit =
    (q : ℕ) (s : Marks)
    → q < max_procs
    → s.visited q ≡ false
    → ((v : ℕ) → s.in_stack v ≡ true → WaitPath g v q)
    → Settled g s
    → unvisited max_procs s.visited ≤ k
    → Outcome g (Safe g q) s (visit q s)

module _ (g : ResourceGraph) where
  pub unless_found-Outcome :
      (P Q : Type 0) (s : Marks) (o : Option (Bool × Marks)) (next : Marks → Option (Bool × Marks))
      → Outcome g P s o
      → ((t : Marks) → Kept s t → Settled g t → P → Outcome g Q t (next t))
      → Outcome g Q s (unless_found o next)
  unless_found-Outcome P Q s none next h f = h
  unless_found-Outcome P Q s (some (true, t)) next h f = h
  unless_found-Outcome P Q s (some (false, t)) next (kept, settled, p) f =
      carry (next t) kept (f t kept settled p)
    where
      carry : (o : Option (Bool × Marks)) → Kept s t → Outcome g Q t o → Outcome g Q s o
      carry none k h = h
      carry (some (true, u)) k h = h
      carry (some (false, u)) k (k', settled', q) =
          (((λ v e. k.0 v (k'.0 v e)), (λ v e. k'.1 v (k.1 v e))), settled', q)

  pub Outcome-weaken :
      (P Q : Type 0) (s : Marks) (o : Option (Bool × Marks))
      → Outcome g P s o
      → (P → Q)
      → Outcome g Q s o
  Outcome-weaken P Q s none h f = h
  Outcome-weaken P Q s (some (true, t)) h f = h
  Outcome-weaken P Q s (some (false, t)) (kept, settled, p) f = (kept, settled, f p)

  module _ (k : ℕ) (visit : ℕ → Marks → Option (Bool × Marks)) (visits : Visits g k visit) where
    abbrev pub SafeIfHeld : ℕ → ℕ → ℕ → Type 0
    SafeIfHeld pid r q = g.active q ≡ true → q ≢ pid → 0 < g.allocation q r → Safe g q

    probe-Outcome :
        (pid r q : ℕ) (s : Marks)
        → r < num_resources
        → 0 < g.request pid r
        → q < max_procs
        → Leads g s pid
        → Settled g s
        → unvisited max_procs s.visited ≤ k
        → Outcome g (SafeIfHeld pid r q) s (probe visit g pid r q s)
    unfolding probe
    probe-Outcome pid r q s hr asked hq leads settled small =
        elim (Bool-cases (is_active g (pos q))) [
          | inl alive ↦ elim (Bool-cases (q == pid)) [
            | inl same ↦ rw (alive, same) (nothing (λ a ne h. absurd (ne ((==_iff q pid).0 same))))
            | inr other ↦ elim (Bool-cases (ltb 0 (g.allocation q r))) [
              | inl holds ↦
                  (let e : WaitsFor g pid q = record {
                    resource = r;
                    is_resource = hr;
                    asked = asked;
                    in_table = hq;
                    is_alive = sym (is_active_lem g q hq) ∙ alive;
                    other = λ same. ground arith;
                    holds = ltb→lt 0 (g.allocation q r) holds;
                  } in
                    elim (Bool-cases (s.visited q)) [
                      | inl seen ↦ elim (Bool-cases (s.in_stack q)) [
                        | inl on ↦ rw (alive, other, holds, seen, on) (q, joins e q on, on, joins e)
                        | inr off ↦
                            rw (alive, other, holds, seen, off)
                              (nothing (λ a ne h. settled q seen off))
                      ]
                      | inr new ↦
                          rw (alive, other, holds, new)
                            (Outcome-weaken (Safe g q) (SafeIfHeld pid r q) s (visit q s)
                              (visits q s hq new (joins e) settled small) (λ p a ne h. p))
                    ])
              | inr free ↦ rw (alive, other, free) (nothing (λ a ne h. absurd (ground arith)))
            ]
          ]
          | inr dead ↦ rw dead (nothing (λ a ne h. absurd (ground (arith, is_active_lem g q hq))))
        ]
      where
        nothing : SafeIfHeld pid r q → Outcome g (SafeIfHeld pid r q) s (some (false, s))
        nothing p = (((λ v e. e), (λ v e. e)), settled, p)

        joins : WaitsFor g pid q → (v : ℕ) → s.in_stack v ≡ true → WaitPath g v q
        joins e v on = elim (leads v on) [
          | inl same ↦ subst (λ x. WaitPath g x q) (sym same) (last e)
          | inr path ↦ extend path e
        ]

    pub Leads-Kept : (pid : ℕ) (s t : Marks) → Kept s t → Leads g s pid → Leads g t pid
    Leads-Kept pid s t kept leads v on = leads v (kept.0 v on)

    pub small-Kept :
        (s t : Marks)
        → Kept s t
        → unvisited max_procs s.visited ≤ k
        → unvisited max_procs t.visited ≤ k
    small-Kept s t kept small = omega (arith, unvisited-less max_procs s.visited t.visited kept.1)

    pub scan_procs-Outcome :
        (pid r n q : ℕ) (s : Marks)
        → r < num_resources
        → 0 < g.request pid r
        → q + n ≤ max_procs
        → Leads g s pid
        → Settled g s
        → unvisited max_procs s.visited ≤ k
        → Outcome g
            ((m : ℕ) → q ≤ m → m < q + n → SafeIfHeld pid r m)
            s
            (scan_procs visit g pid r n q s)
    unfolding scan_procs
    scan_procs-Outcome pid r zero q s hr asked hq leads settled small =
        (((λ v e. e), (λ v e. e)), settled, (λ m a b. absurd (omega arith)))
    scan_procs-Outcome pid r (suc n) q s hr asked hq leads settled small =
        unless_found-Outcome (SafeIfHeld pid r q)
          ((m : ℕ) → q ≤ m → m < q + suc n → SafeIfHeld pid r m) s (probe visit g pid r q s)
          (scan_procs visit g pid r n (suc q))
          (probe-Outcome pid r q s hr asked (omega arith) leads settled small)
          (λ t kept settled' here.
            Outcome-weaken ((m : ℕ) → suc q ≤ m → m < suc q + n → SafeIfHeld pid r m)
              ((m : ℕ) → q ≤ m → m < q + suc n → SafeIfHeld pid r m) t
              (scan_procs visit g pid r n (suc q) t)
              (scan_procs-Outcome pid r n (suc q) t hr asked (omega arith)
                (Leads-Kept pid s t kept leads) settled' (small-Kept s t kept small))
              (λ later m from below. elim (Bool-cases (m == q)) [
                | inl same ↦ subst (SafeIfHeld pid r) (sym ((==_iff m q).0 same)) here
                | inr apart ↦ later m (ground arith) (omega arith)
              ]))

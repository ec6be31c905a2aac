-- ===== src/Deadlock/Depth.antt =====
-- The whole of `dfs_cycle` of src/deadlock.c, by its loop over the processes.
use fleetos.Base.{
  ℕ, zero, suc, ◌+◌, ◌<◌, ◌≤◌, ◌≡◌, refl, sym, Bool, true, false, Option, none, some, arith, ltb,
  ◌==◌, if◌then◌else◌, Bool-cases, inl, inr, ◌⊎◌, ==_iff, subst, ltb→lt,
}
use fleetos.Sync.{max_procs}
use fleetos.Deadlock.{
  ResourceGraph, Marks, scan_procs, scan_resources, enter_stack, leave_stack, dfs_cycle,
  unless_found, num_resources,
}
use fleetos.Deadlock.WaitFor.{WaitsFor, WaitPath, Safe, safe}
use fleetos.Deadlock.Search.{
  unvisited, unvisited-put, Settled, Outcome, Leads, Visits, unless_found-Outcome, Outcome-weaken,
  scan_procs-Outcome, Leads-Kept, small-Kept,
}

module _ (g : ResourceGraph) where
  abbrev SafeByResource : ℕ → ℕ → Type 0
  SafeByResource pid r = (q : ℕ) (e : WaitsFor g pid q) → e.resource ≡ r → Safe g q

  scan_resources-Outcome :
      (k : ℕ) (visit : ℕ → Marks → Option (Bool × Marks))
      → Visits g k visit
      → (pid n r : ℕ) (s : Marks) → r + n ≤ num_resources
      → Leads g s pid
      → Settled g s
      → unvisited max_procs s.visited ≤ k
      → Outcome g
          ((m : ℕ) → r ≤ m → m < r + n → SafeByResource pid m)
          s
          (scan_resources visit g pid n r s)
  unfolding scan_resources
  scan_resources-Outcome k visit visits pid zero r s hr leads settled small =
      (((λ v e. e), (λ v e. e)), settled, (λ m a b. absurd (omega arith)))
  scan_resources-Outcome k visit visits pid (suc n) r s hr leads settled small =
      unless_found-Outcome g (SafeByResource pid r)
        ((m : ℕ) → r ≤ m → m < r + suc n → SafeByResource pid m) s _
        (scan_resources visit g pid n (suc r)) (round (Bool-cases (ltb 0 (g.request pid r))))
        (λ t kept settled' here.
          Outcome-weaken g ((m : ℕ) → suc r ≤ m → m < suc r + n → SafeByResource pid m)
            ((m : ℕ) → r ≤ m → m < r + suc n → SafeByResource pid m) t
            (scan_resources visit g pid n (suc r) t)
            (scan_resources-Outcome k visit visits pid n (suc r) t (omega arith)
              (Leads-Kept g k visit visits pid s t kept leads) settled'
              (small-Kept g k visit visits s t kept small))
            (λ later m from below. elim (Bool-cases (m == r)) [
              | inl same ↦ subst (SafeByResource pid) (sym ((==_iff m r).0 same)) here
              | inr apart ↦ later m (ground arith) (omega arith)
            ]))
    where
      round :
          (ltb 0 (g.request pid r) ≡ true) ⊎ (ltb 0 (g.request pid r) ≡ false)
          → Outcome g (SafeByResource pid r) s (
              if ltb 0 (g.request pid r)
              then scan_procs visit g pid r max_procs 0 s
              else some (false, s))
      round (inl asked) = rw asked (
          Outcome-weaken g _ (SafeByResource pid r) s (scan_procs visit g pid r max_procs 0 s)
            (scan_procs-Outcome g k visit visits pid r max_procs 0 s (omega arith)
              (ltb→lt 0 (g.request pid r) asked) (omega arith) leads settled small)
            (λ found q e same.
              found q (omega arith) e.in_table e.is_alive e.other
                (subst (λ x. 0 < g.allocation q x) same e.holds)))
      round (inr idle) = rw idle (
        ((λ v e. e), (λ v e. e)),
        settled,
        (λ q e same. absurd (ground (arith, subst (λ x. 0 < g.request pid x) same e.asked))),
      )

  -- Leaving the stack settles the process whose requests are all settled.
  leave_stack-Outcome :
      (pid : ℕ) (s : Marks) (o : Option (Bool × Marks))
      → Outcome g
          ((m : ℕ) → 0 ≤ m → m < 0 + num_resources → SafeByResource pid m)
          (enter_stack pid s)
          o
      → Outcome g (Safe g pid) s (unless_found o (leave_stack pid))
  unfolding enter_stack leave_stack
  leave_stack-Outcome pid s none h = h
  leave_stack-Outcome pid s (some (true, t)) h = h
  leave_stack-Outcome pid s (some (false, t)) ((stack, seen), settled, all) = (
    ((λ v on. ground (arith, stack v)), (λ v e. seen v (ground arith))),
    (λ v e off. elim (Bool-cases (v == pid)) [
      | inl same ↦ subst (Safe g) (sym ((==_iff v pid).0 same)) done
      | inr other ↦ settled v e (ground arith)
    ]),
    done,
  )
    where
      done : Safe g pid
      done = safe (λ q e. all e.resource (omega arith) e.is_resource q e refl)

  entered-Leads :
      (pid : ℕ) (s : Marks)
      → ((v : ℕ) → s.in_stack v ≡ true → WaitPath g v pid)
      → Leads g (enter_stack pid s) pid
  unfolding enter_stack
  entered-Leads pid s leads v on = elim (Bool-cases (v == pid)) [
    | inl same ↦ inl ((==_iff v pid).0 same)
    | inr other ↦ inr (leads v (ground arith))
  ]

  entered-Settled : (pid : ℕ) (s : Marks) → Settled g s → Settled g (enter_stack pid s)
  unfolding enter_stack
  entered-Settled pid s settled v seen off = settled v (ground arith) (ground arith)

  entered-small :
      (fuel pid : ℕ) (s : Marks)
      → pid < max_procs
      → s.visited pid ≡ false
      → unvisited max_procs s.visited ≤ suc fuel
      → unvisited max_procs (enter_stack pid s).visited ≤ fuel
  unfolding enter_stack
  entered-small fuel pid s hq new small =
      omega (arith, unvisited-put max_procs pid s.visited hq new)

  -- A search from a process not visited, with fuel for the processes that are left.
  pub dfs_cycle-Visits : (fuel : ℕ) → Visits g fuel (dfs_cycle fuel g)
  unfolding dfs_cycle
  dfs_cycle-Visits zero pid s hq new leads settled small =
      absurd (omega (arith, unvisited-put max_procs pid s.visited hq new))
  dfs_cycle-Visits (suc fuel) pid s hq new leads settled small = leave_stack-Outcome pid s _ (
      scan_resources-Outcome fuel (dfs_cycle fuel g) (dfs_cycle-Visits fuel) pid num_resources 0
        (enter_stack pid s) (omega arith) (entered-Leads pid s leads)
        (entered-Settled pid s settled) (entered-small fuel pid s hq new small))

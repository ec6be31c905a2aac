-- ===== src/Deadlock/Detect.antt =====
-- `deadlock_detect` of src/deadlock.c: it reports a victim exactly where there is a deadlock.
use fleetos.Base.{
  ℕ, zero, suc, ◌+◌, ◌<◌, ◌≤◌, ◌≡◌, refl, Bool, true, false, ◌&&◌, Option, none, some, arith, ◌==◌,
  if◌then◌else◌, Bool-cases, inl, inr, ◌⊎◌, ℤ, pos, negsuc, minus_one, is_neg, ==_iff, subst, ◌∙◌,
}
use fleetos.Sync.{max_procs}
use fleetos.Deadlock.{
  ResourceGraph, Marks, is_active, any_request, has_outgoing_request, is_better_victim,
  choose_victim, no_marks, note_victim, detect_from, and_then, detect_rounds, report,
  deadlock_detect, dfs_cycle, num_resources,
}
use fleetos.Deadlock.WaitFor.{
  WaitsFor, WaitPath, last, via, Safe, Safe-acyclic, path_end, is_active_lem,
}
use fleetos.Deadlock.Search.{unvisited-bound, Found, Outcome}
use fleetos.Deadlock.Depth.{dfs_cycle-Visits}

module _ (g : ResourceGraph) where
  -- A victim is alive and waits, directly or not, for a process that waits for itself.
  abbrev pub IsDoomed : ℤ → Type 0
  IsDoomed (negsuc n) = Unit
  IsDoomed (pos i) = (g.active i ≡ true) × ((c : ℕ) × WaitPath g i c × WaitPath g c c)

  choose_victim-IsDoomed :
      (s : Marks) (n i : ℕ) (out : ℤ)
      → i + n ≤ max_procs
      → Found g s
      → IsDoomed out
      → IsDoomed (choose_victim g s n i out)
  unfolding choose_victim
  choose_victim-IsDoomed s zero i out h found d = d
  choose_victim-IsDoomed s (suc n) i out h (c, cycle, on, all) d =
      choose_victim-IsDoomed s n (suc i) _ (omega arith) (c, cycle, on, all)
        (elim (Bool-cases (s.in_stack i && is_active g (pos i))) [
          | inl is_candidate ↦ elim (Bool-cases (is_better_victim g i out)) [
            | inl is_better ↦
                rw (is_candidate, is_better)
                  (
                    ground (arith, is_active_lem g i (omega arith)),
                    (c, all i (ground arith), cycle),
                  )
            | inr worse ↦ rw (is_candidate, worse) d
          ]
          | inr no_candidate ↦ rw no_candidate d
        ])

  choose_victim-keeps :
      (s : Marks) (n i : ℕ) (out : ℤ)
      → is_neg out ≡ false
      → is_neg (choose_victim g s n i out) ≡ false
  unfolding choose_victim
  choose_victim-keeps s zero i out h = h
  choose_victim-keeps s (suc n) i out h = choose_victim-keeps s n (suc i) _ (ground arith)

  is_better_victim-first : (i : ℕ) (out : ℤ) → is_neg out ≡ true → is_better_victim g i out ≡ true
  unfolding is_better_victim
  is_better_victim-first i out h = ground arith

  choose_victim-finds :
      (s : Marks) (n i c : ℕ) (out : ℤ)
      → i ≤ c
      → c < i + n
      → s.in_stack c ≡ true
      → is_active g (pos c) ≡ true
      → is_neg (choose_victim g s n i out) ≡ false
  unfolding choose_victim
  choose_victim-finds s zero i c out from below on alive = absurd (omega arith)
  choose_victim-finds s (suc n) i c out from below on alive = elim (Bool-cases (c == i)) [
    | inl same ↦ choose_victim-keeps s n (suc i) _ (chosen ((==_iff c i).0 same))
    | inr other ↦ choose_victim-finds s n (suc i) c _ (ground arith) (omega arith) on alive
  ]
    where
      chosen :
          c ≡ i
          → is_neg (
              if (s.in_stack i && is_active g (pos i)) && is_better_victim g i out
              then pos i
              else out)
            ≡ false
      chosen same =
          let on_i : s.in_stack i ≡ true = subst (λ x. s.in_stack x ≡ true) same on in
          let alive_i : is_active g (pos i) ≡ true =
            subst (λ x. is_active g (pos x) ≡ true) same alive in
          ground (arith, is_better_victim-first i out)

  any_request-WaitsFor :
      (pid n r : ℕ)
      → any_request g pid n r ≡ false
      → (m : ℕ) → r ≤ m
      → m < r + n
      → 0 < g.request pid m
      → ⊥
  unfolding any_request
  any_request-WaitsFor pid zero r h m from below asked = omega arith
  any_request-WaitsFor pid (suc n) r h m from below asked = elim (Bool-cases (m == r)) [
    | inl same ↦ ground arith
    | inr other ↦
        any_request-WaitsFor pid n (suc r) (ground arith) m (ground arith) (omega arith) asked
  ]

  has_outgoing_request-idle :
      (pid : ℕ)
      → is_active g (pos pid) ≡ true
      → has_outgoing_request g pid ≡ false
      → any_request g pid num_resources 0 ≡ false
  unfolding has_outgoing_request
  has_outgoing_request-idle pid alive idle = ground arith

  -- After the search from `pid`: the victim so far, and what it means that there is none.
  abbrev Round : ℕ → ℤ → Option ℤ → Type 0
  Round pid out none = ⊥
  Round pid out (some new) =
      IsDoomed new
      × (is_neg out ≡ false → is_neg new ≡ false)
      × (is_neg new ≡ true → WaitPath g pid pid → ⊥)

  -- The same after the rounds for `n` processes from `pid` on.
  abbrev Rounds : ℕ → ℕ → ℤ → Option ℤ → Type 0
  Rounds pid n out none = ⊥
  Rounds pid n out (some new) =
      IsDoomed new
      × (is_neg out ≡ false → is_neg new ≡ false)
      × (is_neg new ≡ true → (m : ℕ) → pid ≤ m → m < pid + n → WaitPath g m m → ⊥)

  note_victim-Round :
      (pid : ℕ) (out : ℤ) (o : Option (Bool × Marks))
      → IsDoomed out
      → Outcome g (Safe g pid) no_marks o
      → Round pid out (note_victim g out o)
  note_victim-Round pid out none d h = h
  note_victim-Round pid out (some (true, s)) d (c, cycle, on, all) = (
    choose_victim-IsDoomed s max_procs 0 out (omega arith) (c, cycle, on, all) d,
    choose_victim-keeps s max_procs 0 out,
    (λ neg path. absurd (
        ground (
          arith,
          choose_victim-finds s max_procs 0 c out (omega arith) (path_end cycle).0 on
              (is_active_lem g c (path_end cycle).0 ∙ (path_end cycle).1),
        ))),
  )
  note_victim-Round pid out (some (false, s)) d (kept, settled, is_safe) =
      (d, (λ e. e), (λ neg path. Safe-acyclic is_safe path refl))

  detect_from-Round :
      (fuel pid : ℕ) (out : ℤ)
      → max_procs ≤ fuel
      → pid < max_procs
      → IsDoomed out
      → Round pid out (detect_from fuel g pid out)
  unfolding detect_from
  detect_from-Round fuel pid out hf hp d = elim (Bool-cases (is_active g (pos pid))) [
    | inl alive ↦ elim (Bool-cases (has_outgoing_request g pid)) [
      | inl waits ↦
          rw (alive, waits)
            (note_victim-Round pid out (dfs_cycle fuel g pid no_marks) d (
              dfs_cycle-Visits g fuel pid no_marks hp refl (λ v e. absurd (ground arith))
                (λ v e. absurd (ground arith))
                (omega (arith, unvisited-bound max_procs no_marks.visited))))
      | inr idle ↦ rw (alive, idle) (d, (λ e. e), (λ neg path. no_request alive idle (first path)))
    ]
    | inr dead ↦
        rw dead (d, (λ e. e), (λ neg path. ground (arith, is_active_lem g pid hp, path_end path)))
  ]
    where
      first : {q : ℕ} → WaitPath g pid q → (m : ℕ) × WaitsFor g pid m
      first (last {q = m} e) = (m, e)
      first (via {q = m} e path) = (m, e)

      no_request :
          is_active g (pos pid) ≡ true
          → has_outgoing_request g pid ≡ false
          → (m : ℕ) × WaitsFor g pid m
          → ⊥
      no_request alive idle (m, e) =
          any_request-WaitsFor pid num_resources 0 (has_outgoing_request-idle pid alive idle)
            e.resource (omega arith) e.is_resource e.asked

  detect_rounds-Round :
      (fuel n pid : ℕ) (out : ℤ)
      → max_procs ≤ fuel
      → pid + n ≤ max_procs
      → IsDoomed out
      → Rounds pid n out (detect_rounds fuel g n pid out)
  unfolding detect_rounds
  detect_rounds-Round fuel zero pid out hf hp d =
      (d, (λ e. e), (λ neg m from below. absurd (omega arith)))
  detect_rounds-Round fuel (suc n) pid out hf hp d =
      combine (detect_from fuel g pid out) (detect_from-Round fuel pid out hf (omega arith) d)
        (λ new d'. detect_rounds-Round fuel n (suc pid) new hf (omega arith) d')
    where
      after :
          (new : ℤ) (o : Option ℤ)
          → Round pid out (some new)
          → Rounds (suc pid) n new o
          → Rounds pid (suc n) out o
      after new none r h = h
      after new (some final) (d', keeps, here) (d'', keeps', later) = (
        d'',
        (λ e. keeps' (keeps e)),
        (λ neg m from below path. elim (Bool-cases (m == pid)) [
          | inl same ↦
              here (ground (arith, keeps'))
                (subst (λ x. WaitPath g x x) ((==_iff m pid).0 same) path)
          | inr other ↦ later neg m (ground arith) (omega arith) path
        ]),
      )

      combine :
          (o : Option ℤ)
          → Round pid out o
          → ((new : ℤ)
              → IsDoomed new
              → Rounds (suc pid) n new (detect_rounds fuel g n (suc pid) new))
          → Rounds pid (suc n) out (and_then o (detect_rounds fuel g n (suc pid)))
      combine none h rest = h
      combine (some new) r rest = after new (detect_rounds fuel g n (suc pid) new) r (rest new r.0)

  abbrev pub Verdict : ℤ → Option (ℤ × ℤ) → Type 0
  Verdict victim_pid answer =
      ((i : ℕ) × (answer ≡ some (pos 1, pos i))
        × (g.active i ≡ true)
        × ((c : ℕ) × WaitPath g i c × WaitPath g c c))
      ⊎ ((answer ≡ some (pos 0, victim_pid)) × ((c : ℕ) → ¬ WaitPath g c c))

  -- The search always ends. It returns 1 and an active process that waits, directly or through
  -- others, for a process that waits for itself; or it returns 0, leaves `*victim_pid` alone, and
  -- no process waits for itself.
  pub deadlock_detect-Verdict : (victim_pid : ℤ) → Verdict victim_pid (deadlock_detect g victim_pid)
  unfolding deadlock_detect
  deadlock_detect-Verdict victim_pid =
      judge (detect_rounds (suc max_procs) g max_procs 0 minus_one)
        (detect_rounds-Round (suc max_procs) max_procs 0 minus_one (omega arith) (omega arith) tt)
    where
      judge :
          (o : Option ℤ) → Rounds 0 max_procs minus_one o → Verdict victim_pid (report victim_pid o)
      judge none h = absurd h
      judge (some (pos i)) ((alive, cycle), keeps, free) = inl (i, refl, alive, cycle)
      judge (some (negsuc k)) (d, keeps, free) =
          inr (refl, (λ c path. free refl c (omega arith) (path_end path).0 path))

-- ===== src/Deadlock/Exclusion.antt =====
-- Histories of calls of src/deadlock.c from `deadlock_init` on: each resource is with one process or
-- with none.
use fleetos.Base.{
  ℕ, zero, suc, ◌+◌, ◌<◌, ◌≤◌, ◌≡◌, refl, ap, ◌∙◌, false, ◌==◌, ltb, List, [], ◌∷◌, arith, ℤ, pos,
  index, Bool-cases, inl, inr, minus_one, is_neg, ==_iff, ltb→lt,
}
use fleetos.Types.{Priority}
use fleetos.Sync.{max_procs}
use fleetos.Deadlock.{
  ResourceGraph, put, put2, is_pid, is_rid, is_active, num_resources, deadlock_init,
  deadlock_set_priority, deadlock_alloc, deadlock_request, deadlock_release, clear_resource,
  deadlock_cleanup_process, wake_entry, wake_entries, deadlock_wake_waiters, deadlock_resolve,
}
use fleetos.Deadlock.Account.{
  total, held, amount, SamePool-amount, clear_resource-amount, deadlock_alloc-amount,
  deadlock_release-amount, deadlock_request-amount,
}

deadlock_cleanup_process-amount :
    (g : ResourceGraph) (pid : ℤ) (s : ℕ) → amount (deadlock_cleanup_process g pid) s ≡ amount g s
unfolding deadlock_cleanup_process
deadlock_cleanup_process-amount g pid s =
    let g0 = clear_resource pid 0 g in
    let g1 = clear_resource pid 1 g0 in
    let g2 = clear_resource pid 2 g1 in
    elim (Bool-cases (is_pid pid)) [
      | inl in_table ↦ rw in_table (
          SamePool-amount (record g2 { active = put (index pid) false g2.active }) g2 s (refl, refl)
          ∙ clear_resource-amount pid 2 g1 s
          ∙ clear_resource-amount pid 1 g0 s
          ∙ clear_resource-amount pid 0 g s)
      | inr outside ↦ rw outside refl
    ]

wake_entry-amount :
    (r i : ℕ) (g : ResourceGraph) (s : ℕ) → amount (wake_entry r i g).0 s ≡ amount g s
unfolding wake_entry
wake_entry-amount r i g s =
    let wpid = g.wait_pid r i in
    let granted = (deadlock_alloc g wpid (pos r)).0 in
    elim (Bool-cases (is_neg wpid)) [
      | inl gone ↦ rw gone refl
      | inr there ↦ elim (Bool-cases (is_active g wpid)) [
        | inl alive ↦ elim (Bool-cases (ltb 0 (g.available r))) [
          | inl free ↦
              rw (there, alive, free)
                (SamePool-amount (record granted { wait_pid = put2 r i minus_one granted.wait_pid })
                    granted s (refl, refl)
                  ∙ deadlock_alloc-amount g s wpid (pos r))
          | inr taken ↦ rw (there, alive, taken) refl
        ]
        | inr dead ↦
            rw (there, dead)
              (SamePool-amount (record g { wait_pid = put2 r i minus_one g.wait_pid }) g s
                (refl, refl))
      ]
    ]

wake_entries-amount :
    (n r i : ℕ) (g : ResourceGraph) (s : ℕ) → amount (wake_entries n r i g).0 s ≡ amount g s
unfolding wake_entries
wake_entries-amount zero r i g s = refl
wake_entries-amount (suc n) r i g s =
    wake_entries-amount n r (suc i) (wake_entry r i g).0 s ∙ wake_entry-amount r i g s

deadlock_wake_waiters-amount :
    (g : ResourceGraph) (rid : ℤ) (s : ℕ) → amount (deadlock_wake_waiters g rid).0 s ≡ amount g s
unfolding deadlock_wake_waiters
deadlock_wake_waiters-amount g rid s =
    let r = index rid in
    let woken = (wake_entries (g.wait_count r) r 0 g).0 in
    elim (Bool-cases (is_rid rid)) [
      | inl known ↦ rw known (
          SamePool-amount (record woken { wait_pid = _; wait_count = _ }) woken s (refl, refl)
          ∙ wake_entries-amount (g.wait_count r) r 0 g s)
      | inr unknown ↦ rw unknown refl
    ]

deadlock_resolve-amount :
    (g : ResourceGraph) (pid : ℤ) (s : ℕ) → amount (deadlock_resolve g pid).0 s ≡ amount g s
unfolding deadlock_resolve
deadlock_resolve-amount g pid s =
    let cleaned = deadlock_cleanup_process g pid in
    let g0 = (deadlock_wake_waiters cleaned (pos 0)).0 in
    let g1 = (deadlock_wake_waiters g0 (pos 1)).0 in
    elim (Bool-cases (is_pid pid)) [
      | inl in_table ↦ rw in_table (
          deadlock_wake_waiters-amount g1 (pos 2) s
          ∙ deadlock_wake_waiters-amount g0 (pos 1) s
          ∙ deadlock_wake_waiters-amount cleaned (pos 0) s
          ∙ deadlock_cleanup_process-amount g pid s)
      | inr outside ↦ rw outside refl
    ]

-- The calls that change the graph.
pub data GraphCall : Type 0 where
  set_priority : ℤ → Priority → GraphCall
  alloc : ℤ → ℤ → GraphCall
  request : ℤ → ℤ → GraphCall
  release : ℤ → ℤ → GraphCall
  cleanup : ℤ → GraphCall
  wake : ℤ → GraphCall
  resolve : ℤ → GraphCall

unfoldable pub graph_call : GraphCall → ResourceGraph → ResourceGraph
graph_call (set_priority pid p) g = deadlock_set_priority g pid p
graph_call (alloc pid rid) g = (deadlock_alloc g pid rid).0
graph_call (request pid rid) g = (deadlock_request g pid rid).0
graph_call (release pid rid) g = deadlock_release g pid rid
graph_call (cleanup pid) g = deadlock_cleanup_process g pid
graph_call (wake rid) g = (deadlock_wake_waiters g rid).0
graph_call (resolve pid) g = (deadlock_resolve g pid).0

-- The calls in the list's order.
unfoldable pub graph_calls : List GraphCall → ResourceGraph → ResourceGraph
graph_calls [] g = g
graph_calls (c ∷ cs) g = graph_calls cs (graph_call c g)

deadlock_set_priority-amount :
    (g : ResourceGraph) (pid : ℤ) (p : Priority) (s : ℕ)
    → amount (deadlock_set_priority g pid p) s ≡ amount g s
unfolding deadlock_set_priority
deadlock_set_priority-amount g pid p s = elim (Bool-cases (is_pid pid)) [
  | inl in_table ↦
      rw in_table
        (SamePool-amount (record g { priority = put (index pid) p g.priority }) g s (refl, refl))
  | inr outside ↦ rw outside refl
]

pub graph_call-amount :
    (c : GraphCall) (g : ResourceGraph) (s : ℕ) → amount (graph_call c g) s ≡ amount g s
unfolding graph_call
graph_call-amount (set_priority pid p) g s = deadlock_set_priority-amount g pid p s
graph_call-amount (alloc pid rid) g s = deadlock_alloc-amount g s pid rid
graph_call-amount (request pid rid) g s = deadlock_request-amount g pid rid s
graph_call-amount (release pid rid) g s = deadlock_release-amount g s pid rid
graph_call-amount (cleanup pid) g s = deadlock_cleanup_process-amount g pid s
graph_call-amount (wake rid) g s = deadlock_wake_waiters-amount g rid s
graph_call-amount (resolve pid) g s = deadlock_resolve-amount g pid s

graph_calls-amount :
    (cs : List GraphCall) (g : ResourceGraph) (s : ℕ) → amount (graph_calls cs g) s ≡ amount g s
unfolding graph_calls
graph_calls-amount [] g s = refl
graph_calls-amount (c ∷ cs) g s = graph_calls-amount cs (graph_call c g) s ∙ graph_call-amount c g s

pub deadlock_init-amount :
    (g : ResourceGraph) (r : ℕ) → r < num_resources → amount (deadlock_init g) r ≡ 1
unfolding deadlock_init amount held total
deadlock_init-amount g r h = ground arith

total_one : (n p : ℕ) (f : ℕ → ℕ) → p < n → f p ≤ total n f
unfolding total
total_one zero p f h = absurd (omega arith)
total_one (suc n) p f h = elim (Bool-cases (n == p)) [
  | inl same ↦ omega (arith, ap f ((==_iff n p).0 same))
  | inr other ↦ omega (arith, total_one n p f (ground arith))
]

-- Two entries of a sum.
total_two : (n p q : ℕ) (f : ℕ → ℕ) → p < q → q < n → f p + f q ≤ total n f
unfolding total
total_two zero p q f h hq = absurd (omega arith)
total_two (suc n) p q f h hq = elim (Bool-cases (n == q)) [
  | inl same ↦
      (let e : n ≡ q = (==_iff n q).0 same in
        omega (arith, e, ap f e, total_one n p f (omega arith)))
  | inr other ↦ omega (arith, total_two n p q f h (ground arith))
]

-- After any calls from `deadlock_init` on, each resource is in the pool or held, once.
pub resources_conserved :
    (cs : List GraphCall) (g : ResourceGraph) (r : ℕ)
    → r < num_resources
    → (graph_calls cs (deadlock_init g)).available r + held (graph_calls cs (deadlock_init g)) r ≡ 1
unfolding amount
resources_conserved cs g r h =
    graph_calls-amount cs (deadlock_init g) r ∙ deadlock_init-amount g r h

-- After any calls from `deadlock_init` on, two processes that hold one resource are the same.
pub one_holder :
    (cs : List GraphCall) (g : ResourceGraph) (r p q : ℕ)
    → r < num_resources
    → p < max_procs
    → q < max_procs
    → 0 < (graph_calls cs (deadlock_init g)).allocation p r
    → 0 < (graph_calls cs (deadlock_init g)).allocation q r
    → p ≡ q
unfolding held
one_holder cs g r p q hr hp hq mine yours =
    let owners : ℕ → ℕ = λ x. (graph_calls cs (deadlock_init g)).allocation x r in
    let bound = resources_conserved cs g r hr in
    elim (Bool-cases (ltb p q)) [
      | inl before ↦
          absurd (ground (arith, bound, total_two max_procs p q owners (ltb→lt p q before) hq))
      | inr after ↦ elim (Bool-cases (ltb q p)) [
        | inl below ↦
            absurd (ground (arith, bound, total_two max_procs q p owners (ltb→lt q p below) hp))
        | inr at ↦ ground arith
      ]
    ]

-- ===== src/Deadlock/Account.antt =====
-- The resources of src/deadlock.c over any number of calls: none is lost, none is held twice.
use fleetos.Base.{
  ℕ, zero, suc, ◌+◌, ◌-◌, ◌<◌, ◌≤◌, ◌≡◌, ◌≢◌, refl, ap, ap₂, sym, ◌∙◌, ◌==◌, ltb, if◌then◌else◌,
  arith, ℤ, pos, index, Bool-cases, inl, inr, ==_iff, subst,
}
use fleetos.Sync.{max_procs}
use fleetos.Deadlock.{
  ResourceGraph, put, put2, is_pid, is_rid, deadlock_alloc, note_request, enqueue_waiter,
  deadlock_request, deadlock_release, release_while, clear_resource,
}

-- The sum of the first `n` entries.
unfoldable pub total : ℕ → (ℕ → ℕ) → ℕ
total zero f = 0
total (suc n) f = f n + total n f

pub total_same : (n : ℕ) (f h : ℕ → ℕ) → ((i : ℕ) → f i ≡ h i) → total n f ≡ total n h
unfolding total
total_same zero f h e = refl
total_same (suc n) f h e = ap₂ ◌+◌ (e n) (total_same n f h e)

total_put_out :
    (n p v : ℕ) (f : ℕ → ℕ) → n ≤ p → total n (λ q. if q == p then v else f q) ≡ total n f
unfolding total
total_put_out zero p v f h = refl
total_put_out (suc n) p v f h = ground (arith, total_put_out n p v f (omega arith))

pub total_put :
    (n p v : ℕ) (f : ℕ → ℕ) → p < n → total n (λ q. if q == p then v else f q) + f p ≡ total n f + v
unfolding total
total_put zero p v f h = absurd (omega arith)
total_put (suc n) p v f h = elim (Bool-cases (n == p)) [
  | inl same ↦
      (let e : n ≡ p = (==_iff n p).0 same in
        ground (arith, ap f e, total_put_out n p v f (omega arith)))
  | inr other ↦ ground (arith, total_put n p v f (ground arith))
]

-- How often the resource is held, and how often it exists.
unfoldable pub held : ResourceGraph → ℕ → ℕ
held g r = total max_procs (λ p. g.allocation p r)

unfoldable pub amount : ResourceGraph → ℕ → ℕ
amount g r = g.available r + held g r

held_put2 :
    (A : ℕ → ℕ → ℕ) (p r v : ℕ)
    → p < max_procs
    → total max_procs (λ q. put2 p r v A q r) + A p r ≡ total max_procs (λ q. A q r) + v
held_put2 A p r v h =
    ap (λ x. x + A p r)
      (total_same max_procs (λ q. put2 p r v A q r) (λ q. if q == p then v else A q r)
        (λ q. ground arith))
    ∙ total_put max_procs p v (λ q. A q r) h

held_put2_ne :
    (A : ℕ → ℕ → ℕ) (p r v s : ℕ)
    → s ≢ r
    → total max_procs (λ q. put2 p r v A q s) ≡ total max_procs (λ q. A q s)
held_put2_ne A p r v s h =
    total_same max_procs (λ q. put2 p r v A q s) (λ q. A q s) (λ q. ground arith)

-- What leaves the pool goes to a process, or the other way.
moved :
    (a : ℕ → ℕ) (A : ℕ → ℕ → ℕ) (p r v w s : ℕ)
    → p < max_procs
    → w + v ≡ a r + A p r
    → put r w a s + total max_procs (λ q. put2 p r v A q s) ≡ a s + total max_procs (λ q. A q s)
moved a A p r v w s hp e = elim (Bool-cases (s == r)) [
  | inl same ↦
      subst
        (λ x.
          put r w a x + total max_procs (λ q. put2 p r v A q x)
          ≡ a x + total max_procs (λ q. A q x))
        (sym ((==_iff s r).0 same)) (ground (arith, held_put2 A p r v hp))
  | inr other ↦ ground (arith, held_put2_ne A p r v s)
]

module _ (g : ResourceGraph) (s : ℕ) where
  pub deadlock_alloc-amount : (pid rid : ℤ) → amount (deadlock_alloc g pid rid).0 s ≡ amount g s
  unfolding deadlock_alloc amount held
  deadlock_alloc-amount pid rid =
      let p = index pid in
      let r = index rid in
      elim (Bool-cases (is_pid pid)) [
        | inl in_table ↦ elim (Bool-cases (is_rid rid)) [
          | inl known ↦ elim (Bool-cases (ltb 0 (g.available r))) [
            | inl free ↦
                rw (in_table, known, free)
                  (moved g.available g.allocation p r (g.allocation p r + 1) (g.available r - 1) s
                    (ground arith) (ground arith))
            | inr taken ↦ rw (in_table, known, taken) refl
          ]
          | inr unknown ↦ rw (in_table, unknown) refl
        ]
        | inr outside ↦ rw outside refl
      ]

  pub deadlock_release-amount : (pid rid : ℤ) → amount (deadlock_release g pid rid) s ≡ amount g s
  unfolding deadlock_release amount held
  deadlock_release-amount pid rid =
      let p = index pid in
      let r = index rid in
      elim (Bool-cases (is_pid pid)) [
        | inl in_table ↦ elim (Bool-cases (is_rid rid)) [
          | inl known ↦ elim (Bool-cases (ltb 0 (g.allocation p r))) [
            | inl mine ↦
                rw (in_table, known, mine)
                  (moved g.available g.allocation p r (g.allocation p r - 1) (g.available r + 1) s
                    (ground arith) (ground arith))
            | inr no_hold ↦ rw (in_table, known, no_hold) refl
          ]
          | inr unknown ↦ rw (in_table, unknown) refl
        ]
        | inr outside ↦ rw outside refl
      ]

-- A change of other fields.
abbrev pub SamePool : ResourceGraph → ResourceGraph → Type 0
SamePool g h = (g.available ≡ h.available) × (g.allocation ≡ h.allocation)

pub SamePool-amount : (g h : ResourceGraph) (s : ℕ) → SamePool g h → amount g s ≡ amount h s
unfolding amount held
SamePool-amount g h s (a, A) = λ i. a i s + total max_procs (λ p. A i p s)

enqueue_waiter-SamePool :
    (g : ResourceGraph) (pid : ℤ) (r : ℕ) → SamePool (enqueue_waiter g pid r) g
unfolding enqueue_waiter
enqueue_waiter-SamePool g pid r = elim (Bool-cases (ltb (g.wait_count r) max_procs)) [
  | inl room ↦ rw room (refl, refl)
  | inr full ↦ rw full (refl, refl)
]

pub deadlock_request-amount :
    (g : ResourceGraph) (pid rid : ℤ) (s : ℕ) → amount (deadlock_request g pid rid).0 s ≡ amount g s
unfolding deadlock_request
deadlock_request-amount g pid rid s =
    let noted = note_request g (index pid) (index rid) in
    let same : amount noted s ≡ amount g s = noted_same (index pid) (index rid) in
    let queued =
      SamePool-amount (enqueue_waiter noted pid (index rid)) noted s
        (enqueue_waiter-SamePool noted pid (index rid)) in
    ground (arith, same, queued, deadlock_alloc-amount noted s pid rid)
  where
    noted_same : (p r : ℕ) → amount (note_request g p r) s ≡ amount g s
    noted_same p r = unfold note_request in SamePool-amount (note_request g p r) g s (refl, refl)

release_while-amount :
    (fuel : ℕ) (g : ResourceGraph) (pid : ℤ) (r s : ℕ)
    → amount (release_while fuel g pid r) s ≡ amount g s
unfolding release_while
release_while-amount zero g pid r s = refl
release_while-amount (suc fuel) g pid r s = ground (
  arith,
  release_while-amount fuel (deadlock_release g pid (pos r)) pid r s,
  deadlock_release-amount g s pid (pos r),
)

pub clear_resource-amount :
    (pid : ℤ) (r : ℕ) (g : ResourceGraph) (s : ℕ) → amount (clear_resource pid r g) s ≡ amount g s
unfolding clear_resource
clear_resource-amount pid r g s =
    let released = release_while (g.allocation (index pid) r) g pid r in
    SamePool-amount (clear_resource pid r g) released s (refl, refl)
    ∙ release_while-amount (g.allocation (index pid) r) g pid r s

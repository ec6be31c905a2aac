-- ===== src/Deadlock/Serve.antt =====
-- The first loop of `deadlock_wake_waiters` of src/deadlock.c, and the call as a whole.
use fleetos.Base.{
  ℕ, zero, suc, ◌-◌, ◌<◌, ◌≡◌, ◌≢◌, refl, ap, ap₂, sym, ◌∙◌, Bool, true, false, ltb, ◌&&◌,
  if◌then◌else◌, List, [], ◌∷◌, ◌++◌, arith, ℤ, pos, Bool-cases, inl, inr, not, minus_one, is_neg,
  keep_if, lt→ltb, ==_iff,
}
use fleetos.Deadlock.{
  ResourceGraph, is_active, num_resources, deadlock_alloc, wake_entry, wake_entries,
  deadlock_wake_waiters,
}
use fleetos.Deadlock.Wake.{listed, listed_same, waiting, is_entry, serve, compact_waiters-front}

-- What one round of the first loop does to the queue it reads.
record Round (r i : ℕ) (g h : ResourceGraph) : Type 0 where
  others : (s j : ℕ) → (s ≡ r → j ≢ i) → h.wait_pid s j ≡ g.wait_pid s j
  counts : h.wait_count ≡ g.wait_count
  alive : (v : ℤ) → is_active h v ≡ is_active g v

wake_entry-Round :
    (r i : ℕ) (g : ResourceGraph) → r < num_resources → Round r i g (wake_entry r i g).0
unfolding wake_entry deadlock_alloc is_active
wake_entry-Round r i g h = record {
  others = λ s j ne. ground (arith, ne);
  counts = ground arith;
  alive = λ v. ground arith;
}

-- How many units the round leaves, which pid it serves and what it leaves in the queue.
wake_entry-left :
    (r i : ℕ) (g : ResourceGraph) (alive : Bool)
    → r < num_resources
    → is_active g (g.wait_pid r i) ≡ alive
    → (wake_entry r i g).0.available r ≡ (
        if (is_entry (g.wait_pid r i) && alive) && ltb 0 (g.available r)
        then g.available r - 1
        else g.available r)
unfolding wake_entry deadlock_alloc is_active
wake_entry-left r i g alive h e = ground arith

wake_entry-served :
    (r i : ℕ) (g : ResourceGraph) (alive : Bool)
    → r < num_resources
    → is_active g (g.wait_pid r i) ≡ alive
    → (wake_entry r i g).1 ≡ (
        if (is_entry (g.wait_pid r i) && alive) && ltb 0 (g.available r)
        then g.wait_pid r i ∷ []
        else [])
unfolding wake_entry
wake_entry-served r i g alive h e = ground arith

wake_entry-marks :
    (r i : ℕ) (g : ResourceGraph) (alive : Bool)
    → r < num_resources
    → is_active g (g.wait_pid r i) ≡ alive
    → (wake_entry r i g).0.wait_pid r i ≡ (
        if not (is_entry (g.wait_pid r i) && alive)
        then (if is_entry (g.wait_pid r i) then minus_one else g.wait_pid r i)
        else if ltb 0 (g.available r)
        then minus_one
        else g.wait_pid r i)
unfolding wake_entry deadlock_alloc is_active
wake_entry-marks r i g alive h e = ground arith

keep_if-mark :
    (x : ℤ) (xs : List ℤ) → is_neg x ≡ true → keep_if is_entry (x ∷ xs) ≡ keep_if is_entry xs
keep_if-mark x xs h = rw h refl

keep_if-entry :
    (x w : ℤ) (xs : List ℤ)
    → x ≡ w
    → is_neg w ≡ false
    → keep_if is_entry (x ∷ xs) ≡ w ∷ keep_if is_entry xs
keep_if-entry x w xs e h = ap (λ y. keep_if is_entry (y ∷ xs)) e ∙ rw h refl

-- The three ways in which a queue's first entry is treated.
module _ (alive : ℤ → Bool) (n : ℕ) (w : ℤ) (ws : List ℤ) where
  serve-dropped : (is_entry w && alive w) ≡ false → serve alive n (w ∷ ws) ≡ serve alive n ws
  unfolding serve
  serve-dropped h = rw (h, serve) refl

  serve-given :
      (is_entry w && alive w) ≡ true
      → ltb 0 n ≡ true
      → serve alive n (w ∷ ws) ≡ (w ∷ (serve alive (n - 1) ws).0, (serve alive (n - 1) ws).1)
  unfolding serve
  serve-given h e = rw (h, e, serve) refl

  serve-waiting :
      (is_entry w && alive w) ≡ true
      → ltb 0 n ≡ false
      → serve alive n (w ∷ ws) ≡ ((serve alive n ws).0, w ∷ (serve alive n ws).1)
  unfolding serve
  serve-waiting h e = rw (h, e, serve) refl

record Served (n r i : ℕ) (g : ResourceGraph) (alive : ℤ → Bool) : Type 0 where
  calls : (wake_entries n r i g).1 ≡ (serve alive (g.available r) (listed n i (g.wait_pid r))).0
  leaves :
      keep_if is_entry (listed n i ((wake_entries n r i g).0.wait_pid r))
      ≡ (serve alive (g.available r) (listed n i (g.wait_pid r))).1
  counts : (wake_entries n r i g).0.wait_count ≡ g.wait_count
  before : (j : ℕ) → j < i → (wake_entries n r i g).0.wait_pid r j ≡ g.wait_pid r j

-- One round and the rest: what the round serves and what it keeps in the queue.
Served-round :
    (n r i : ℕ) (g : ResourceGraph) (alive : ℤ → Bool) (n1 : ℕ) (gives keeps : List ℤ)
    → r < num_resources
    → Served n r (suc i) (wake_entry r i g).0 alive
    → (wake_entry r i g).0.available r ≡ n1
    → (wake_entry r i g).1 ≡ gives
    → ((xs : List ℤ)
        → keep_if is_entry ((wake_entry r i g).0.wait_pid r i ∷ xs) ≡ keeps ++ keep_if is_entry xs)
    → ((ws : List ℤ)
        → serve alive (g.available r) (g.wait_pid r i ∷ ws)
          ≡ (gives ++ (serve alive n1 ws).0, keeps ++ (serve alive n1 ws).1))
    → Served (suc n) r i g alive
unfolding wake_entries listed
Served-round n r i g alive n1 gives keeps h more left served kept spec =
    let k = (wake_entry r i g).0 in
    let final = (wake_entries n r (suc i) k).0 in
    let one : Round r i g k = wake_entry-Round r i g h in
    let ahead =
      listed_same n (suc i) (k.wait_pid r) (g.wait_pid r)
        (λ j hj. one.others r j (λ s. omega arith)) in
    let ws = listed n (suc i) (g.wait_pid r) in
    let same : serve alive (k.available r) (listed n (suc i) (k.wait_pid r)) ≡ serve alive n1 ws =
      ap₂ (serve alive) left ahead in
    let granted = λ (t : List ℤ × List ℤ). t.0 in
    let left_over = λ (t : List ℤ × List ℤ). t.1 in
    record {
      calls = ap₂ ◌++◌ served (more.calls ∙ ap granted same) ∙ sym (ap granted (spec ws));
      leaves =
          ap (λ y. keep_if is_entry (y ∷ listed n (suc i) (final.wait_pid r)))
            (more.before i (omega arith))
          ∙ kept (listed n (suc i) (final.wait_pid r))
          ∙ ap (λ (t : List ℤ). keeps ++ t) (more.leaves ∙ ap left_over same)
          ∙ sym (ap left_over (spec ws));
      counts = more.counts ∙ one.counts;
      before = λ j hj. more.before j (omega arith) ∙ one.others r j (λ s. omega arith);
    }

wake_entries-Served :
    (n r i : ℕ) (g : ResourceGraph) (alive : ℤ → Bool)
    → r < num_resources
    → ((v : ℤ) → is_active g v ≡ alive v)
    → Served n r i g alive
wake_entries-Served zero r i g alive h e =
    unfold wake_entries listed serve in
    record { calls = refl; leaves = refl; counts = refl; before = λ j hj. refl }
wake_entries-Served (suc n) r i g alive h e =
    let w = g.wait_pid r i in
    let k = (wake_entry r i g).0 in
    let n0 = g.available r in
    let x = k.wait_pid r i in
    let one : Round r i g k = wake_entry-Round r i g h in
    let more = wake_entries-Served n r (suc i) k alive h (λ v. one.alive v ∙ e v) in
    let left = wake_entry-left r i g (alive w) h (e w) in
    let served = wake_entry-served r i g (alive w) h (e w) in
    let marks = wake_entry-marks r i g (alive w) h (e w) in
    elim (Bool-cases (is_entry w && alive w)) [
      | inl lives ↦ elim (Bool-cases (ltb 0 n0)) [
        | inl free ↦
            Served-round n r i g alive (n0 - 1) (w ∷ []) [] h more (ground arith) (ground arith)
              (λ xs. keep_if-mark x xs (ground arith)) (λ ws. serve-given alive n0 w ws lives free)
        | inr taken ↦
            Served-round n r i g alive n0 [] (w ∷ []) h more (ground arith) (ground arith)
              (λ xs. keep_if-entry x w xs (ground arith) (ground arith))
              (λ ws. serve-waiting alive n0 w ws lives taken)
      ]
      | inr gone ↦
          Served-round n r i g alive n0 [] [] h more (ground arith) (ground arith)
            (λ xs. keep_if-mark x xs (ground arith)) (λ ws. serve-dropped alive n0 w ws gone)
    ]

-- The processes called back are those that a first-come queue serves with the units in the pool,
-- and the wait queue keeps the rest in order.
pub deadlock_wake_waiters-serve :
    (g : ResourceGraph) (r : ℕ)
    → r < num_resources
    → ((deadlock_wake_waiters g (pos r)).1, waiting (deadlock_wake_waiters g (pos r)).0 r)
      ≡ serve (is_active g) (g.available r) (waiting g r)
unfolding deadlock_wake_waiters
deadlock_wake_waiters-serve g r h =
    let n = g.wait_count r in
    let woken = (wake_entries n r 0 g).0 in
    let all = wake_entries-Served n r 0 g (is_active g) h (λ v. refl) in
    let counted : woken.wait_count r ≡ n = ap (λ (c : ℕ → ℕ). c r) all.counts in
    rw (lt→ltb r num_resources h, (==_iff r r).1 refl)
      (ap₂ (λ (a b : List ℤ). (a, b)) all.calls
        (compact_waiters-front (woken.wait_count r) r woken.wait_pid
          ∙ ap (λ c. keep_if is_entry (listed c 0 (woken.wait_pid r))) counted
          ∙ all.leaves))

-- ===== src/Deadlock/Wake.antt =====
-- `deadlock_wake_waiters` of src/deadlock.c against a plain first-come queue.
use fleetos.Base.{
  ℕ, zero, suc, ◌+◌, ◌-◌, ◌<◌, ◌≤◌, ◌≡◌, refl, ap, ap₂, sym, ◌∙◌, Bool, ltb, ◌&&◌, if◌then◌else◌,
  List, [], ◌∷◌, ◌++◌, arith, ℤ, Bool-cases, inl, inr, not, is_neg, keep_if, append_assoc,
  append-nil,
}
use fleetos.Deadlock.{ResourceGraph, put2, compact_waiters}

-- The `n` entries from `i` on.
unfoldable pub listed : ℕ → ℕ → (ℕ → ℤ) → List ℤ
listed zero i a = []
listed (suc n) i a = a i ∷ listed n (suc i) a

abbrev pub waiting : ResourceGraph → ℕ → List ℤ
waiting g r = listed (g.wait_count r) 0 (g.wait_pid r)

abbrev pub is_entry : ℤ → Bool
is_entry w = not (is_neg w)

-- The waiters served while there is something to give, and those that go on waiting. Marks and
-- processes that are gone are dropped.
unfoldable pub serve : (ℤ → Bool) → ℕ → List ℤ → List ℤ × List ℤ
serve alive n [] = ([], [])
serve alive n (w ∷ ws) =
    let gives = (is_entry w && alive w) && ltb 0 n in
    let rest = serve alive (if gives then n - 1 else n) ws in
    if not (is_entry w && alive w)
    then rest
    else if gives
    then (w ∷ rest.0, rest.1)
    else (rest.0, w ∷ rest.1)

pub listed_same :
    (n i : ℕ) (a b : ℕ → ℤ) → ((j : ℕ) → i ≤ j → a j ≡ b j) → listed n i a ≡ listed n i b
unfolding listed
listed_same zero i a b h = refl
listed_same (suc n) i a b h =
    ap₂ ◌∷◌ (h i (omega arith)) (listed_same n (suc i) a b (λ j hj. h j (omega arith)))

listed_end : (n i : ℕ) (a : ℕ → ℤ) → listed (suc n) i a ≡ listed n i a ++ a (n + i) ∷ []
unfolding listed
listed_end zero i a = ap (λ j. a j ∷ []) (omega arith)
listed_end (suc n) i a =
    ap (◌∷◌ (a i)) (listed_end n (suc i) a ∙ ap (λ j. listed n (suc i) a ++ a j ∷ []) (omega arith))

listed_before :
    (n i : ℕ) (a b : ℕ → ℤ) → ((j : ℕ) → j < i + n → a j ≡ b j) → listed n i a ≡ listed n i b
unfolding listed
listed_before zero i a b h = refl
listed_before (suc n) i a b h =
    ap₂ ◌∷◌ (h i (omega arith)) (listed_before n (suc i) a b (λ j hj. h j (omega arith)))

-- The second loop moves the entries left to the front, in order.
compact_waiters-listed :
    (n r i w : ℕ) (queue : ℕ → ℕ → ℤ)
    → w ≤ i
    → listed (compact_waiters n r i w queue).1 0 ((compact_waiters n r i w queue).0 r)
      ≡ listed w 0 (queue r) ++ keep_if is_entry (listed n i (queue r))
unfolding compact_waiters listed
compact_waiters-listed zero r i w queue h = sym (append-nil (listed w 0 (queue r)))
compact_waiters-listed (suc n) r i w queue h = elim (Bool-cases (is_neg (queue r i))) [
  | inl gone ↦ rw (gone, compact_waiters) (compact_waiters-listed n r (suc i) w queue (omega arith))
  | inr there ↦
      (let packed = put2 r w (queue r i) queue in
        rw (there, compact_waiters)
          (compact_waiters-listed n r (suc i) (w + 1) packed (omega arith)
            ∙ ap₂ ◌++◌ (written w (queue r i)) (ap (keep_if is_entry) ahead)
            ∙ append_assoc (listed w 0 (queue r)) (queue r i ∷ [])
                (keep_if is_entry (listed n (suc i) (queue r)))))
]
  where
    ahead : listed n (suc i) (put2 r w (queue r i) queue r) ≡ listed n (suc i) (queue r)
    ahead = listed_same n (suc i) (put2 r w (queue r i) queue r) (queue r) (λ j hj. ground arith)

    written :
        (k : ℕ) (v : ℤ) → listed (k + 1) 0 (put2 r k v queue r) ≡ listed k 0 (queue r) ++ v ∷ []
    written k v =
        let f : ℕ → ℤ = put2 r k v queue r in
        let one : k + 1 ≡ suc k = omega arith in
        ap (λ m. listed m 0 f) one
        ∙ listed_end k 0 f
        ∙ ap₂ (λ (xs : List ℤ) (y : ℤ). xs ++ y ∷ [])
            (listed_before k 0 f (queue r) (λ j hj. ground arith)) (ground arith)

pub compact_waiters-front :
    (n r : ℕ) (queue : ℕ → ℕ → ℤ)
    → listed (compact_waiters n r 0 0 queue).1 0 ((compact_waiters n r 0 0 queue).0 r)
      ≡ keep_if is_entry (listed n 0 (queue r))
unfolding listed
compact_waiters-front n r queue = compact_waiters-listed n r 0 0 queue (omega arith)

-- ===== src/Ready/Remove.antt =====
-- The removal of a thread from a ready queue of src/scheduler.c: the shift loop closes the gap.
use fleetos.Base.{
  ℕ, zero, suc, ◌+◌, ◌-◌, ◌%◌, ◌<◌, ◌≡◌, ◌≢◌, refl, ap, ap₂, sym, ◌∙◌, true, false, if◌then◌else◌,
  ◌==◌, ==_iff, List, [], ◌∷◌, ◌++◌, arith, ℤ, pos, is_neg, index, Bool-cases, inl, inr, subst,
  lt→ltb,
}
use fleetos.Deadlock.{put}
use fleetos.Ready.{
  ReadyQueue, find_from, find_in_queue, shift_until, queue_remove_at, remove_ready, max_ready_queue,
}
use fleetos.Ready.Ring.{entries, entries_same, ready_list, is_ready, IsRing, find_in_queue-list}

-- The first occurrence is taken out.
abbrev pub remove_first : ℕ → List ℕ → List ℕ
remove_first t [] = []
remove_first t (x ∷ xs) = if x == t then xs else x ∷ remove_first t xs

-- The loop from place `k`, with `m` places between it and the tail: the places from `k` on take what
-- follows them, and the others stay.
record Shifted (m k : ℕ) (a b : ℕ → ℕ) : Type 0 where
  moved : (j : ℕ) → j < m → b ((k + j) % max_ready_queue) ≡ a (suc (k + j) % max_ready_queue)
  kept : (i : ℕ) → ((j : ℕ) → j < m → i ≢ (k + j) % max_ready_queue) → b i ≡ a i

next_place : (k j : ℕ) → suc k + j ≡ k + suc j
next_place k j = omega arith

put_out : (i k v : ℕ) (a : ℕ → ℕ) → i ≢ k → put k v a i ≡ a i
put_out i k v a ne = ground arith

put_at : (i k v : ℕ) (a : ℕ → ℕ) → i ≡ k → put k v a i ≡ v
put_at i k v a e = ground arith

shift_until-Shifted :
    (fuel m k i tail : ℕ) (a : ℕ → ℕ)
    → m < max_ready_queue
    → m < fuel
    → i ≡ k % max_ready_queue
    → tail ≡ (k + m) % max_ready_queue
    → Shifted m k a (shift_until fuel i tail a)
unfolding shift_until
shift_until-Shifted zero m k i tail a hm hf ei et = absurd (omega arith)
shift_until-Shifted (suc fuel) zero k i tail a hm hf ei et =
    rw (same i tail (omega arith))
      (record { moved = λ j hj. absurd (omega arith); kept = λ n h. refl })
  where
    same : (x y : ℕ) → x ≡ y → (x == y) ≡ true
    same x y e = ground arith
shift_until-Shifted (suc fuel) (suc m) k i tail a hm hf ei et =
    let next = (i + 1) % max_ready_queue in
    let a1 : ℕ → ℕ = put i (a next) a in
    let rest : Shifted m (suc k) a1 (shift_until fuel next tail a1) =
      shift_until-Shifted fuel m (suc k) next tail a1 (omega arith) (omega arith) (omega arith)
        (omega arith) in
    let b = shift_until fuel next tail a1 in
    rw (differ i tail (omega arith)) (record {
      moved = λ j hj. step b rest j hj;
      kept = λ n h.
          rest.kept n
            (λ j hj e. h (suc j) (omega arith) (e ∙ ap (λ x. x % max_ready_queue) (next_place k j)))
          ∙ put_out n i (a next) a (λ e. h 0 (omega arith) (omega (arith, e)));
    })
  where
    differ : (x y : ℕ) → x ≢ y → (x == y) ≡ false
    differ x y e = ground arith

    step :
        (b : ℕ → ℕ)
        → Shifted m (suc k) (put i (a ((i + 1) % max_ready_queue)) a) b
        → (j : ℕ) → j < suc m
        → b ((k + j) % max_ready_queue) ≡ a (suc (k + j) % max_ready_queue)
    step b rest zero hj =
        let v = a ((i + 1) % max_ready_queue) in
        rest.kept ((k + 0) % max_ready_queue) (λ j h. omega arith)
        ∙ put_at ((k + 0) % max_ready_queue) i v a (omega arith)
        ∙ ap a (omega arith)
    step b rest (suc j) hj =
        let v = a ((i + 1) % max_ready_queue) in
        ap (λ x. b (x % max_ready_queue)) (sym (next_place k j))
        ∙ rest.moved j (omega arith)
        ∙ put_out (suc (suc k + j) % max_ready_queue) i v a (omega arith)
        ∙ ap (λ x. a (suc x % max_ready_queue)) (next_place k j)

entries_split : (d m k : ℕ) (a : ℕ → ℕ) → entries (d + m) k a ≡ entries d k a ++ entries m (k + d) a
unfolding entries
entries_split zero m k a =
    let none_before : 0 + m ≡ m = omega arith in
    let start : k ≡ k + 0 = omega arith in
    ap (λ n. entries n k a) none_before ∙ ap (λ x. entries m x a) start
entries_split (suc d) m k a =
    let more : suc d + m ≡ suc (d + m) = omega arith in
    ap (λ n. entries n k a) more
    ∙ ap (◌∷◌ (a (k % max_ready_queue))) (
        entries_split d m (suc k) a
        ∙ ap (λ x. entries d (suc k) a ++ entries m x a) (next_place k d))

remove_first_out : (t : ℕ) (xs : List ℕ) → is_ready t xs ≡ false → remove_first t xs ≡ xs
remove_first_out t [] h = refl
remove_first_out t (x ∷ xs) h = ground (arith, remove_first_out t xs)

-- Where the search stops, and what the list is without the thread found.
record Position (n k : ℕ) (a : ℕ → ℕ) (t : ℕ) (answer : ℤ) : Type 0 where
  d : ℕ
  within : d < n
  answered : answer ≡ pos ((k + d) % max_ready_queue)
  without : remove_first t (entries n k a) ≡ entries d k a ++ entries (n - 1 - d) (suc (k + d)) a

find_from-Position :
    (n i : ℕ) (q : ReadyQueue) (t : ℕ)
    → is_neg (find_from n i q t) ≡ false
    → Position n (q.head + i) q.queue t (find_from n i q t)
unfolding find_from entries
find_from-Position zero i q t h = absurd (ground arith)
find_from-Position (suc n) i q t h =
    let k = q.head + i in
    let a = q.queue in
    elim (Bool-cases (a (k % max_ready_queue) == t)) [
      | inl hit ↦
          (let all : n ≡ suc n - 1 - 0 = omega arith in
            let start : suc k ≡ suc (k + 0) = omega arith in
            rw hit (record {
              d = 0;
              within = omega arith;
              answered = ap (λ x. pos (x % max_ready_queue)) (omega arith);
              without = rw hit (ap₂ (λ (m x : ℕ). entries m x a) all start);
            }))
      | inr miss ↦
          (let rest : Position n (q.head + suc i) a t (find_from n (suc i) q t) =
              find_from-Position n (suc i) q t (ground arith) in
            let start : suc k ≡ q.head + suc i = omega arith in
            let place : q.head + suc i + rest.d ≡ k + suc rest.d = omega arith in
            let fewer : n - 1 - rest.d ≡ suc n - 1 - suc rest.d = omega arith in
            rw miss (record {
              d = suc rest.d;
              within = omega (arith, rest.within);
              answered = rest.answered ∙ ap (λ x. pos (x % max_ready_queue)) place;
              without = rw miss (
                  ap (◌∷◌ (a (k % max_ready_queue))) (
                    ap (λ x. remove_first t (entries n x a)) start
                    ∙ rest.without
                    ∙ ap₂ (λ (x y : ℕ). entries rest.d x a ++ entries (n - 1 - rest.d) (suc y) a)
                        (sym start) place
                    ∙ ap (λ m. entries rest.d (suc k) a ++ entries m (suc (k + suc rest.d)) a)
                        fewer));
            }))
    ]

find_in_queue-Position :
    (q : ReadyQueue) (t : ℕ)
    → is_neg (find_in_queue q t) ≡ false
    → Position q.count q.head q.queue t (find_in_queue q t)
unfolding find_in_queue
find_in_queue-Position q t h =
    let start : q.head + 0 ≡ q.head = omega arith in
    subst (λ k. Position q.count k q.queue t (find_from q.count 0 q t)) start
      (find_from-Position q.count 0 q t h)

-- Taking place `d` out of the ring, `d` being found by the search.
closed :
    (q : ReadyQueue) (d : ℕ)
    → IsRing q
    → d < q.count
    → ready_list (queue_remove_at q ((q.head + d) % max_ready_queue))
      ≡ entries d q.head q.queue ++ entries (q.count - 1 - d) (suc (q.head + d)) q.queue
unfolding queue_remove_at entries
closed q zero ok h =
    let a = q.queue in
    let all : q.count - 1 ≡ q.count - 1 - 0 = omega arith in
    let at_head : ((q.head + 0) % max_ready_queue == q.head) ≡ true =
      (==_iff ((q.head + 0) % max_ready_queue) q.head).1 (omega (arith, ok.head_within)) in
    rw (lt→ltb 0 q.count h, at_head)
      (entries_same (q.count - 1) ((q.head + 1) % max_ready_queue) (suc (q.head + 0)) a a
          (λ j hj. ap a (omega arith))
        ∙ ap (λ m. entries m (suc (q.head + 0)) a) all)
closed q (suc d) ok h =
    let a = q.queue in
    let k = q.head + suc d in
    let m = q.count - 1 - suc d in
    let tail = (q.head + q.count - 1) % max_ready_queue in
    let b = shift_until max_ready_queue (k % max_ready_queue) tail a in
    let rest : Shifted m k a b =
      shift_until-Shifted max_ready_queue m k (k % max_ready_queue) tail a
        (omega (arith, ok.count_within)) (omega (arith, ok.count_within)) refl
        (ap (λ x. x % max_ready_queue) (omega (arith, h))) in
    let parts : q.count - 1 ≡ suc d + m = omega (arith, h) in
    rw
      (
        lt→ltb 0 q.count (omega (arith, h)),
        inside k (omega (arith, ok.head_within, ok.count_within, h)),
      )
      (ap (λ n. entries n q.head b) parts
        ∙ entries_split (suc d) m q.head b
        ∙ ap₂ (λ (xs ys : List ℕ). xs ++ ys)
            (entries_same (suc d) q.head q.head b a (λ j hj.
              rest.kept ((q.head + j) % max_ready_queue)
                (λ i hi. omega (arith, ok.count_within, h, hi, hj))))
            (entries_same m k (suc k) b a
              (λ j hj. rest.moved j hj ∙ ap (λ x. a (x % max_ready_queue)) (omega arith))))
  where
    inside : (k : ℕ) → k % max_ready_queue ≢ q.head → (k % max_ready_queue == q.head) ≡ false
    inside k ne = ground arith

-- Removing a thread takes out its first place in the queue, and nothing if it has none.
pub remove_ready-list :
    (q : ReadyQueue) (t : ℕ)
    → IsRing q
    → ready_list (remove_ready q t) ≡ remove_first t (ready_list q)
unfolding remove_ready
remove_ready-list q t ok = elim (Bool-cases (is_neg (find_in_queue q t))) [
  | inl gone ↦
      rw gone (sym (remove_first_out t (ready_list q) (ground (arith, find_in_queue-list q t))))
  | inr there ↦ rw there (found (find_in_queue-Position q t there))
]
  where
    found :
        Position q.count q.head q.queue t (find_in_queue q t)
        → ready_list (queue_remove_at q (index (find_in_queue q t))) ≡ remove_first t (ready_list q)
    found p =
        ap (λ x. ready_list (queue_remove_at q (index x))) p.answered
        ∙ closed q p.d ok p.within
        ∙ sym p.without

-- ===== src/Ready/Ring.antt =====
-- The ready queues of src/scheduler.c as lists: pushing and popping.
use fleetos.Base.{
  ℕ, zero, suc, ◌+◌, ◌-◌, ◌%◌, ◌<◌, ◌≤◌, ◌≡◌, ◌≢◌, refl, ap, ap₂, ◌∙◌, Bool, not, if◌then◌else◌,
  ltb, ◌==◌, List, [], ◌∷◌, ◌++◌, arith, is_neg, Bool-cases, inl, inr, any_of, length, ltb→lt,
}
use fleetos.Deadlock.{put}
use fleetos.Ready.{
  ReadyQueue, find_from, find_in_queue, append_ready, queue_push, take_head, max_ready_queue,
}

-- The `n` entries from place `k` on, round the ring.
unfoldable pub entries : ℕ → ℕ → (ℕ → ℕ) → List ℕ
entries zero k a = []
entries (suc n) k a = a (k % max_ready_queue) ∷ entries n (suc k) a

abbrev pub ready_list : ReadyQueue → List ℕ
ready_list q = entries q.count q.head q.queue

pub record IsRing (q : ReadyQueue) : Type 0 where
  pub head_within : q.head < max_ready_queue
  pub count_within : q.count ≤ max_ready_queue

pub entries_same :
    (n k m : ℕ) (a b : ℕ → ℕ)
    → ((j : ℕ) → j < n → a ((k + j) % max_ready_queue) ≡ b ((m + j) % max_ready_queue))
    → entries n k a ≡ entries n m b
unfolding entries
entries_same zero k m a b h = refl
entries_same (suc n) k m a b h =
    ap₂ ◌∷◌
      (ap (λ i. a (i % max_ready_queue)) (omega arith)
        ∙ h 0 (omega arith)
        ∙ ap (λ i. b (i % max_ready_queue)) (omega arith))
      (entries_same n (suc k) (suc m) a b (λ j hj.
        ap (λ i. a (i % max_ready_queue)) (omega arith)
        ∙ h (suc j) (omega arith)
        ∙ ap (λ i. b (i % max_ready_queue)) (omega arith)))

pub entries_end :
    (n k : ℕ) (a : ℕ → ℕ)
    → entries (suc n) k a ≡ entries n k a ++ a ((k + n) % max_ready_queue) ∷ []
unfolding entries
entries_end zero k a = ap (λ i. a (i % max_ready_queue) ∷ []) (omega arith)
entries_end (suc n) k a = ap (◌∷◌ (a (k % max_ready_queue))) (
    entries_end n (suc k) a
    ∙ ap (λ i. entries n (suc k) a ++ a (i % max_ready_queue) ∷ []) (omega arith))

abbrev pub is_ready : ℕ → List ℕ → Bool
is_ready t xs = any_of (λ x. x == t) xs

pub append_ready-list :
    (q : ReadyQueue) (t : ℕ)
    → q.count < max_ready_queue
    → ready_list (append_ready q t) ≡ ready_list q ++ t ∷ []
unfolding append_ready
append_ready-list q t h =
    let tail = (q.head + q.count) % max_ready_queue in
    let a : ℕ → ℕ = put tail t q.queue in
    let one : q.count + 1 ≡ suc q.count = omega arith in
    let place : tail ≡ (q.head + q.count) % max_ready_queue = refl in
    ap (λ n. entries n q.head a) one
    ∙ entries_end q.count q.head a
    ∙ ap₂ (λ (xs : List ℕ) (x : ℕ). xs ++ x ∷ [])
        (entries_same q.count q.head q.head a q.queue
          (λ j hj. apart ((q.head + j) % max_ready_queue) tail (omega (arith, h, hj))))
        (here tail)
  where
    apart : (i k : ℕ) → i ≢ k → put k t q.queue i ≡ q.queue i
    apart i k ne = ground arith

    here : (k : ℕ) → put k t q.queue k ≡ t
    here k = ground arith

find_from-list :
    (n i : ℕ) (q : ReadyQueue) (t : ℕ)
    → is_neg (find_from n i q t) ≡ not (is_ready t (entries n (q.head + i) q.queue))
unfolding find_from entries
find_from-list zero i q t = refl
find_from-list (suc n) i q t =
    let next : q.head + suc i ≡ suc (q.head + i) = omega arith in
    let later : is_neg (find_from n (suc i) q t)
        ≡ not (is_ready t (entries n (suc (q.head + i)) q.queue)) =
      find_from-list n (suc i) q t ∙ ap (λ k. not (is_ready t (entries n k q.queue))) next in
    elim (Bool-cases (q.queue ((q.head + i) % max_ready_queue) == t)) [
      | inl hit ↦ rw hit refl
      | inr miss ↦ rw miss later
    ]

-- The search answers -1 exactly for a thread that is not in the queue.
pub find_in_queue-list :
    (q : ReadyQueue) (t : ℕ) → is_neg (find_in_queue q t) ≡ not (is_ready t (ready_list q))
unfolding find_in_queue
find_in_queue-list q t =
    let start : q.head + 0 ≡ q.head = omega arith in
    find_from-list q.count 0 q t ∙ ap (λ k. not (is_ready t (entries q.count k q.queue))) start

pub take_head-list :
    (q : ReadyQueue)
    → IsRing q
    → 0 < q.count
    → ready_list q ≡ (take_head q).1 ∷ ready_list (take_head q).0
unfolding take_head entries
take_head-list q ok h =
    let one : q.count ≡ suc (q.count - 1) = omega arith in
    let at : q.head % max_ready_queue ≡ q.head = omega (arith, ok.head_within) in
    ap (λ n. entries n q.head q.queue) one
    ∙ ap₂ (λ (x : ℕ) (xs : List ℕ). x ∷ xs) (ap q.queue at)
        (entries_same (q.count - 1) (suc q.head) ((q.head + 1) % max_ready_queue) q.queue q.queue
          (λ j hj. ap q.queue (omega arith)))

pub take_head-IsRing : (q : ReadyQueue) → IsRing q → IsRing (take_head q).0
unfolding take_head
take_head-IsRing q ok = record {
  head_within = omega arith;
  count_within = omega (arith, ok.count_within);
}

pub append_ready-IsRing :
    (q : ReadyQueue) (t : ℕ) → IsRing q → q.count < max_ready_queue → IsRing (append_ready q t)
unfolding append_ready
append_ready-IsRing q t ok h = record {
  head_within = ok.head_within;
  count_within = omega (arith, h);
}

-- What `queue_push` makes of a list: a thread is added at the end, once, while there is room.
abbrev pub pushed : ℕ → List ℕ → List ℕ
pushed t xs =
    if ltb (length xs) max_ready_queue then if is_ready t xs then xs else xs ++ t ∷ [] else xs

pub length-entries : (n k : ℕ) (a : ℕ → ℕ) → length (entries n k a) ≡ n
unfolding entries
length-entries zero k a = refl
length-entries (suc n) k a = ap suc (length-entries n (suc k) a)

pub queue_push-list :
    (q : ReadyQueue) (t : ℕ) → ready_list (queue_push q t) ≡ pushed t (ready_list q)
unfolding queue_push
queue_push-list q t =
    rw (length-entries q.count q.head q.queue) (elim (Bool-cases (ltb q.count max_ready_queue)) [
      | inl room ↦ elim (Bool-cases (is_ready t (ready_list q))) [
        | inl there ↦ rw (room, find_in_queue-list q t, there) refl
        | inr new ↦
            rw (room, find_in_queue-list q t, new)
              (append_ready-list q t (ltb→lt q.count max_ready_queue room))
      ]
      | inr full ↦ rw full refl
    ])

pub queue_push-IsRing : (q : ReadyQueue) (t : ℕ) → IsRing q → IsRing (queue_push q t)
unfolding queue_push
queue_push-IsRing q t ok = elim (Bool-cases (ltb q.count max_ready_queue)) [
  | inl room ↦ elim (Bool-cases (is_neg (find_in_queue q t))) [
    | inl new ↦ rw (room, new) (append_ready-IsRing q t ok (ltb→lt q.count max_ready_queue room))
    | inr there ↦ rw (room, there) ok
  ]
  | inr full ↦ rw full ok
]

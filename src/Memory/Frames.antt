-- ===== src/Memory/Frames.antt =====
-- The two searches for a frame in src/memory.c, and the count of free frames.
use native.Mathlib.Decide.{ℕ_discrete}
use fleetos.Base.{
  ℕ, zero, suc, ◌+◌, ◌<◌, ◌≤◌, ◌≡◌, ◌≢◌, refl, ap, ◌∙◌, ◌⊎◌, inl, inr, Bool, false, List, [], ◌∷◌,
  arith, ltb, ltb→lt, length, get_or, set, count_if, Bool-cases, ℤ, pos, minus_one, eq_int,
  eq_int_iff, eq_int_ne,
}
use fleetos.Memory.{free_frame_from, oldest_from, lru_of}

abbrev pub is_unowned : ℤ → Bool
is_unowned f = eq_int f minus_one

pub record FreeFrame (i : ℕ) (frames : List ℤ) (r : ℤ) (f : ℕ) : Type 0 where
  pub result : r ≡ pos (i + f)
  pub within : f < length frames
  pub unowned : get_or frames f minus_one ≡ minus_one
  pub first : (g : ℕ) → g < f → get_or frames g minus_one ≢ minus_one

-- `find_free_frame` finds the first frame with no owner, or else every frame has one and it
-- returns -1.
pub FreeFrame-cases :
    (i : ℕ) (frames : List ℤ)
    → ((f : ℕ) × FreeFrame i frames (free_frame_from i frames) f)
      ⊎ ((free_frame_from i frames ≡ minus_one)
          × (count_if is_unowned frames ≡ 0)
          × ((f : ℕ) → f < length frames → get_or frames f minus_one ≢ minus_one))
unfolding free_frame_from
FreeFrame-cases i [] = inr (refl, refl, λ f h. absurd (omega arith))
FreeFrame-cases i (x ∷ frames) = elim (Bool-cases (is_unowned x)) [
  | inl e ↦ inl (
    0,
    rw e (record {
      result = ap pos (omega arith);
      within = omega arith;
      unowned = (eq_int_iff x minus_one).0 e;
      first = λ g h. absurd (omega arith);
    }),
  )
  | inr e ↦ elim (FreeFrame-cases (suc i) frames) [
    | inl (f, found) ↦ inl (
      suc f,
      rw e (record {
        result = found.result ∙ ap pos (omega arith);
        within = omega (arith, found.within);
        unowned = found.unowned;
        first = owned_before x frames f e found.first;
      }),
    )
    | inr (none_free, count, all) ↦ inr (rw e none_free, rw e count, owned_all x frames e all)
  ]
]
  where
    owned : (x : ℤ) → is_unowned x ≡ false → x ≢ minus_one
    owned x e s = ground arith

    owned_before :
        (x : ℤ) (frames : List ℤ) (f : ℕ)
        → is_unowned x ≡ false
        → ((g : ℕ) → g < f → get_or frames g minus_one ≢ minus_one)
        → (g : ℕ) → g < suc f
        → get_or (x ∷ frames) g minus_one ≢ minus_one
    owned_before x frames f e h zero lt = owned x e
    owned_before x frames f e h (suc g) lt = h g (omega arith)

    owned_all :
        (x : ℤ) (frames : List ℤ)
        → is_unowned x ≡ false
        → ((g : ℕ) → g < length frames → get_or frames g minus_one ≢ minus_one)
        → (g : ℕ) → g < suc (length frames)
        → get_or (x ∷ frames) g minus_one ≢ minus_one
    owned_all x frames e h zero lt = owned x e
    owned_all x frames e h (suc g) lt = h g (omega arith)

-- Among the first `n` ticks, `r` is the first index with the least one.
pub record IsLeast (ticks : List ℕ) (n r : ℕ) : Type 0 where
  pub within : r < n
  pub least : (k : ℕ) → k < n → get_or ticks r 0 ≤ get_or ticks k 0
  pub first : (k : ℕ) → k < r → get_or ticks r 0 < get_or ticks k 0

module _ (all : List ℕ) where
  IsLeast-moves :
      (i oldest : ℕ)
      → IsLeast all i oldest
      → get_or all i 0 < get_or all oldest 0
      → IsLeast all (suc i) i
  IsLeast-moves i oldest v h = record {
    within = omega arith;
    least = λ k lt. elim (ℕ_discrete k i) [
      | yes e ↦ rw e (omega arith)
      | no ne ↦ omega (arith, v.least k (omega arith))
    ];
    first = λ k lt. omega (arith, v.least k lt);
  }

  IsLeast-stays :
      (i oldest : ℕ)
      → IsLeast all i oldest
      → get_or all oldest 0 ≤ get_or all i 0
      → IsLeast all (suc i) oldest
  IsLeast-stays i oldest v h = record {
    within = omega (arith, v.within);
    least = λ k lt. elim (ℕ_discrete k i) [ yes e ↦ rw e h | no ne ↦ v.least k (omega arith) ];
    first = v.first;
  }

  oldest_from-IsLeast :
      (i : ℕ) (rest : List ℕ) (oldest tick : ℕ)
      → ((k : ℕ) → get_or rest k 0 ≡ get_or all (i + k) 0)
      → i + length rest ≡ length all
      → tick ≡ get_or all oldest 0
      → IsLeast all i oldest
      → IsLeast all (length all) (oldest_from i rest oldest tick)
  unfolding oldest_from
  oldest_from-IsLeast i [] oldest tick same size e v =
      let n : i ≡ length all = omega arith in rw (← n) v
  oldest_from-IsLeast i (t ∷ rest) oldest tick same size e v =
      let here : t ≡ get_or all i 0 = same 0 ∙ ap (λ k. get_or all k 0) (omega arith) in
      let later = λ (k : ℕ). same (suc k) ∙ ap (λ j. get_or all j 0) (shift i k) in
      elim (Bool-cases (ltb t tick)) [
        | inl less ↦ rw less (
            oldest_from-IsLeast (suc i) rest i t later (omega arith) here
              (IsLeast-moves i oldest v (omega (arith, ltb→lt t tick less))))
        | inr more ↦ rw more (
            oldest_from-IsLeast (suc i) rest oldest tick later (omega arith) e
              (IsLeast-stays i oldest v (ground arith)))
      ]
    where
      shift : (i k : ℕ) → i + suc k ≡ suc i + k
      shift i k = omega arith

-- `select_lru_victim` picks the first of the frames that were accessed least recently.
pub lru_of-IsLeast :
    (ticks : List ℕ) → 0 < length ticks → IsLeast ticks (length ticks) (lru_of ticks)
lru_of-IsLeast [] h = absurd (omega arith)
lru_of-IsLeast (t ∷ ticks) h =
    oldest_from-IsLeast (t ∷ ticks) 1 ticks 0 t (λ k. ap (λ j. get_or (t ∷ ticks) j 0) (suc_add k))
      (omega arith) refl
      (record {
        within = omega arith;
        least = λ k lt. first_only k lt;
        first = λ k lt. absurd (omega arith);
      })
  where
    suc_add : (k : ℕ) → suc k ≡ 1 + k
    suc_add k = omega arith

    first_only : (k : ℕ) → k < 1 → t ≤ get_or (t ∷ ticks) k 0
    first_only zero lt = omega arith
    first_only (suc k) lt = absurd (omega arith)

pub count-set_owned :
    (frames : List ℤ) (f : ℕ) (v : ℤ)
    → f < length frames
    → get_or frames f minus_one ≡ minus_one
    → v ≢ minus_one
    → count_if is_unowned (set frames f v) + 1 ≡ count_if is_unowned frames
count-set_owned [] f v h e ne = absurd (omega arith)
count-set_owned (x ∷ frames) zero v h e ne = rw (e, eq_int_ne v minus_one ne) (omega arith)
count-set_owned (x ∷ frames) (suc f) v h e ne = ground (arith, count-set_owned frames f v)

pub count-set_again :
    (frames : List ℤ) (f : ℕ) (v : ℤ)
    → get_or frames f minus_one ≢ minus_one
    → v ≢ minus_one
    → count_if is_unowned (set frames f v) ≡ count_if is_unowned frames
count-set_again [] f v e ne = refl
count-set_again (x ∷ frames) zero v e ne = rw (eq_int_ne v minus_one ne, eq_int_ne x minus_one e)
count-set_again (x ∷ frames) (suc f) v e ne = ground (arith, count-set_again frames f v)

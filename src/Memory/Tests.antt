-- ===== src/Memory/Tests.antt =====
-- The searches of src/memory.c at concrete frames.
use fleetos.Base.{
  ℕ, ◌≡◌, ◌≢◌, ◌<◌, ◌⊎◌, refl, arith, List, [], ◌∷◌, ℤ, pos, minus_one, get_or, count_if,
}
use fleetos.Memory.{free_frame_from, lru_of, oldest_from}
use fleetos.Memory.Frames.{IsLeast, lru_of-IsLeast, FreeFrame, FreeFrame-cases, is_unowned}

lru_of-IsLeast_example : IsLeast (7 ∷ 3 ∷ 5 ∷ 3 ∷ []) 4 (lru_of (7 ∷ 3 ∷ 5 ∷ 3 ∷ []))
lru_of-IsLeast_example = lru_of-IsLeast (7 ∷ 3 ∷ 5 ∷ 3 ∷ []) (omega arith)

lru_second : lru_of (7 ∷ 3 ∷ 5 ∷ 3 ∷ []) ≡ 1
unfolding oldest_from
lru_second = refl

abbrev some_frames : List ℤ
some_frames = pos 0 ∷ pos 1 ∷ minus_one ∷ minus_one ∷ []

FreeFrame-cases_example :
    ((f : ℕ) × FreeFrame 0 some_frames (free_frame_from 0 some_frames) f)
    ⊎ ((free_frame_from 0 some_frames ≡ minus_one)
        × (count_if is_unowned some_frames ≡ 0)
        × ((f : ℕ) → f < 4 → get_or some_frames f minus_one ≢ minus_one))
FreeFrame-cases_example = FreeFrame-cases 0 some_frames

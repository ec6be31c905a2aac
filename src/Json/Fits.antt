-- ===== src/Json/Fits.antt =====
-- Which texts fit in the buffers that src/kernel.c gives to the printers.
use fleetos.Base.{
  ℕ, zero, suc, ◌+◌, ◌-◌, ◌*◌, ◌/◌, ◌%◌, ◌^◌, ◌<◌, ◌≤◌, ◌≡◌, refl, sym, ap, ap₂, ◌∙◌, subst, false,
  ltb, arith, List, [], ◌∷◌, ◌++◌, All, length, length-append, take, concat, append_assoc,
  append-nil, ℤ, pos, negsuc, Option, none, some, bytes, print_int, decimal_loop,
}
use fleetos.Types.{frame_count}
use fleetos.Memory.{PhysicalMemory}
use fleetos.Json.{
  Output, nothing, snprintf, write_piece, write_pieces, after_comma, separated, frame_item,
  frame_items, mem_pieces, mem_to_json,
}

-- The whole text, with nothing cut off.
abbrev pub whole : List (List ℕ) → Output
whole pieces = record { text = concat pieces; position = length (concat pieces) }

take_all : {A : Type 0} (n : ℕ) (xs : List A) → length xs ≤ n → take n xs ≡ xs
take_all zero [] h = refl
take_all zero (x ∷ xs) h = absurd (omega arith)
take_all (suc n) [] h = refl
take_all (suc n) (x ∷ xs) h = ap (◌∷◌ x) (take_all n xs (omega arith))

-- A text, and that nothing was to be written behind it.
abbrev pub filled : List ℕ → Output
filled text = record { text = text; position = length text }

write_piece-filled :
    (size : ℕ) (p old : List ℕ)
    → length old + length p < size
    → write_piece size p (filled old) ≡ some (filled (old ++ p))
unfolding write_piece
write_piece-filled size p old h =
    let first = length-append old p in
    let inside : ltb size (length old) ≡ false = ground arith in
    let kept : take (size - 1) (old ++ p) ≡ old ++ p =
      take_all (size - 1) (old ++ p) (omega (arith, first)) in
    rw inside (λ i. some (record { text = kept i; position = sym first i }))

write_pieces-filled :
    (size : ℕ) (ps : List (List ℕ)) (old : List ℕ)
    → length old + length (concat ps) < size
    → write_pieces size ps (filled old) ≡ some (filled (old ++ concat ps))
unfolding write_pieces
write_pieces-filled size [] old h = ap (λ x. some (filled x)) (sym (append-nil old))
write_pieces-filled size (p ∷ ps) old h =
    let first = length-append old p in
    let joined = length-append p (concat ps) in
    ap
      (λ (o : Option Output). elim o as (λ _. Option Output) [
        | none ↦ none
        | some out ↦ write_pieces size ps out
      ])
      (write_piece-filled size p old (omega (arith, joined)))
    ∙ write_pieces-filled size ps (old ++ p) (omega (arith, first, joined))
    ∙ ap (λ x. some (filled x)) (append_assoc old p (concat ps))

-- Pieces that together are shorter than the buffer are written whole, none of them cut off.
pub write_pieces-whole :
    (size : ℕ) (ps : List (List ℕ))
    → length (concat ps) < size
    → write_pieces size ps nothing ≡ some (whole ps)
write_pieces-whole size ps h = write_pieces-filled size ps [] (omega arith)

decimal_loop-length :
    (k fuel n : ℕ) (text : List ℕ)
    → n < 10 ^ suc k
    → length (decimal_loop fuel n text) ≤ suc k + length text
unfolding decimal_loop
decimal_loop-length k zero n text h = omega arith
decimal_loop-length zero (suc fuel) n text h = ground arith
decimal_loop-length (suc k) (suc fuel) n text h =
    ground (arith, decimal_loop-length k fuel (n / 10) ((48 + n % 10) ∷ text))

-- A value of C's `int`.
abbrev pub IsInt32 : ℤ → Type 0
IsInt32 (pos n) = n < 2 ^ 31
IsInt32 (negsuc n) = n < 2 ^ 31

print_int-length : (n : ℤ) → IsInt32 n → length (print_int n) ≤ 11
unfolding print_int
print_int-length (pos n) h = omega (arith, decimal_loop-length 9 (suc n) n [] (omega arith))
print_int-length (negsuc n) h =
    omega (arith, decimal_loop-length 9 (suc (suc n)) (suc n) [] (omega arith))

-- Every piece is at most `n` long.
abbrev Short : ℕ → List (List ℕ) → Type 0
Short n = All (λ (p : List ℕ). length p ≤ n)

after_comma-length :
    (n : ℕ) (ps : List (List ℕ)) → Short n ps → length (concat (after_comma ps)) ≤ suc n * length ps
unfolding after_comma
after_comma-length n [] h = omega arith
after_comma-length n (p ∷ ps) h =
    omega (arith, length-append p (concat (after_comma ps)), h.0, after_comma-length n ps h.1)

separated-length :
    (n : ℕ) (ps : List (List ℕ)) → Short n ps → length (concat (separated ps)) ≤ suc n * length ps
unfolding separated
separated-length n [] h = omega arith
separated-length n (p ∷ ps) h =
    omega (arith, length-append p (concat (after_comma ps)), h.0, after_comma-length n ps h.1)

print_int-small : (n : ℕ) → n < 100 → length (print_int (pos n)) ≤ 2
unfolding print_int
print_int-small n h = omega (arith, decimal_loop-length 1 (suc n) n [] (omega arith))

length-append_five :
    (a b c d e : List ℕ)
    → length (a ++ b ++ c ++ d ++ e) ≡ length a + length b + length c + length d + length e
length-append_five a b c d e = omega (
  arith,
  length-append (a ++ b ++ c ++ d) e,
  length-append (a ++ b ++ c) d,
  length-append (a ++ b) c,
  length-append a b,
)

-- The text of one frame, with nothing cut off.
abbrev pub frame_text : ℕ → ℤ → List ℕ
frame_text i pid =
    bytes "{\"frame\":" ++ print_int (pos i) ++ bytes ",\"pid\":" ++ print_int pid ++ bytes "}"

-- The texts of the frames from number `i` on.
abbrev pub frame_texts : ℕ → List ℤ → List (List ℕ)
frame_texts i [] = []
frame_texts i (pid ∷ frames) = frame_text i pid ∷ frame_texts (suc i) frames

-- The texts with a comma between them.
abbrev pub comma_tail : List (List ℕ) → List ℕ
comma_tail [] = []
comma_tail (x ∷ xs) = bytes "," ++ (x ++ comma_tail xs)

abbrev pub comma_list : List (List ℕ) → List ℕ
comma_list [] = []
comma_list (x ∷ xs) = x ++ comma_tail xs

frame_text-length : (i : ℕ) (pid : ℤ) → i < 100 → IsInt32 pid → length (frame_text i pid) ≤ 30
frame_text-length i pid h k =
    let parts =
      length-append_five (bytes "{\"frame\":") (print_int (pos i)) (bytes ",\"pid\":")
        (print_int pid) (bytes "}") in
    omega (arith, parts, print_int-small i h, print_int-length pid k)

-- Nothing of it is cut off in the 64 bytes that it is printed to first.
frame_item-whole : (i : ℕ) (pid : ℤ) → i < 100 → IsInt32 pid → frame_item i pid ≡ frame_text i pid
unfolding frame_item snprintf
frame_item-whole i pid h k =
    take_all 63 (frame_text i pid) (omega (arith, frame_text-length i pid h k))

frame_item-length : (i : ℕ) (pid : ℤ) → i < 100 → IsInt32 pid → length (frame_item i pid) ≤ 30
frame_item-length i pid h k =
    subst (λ t. length t ≤ 30) (sym (frame_item-whole i pid h k)) (frame_text-length i pid h k)

frame_items-whole :
    (i : ℕ) (frames : List ℤ)
    → i + length frames ≤ 100
    → All IsInt32 frames
    → frame_items i frames ≡ frame_texts i frames
unfolding frame_items
frame_items-whole i [] h k = refl
frame_items-whole i (f ∷ frames) h k =
    ap₂ ◌∷◌ (frame_item-whole i f (omega arith) k.0)
      (frame_items-whole (suc i) frames (omega arith) k.1)

frame_items-Short :
    (i : ℕ) (frames : List ℤ)
    → i + length frames ≤ 100
    → All IsInt32 frames
    → Short 30 (frame_items i frames) × (length (frame_items i frames) ≡ length frames)
unfolding frame_items
frame_items-Short i [] h k = (tt, refl)
frame_items-Short i (f ∷ frames) h k =
    let rest = frame_items-Short (suc i) frames (omega arith) k.1 in
    ((frame_item-length i f (omega arith) k.0, rest.0), ap suc rest.1)

concat-append : (ps qs : List (List ℕ)) → concat (ps ++ qs) ≡ concat ps ++ concat qs
concat-append [] qs = refl
concat-append (p ∷ ps) qs =
    ap (λ x. p ++ x) (concat-append ps qs) ∙ sym (append_assoc p (concat ps) (concat qs))

mem_pieces-length :
    (m : PhysicalMemory)
    → length m.frames ≡ frame_count
    → All IsInt32 m.frames
    → IsInt32 m.free_frame_count
    → length (concat (mem_pieces m)) < 1024
unfolding mem_pieces
mem_pieces-length m size owners free =
    let (short, count) = frame_items-Short 0 m.frames (omega arith) owners in
    let items = separated (frame_items 0 m.frames) in
    let body = concat (items ++ bytes "]" ∷ []) in
    let head =
      bytes "\"free_frames\":" ++ print_int m.free_frame_count ++ bytes ",\"framemap\":[" in
    let closed : length body ≡ length (concat items) + 1 =
      ap length (concat-append items (bytes "]" ∷ []))
      ∙ length-append (concat items) (concat (bytes "]" ∷ [])) in
    let head_length : length head ≤ 40 = omega (
      arith,
      length-append (bytes "\"free_frames\":" ++ print_int m.free_frame_count)
          (bytes ",\"framemap\":["),
      length-append (bytes "\"free_frames\":") (print_int m.free_frame_count),
      print_int-length m.free_frame_count free,
    ) in
    let body_length : length body ≤ 497 =
      omega (arith, closed, separated-length 30 (frame_items 0 m.frames) short, count, size) in
    let joined : length (head ++ body) ≡ length head + length body = length-append head body in
    let total : length (head ++ body) < 1024 = omega (arith, joined, head_length, body_length) in
    total

concat-after_comma : (xs : List (List ℕ)) → concat (after_comma xs) ≡ comma_tail xs
unfolding after_comma
concat-after_comma [] = refl
concat-after_comma (x ∷ xs) = ap (λ t. bytes "," ++ (x ++ t)) (concat-after_comma xs)

concat-separated : (xs : List (List ℕ)) → concat (separated xs) ≡ comma_list xs
unfolding separated
concat-separated [] = refl
concat-separated (x ∷ xs) = ap (λ t. x ++ t) (concat-after_comma xs)

-- The text of the memory, from the frames and the counter.
abbrev pub memory_text : PhysicalMemory → List ℕ
memory_text m =
    bytes "\"free_frames\":"
    ++ print_int m.free_frame_count
    ++ bytes ",\"framemap\":["
    ++ (comma_list (frame_texts 0 m.frames) ++ bytes "]")

mem_pieces-text :
    (m : PhysicalMemory)
    → length m.frames ≡ frame_count
    → All IsInt32 m.frames
    → concat (mem_pieces m) ≡ memory_text m
unfolding mem_pieces
mem_pieces-text m size owners =
    let items = frame_items 0 m.frames in
    ap
      (λ t.
        bytes "\"free_frames\":" ++ print_int m.free_frame_count ++ bytes ",\"framemap\":[" ++ t)
      (concat-append (separated items) (bytes "]" ∷ [])
        ∙ ap₂ ◌++◌
            (concat-separated items
              ∙ ap comma_list (frame_items-whole 0 m.frames (omega (arith, size)) owners))
            (append-nil (bytes "]")))

-- With sixteen frames whose owners are values of `int`, and such a counter, what `mem_to_json` writes
-- into the 1024 bytes that the snapshot gives it is the whole text: the counter, and for each frame its
-- number and its owner, in order and between commas. No item is cut off in its 64 bytes, the text is
-- not cut off, and nothing is written behind the buffer.
pub mem_to_json-whole :
    (m : PhysicalMemory)
    → length m.frames ≡ frame_count
    → All IsInt32 m.frames
    → IsInt32 m.free_frame_count
    → mem_to_json m 1024 ≡ some (filled (memory_text m))
unfolding mem_to_json
mem_to_json-whole m size owners free =
    write_pieces-whole 1024 (mem_pieces m) (mem_pieces-length m size owners free)
    ∙ ap (λ t. some (filled t)) (mem_pieces-text m size owners)

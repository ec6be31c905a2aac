-- ===== src/Kernel/Interactive.antt =====
-- The interactive mode of src/kernel.c, `process_interactive`. The lines that standard input still
-- gives, without their line feeds, are a list; where it gives no more, the loop waits for ever and the
-- result is `none`. A line is what one `fgets` reads, at most 255 bytes.
pub mod Numbers
pub mod Steps
use fleetos.Base.{
  ltb, ◌%◌, ◌^◌, ℕ, zero, suc, ◌+◌, ◌-◌, ◌*◌, ◌||◌, ◌&&◌, not, Bool, true, false, List, [], ◌∷◌,
  drop, leb, ◌==◌, if◌then◌else◌, ℤ, pos, negsuc, negate, is_positive, index, Option, none, some,
  bytes, same_text, has_prefix,
}
use fleetos.Kernel.{Kernel}

-- `isspace` on a byte.
abbrev pub is_space : ℕ → Bool
is_space c = (c == 32) || (leb 9 c && leb c 13)

abbrev pub is_digit : ℕ → Bool
is_digit c = leb 48 c && leb c 57

-- The digits at the front, after those read so far.
unfoldable pub read_digits : ℕ → List ℕ → ℕ
read_digits n [] = n
read_digits n (c ∷ text) =
    let more = read_digits (n * 10 + (c - 48)) text in if is_digit c then more else n

unfoldable pub read_signed : List ℕ → ℤ
read_signed [] = pos 0
read_signed (c ∷ text) =
    if c == b'-'
    then negate (read_digits 0 text)
    else if c == b'+'
    then pos (read_digits 0 text)
    else pos (read_digits 0 (c ∷ text))

-- The number at the front, behind white space.
unfoldable pub read_number : List ℕ → ℤ
read_number [] = pos 0
read_number (c ∷ text) =
    let later = read_number text in if is_space c then later else read_signed (c ∷ text)

-- What does not fit in a 64-bit `long` becomes its nearest end.
unfoldable pub clamp_long : ℤ → ℤ
clamp_long (pos n) = if ltb n (2 ^ 63) then pos n else pos (2 ^ 63 - 1)
clamp_long (negsuc n) = if ltb n (2 ^ 63) then negsuc n else negsuc (2 ^ 63 - 1)

-- The low 32 bits as an `int`.
unfoldable pub to_int : ℤ → ℤ
to_int (pos n) =
    let low = n % 2 ^ 32 in if ltb low (2 ^ 31) then pos low else negsuc (2 ^ 32 - 1 - low)
to_int (negsuc n) =
    let low = n % 2 ^ 32 in if ltb low (2 ^ 31) then negsuc low else pos (2 ^ 32 - 1 - low)

-- `atoi`. The standard leaves a number outside `int` undefined; this is `(int) strtol(text, NULL, 10)`,
-- which is what glibc does.
unfoldable pub atoi : List ℕ → ℤ
atoi text = to_int (clamp_long (read_number text))

-- The `if` chain on one line, less `quit`. `status` only prints.
unfoldable pub obey_line : List ℕ → Kernel → Kernel
obey_line line k =
    let n = atoi (drop 4 line) in
    if same_text line (bytes "step")
    then record k { step_target = 1; interactive_paused = false }
    else if has_prefix (bytes "run ") line
    then (if is_positive n
        then record k { step_target = index n; interactive_paused = false }
        else k)
    else if same_text line (bytes "run")
    then record k { step_target = 0; interactive_paused = false }
    else if same_text line (bytes "pause")
    then record k { interactive_paused = true; step_target = 0 }
    else k

-- `interactive_paused || step_target <= 0`
abbrev pub waits : Kernel → Bool
waits k = k.interactive_paused || (k.step_target == 0)

-- `if (step_target <= 0 && !interactive_paused) interactive_paused = 1;`
unfoldable pub pause_idle : Kernel → Kernel
pause_idle k = if k.step_target == 0 then record k { interactive_paused = true } else k

-- `if (step_target > 0) step_target--;`
unfoldable pub count_step : Kernel → Kernel
count_step k = record k { step_target = k.step_target - 1 }

-- The kernel after the call, and the lines that are left.
unfoldable pub process_interactive : List (List ℕ) → Kernel → Option (Kernel × List (List ℕ))
process_interactive [] k = if waits k then none else some (count_step k, [])
process_interactive (line ∷ lines) k =
    let rest = process_interactive lines (obey_line line (pause_idle k)) in
    if not (waits k)
    then some (count_step k, line ∷ lines)
    else if same_text line (bytes "quit")
    then some (record (pause_idle k) { running = false }, lines)
    else rest

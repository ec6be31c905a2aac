-- ===== src/FileSystem.antt =====
-- src/filesystem.c and src/filesystem.h: a FAT of 64 blocks of 64 bytes, and a table of 16 files.
-- A path is a C string; a block and the caller's data are lists of bytes. The chains of the FAT are
-- walked on fuel, 65 rounds: more than there are blocks. A walk that leaves the array, where C
-- reads out of bounds, or that runs out of fuel, where C does not stop, is `none`. The log module
-- is included by the source and not called.
pub mod Table
pub mod Delete
pub mod Chain
pub mod Inert
pub mod Undo
mod Tests
use fleetos.Base.{
  ℕ, zero, suc, ◌+◌, ◌-◌, ◌*◌, ◌/◌, ◌<◌, ◌^◌, Bool, true, false, ◌&&◌, ◌||◌, not, List, [], ◌∷◌,
  ◌++◌, ltb, leb, ◌==◌, if◌then◌else◌, length, get_or, set, take, drop, replicate, ℤ, pos, negsuc,
  minus_one, index, is_neg, eq_int, Option, none, some, bytes, same_text, has_prefix, print_int,
  min,
}

abbrev pub block_size : ℕ
block_size = 64

abbrev pub block_count : ℕ
block_count = 64

abbrev pub max_files : ℕ
max_files = 16

abbrev pub fuel : ℕ
fuel = 65

pub record FileEntry : Type 0 where
  pub path : List ℕ
  pub first_block : ℤ
  pub size : ℕ
  pub used : Bool

pub record FileSystem : Type 0 where
  pub blocks : List (List ℕ)
  pub fat : List ℤ
  pub files : List FileEntry
  pub file_count : ℕ

-- The `int` whose four bytes are all `byte`: what `memset` leaves in an array of `int`.
abbrev pub int_of_bytes : ℕ → ℤ
int_of_bytes byte =
    let word : ℕ = byte * 0x01010101 in
    if ltb word (2 ^ 31) then pos word else negsuc (2 ^ 32 - 1 - word)

-- -2, the mark of a free block.
abbrev pub free_mark : ℤ
free_mark = negsuc 1

abbrev pub unused_entry : FileEntry
unused_entry = record { path = []; first_block = pos 0; size = 0; used = false }

-- The three `memset`s of `fs_init`. The low byte of -2 is 254.
abbrev pub blank : FileSystem
blank = record {
  blocks = replicate block_count (replicate block_size 0);
  fat = replicate block_count (int_of_bytes 254);
  files = replicate max_files unused_entry;
  file_count = 0;
}

-- The first index from `i` on with a free block, or -1.
unfoldable pub free_block_from : ℕ → List ℤ → ℤ
free_block_from i [] = minus_one
free_block_from i (b ∷ fat) = if eq_int b free_mark then pos i else free_block_from (suc i) fat

abbrev pub find_free_block : FileSystem → ℤ
find_free_block fs = free_block_from 0 fs.fat

unfoldable pub file_from : ℕ → List FileEntry → List ℕ → ℤ
file_from i [] path = minus_one
file_from i (f ∷ files) path =
    if f.used && same_text f.path path then pos i else file_from (suc i) files path

abbrev pub find_file : FileSystem → List ℕ → ℤ
find_file fs path = file_from 0 fs.files path

-- The first index from `i` on of an unused entry; the length of the table if there is none.
unfoldable pub unused_from : ℕ → List FileEntry → ℕ
unused_from i [] = i
unused_from i (f ∷ files) = if f.used then unused_from (suc i) files else i

abbrev pub entry : FileSystem → ℕ → FileEntry
entry fs i = get_or fs.files i unused_entry

abbrev pub new_entry : List ℕ → FileEntry
new_entry path = record { path = take 63 path; first_block = minus_one; size = 0; used = true }

unfoldable pub fs_create : FileSystem → List ℕ → FileSystem × ℤ
fs_create fs path =
    let idx = unused_from 0 fs.files in
    if leb max_files fs.file_count
    then (fs, minus_one)
    else if not (is_neg (find_file fs path))
    then (fs, pos 0)
    else if leb max_files idx
    then (fs, minus_one)
    else (
      record fs { files = set fs.files idx (new_entry path); file_count = fs.file_count + 1 },
      pos 0,
    )

unfoldable pub fs_init : FileSystem
unfolding fs_create
fs_init =
    let a = (fs_create blank (bytes "/missions/")).0 in
    let b = (fs_create a (bytes "/logs/")).0 in (fs_create b (bytes "/config/")).0

-- `memcpy` of `chunk` into the front of a block.
abbrev pub overwrite : List ℕ → List ℕ → List ℕ
overwrite chunk block = chunk ++ drop (length chunk) block

-- One round of the loop of `fs_write`: the block, its predecessor's link and its own end mark.
unfoldable pub write_block : FileSystem → List ℕ → (prev current : ℤ) → FileSystem
write_block fs chunk prev current =
    let linked = if is_neg prev then fs.fat else set fs.fat (index prev) current in
    record fs {
      blocks =
          set fs.blocks (index current) (overwrite chunk (get_or fs.blocks (index current) []));
      fat = set linked (index current) minus_one;
    }

-- The loop, with `n` blocks left to write; `content` is what is not written yet. The number of
-- bytes written comes with the file system.
unfoldable pub write_blocks :
    ℕ → FileSystem → List ℕ → (written : ℕ) → (prev current : ℤ) → FileSystem × ℕ
write_blocks zero fs content written prev current = (fs, written)
write_blocks (suc n) fs content written prev current =
    let chunk = take block_size content in
    let fs' = write_block fs chunk prev current in
    let next = if ltb 0 n then find_free_block fs' else current in
    let rest = write_blocks n fs' (drop block_size content) (written + length chunk) current next in
    if ltb 0 (length content)
    then (if is_neg next then (fs', written + length chunk) else rest)
    else (fs, written)

-- `blk` is a block of the array.
abbrev pub is_block : ℤ → Bool
is_block blk = not (is_neg blk) && ltb (index blk) block_count

-- `while (fs.fat[blk] != -1) blk = fs.fat[blk];`
unfoldable pub last_block : ℕ → List ℤ → ℤ → Option ℤ
last_block zero fat blk = none
last_block (suc n) fat blk =
    let next = get_or fat (index blk) minus_one in
    let rest = last_block n fat next in
    if is_block blk then (if eq_int next minus_one then some blk else rest) else none

abbrev pub put_entry : FileSystem → ℕ → FileEntry → FileSystem
put_entry fs idx f = record fs { files = set fs.files idx f }

-- The chain just written becomes the file's, or is hung behind its last block.
unfoldable pub attach : FileSystem → ℕ → ℤ → ℕ → Option (FileSystem × ℤ)
attach fs idx first_block written =
    let f = entry fs idx in
    if is_neg f.first_block
    then some (
      put_entry fs idx (record f { first_block = first_block; size = f.size + written }),
      pos written,
    )
    else elim (last_block fuel fs.fat f.first_block) [
      | none ↦ none
      | some blk ↦ some (
        put_entry (record fs { fat = set fs.fat (index blk) first_block }) idx
            (record f { size = f.size + written }),
        pos written,
      )
    ]

-- `fs_write` once the entry `idx` is found. `content` holds the `size` bytes at `data`.
unfoldable pub write_entry : FileSystem → ℕ → List ℕ → Option (FileSystem × ℤ)
write_entry fs idx content =
    let total_blocks = (length content + block_size - 1) / block_size in
    let first_block = find_free_block fs in
    if ltb block_count total_blocks
    then some (fs, minus_one)
    else if is_neg first_block
    then some (fs, minus_one)
    else (let (fs', written) = write_blocks total_blocks fs content 0 minus_one first_block in
        attach fs' idx first_block written)

-- `find_file`, after a creation if the path is new; the result of a creation that fails is -1.
unfoldable pub find_or_create : FileSystem → List ℕ → FileSystem × ℤ
find_or_create fs path =
    let (fs', status) = fs_create fs path in
    if is_neg (find_file fs path)
    then (if is_neg status then (fs', minus_one) else (fs', find_file fs' path))
    else (fs, find_file fs path)

unfoldable pub fs_write : FileSystem → List ℕ → List ℕ → Option (FileSystem × ℤ)
fs_write fs path content =
    let (fs', idx) = find_or_create fs path in
    if length content == 0
    then some (fs, minus_one)
    else if is_neg idx
    then some (fs', minus_one)
    else write_entry fs' (index idx) content

-- The loop of `fs_read`: `room` is `size - read` and `left` is the file's size less `read`.
unfoldable pub read_blocks : ℕ → FileSystem → ℤ → (room left : ℕ) → Option (List ℕ)
read_blocks zero fs blk room left = none
read_blocks (suc n) fs blk room left =
    let chunk = min (min room block_size) left in
    let rest =
      read_blocks n fs (get_or fs.fat (index blk) minus_one) (room - chunk) (left - chunk) in
    if eq_int blk minus_one
    then some []
    else if ltb 0 room
    then (if is_block blk
        then (elim rest [
          | none ↦ none
          | some more ↦ some (take chunk (get_or fs.blocks (index blk) []) ++ more)
        ])
        else none)
    else some []

-- What `fs_read` returns, and the bytes that it copies to the caller's buffer.
unfoldable pub fs_read : FileSystem → List ℕ → ℕ → Option (ℤ × List ℕ)
fs_read fs path size =
    let idx = find_file fs path in
    let f = entry fs (index idx) in
    if size == 0
    then some (minus_one, [])
    else if is_neg idx
    then some (minus_one, [])
    else elim (read_blocks fuel fs f.first_block size f.size) [
      | none ↦ none
      | some content ↦ some (pos (length content), content)
    ]

-- `while (blk != -1) { ... }` of `fs_delete`.
unfoldable pub free_chain : ℕ → FileSystem → ℤ → Option FileSystem
free_chain zero fs blk = none
free_chain (suc n) fs blk =
    let freed = record fs {
      fat = set fs.fat (index blk) free_mark;
      blocks = set fs.blocks (index blk) (replicate block_size 0);
    } in
    let rest = free_chain n freed (get_or fs.fat (index blk) minus_one) in
    if eq_int blk minus_one then some fs else if is_block blk then rest else none

unfoldable pub fs_delete : FileSystem → List ℕ → Option (FileSystem × ℤ)
fs_delete fs path =
    let idx = find_file fs path in
    let f = entry fs (index idx) in
    if is_neg idx then some (fs, minus_one) else elim (free_chain fuel fs f.first_block) [
      | none ↦ none
      | some fs' ↦ some (
        record fs' {
          files = set fs'.files (index idx) (record f { used = false; path = [] });
          file_count = fs'.file_count - 1;
        },
        pos 0,
      )
    ]

unfoldable pub fs_get_file_count : FileSystem → ℕ
fs_get_file_count fs = fs.file_count

-- `/logs/drone_%d_` in an array of 32 bytes.
abbrev pub log_prefix : ℤ → List ℕ
log_prefix pid = take 31 (bytes "/logs/drone_" ++ print_int pid ++ bytes "_")

-- One round of the loop of `fs_cleanup_process`, which drops what `fs_delete` returns.
unfoldable pub cleanup_entry : ℕ → List ℕ → FileSystem → Option (FileSystem × ℤ)
cleanup_entry i prefix fs =
    let f = entry fs i in
    if f.used && has_prefix prefix f.path then fs_delete fs f.path else some (fs, minus_one)

-- The loop with `n` entries left, from index `i` on.
unfoldable pub cleanup_from : ℕ → ℕ → List ℕ → FileSystem → Option FileSystem
cleanup_from zero i prefix fs = some fs
cleanup_from (suc n) i prefix fs = elim (cleanup_entry i prefix fs) [
  | none ↦ none
  | some (fs', r) ↦ cleanup_from n (suc i) prefix fs'
]

unfoldable pub fs_cleanup_process : FileSystem → ℤ → Option FileSystem
fs_cleanup_process fs pid = cleanup_from max_files 0 (log_prefix pid) fs

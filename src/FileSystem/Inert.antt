-- ===== src/FileSystem/Inert.antt =====
-- What `memset(fs.fat, -2, ...)` in `fs_init` of src/filesystem.c does: it leaves 0xFEFEFEFE, and
-- not -2, in every entry of the FAT, and no call ever makes a block free.
use Prim.Native.Nat.add
use mathlib.Core.Bool.{false≢true}
use fleetos.FileSystem.Chain.{chain_content, read_blocks-Chain}
use fleetos.FileSystem.Table.{has_file, matches, file_from-present, file_from-absent}
use fleetos.Base.{
  ℕ, zero, suc, ◌-◌, ◌≡◌, refl, true, false, ◌&&◌, List, [], ◌∷◌, arith, if◌then◌else◌, length,
  get_or, set, replicate, Bool-cases, inl, inr, ℤ, pos, minus_one, index, is_neg, Option, none,
  some, All, ◌==◌, has_prefix,
}
use fleetos.FileSystem.{
  FileSystem, FileEntry, unused_entry, new_entry, int_of_bytes, block_count, max_files, fuel,
  free_block_from, find_free_block, find_file, entry, unused_from, fs_create, fs_init, blank,
  find_or_create, write_entry, fs_write, free_chain, fs_delete, fs_read, read_blocks, cleanup_entry,
  cleanup_from, fs_cleanup_process, log_prefix,
}

-- The filler is not the mark of a free block.
abbrev pub filler : ℤ
filler = int_of_bytes 254

-- A file has no block.
abbrev pub IsEmpty : FileEntry → Type 0
IsEmpty f = f.used ≡ true → (f.first_block ≡ minus_one) × (f.size ≡ 0)

pub record IsInert (fs : FileSystem) : Type 0 where
  pub fat : fs.fat ≡ replicate block_count filler
  pub files : All IsEmpty fs.files

no_free_in : (i n : ℕ) → free_block_from i (replicate n filler) ≡ minus_one
unfolding free_block_from
no_free_in i zero = refl
no_free_in i (suc n) = no_free_in (suc i) n

pub no_free_block : {fs : FileSystem} → IsInert fs → find_free_block fs ≡ minus_one
no_free_block v = rw v.fat (no_free_in 0 block_count)

All-set {ℓ} :
    {A : Type 0} (P : A → Type ℓ) (xs : List A) (i : ℕ) (x : A)
    → All P xs
    → P x
    → All P (set xs i x)
All-set P [] i x h p = tt
All-set P (y ∷ xs) zero x h p = (p, h.1)
All-set P (y ∷ xs) (suc i) x h p = (h.0, All-set P xs i x h.1 p)

All-get_or {ℓ} :
    {A : Type 0} (P : A → Type ℓ) (xs : List A) (i : ℕ) (d : A) → All P xs → P d → P (get_or xs i d)
All-get_or P [] i d h p = p
All-get_or P (x ∷ xs) zero d h p = h.0
All-get_or P (x ∷ xs) (suc i) d h p = All-get_or P xs i d h.1 p

pub fs_create-IsInert :
    {fs : FileSystem} (path : List ℕ) → IsInert fs → IsInert (fs_create fs path).0
unfolding fs_create
fs_create-IsInert {fs} path v = ground (
  arith,
  All-set IsEmpty fs.files (unused_from 0 fs.files) (new_entry path) v.files (λ e. (refl, refl)),
)

pub find_or_create-IsInert :
    {fs : FileSystem} (path : List ℕ) → IsInert fs → IsInert (find_or_create fs path).0
unfolding find_or_create
find_or_create-IsInert {fs} path v = ground (arith, fs_create-IsInert path v)

-- The file system after an `fs_write` that finds no block.
abbrev pub after_write : FileSystem → List ℕ → List ℕ → FileSystem
after_write fs path content = if length content == 0 then fs else (find_or_create fs path).0

pub fs_write-fails :
    {fs : FileSystem} (path content : List ℕ)
    → IsInert fs
    → fs_write fs path content ≡ some (after_write fs path content, minus_one)
unfolding fs_write write_entry
fs_write-fails {fs} path content v = ground (arith, no_free_block (find_or_create-IsInert path v))

hit_used :
    (files : List FileEntry) (i : ℕ) (path : List ℕ)
    → matches path (get_or files i unused_entry) ≡ true
    → (get_or files i unused_entry).used ≡ true
hit_used files i path h = ground arith

-- The entry that `find_file` finds is a file.
found_used :
    (fs : FileSystem) (path : List ℕ)
    → is_neg (find_file fs path) ≡ false
    → (entry fs (index (find_file fs path))).used ≡ true
found_used fs path h = elim (Bool-cases (has_file path fs.files)) [
  | inl e ↦
      (let (j, found) = file_from-present 0 fs.files path e in
        rw found.result (ground (arith, hit_used fs.files j path found.hit, add.zero j)))
  | inr e ↦ ground (arith, file_from-absent 0 fs.files path e)
]

pub found_empty :
    {fs : FileSystem} (path : List ℕ)
    → IsInert fs
    → is_neg (find_file fs path) ≡ false
    → ((entry fs (index (find_file fs path))).first_block ≡ minus_one)
      × ((entry fs (index (find_file fs path))).size ≡ 0)
found_empty {fs} path v h =
    All-get_or IsEmpty fs.files (index (find_file fs path)) unused_entry v.files
      (λ e. absurd (false≢true e)) (found_used fs path h)

-- The file system after an `fs_delete`.
abbrev pub after_delete : FileSystem → List ℕ → FileSystem
after_delete fs path =
    let i = index (find_file fs path) in
    if is_neg (find_file fs path) then fs else record fs {
      files = set fs.files i (record (entry fs i) { used = false; path = [] });
      file_count = fs.file_count - 1;
    }

free_chain_end : (fs : FileSystem) (blk : ℤ) → blk ≡ minus_one → free_chain fuel fs blk ≡ some fs
unfolding free_chain
free_chain_end fs blk e = rw e

pub fs_delete-returns :
    {fs : FileSystem} (path : List ℕ)
    → IsInert fs
    → (r : ℤ) × (fs_delete fs path ≡ some (after_delete fs path, r))
unfolding fs_delete
fs_delete-returns {fs} path v = elim (Bool-cases (is_neg (find_file fs path))) [
  | inl e ↦ (minus_one, rw e)
  | inr e ↦
      (let first = (entry fs (index (find_file fs path))).first_block in
        (pos 0, rw (e, free_chain_end fs first (found_empty path v e).0)))
]

after_delete-IsInert :
    {fs : FileSystem} (path : List ℕ) → IsInert fs → IsInert (after_delete fs path)
after_delete-IsInert {fs} path v =
    let i = index (find_file fs path) in
    let gone : FileEntry = record (entry fs i) { used = false; path = [] } in
    ground (arith, All-set IsEmpty fs.files i gone v.files (λ e. absurd (false≢true e)))

cleanup_entry-returns :
    (i : ℕ) (prefix : List ℕ) {fs : FileSystem}
    → IsInert fs
    → (fs' : FileSystem) × (r : ℤ) × (cleanup_entry i prefix fs ≡ some (fs', r)) × IsInert fs'
unfolding cleanup_entry
cleanup_entry-returns i prefix {fs} v =
    let f = entry fs i in
    elim (Bool-cases (f.used && has_prefix prefix f.path)) [
      | inl e ↦
          (let (r, done) = fs_delete-returns f.path v in
            (after_delete fs f.path, r, rw e done, after_delete-IsInert f.path v))
      | inr e ↦ (fs, minus_one, rw e, v)
    ]

pub cleanup_from-returns :
    (n i : ℕ) (prefix : List ℕ) {fs : FileSystem}
    → IsInert fs
    → (fs' : FileSystem) × (cleanup_from n i prefix fs ≡ some fs') × IsInert fs'
unfolding cleanup_from
cleanup_from-returns zero i prefix {fs} v = (fs, refl, v)
cleanup_from-returns (suc n) i prefix {fs} v =
    let (fs1, r, done, inert) = cleanup_entry-returns i prefix v in
    rw (done, cleanup_from) (cleanup_from-returns n (suc i) prefix inert)

-- A call that changes the file system.
pub data Op : Type 0 where
  create : (path : List ℕ) → Op
  write : (path content : List ℕ) → Op
  delete : (path : List ℕ) → Op
  cleanup : (pid : ℤ) → Op

abbrev state {ℓ} : {A : Type ℓ} → Option (FileSystem × A) → Option FileSystem
state none = none
state (some (fs, r)) = some fs

unfoldable pub step : FileSystem → Op → Option FileSystem
step fs (create path) = some (fs_create fs path).0
step fs (write path content) = state (fs_write fs path content)
step fs (delete path) = state (fs_delete fs path)
step fs (cleanup pid) = fs_cleanup_process fs pid

unfoldable pub run : FileSystem → List Op → Option FileSystem
run fs [] = some fs
run fs (op ∷ ops) = elim (step fs op) [ none ↦ none | some fs' ↦ run fs' ops ]

step-IsInert :
    {fs : FileSystem} (op : Op)
    → IsInert fs
    → (fs' : FileSystem) × (step fs op ≡ some fs') × IsInert fs'
unfolding step fs_cleanup_process
step-IsInert {fs} (create path) v = ((fs_create fs path).0, refl, fs_create-IsInert path v)
step-IsInert {fs} (write path content) v = (
  after_write fs path content,
  rw (fs_write-fails path content v),
  ground (arith, find_or_create-IsInert path v),
)
step-IsInert {fs} (delete path) v =
    (after_delete fs path, rw (fs_delete-returns path v).1, after_delete-IsInert path v)
step-IsInert (cleanup pid) v = cleanup_from-returns max_files 0 (log_prefix pid) v

run-IsInert :
    (ops : List Op) {fs : FileSystem}
    → IsInert fs
    → (fs' : FileSystem) × (run fs ops ≡ some fs') × IsInert fs'
unfolding run
run-IsInert [] {fs} v = (fs, refl, v)
run-IsInert (op ∷ ops) v =
    let (fs1, done, inert) = step-IsInert op v in rw (done, run) (run-IsInert ops inert)

pub fs_init-IsInert : IsInert fs_init
unfolding fs_init
fs_init-IsInert = fs_create-IsInert _ (fs_create-IsInert _ (fs_create-IsInert _ blank-IsInert))
  where
    blank-IsInert : IsInert blank
    blank-IsInert = ground arith

read_blocks_end :
    (fs : FileSystem) (blk : ℤ) (room left : ℕ)
    → blk ≡ minus_one
    → read_blocks fuel fs blk room left ≡ some []
unfolding chain_content
read_blocks_end fs blk room left e = read_blocks-Chain fuel fs blk [] room left e (omega arith)

fs_read-empty :
    {fs : FileSystem} (path : List ℕ) (size : ℕ)
    → IsInert fs
    → (r : ℤ) × (fs_read fs path size ≡ some (r, []))
unfolding fs_read
fs_read-empty {fs} path size v = elim (Bool-cases (size == 0)) [
  | inl e ↦ (minus_one, rw e)
  | inr e ↦ elim (Bool-cases (is_neg (find_file fs path))) [
    | inl absent ↦ (minus_one, rw (e, absent))
    | inr found ↦
        (let f = entry fs (index (find_file fs path)) in
          let ends = read_blocks_end fs f.first_block size f.size (found_empty path v found).0 in
          (pos 0, rw (e, found, ends)))
  ]
]

-- From `fs_init` on, every history of creations, writes, deletions and cleanups ends, and then
-- every `fs_write` returns -1 and every `fs_read` yields no byte: the file system stores nothing.
pub writes_always_fail :
    (ops : List Op) (path content : List ℕ) (size : ℕ)
    → (fs : FileSystem) × (run fs_init ops ≡ some fs)
      × ((fs' : FileSystem) × (fs_write fs path content ≡ some (fs', minus_one)))
      × ((r : ℤ) × (fs_read fs path size ≡ some (r, [])))
writes_always_fail ops path content size =
    let (fs, done, inert) = run-IsInert ops fs_init-IsInert in
    (
      fs,
      done,
      (after_write fs path content, fs_write-fails path content inert),
      fs_read-empty path size inert,
    )

-- ===== src/FileSystem/Delete.antt =====
-- `fs_delete` of src/filesystem.c on the file table.
use fleetos.Base.{
  ℕ, zero, suc, ◌+◌, ◌-◌, ◌<◌, ◌≡◌, refl, sym, ◌∙◌, ◌≢◌, true, false, List, [], ◌∷◌, arith,
  if◌then◌else◌, length, get_or, set, count_if, replicate, All, subst, ℤ, pos, minus_one, index,
  some, same_text, same_text_iff,
}
use fleetos.FileSystem.{
  FileSystem, FileEntry, unused_entry, file_from, find_file, entry, free_chain, fs_delete,
  free_mark, fuel, block_size, block_count,
}
use fleetos.FileSystem.Chain.{
  Chain, Distinct, release, free_chain-release, release_keeps, release_frees, Chain-within,
}
use fleetos.FileSystem.Table.{matches, has_file, is_used, find_file-is_neg, UniquePaths, IsTable}

abbrev cleared : FileEntry → FileEntry
cleared f = record f { used = false; path = [] }

-- The table with the first file of this path cleared.
clear_first : List ℕ → List FileEntry → List FileEntry
clear_first path [] = []
clear_first path (f ∷ files) =
    if matches path f then cleared f ∷ files else f ∷ clear_first path files

file_from-suc :
    (i : ℕ) (files : List FileEntry) (path : List ℕ)
    → has_file path files ≡ true
    → index (file_from (suc i) files path) ≡ suc (index (file_from i files path))
unfolding file_from
file_from-suc i [] path h = ground arith
file_from-suc i (f ∷ files) path h = ground (arith, file_from-suc (suc i) files path)

set-file_from :
    (files : List FileEntry) (path : List ℕ)
    → has_file path files ≡ true
    → let i = index (file_from 0 files path) in
      set files i (cleared (get_or files i unused_entry)) ≡ clear_first path files
unfolding file_from clear_first
set-file_from [] path h = refl
set-file_from (f ∷ files) path h =
    ground (arith, file_from-suc 0 files path, set-file_from files path)

length-clear_first :
    (files : List FileEntry) (path : List ℕ) → length (clear_first path files) ≡ length files
unfolding clear_first
length-clear_first [] path = refl
length-clear_first (f ∷ files) path = ground (arith, length-clear_first files path)

count-clear_first :
    (files : List FileEntry) (path : List ℕ)
    → has_file path files ≡ true
    → count_if is_used (clear_first path files) + 1 ≡ count_if is_used files
unfolding clear_first
count-clear_first [] path h = ground arith
count-clear_first (f ∷ files) path h = ground (arith, count-clear_first files path)

has_file-clear_first_ne :
    (files : List FileEntry) (path q : List ℕ)
    → same_text path q ≡ false
    → has_file q (clear_first path files) ≡ has_file q files
unfolding clear_first
has_file-clear_first_ne [] path q h = refl
has_file-clear_first_ne (f ∷ files) path q h = ground (
  arith,
  has_file-clear_first_ne files path q h,
  same_text_iff f.path path,
  same_text_iff f.path q,
)

-- A cleared table has no file that it did not have.
has_file-clear_first_le :
    (files : List FileEntry) (path q : List ℕ)
    → has_file q files ≡ false
    → has_file q (clear_first path files) ≡ false
unfolding clear_first
has_file-clear_first_le [] path q h = refl
has_file-clear_first_le (f ∷ files) path q h = ground (arith, has_file-clear_first_le files path q)

has_file-clear_first_self :
    (files : List FileEntry) (path : List ℕ)
    → UniquePaths files
    → has_file path (clear_first path files) ≡ false
unfolding clear_first
has_file-clear_first_self [] path u = refl
has_file-clear_first_self (f ∷ files) path u =
    ground (arith, has_file-clear_first_self files path u.1, same_text_iff f.path path, u.0)

unique-clear_first :
    (files : List FileEntry) (path : List ℕ)
    → UniquePaths files
    → UniquePaths (clear_first path files)
unfolding clear_first
unique-clear_first [] path u = tt
unique-clear_first (f ∷ files) path u =
    ground
      (arith, unique-clear_first files path u.1, has_file-clear_first_le files path f.path, u.0)

-- Freeing a chain leaves the file table alone.
record SameTable (fs fs' : FileSystem) : Type 0 where
  files : fs'.files ≡ fs.files
  file_count : fs'.file_count ≡ fs.file_count

free_chain-SameTable :
    (n : ℕ) (fs fs' : FileSystem) (blk : ℤ) → free_chain n fs blk ≡ some fs' → SameTable fs fs'
unfolding free_chain
free_chain-SameTable zero fs fs' blk e = ground arith
free_chain-SameTable (suc n) fs fs' blk e =
    let freed : FileSystem = record fs {
      fat = set fs.fat (index blk) free_mark;
      blocks = set fs.blocks (index blk) (replicate block_size 0);
    } in
    ground (arith, free_chain-SameTable n freed fs' (get_or fs.fat (index blk) minus_one))

delete_found :
    (fs fs1 : FileSystem) (path : List ℕ)
    → has_file path fs.files ≡ true
    → free_chain fuel fs (entry fs (index (find_file fs path))).first_block ≡ some fs1
    → fs_delete fs path
      ≡ some
          (record fs1 { files = clear_first path fs.files; file_count = fs.file_count - 1 }, pos 0)
unfolding fs_delete
delete_found fs fs1 path present freed =
    let same =
      free_chain-SameTable fuel fs fs1 (entry fs (index (find_file fs path))).first_block freed in
    ground (
      arith,
      find_file-is_neg fs path,
      freed,
      same.files,
      same.file_count,
      set-file_from fs.files path present,
    )

-- `fs_delete` of a file whose chain is `bs`: it returns 0, the path is no file afterwards, the
-- other paths are files or not as before, and the table stays well-formed; the blocks of the chain
-- are free, and every other block keeps its link.
pub record Deleted (fs : FileSystem) (path : List ℕ) (bs : List ℕ) (fs' : FileSystem) : Type 0 where
  pub gone : has_file path fs'.files ≡ false
  pub others : (q : List ℕ) → same_text path q ≡ false → has_file q fs'.files ≡ has_file q fs.files
  pub table : IsTable fs'
  pub freed : All (λ b. get_or fs'.fat b minus_one ≡ free_mark) bs
  pub kept : (c : ℕ) → All (λ b. b ≢ c) bs → get_or fs'.fat c minus_one ≡ get_or fs.fat c minus_one

pub fs_delete-Deleted :
    (fs : FileSystem) (path : List ℕ) (bs : List ℕ)
    → IsTable fs
    → length fs.fat ≡ block_count
    → has_file path fs.files ≡ true
    → Chain fs.fat (entry fs (index (find_file fs path))).first_block bs
    → Distinct bs
    → length bs < fuel
    → (fs' : FileSystem) × (fs_delete fs path ≡ some (fs', pos 0)) × Deleted fs path bs fs'
fs_delete-Deleted fs path bs v size present c d enough = (
  record (release bs fs) { files = clear_first path fs.files; file_count = fs.file_count - 1 },
  delete_found fs (release bs fs) path present (free_chain-release fuel fs _ bs c d enough),
  record {
    gone = has_file-clear_first_self fs.files path v.unique;
    others = λ q h. has_file-clear_first_ne fs.files path q h;
    table = record {
      size = length-clear_first fs.files path ∙ v.size;
      counted = omega (arith, count-clear_first fs.files path present, v.counted);
      unique = unique-clear_first fs.files path v.unique;
    };
    freed =
        release_frees bs fs
          (subst (λ n. All (λ b. b < n) bs) (sym size) (Chain-within fs.fat _ bs c)) d;
    kept = λ k h. release_keeps bs fs k h;
  },
)

-- ===== src/FileSystem/Table.antt =====
-- The file table of src/filesystem.c: how `find_file`, `fs_create` and `fs_delete` search and change
-- it, and the invariant that they keep.
use mathlib.Core.Bool.{false≢true}
use fleetos.Base.{
  ℕ, suc, ◌+◌, ◌<◌, ◌≡◌, refl, ap, ◌∙◌, Bool, true, false, ◌&&◌, not, List, [], ◌∷◌, arith,
  if◌then◌else◌, length, get_or, set, take, any_of, count_if, Bool-cases, inl, inr, ℤ, pos,
  minus_one, is_neg, same_text, same_text_iff, same_text_refl,
}
use fleetos.FileSystem.{
  FileSystem, FileEntry, unused_entry, new_entry, max_files, file_from, find_file, unused_from,
  fs_create,
}

-- The entry is a file with this path.
abbrev pub matches : List ℕ → FileEntry → Bool
matches path f = f.used && same_text f.path path

abbrev pub has_file : List ℕ → List FileEntry → Bool
has_file path files = any_of (matches path) files

abbrev pub is_used : FileEntry → Bool
is_used f = f.used

pub file_from-absent :
    (i : ℕ) (files : List FileEntry) (path : List ℕ)
    → has_file path files ≡ false
    → file_from i files path ≡ minus_one
unfolding file_from
file_from-absent i [] path h = refl
file_from-absent i (f ∷ files) path h = ground (arith, file_from-absent (suc i) files path)

-- The index of the first file with the path.
pub record Found (i : ℕ) (files : List FileEntry) (path : List ℕ) (r : ℤ) (j : ℕ) : Type 0 where
  pub result : r ≡ pos (i + j)
  pub within : j < length files
  pub hit : matches path (get_or files j unused_entry) ≡ true

pub file_from-present :
    (i : ℕ) (files : List FileEntry) (path : List ℕ)
    → has_file path files ≡ true
    → (j : ℕ) × Found i files path (file_from i files path) j
unfolding file_from
file_from-present i [] path h = absurd (false≢true h)
file_from-present i (f ∷ files) path h = elim (Bool-cases (matches path f)) [
  | inl e ↦ (0, rw e (record { result = ap pos (omega arith); within = omega arith; hit = e }))
  | inr e ↦
      (let (j, found) = file_from-present (suc i) files path (rw e at h) in
        (
          suc j,
          rw e (record {
            result = found.result ∙ ap pos (omega arith);
            within = omega (arith, found.within);
            hit = found.hit;
          }),
        ))
]

-- `find_file` is -1 exactly when no used entry has the path.
pub find_file-is_neg :
    (fs : FileSystem) (path : List ℕ) → is_neg (find_file fs path) ≡ not (has_file path fs.files)
find_file-is_neg fs path = elim (Bool-cases (has_file path fs.files)) [
  | inl e ↦ (let (j, found) = file_from-present 0 fs.files path e in rw (e, found.result))
  | inr e ↦ rw (e, file_from-absent 0 fs.files path e)
]

-- No two used entries have one path.
abbrev pub UniquePaths : List FileEntry → Type 0
UniquePaths [] = Unit
UniquePaths (f ∷ files) = (f.used ≡ true → has_file f.path files ≡ false) × UniquePaths files

pub record IsTable (fs : FileSystem) : Type 0 where
  pub size : length fs.files ≡ max_files
  pub counted : fs.file_count ≡ count_if is_used fs.files
  pub unique : UniquePaths fs.files

unused_from-suc :
    (i : ℕ) (files : List FileEntry) → unused_from (suc i) files ≡ suc (unused_from i files)
unfolding unused_from
unused_from-suc i [] = refl
unused_from-suc i (f ∷ files) = ground (arith, unused_from-suc (suc i) files)

-- The table with `g` in its first unused entry.
pub fill_first : FileEntry → List FileEntry → List FileEntry
fill_first g [] = []
fill_first g (f ∷ files) = if f.used then f ∷ fill_first g files else g ∷ files

set-unused_from :
    (g : FileEntry) (files : List FileEntry)
    → set files (unused_from 0 files) g ≡ fill_first g files
unfolding unused_from fill_first
set-unused_from g [] = refl
set-unused_from g (f ∷ files) = ground (arith, unused_from-suc 0 files, set-unused_from g files)

unused_from_lt :
    (files : List FileEntry)
    → count_if is_used files < length files
    → unused_from 0 files < length files
unfolding unused_from
unused_from_lt [] h = h
unused_from_lt (f ∷ files) h = ground (arith, unused_from-suc 0 files, unused_from_lt files)

count-fill_first :
    (g : FileEntry) (files : List FileEntry)
    → g.used ≡ true
    → count_if is_used files < length files
    → count_if is_used (fill_first g files) ≡ count_if is_used files + 1
unfolding fill_first
count-fill_first g [] u h = absurd (omega arith)
count-fill_first g (f ∷ files) u h = ground (arith, count-fill_first g files u)

has_file-fill_first :
    (g : FileEntry) (files : List FileEntry) (path : List ℕ)
    → g.used ≡ true
    → count_if is_used files < length files
    → has_file path (fill_first g files)
      ≡ (if same_text g.path path then true else has_file path files)
unfolding fill_first
has_file-fill_first g [] path u h = absurd (omega arith)
has_file-fill_first g (f ∷ files) path u h = ground (arith, has_file-fill_first g files path u)

unique-fill_first :
    (g : FileEntry) (files : List FileEntry)
    → g.used ≡ true
    → count_if is_used files < length files
    → has_file g.path files ≡ false
    → UniquePaths files
    → UniquePaths (fill_first g files)
unfolding fill_first
unique-fill_first g [] u h absent q = tt
unique-fill_first g (f ∷ files) u h absent q = elim (Bool-cases f.used) [
  | inl e ↦ rw e (
    (λ used.
        rw (has_file-fill_first g files f.path u (ground arith))
          (ground (arith, same_text_iff g.path f.path, same_text_refl f.path, q.0 e))),
    unique-fill_first g files u (ground arith) (ground arith) q.1,
  )
  | inr e ↦ rw e ((λ used. ground arith), q.1)
]

length-fill_first :
    (g : FileEntry) (files : List FileEntry) → length (fill_first g files) ≡ length files
unfolding fill_first
length-fill_first g [] = refl
length-fill_first g (f ∷ files) = ground (arith, length-fill_first g files)

abbrev pub IsPath : List ℕ → Type 0
IsPath path = take 63 path ≡ path

-- The table has room for a new file.
abbrev pub HasRoom : FileSystem → Type 0
HasRoom fs = fs.file_count < max_files

pub new_file :
    {fs : FileSystem} (path : List ℕ)
    → IsTable fs
    → HasRoom fs
    → has_file path fs.files ≡ false
    → fs_create fs path ≡ (
      record fs { files = fill_first (new_entry path) fs.files; file_count = fs.file_count + 1 },
      pos 0,
    )
unfolding fs_create
new_file {fs} path v room absent = ground (
  arith,
  find_file-is_neg fs path,
  unused_from_lt fs.files,
  set-unused_from (new_entry path) fs.files,
)

old_file :
    {fs : FileSystem} (path : List ℕ)
    → IsTable fs
    → HasRoom fs
    → has_file path fs.files ≡ true
    → fs_create fs path ≡ (fs, pos 0)
unfolding fs_create
old_file {fs} path v room present = ground (arith, find_file-is_neg fs path)

-- `fs_create` of a path that fits the entry, with room in the table: it returns 0, the path is a
-- file afterwards, and no other path became or ceased to be one. The table stays well-formed.
pub record Created (fs : FileSystem) (path : List ℕ) (out : FileSystem × ℤ) : Type 0 where
  pub result : out.1 ≡ pos 0
  pub made : has_file path out.0.files ≡ true
  pub others :
      (q : List ℕ) → same_text path q ≡ false → has_file q out.0.files ≡ has_file q fs.files
  pub table : IsTable out.0
  pub content : (out.0.blocks ≡ fs.blocks) × (out.0.fat ≡ fs.fat)

pub fs_create-Created :
    {fs : FileSystem} (path : List ℕ)
    → IsTable fs
    → HasRoom fs
    → IsPath path
    → Created fs path (fs_create fs path)
fs_create-Created {fs} path v room short = elim (Bool-cases (has_file path fs.files)) [
  | inl e ↦
      rw (old_file path v room e) (record {
        result = refl;
        made = e;
        others = λ q h. refl;
        table = v;
        content = (refl, refl);
      })
  | inr e ↦
      (let free : count_if is_used fs.files < length fs.files = omega arith in
        let has = λ (q : List ℕ). has_file-fill_first (new_entry path) fs.files q refl free in
        rw (new_file path v room e) (record {
          result = refl;
          made = has path ∙ rw (short, same_text_refl path);
          others = λ q h. has q ∙ rw (short, h);
          table = record {
            size = length-fill_first (new_entry path) fs.files ∙ v.size;
            counted = omega (arith, count-fill_first (new_entry path) fs.files refl free);
            unique = unique-fill_first (new_entry path) fs.files refl free (rw (short, e)) v.unique;
          };
          content = (refl, refl);
        }))
]

-- ===== src/FileSystem/Undo.antt =====
-- `fs_delete` of src/filesystem.c takes back an `fs_create`, in the states that the program reaches.
use fleetos.Base.{
  ℕ, ◌-◌, ◌≡◌, refl, sym, ap, ◌∙◌, false, not, Bool-cases, inl, inr, arith, List, [], length, pos,
  ℤ, is_neg, Option, none, some, same_text, same_text_iff,
}
use fleetos.FileSystem.{FileSystem, block_count, find_file, fs_create, fs_delete}
use fleetos.FileSystem.Table.{
  IsTable, HasRoom, IsPath, has_file, find_file-is_neg, new_file, fs_create-Created,
}
use fleetos.FileSystem.Delete.{fs_delete-Deleted}
use fleetos.FileSystem.Inert.{
  IsInert, after_delete, fs_create-IsInert, fs_delete-returns, found_empty,
}

-- The same paths are files, the table is well formed with the same number of files, and the blocks
-- and their links are the same.
pub record Restored (fs fs' : FileSystem) : Type 0 where
  pub paths : (q : List ℕ) → has_file q fs'.files ≡ has_file q fs.files
  pub table : IsTable fs'
  pub count : fs'.file_count ≡ fs.file_count
  pub fat : fs'.fat ≡ fs.fat
  pub blocks : fs'.blocks ≡ fs.blocks

-- What a search that finds the file leaves untouched.
after_delete-kept :
    (fs : FileSystem) (path : List ℕ)
    → is_neg (find_file fs path) ≡ false
    → ((after_delete fs path).fat ≡ fs.fat)
      × ((after_delete fs path).blocks ≡ fs.blocks)
      × ((after_delete fs path).file_count ≡ fs.file_count - 1)
after_delete-kept fs path h = rw h (refl, refl, refl)

same_deleted :
    (o : Option (FileSystem × ℤ)) (a b : FileSystem) (r s : ℤ)
    → o ≡ some (a, r)
    → o ≡ some (b, s)
    → a ≡ b
same_deleted o a b r s e f =
    ap (λ (x : Option (FileSystem × ℤ)). elim x [ none ↦ a | some y ↦ y.0 ]) (sym e ∙ f)

inert_size : {fs : FileSystem} → IsInert fs → length fs.fat ≡ block_count
inert_size v = rw v.fat refl

-- In a file system without a free block, as every run of the program has it, with a well formed table
-- that has room, creating a path that fits and is no file, and then deleting it, returns 0 both times
-- and restores everything that can be seen: the same paths are files, as many as before, the table is
-- well formed, and the blocks and the FAT are unchanged.
pub fs_delete-fs_create :
    (fs : FileSystem) (path : List ℕ)
    → IsInert fs
    → IsTable fs
    → HasRoom fs
    → IsPath path
    → has_file path fs.files ≡ false
    → ((fs_create fs path).1 ≡ pos 0)
      × ((fs' : FileSystem) × (fs_delete (fs_create fs path).0 path ≡ some (fs', pos 0))
          × Restored fs fs')
fs_delete-fs_create fs path v table room short absent =
    let made = (fs_create fs path).0 in
    let c = fs_create-Created path table room short in
    let inert = fs_create-IsInert path v in
    let found : is_neg (find_file made path) ≡ false = find_file-is_neg made path ∙ ap not c.made in
    let (fs', done, d) =
      fs_delete-Deleted made path [] c.table (inert_size inert) c.made
        (found_empty path inert found).0 tt (omega arith) in
    let (r, returned) = fs_delete-returns path inert in
    let same : fs' ≡ after_delete made path =
      same_deleted (fs_delete made path) fs' (after_delete made path) (pos 0) r done returned in
    let (fat, blocks, count) = after_delete-kept made path found in
    (
      c.result,
      (
        fs',
        done,
        record {
          paths = λ q. elim (Bool-cases (same_text path q)) [
            | inl e ↦
                (let at : path ≡ q = (same_text_iff path q).0 e in
                  ap (λ p. has_file p fs'.files) (sym at)
                  ∙ d.gone
                  ∙ sym absent
                  ∙ ap (λ p. has_file p fs.files) at)
            | inr e ↦ d.others q e ∙ c.others q e
          ];
          table = d.table;
          count =
              ap (λ (x : FileSystem). x.file_count) same
              ∙ count
              ∙ ap (λ (x : FileSystem × ℤ). x.0.file_count - 1) (new_file path table room absent)
              ∙ omega arith;
          fat = ap (λ (x : FileSystem). x.fat) same ∙ fat ∙ c.content.1;
          blocks = ap (λ (x : FileSystem). x.blocks) same ∙ blocks ∙ c.content.0;
        },
      ),
    )

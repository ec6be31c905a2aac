-- ===== src/FileSystem/Tests.antt =====
-- Runs of the file system of src/filesystem.c, and its theorems at concrete states.
use fleetos.Base.{
  ℕ, ◌≡◌, refl, arith, true, false, List, [], ◌∷◌, ℤ, pos, minus_one, replicate, bytes, some, index,
  same_text,
}
use fleetos.FileSystem.{
  FileSystem, unused_entry, free_mark, block_count, block_size, fs_init, fs_create, fs_write,
  fs_read, fs_delete, unused_from, find_file, file_from, entry,
}
use fleetos.FileSystem.Table.{IsTable, HasRoom, Created, fs_create-Created, has_file}
use fleetos.FileSystem.Chain.{Chain}
use fleetos.FileSystem.Delete.{Deleted, fs_delete-Deleted}
use fleetos.FileSystem.Undo.{Restored, fs_delete-fs_create}
use fleetos.FileSystem.Inert.{fs_init-IsInert, create, write, cleanup, run, writes_always_fail}

abbrev report : List ℕ
report = bytes "/logs/a"

-- A file system as `fs_init` means to leave it: every block is free. It holds one empty file.
abbrev formatted : FileSystem
formatted = record {
  blocks = replicate block_count (replicate block_size 0);
  fat = replicate block_count free_mark;
  files =
      record { path = report; first_block = minus_one; size = 0; used = true }
      ∷ replicate 15 unused_entry;
  file_count = 1;
}

-- The same with the file's bytes in blocks 2 and 0.
abbrev two_blocks : FileSystem
two_blocks = record formatted {
  fat = minus_one ∷ free_mark ∷ pos 0 ∷ replicate 61 free_mark;
  files =
      record { path = report; first_block = pos 2; size = 70; used = true }
      ∷ replicate 15 unused_entry;
}

writes_always_fail_example :
    (fs : FileSystem) × (run fs_init
        (create report ∷ write report (bytes "drone=1") ∷ cleanup (pos 1) ∷ [])
      ≡ some fs)
    × ((fs' : FileSystem) × (fs_write fs report (bytes "x") ≡ some (fs', minus_one)))
    × ((r : ℤ) × (fs_read fs report 64 ≡ some (r, [])))
writes_always_fail_example =
    writes_always_fail (create report ∷ write report (bytes "drone=1") ∷ cleanup (pos 1) ∷ [])
      report (bytes "x") 64

formatted-IsTable : IsTable formatted
unfolding same_text
formatted-IsTable = ground arith

fs_create-Created_example :
    Created formatted (bytes "/logs/b") (fs_create formatted (bytes "/logs/b"))
fs_create-Created_example = fs_create-Created (bytes "/logs/b") formatted-IsTable (omega arith) refl

two_blocks-IsTable : IsTable two_blocks
unfolding same_text
two_blocks-IsTable = ground arith

two_blocks-Chain :
    Chain two_blocks.fat
      (entry two_blocks (index (find_file two_blocks report))).first_block
      (2 ∷ 0 ∷ [])
unfolding same_text file_from
two_blocks-Chain = (refl, omega arith, (refl, omega arith, refl))

report_present : has_file report two_blocks.files ≡ true
unfolding same_text
report_present = refl

fs_delete-Deleted_example :
    (fs' : FileSystem) × (fs_delete two_blocks report ≡ some (fs', pos 0))
    × Deleted two_blocks report (2 ∷ 0 ∷ []) fs'
fs_delete-Deleted_example =
    fs_delete-Deleted two_blocks report (2 ∷ 0 ∷ []) two_blocks-IsTable refl report_present
      two_blocks-Chain (omega arith) (omega arith)

fs_init-IsTable : IsTable fs_init
unfolding fs_init fs_create same_text file_from unused_from
fs_init-IsTable = ground arith

fs_init-HasRoom : HasRoom fs_init
unfolding fs_init fs_create same_text file_from unused_from
fs_init-HasRoom = omega arith

report_absent : has_file report fs_init.files ≡ false
unfolding fs_init fs_create same_text file_from unused_from
report_absent = refl

fs_delete-fs_create_example :
    ((fs_create fs_init report).1 ≡ pos 0)
    × ((fs' : FileSystem) × (fs_delete (fs_create fs_init report).0 report ≡ some (fs', pos 0))
        × Restored fs_init fs')
fs_delete-fs_create_example =
    fs_delete-fs_create fs_init report fs_init-IsInert fs_init-IsTable fs_init-HasRoom refl
      report_absent

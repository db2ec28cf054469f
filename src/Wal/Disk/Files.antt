-- ===== src/Wal/Disk/Files.antt =====
-- Files found again after a write.
use nile.Prelude.{◌≡◌, arith, Bytes, bytes_eq, some, List, [], ◌∷◌, ◌++◌, Bool-cases, inl, inr}
use nile.Wal.Disk.{File, find_file, append_file}

-- A file that is there has the new bytes behind its old ones.
pub find-append_file :
    (name bytes : Bytes) (files : List File) (f : File)
    → find_file name files ≡ some f
    → find_file name (append_file name bytes files)
      ≡ some (record f { content = f.content ++ bytes })
unfolding find_file append_file
find-append_file name bytes [] f h = cc
find-append_file name bytes (g ∷ files) f h = elim (Bool-cases (bytes_eq g.name name)) [
  | inl e ↦ ground (arith, e, h)
  | inr e ↦ ground (arith, e, h, find-append_file name bytes files f)
]

-- ===== src/Wal/Disk.antt =====
-- The files that pkg/wal reads and writes, and the system calls that may fail. The data directory of
-- a copt holds stream/ (the segments), dead/dead.wal, cursor.json with cursor.json.tmp, and retain/.
pub mod Files
use nile.Prelude.{
  ℕ, Bytes, bytes_eq, take, length, if◌then◌else◌, Bool, true, false, Option, none, some, List, [],
  ◌∷◌, ◌++◌,
}
use nile.Wal.Record.{Error}

-- (value, error) of a Go call.
pub data Result {ℓ} (A : Type ℓ) : Type ℓ where
  ok : A → Result A
  err : Error → Result A

pub data Syscall : Type 0 where
  mkdir_all read_dir open_read open_append stat write fdatasync remove : Syscall
  read_file write_file rename create_temp sync close : Syscall

-- What the operating system answers during one operation: whether a call on a path succeeds, and
-- how many bytes a failing Write still puts into the file.
pub record Os : Type 0 where
  pub succeeds : Syscall → Bytes → Bool
  pub short_write : ℕ

-- Every call succeeds.
abbrev pub healthy : Os
healthy = record { succeeds = λ _ _. true; short_write = 0 }

-- A directory entry.
pub record File : Type 0 where
  pub name : Bytes
  pub is_dir : Bool
  pub content : Bytes

-- CursorState of cursor.go
pub record CursorState : Type 0 where
  pub consumed : ℕ
  pub post_processed : ℕ

-- The content of cursor.json, as json.Unmarshal reads it.
pub data CursorFile : Type 0 where
  json : CursorState → CursorFile
  malformed : CursorFile

pub record Disk : Type 0 where
  pub stream : List File
  pub dead : Option Bytes
  pub cursor : Option CursorFile
  pub cursor_tmp : Option CursorFile
  pub snapshots : List File

abbrev pub empty_disk : Disk
empty_disk = record { stream = []; dead = none; cursor = none; cursor_tmp = none; snapshots = [] }

abbrev pub plain : Bytes → Bytes → File
plain name content = record { name = name; is_dir = false; content = content }

unfoldable pub find_file : Bytes → List File → Option File
find_file name [] = none
find_file name (f ∷ fs) = if bytes_eq f.name name then some f else find_file name fs

-- O_APPEND | O_CREATE: the bytes go behind what the file holds; a missing file is created.
unfoldable pub append_file : Bytes → Bytes → List File → List File
append_file name bytes [] = plain name bytes ∷ []
append_file name bytes (f ∷ fs) =
    if bytes_eq f.name name
    then record f { content = f.content ++ bytes } ∷ fs
    else f ∷ append_file name bytes fs

unfoldable pub remove_file : Bytes → List File → List File
remove_file name [] = []
remove_file name (f ∷ fs) = if bytes_eq f.name name then fs else f ∷ remove_file name fs

-- A Write call of `bytes`: all of them, or an error after the first few.
abbrev pub written : Bool → Os → Bytes → Bytes
written true os bytes = bytes
written false os bytes = take os.short_write bytes

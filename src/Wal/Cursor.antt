-- ===== src/Wal/Cursor.antt =====
-- pkg/wal/cursor.go: the cursor's state in cursor.json, replaced by rename.
pub mod Text
use nile.Prelude.{Bytes, ascii, if◌then◌else◌, Option, none, some}
use nile.Wal.Record.{Error, io}
use nile.Wal.Disk.{
  Result, ok, err, Os, read_file, write_file, rename, CursorState, CursorFile, json, malformed,
  Disk,
}

abbrev pub cursor_path : Bytes
cursor_path = ascii "cursor.json"

abbrev pub cursor_tmp_path : Bytes
cursor_tmp_path = ascii "cursor.json.tmp"

abbrev pub cursor_zero : CursorState
cursor_zero = record { consumed = 0; post_processed = 0 }

abbrev pub unmarshal : CursorFile → Result CursorState
unmarshal (json state) = ok state
unmarshal malformed = err io

-- (*JSONCursor).Load. A missing file is the zero state.
unfoldable pub load : Os → Disk → Result CursorState
load os disk = elim disk.cursor [
  | none ↦ ok cursor_zero
  | some file ↦ if os.succeeds read_file cursor_path then unmarshal file else err io
]

-- (*JSONCursor).Save. A failed WriteFile leaves the temporary file with some of the text.
unfoldable pub save : Os → Disk → CursorState → Option Error × Disk
save os disk state =
    if os.succeeds write_file cursor_tmp_path
    then if os.succeeds rename cursor_path
      then (none, record disk { cursor = some (json state); cursor_tmp = none })
      else (some io, record disk { cursor_tmp = some (json state) })
    else (some io, record disk { cursor_tmp = some malformed })

-- ===== src/Wal/Log/DeadLetters.antt =====
-- DeadLetter and ReadDeadLetters of pkg/wal/retention.go. All messages given up go to one file.
use nile.Prelude.{ℕ, Bytes, ascii, if◌then◌else◌, Option, none, some, [], ◌++◌}
use nile.Wal.Record.{Error, closed, io, encode_record}
use nile.Wal.Disk.{Os, mkdir_all, open_append, open_read, write, fdatasync, Disk, written}
use nile.Wal.Segment.{Read, read_content}
use nile.Wal.Log.{Wal}
use nile.Wal.Log.Delivery.{consume, save_cursor}

abbrev pub dead_dir : Bytes
dead_dir = ascii "dead"

abbrev pub dead_path : Bytes
dead_path = ascii "dead.wal"

-- O_CREATE: a missing file is an empty one.
abbrev pub dead_content : Option Bytes → Bytes
dead_content none = []
dead_content (some content) = content

abbrev with_dead : Bytes → Wal → Wal
with_dead bytes w = record w {
  disk = record (w.disk) { dead = some (dead_content w.disk.dead ++ bytes) };
}

-- From the open file on.
unfoldable pub write_dead : Os → ℕ → Bytes → Wal → Option Error × Wal
write_dead os offset p w =
    let all = os.succeeds write dead_path in
    let w' = with_dead (written all os (encode_record p)) w in
    if all
    then if os.succeeds fdatasync dead_path
      then save_cursor os (consume offset w.log.cur) w'
      else (some io, w')
    else (some io, w')

unfoldable pub dead_letter : Os → ℕ → Bytes → Wal → Option Error × Wal
unfolding write_dead
dead_letter os offset p w =
    if w.log.closed_flag
    then (some closed, w)
    else if os.succeeds mkdir_all dead_dir
    then if os.succeeds open_append dead_path then write_dead os offset p w else (some io, w)
    else (some io, w)

-- The file is opened twice; a missing one has no letters.
unfoldable pub read_dead_letters : Os → Disk → Read
read_dead_letters os disk = elim disk.dead [
  | none ↦ record { records = []; error = none }
  | some content ↦
      if os.succeeds open_read dead_path
      then read_content content
      else record { records = []; error = some io }
]

-- ===== src/Wal/Log/Truncation.antt =====
-- Truncate of pkg/wal/wal.go.
use nile.Prelude.{ℕ, Bytes, if◌then◌else◌, Option, none, some, List, [], ◌∷◌}
use nile.Wal.Record.{Error, closed, io}
use nile.Wal.Name.{segment_name}
use nile.Wal.Disk.{Result, ok, err, Os, remove, File, find_file, remove_file}
use nile.Wal.Segment.{list_segments}
use nile.Wal.Cursor.{cursor_zero}
use nile.Wal.Log.{Log, Wal}
use nile.Wal.Log.Delivery.{save_cursor}

-- os.Remove of a path; that the file is not there is no error.
abbrev pub remove_found : Os → Bytes → List File → Option File → Option Error × List File
remove_found os path files none = (none, files)
remove_found os path files (some f) =
    if os.succeeds remove path then (none, remove_file path files) else (some io, files)

abbrev pub then_files :
    Option Error × List File → (List File → Option Error × List File) → Option Error × List File
then_files (some e, files) next = (some e, files)
then_files (none, files) next = next files

unfoldable pub remove_one : Os → Bytes → List File → Option Error × List File
remove_one os path files = remove_found os path files (find_file path files)

-- The first file that cannot be removed ends the loop.
unfoldable pub remove_segments : Os → List ℕ → List File → Option Error × List File
unfolding remove_one
remove_segments os [] files = (none, files)
remove_segments os (idx ∷ rest) files =
    then_files (remove_one os (segment_name idx) files) (λ files'. remove_segments os rest files')

-- `l.segments = nil; …; l.cur = CursorState{}`
unfoldable pub reset : Log → Log
reset l = record l { segments = []; active = none; index = []; next_idx = 0; cur = cursor_zero }

abbrev pub removed : Os → Wal → Option Error × List File → Option Error × Wal
removed os w (some e, files) = (some e, record w { disk = record (w.disk) { stream = files } })
removed os w (none, files) =
    save_cursor os cursor_zero
      (record w { log = reset w.log; disk = record (w.disk) { stream = files } })

abbrev pub truncate_listed : Os → Wal → Result (List ℕ) → Option Error × Wal
truncate_listed os w (err e) = (some e, w)
truncate_listed os w (ok indices) = removed os w (remove_segments os indices w.disk.stream)

unfoldable pub truncate : Os → Wal → Option Error × Wal
unfolding reset
truncate os w =
    if w.log.closed_flag then (some closed, w) else truncate_listed os w (list_segments os w.disk)

-- ===== src/Wal/Snapshot.antt =====
-- pkg/wal/snapshot.go: all segments in one file behind a header.
use nile.Prelude.{
  ℕ, Bytes, ascii, bytes_eq, take, drop, if◌then◌else◌, Bool, ◌&&◌, Option, none, some, List, [],
  ◌∷◌, ◌++◌,
}
use nile.Wal.Record.{
  Error, closed, io, invalid_snapshot, put_uint32, uint32, ReadFull, full, eof, unexpected_eof,
  read_full,
}
use nile.Wal.Disk.{
  Result, ok, err, Os, mkdir_all, create_temp, open_read, write, sync, close, rename, File, Disk,
  plain, find_file, remove_file,
}
use nile.Wal.Segment.{Segment}
use nile.Wal.Log.{Wal}

abbrev pub snapshot_magic : Bytes
snapshot_magic = ascii "NILE"

abbrev pub snapshot_version : ℕ
snapshot_version = 1

abbrev pub snapshot_header_size : ℕ
snapshot_header_size = 8

-- The bytes that writeSnapshotHeader writes.
unfoldable pub snapshot_header : Bytes
snapshot_header = snapshot_magic ++ put_uint32 snapshot_version

unfoldable pub check_header : ReadFull → Result (ℕ × Bytes)
check_header eof = err invalid_snapshot
check_header unexpected_eof = err invalid_snapshot
check_header (full hdr rest) =
    if bytes_eq (take 4 hdr) snapshot_magic
    then ok (uint32 (drop 4 hdr), rest)
    else err invalid_snapshot

-- readSnapshotHeader: the version, with what the reader has left.
unfoldable pub read_snapshot_header : Bytes → Result (ℕ × Bytes)
unfolding check_header
read_snapshot_header src = check_header (read_full snapshot_header_size src)

abbrev pub copy_found : Bool → Option File → Result Bytes
copy_found copied none = err io
copy_found copied (some f) = if f.is_dir then err io else if copied then ok f.content else err io

-- copyTo, as the bytes that it adds to the snapshot.
unfoldable pub copy_to : Os → Disk → Bytes → Result Bytes
copy_to os disk path =
    if os.succeeds open_read path
    then copy_found (os.succeeds write path) (find_file path disk.stream)
    else err io

abbrev pub then_bytes : Result Bytes → Result Bytes → Result Bytes
then_bytes (err e) more = err e
then_bytes (ok bytes) (err e) = err e
then_bytes (ok bytes) (ok more) = ok (bytes ++ more)

unfoldable pub copy_segments : Os → Disk → List Segment → Result Bytes
unfolding copy_to
copy_segments os disk [] = ok []
copy_segments os disk (seg ∷ segs) =
    then_bytes (copy_to os disk seg.path) (copy_segments os disk segs)

-- Rename replaces a file of that name.
abbrev pub put_snapshot : Bytes → Bytes → Disk → Disk
put_snapshot dest content disk = record disk {
  snapshots = plain dest content ∷ remove_file dest disk.snapshots;
}

-- The temporary file, removed after a failure, is not kept in the model.
unfoldable pub finish_snapshot : Os → Bytes → Disk → Result Bytes → Option Error × Disk
finish_snapshot os dest disk (err e) = (some e, disk)
finish_snapshot os dest disk (ok bytes) =
    if os.succeeds sync dest && (os.succeeds close dest && os.succeeds rename dest)
    then (none, put_snapshot dest (snapshot_header ++ bytes) disk)
    else (some io, disk)

abbrev pub with_disk : Wal → Option Error × Disk → Option Error × Wal
with_disk w (e, disk) = (e, record w { disk = disk })

-- Snapshot of wal.go over snapshot
unfoldable pub snapshot : Os → Bytes → Wal → Option Error × Wal
unfolding finish_snapshot copy_segments
snapshot os dest w =
    if w.log.closed_flag
    then (some closed, w)
    else if os.succeeds mkdir_all dest && (os.succeeds create_temp dest && os.succeeds write dest)
    then with_disk w (finish_snapshot os dest w.disk (copy_segments os w.disk w.log.segments))
    else (some io, w)

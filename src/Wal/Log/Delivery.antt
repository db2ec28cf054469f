-- ===== src/Wal/Log/Delivery.antt =====
-- NextUnprocessed, MarkProcessed and MarkPostProcessed of pkg/wal/wal.go.
use nile.Prelude.{ℕ, ◌+◌, Bytes, u64, get_elem?, ltb, leb, if◌then◌else◌, Option, none, some}
use nile.Wal.Record.{Error, closed, no_messages, index_inconsistency, panic}
use nile.Wal.Disk.{Result, ok, err, Os, Disk, CursorState}
use nile.Wal.Segment.{Segment, Read, read_all}
use nile.Wal.Cursor.{save}
use nile.Wal.Log.{Log, Wal, IndexEntry}
use nile.Wal.Log.Refresh.{refresh}

abbrev pub pick_found : ℕ → Option Bytes → Result (ℕ × Bytes)
pick_found offset none = err index_inconsistency
pick_found offset (some p) = ok (offset, p)

abbrev pub pick_record : ℕ → ℕ → Read → Result (ℕ × Bytes)
pick_record offset record_idx r = elim r.error [
  | some e ↦ err e
  | none ↦ pick_found offset (get_elem? r.records record_idx)
]

abbrev pub from_segment : Os → Disk → ℕ → ℕ → Option Segment → Result (ℕ × Bytes)
from_segment os disk offset record_idx none = err panic
from_segment os disk offset record_idx (some seg) =
    pick_record offset record_idx (read_all os disk seg.path)

abbrev pub from_entry : Os → Disk → Log → ℕ → Option IndexEntry → Result (ℕ × Bytes)
from_entry os disk l offset none = err panic
from_entry os disk l offset (some e) =
    from_segment os disk offset e.record_idx (get_elem? l.segments e.seg_idx)

-- From `entry := l.index[offset]` on. An index out of range is a panic.
unfoldable pub read_message : Os → Disk → Log → ℕ → Result (ℕ × Bytes)
read_message os disk l offset = from_entry os disk l offset (get_elem? l.index offset)

abbrev pub after_refresh : Os → Wal → ℕ → Option Error × Log → Result (ℕ × Bytes) × Wal
after_refresh os w offset (some e, l) = (err e, record w { log = l })
after_refresh os w offset (none, l) =
    if leb l.next_idx offset
    then (err no_messages, record w { log = l })
    else (read_message os w.disk l offset, record w { log = l })

unfoldable pub next_unprocessed : Os → Wal → Result (ℕ × Bytes) × Wal
next_unprocessed os w =
    if w.log.closed_flag
    then (err closed, w)
    else if leb w.log.next_idx w.log.cur.consumed
    then after_refresh os w w.log.cur.consumed (refresh os w.disk w.log)
    else (read_message os w.disk w.log w.log.cur.consumed, w)

-- `l.cursor.Save(l.cur)`: the state in memory has changed even if saving fails.
abbrev pub saved : CursorState → Wal → Option Error × Disk → Option Error × Wal
saved cur w (e, disk) = (e, record w { log = record (w.log) { cur = cur }; disk = disk })

unfoldable pub save_cursor : Os → CursorState → Wal → Option Error × Wal
save_cursor os cur w = saved cur w (save os w.disk cur)

-- `if offset+1 > l.cur.Consumed { l.cur.Consumed = offset + 1 }`
unfoldable pub consume : ℕ → CursorState → CursorState
consume offset cur =
    if ltb cur.consumed (u64 (offset + 1)) then record cur { consumed = u64 (offset + 1) } else cur

unfoldable pub mark_processed : Os → ℕ → Wal → Option Error × Wal
unfolding consume save_cursor
mark_processed os offset w =
    if w.log.closed_flag then (some closed, w) else save_cursor os (consume offset w.log.cur) w

unfoldable pub mark_post_processed : Os → ℕ → Wal → Option Error × Wal
unfolding save_cursor
mark_post_processed os offset w =
    if w.log.closed_flag
    then (some closed, w)
    else save_cursor os
        (if ltb w.log.cur.post_processed offset
          then record (w.log.cur) { post_processed = offset }
          else w.log.cur)
        w

-- ===== src/Wal/Log/Append.antt =====
-- Append and rollSegment of pkg/wal/wal.go.
use nile.Prelude.{
  ℕ, ◌+◌, Bytes, u64, sub64, length, get_elem?, leb, ◌-◌, if◌then◌else◌, Bool, true, Option, none,
  some, [], ◌∷◌, ◌++◌,
}
use nile.Wal.Record.{Error, closed, panic}
use nile.Wal.Disk.{Result, ok, err, Os, Disk}
use nile.Wal.Segment
use nile.Wal.Segment.{Segment, create_segment}
use nile.Wal.Log.{Log, Wal, set_segment}

-- Closing the old active segment has no effect on the files.
abbrev pub rolled : Wal → Result Segment × Disk → Option Error × Wal
rolled w (err e, disk) = (some e, record w { disk = disk })
rolled w (ok seg, disk) = (
  none,
  record w {
    log = record (w.log) {
      segments = w.log.segments ++ (seg ∷ []);
      active = some (length w.log.segments);
    };
    disk = disk;
  },
)

unfoldable pub roll_segment : Os → Wal → Option Error × Wal
roll_segment os w = rolled w (create_segment os w.disk w.log.next_idx)

abbrev pub full_segment : ℕ → Option Segment → Bool
full_segment limit none = true
full_segment limit (some seg) = leb limit seg.size

-- `l.active == nil || l.active.size >= l.opts.SegmentSize`
unfoldable pub must_roll : Log → Bool
must_roll l = elim l.active [
  | none ↦ true
  | some a ↦ full_segment l.opts.segment_size (get_elem? l.segments a)
]

abbrev pub at_position : ℕ → Option Segment → Option (ℕ × Segment)
at_position a none = none
at_position a (some seg) = some (a, seg)

-- The segment that `active` points to.
unfoldable pub active_segment : Log → Option (ℕ × Segment)
active_segment l = elim l.active [ none ↦ none | some a ↦ at_position a (get_elem? l.segments a) ]

-- The record is on disk: the index gets its entry, and the next offset moves on.
abbrev pub appended : Wal → ℕ → Segment → Result Segment × Disk → Result ℕ × Wal
appended w a seg (err e, disk) = (err e, record w { disk = disk })
appended w a seg (ok seg', disk) = (
  ok w.log.next_idx,
  record w {
    log = record (w.log) {
      segments = set_segment a seg' w.log.segments;
      index =
          w.log.index
          ++ (record {
            seg_idx = length w.log.segments - 1;
            record_idx = sub64 w.log.next_idx seg.base_index;
          }
              ∷ []);
      next_idx = u64 (w.log.next_idx + 1);
    };
    disk = disk;
  },
)

unfoldable pub append_to : Os → Wal → Bytes → Option (ℕ × Segment) → Result ℕ × Wal
append_to os w p none = (err panic, w)
append_to os w p (some (a, seg)) = appended w a seg (Segment.append os w.disk seg p)

unfoldable pub append_active : Os → Wal → Bytes → Result ℕ × Wal
unfolding append_to
append_active os w p = append_to os w p (active_segment w.log)

abbrev pub append_rolled : Os → Bytes → Option Error × Wal → Result ℕ × Wal
append_rolled os p (some e, w) = (err e, w)
append_rolled os p (none, w) = append_active os w p

unfoldable pub append : Os → Bytes → Wal → Result ℕ × Wal
unfolding must_roll roll_segment append_active
append os p w =
    if w.log.closed_flag
    then (err closed, w)
    else if must_roll w.log
    then append_rolled os p (roll_segment os w)
    else append_active os w p

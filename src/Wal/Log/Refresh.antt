-- ===== src/Wal/Log/Refresh.antt =====
-- refresh of pkg/wal/wal.go: look for what other processes appended. A count `int(x)` of a uint64 is
-- taken to be `x`, so it stands for runs whose record numbers stay below 2 ^ 63.
use nile.Prelude.{
  ℕ, ◌+◌, ◌-◌, Bytes, u64, sub64, length, ltb, ◌==◌, ◌||◌, if◌then◌else◌, Bool, false, Option, none,
  some, List, [], ◌∷◌, ◌++◌,
}
use nile.Wal.Record.{Error}
use nile.Wal.Name.{segment_name}
use nile.Wal.Disk.{Result, ok, err, Os, stat, File, Disk, find_file}
use nile.Wal.Segment.{Segment, Read, read_all, list_segments}
use nile.Wal.Log.{Log, entries_from}
use nile.Wal.Log.Recovery.{add_segment}

-- `known[baseIdx]`
unfoldable pub known : ℕ → List Segment → Bool
known base_index [] = false
known base_index (s ∷ ss) = s.base_index == base_index || known base_index ss

abbrev pub file_size : Option File → ℕ → ℕ
file_size none old = old
file_size (some f) old = length f.content

-- info.Size() of os.Stat, or the old value if that fails
unfoldable pub stat_size : Os → Disk → Bytes → ℕ → ℕ
stat_size os disk path old =
    if os.succeeds stat path then file_size (find_file path disk.stream) old else old

-- An error ends refresh and leaves what it has changed so far.
abbrev pub add_discovered : Os → Disk → ℕ → Bytes → Log → Read → Option Error × Log
add_discovered os disk base_index path l r = elim r.error [
  | some e ↦ (some e, l)
  | none ↦ (
    none,
    add_segment l (record { path = path; base_index = base_index; size = stat_size os disk path 0 })
        (length r.records),
  )
]

-- `olds` are the segments that were there when refresh began.
unfoldable pub refresh_one : Os → Disk → List Segment → ℕ → Log → Option Error × Log
unfolding add_segment stat_size
refresh_one os disk olds base_index l =
    if known base_index olds
    then (none, l)
    else add_discovered os disk base_index (segment_name base_index) l
        (read_all os disk (segment_name base_index))

-- `if err != nil { return err }`, with the log passed on.
abbrev pub then_log : Option Error × Log → (Log → Option Error × Log) → Option Error × Log
then_log (some e, l) next = (some e, l)
then_log (none, l) next = next l

unfoldable pub refresh_new : Os → Disk → List Segment → List ℕ → Log → Option Error × Log
refresh_new os disk olds [] l = (none, l)
refresh_new os disk olds (base_index ∷ rest) l =
    then_log (refresh_one os disk olds base_index l) (λ l'. refresh_new os disk olds rest l')

unfoldable pub last_segment : List Segment → Option Segment
last_segment [] = none
last_segment (s ∷ []) = some s
last_segment (s ∷ (t ∷ ts)) = last_segment (t ∷ ts)

unfoldable pub resize_last : ℕ → List Segment → List Segment
resize_last n [] = []
resize_last n (s ∷ []) = record s { size = n } ∷ []
resize_last n (s ∷ (t ∷ ts)) = s ∷ resize_last n (t ∷ ts)

-- The records of the last segment from `known_count` on.
unfoldable pub add_records : Os → Disk → Segment → ℕ → Log → Log
unfolding resize_last stat_size
add_records os disk seg count l =
    let known_count = sub64 l.next_idx seg.base_index in
    if ltb known_count count
    then record l {
      index = l.index ++ entries_from (length l.segments - 1) known_count (count - known_count);
      next_idx = u64 (seg.base_index + count);
      segments = resize_last (stat_size os disk seg.path seg.size) l.segments;
    }
    else l

abbrev pub add_reread : Os → Disk → Segment → Log → Read → Option Error × Log
add_reread os disk seg l r = elim r.error [
  | some e ↦ (some e, l)
  | none ↦ (none, add_records os disk seg (length r.records) l)
]

abbrev pub reread_last : Os → Disk → Log → Option Segment → Option Error × Log
reread_last os disk l none = (none, l)
reread_last os disk l (some seg) = add_reread os disk seg l (read_all os disk seg.path)

unfoldable pub refresh_last : Os → Disk → Log → Option Error × Log
refresh_last os disk l = reread_last os disk l (last_segment l.segments)

abbrev pub refresh_listed : Os → Disk → Log → Result (List ℕ) → Option Error × Log
refresh_listed os disk l (err e) = (some e, l)
refresh_listed os disk l (ok indices) =
    then_log (refresh_new os disk l.segments indices l) (refresh_last os disk)

unfoldable pub refresh : Os → Disk → Log → Option Error × Log
refresh os disk l = refresh_listed os disk l (list_segments os disk)

-- ===== src/Wal/Segment.antt =====
-- pkg/wal/segment.go: one segment file.
pub mod Reading
pub mod Soundness
pub mod Defects
use nile.Prelude.{
  ℕ, zero, suc, ◌+◌, Bytes, length, if◌then◌else◌, Bool, true, false, Option, none, some, List, [],
  ◌∷◌, ◌++◌,
}
use nile.Wal.Record.{
  Error, truncated, io, out_of_fuel, payload, end_of_file, failed, encode_record, decode_record,
}
use nile.Wal.Name.{segment_name, parse_segment_name, sort}
use nile.Wal.Disk.{
  Result, ok, err, Os, open_read, open_append, stat, write, fdatasync, read_dir, File, Disk,
  find_file, append_file, written,
}

-- The open file handle is left out: a segment's file is the one at `path`.
pub record Segment : Type 0 where
  pub path : Bytes
  pub base_index : ℕ
  pub size : ℕ

-- What readAll returns: the records, and the error of the one that could not be read.
pub record Read : Type 0 where
  pub records : List Bytes
  pub error : Option Error

-- A partial record at the end of the file is discarded.
abbrev pub reported : Error → Option Error
reported truncated = none
reported e = some e

unfoldable pub read_loop : ℕ → Bytes → List Bytes → Read
read_loop zero src records = record { records = records; error = some out_of_fuel }
read_loop (suc fuel) src records = elim (decode_record src) [
  | payload p rest ↦ read_loop fuel rest (records ++ (p ∷ []))
  | end_of_file ↦ record { records = records; error = none }
  | failed e ↦ record { records = records; error = reported e }
]

-- The loop of readAll over the content of the file. A record takes eight bytes at least.
unfoldable pub read_content : Bytes → Read
unfolding read_loop
read_content src = read_loop (suc (length src)) src []

abbrev pub read_found : Option File → Read
read_found none = record { records = []; error = some io }
read_found (some f) =
    if f.is_dir then record { records = []; error = some io } else read_content f.content

unfoldable pub read_all : Os → Disk → Bytes → Read
read_all os disk path =
    if os.succeeds open_read path
    then read_found (find_file path disk.stream)
    else record { records = []; error = some io }

abbrev pub open_found : Bool → Bytes → ℕ → Option File → Result Segment
open_found stat_ok path base_index none = err io
open_found stat_ok path base_index (some f) =
    if stat_ok
    then ok (record { path = path; base_index = base_index; size = length f.content })
    else err io

unfoldable pub open_segment : Os → Disk → ℕ → Result Segment
open_segment os disk base_index =
    let path = segment_name base_index in
    if os.succeeds open_read path
    then open_found (os.succeeds stat path) path base_index (find_file path disk.stream)
    else err io

-- The size of a file that was there before is not read: it is taken as 0.
unfoldable pub create_segment : Os → Disk → ℕ → Result Segment × Disk
create_segment os disk base_index =
    let path = segment_name base_index in
    if os.succeeds open_append path
    then (
      ok (record { path = path; base_index = base_index; size = 0 }),
      record disk { stream = append_file path [] disk.stream },
    )
    else (err io, disk)

-- (*segment).append
unfoldable pub append : Os → Disk → Segment → Bytes → Result Segment × Disk
append os disk seg p =
    let all = os.succeeds write seg.path in
    let bytes = encode_record p in
    let disk' = record disk { stream = append_file seg.path (written all os bytes) disk.stream } in
    if all
    then if os.succeeds fdatasync seg.path
      then (ok (record seg { size = seg.size + length bytes }), disk')
      else (err io, disk')
    else (err io, disk')

abbrev pub list_entry : Bool → Option ℕ → List ℕ → List ℕ
list_entry true idx indices = indices
list_entry false none indices = indices
list_entry false (some idx) indices = idx ∷ indices

unfoldable pub parsed_indices : List File → List ℕ
parsed_indices [] = []
parsed_indices (e ∷ entries) =
    list_entry e.is_dir (parse_segment_name e.name) (parsed_indices entries)

unfoldable pub list_segments : Os → Disk → Result (List ℕ)
unfolding parsed_indices
list_segments os disk =
    if os.succeeds read_dir [] then ok (sort (parsed_indices disk.stream)) else err io

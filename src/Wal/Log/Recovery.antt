-- ===== src/Wal/Log/Recovery.antt =====
-- Open and recover of pkg/wal/wal.go: the segments and the index are rebuilt from the files.
use nile.Prelude.{ℕ, Bytes, ascii, length, if◌then◌else◌, false, none, some, List, [], ◌∷◌, ◌++◌}
use nile.Wal.Record.{io}
use nile.Wal.Disk.{Result, ok, err, Os, mkdir_all, open_append, Disk, CursorState}
use nile.Wal.Segment.{Segment, Read, read_all, open_segment, list_segments}
use nile.Wal.Cursor.{load}
use nile.Wal.Log.{Options, Log, entries_from, raise_next}

-- The body of the loop up to the last `if`: one more segment with its records.
unfoldable pub add_segment : Log → Segment → ℕ → Log
add_segment l seg count = record l {
  segments = l.segments ++ (seg ∷ []);
  index = l.index ++ entries_from (length l.segments) 0 count;
  next_idx = raise_next seg.base_index count l.next_idx;
}

-- The last segment is opened again for appending, and becomes the active one.
abbrev pub reopen : Os → List ℕ → Bytes → ℕ → Log → Result Log
reopen os [] path seg_idx l =
    if os.succeeds open_append path then ok (record l { active = some seg_idx }) else err io
reopen os (_ ∷ _) path seg_idx l = ok l

abbrev pub add_read : Os → List ℕ → Log → Segment → Read → Result Log
add_read os rest l seg r = elim r.error [
  | some e ↦ err e
  | none ↦ reopen os rest seg.path (length l.segments) (add_segment l seg (length r.records))
]

abbrev pub recover_opened : Os → Disk → List ℕ → Log → Result Segment → Result Log
recover_opened os disk rest l (err e) = err e
recover_opened os disk rest l (ok seg) = add_read os rest l seg (read_all os disk seg.path)

unfoldable pub recover_one : Os → Disk → List ℕ → ℕ → Log → Result Log
recover_one os disk rest base_index l =
    recover_opened os disk rest l (open_segment os disk base_index)

abbrev pub then_ok : Result Log → (Log → Result Log) → Result Log
then_ok (err e) next = err e
then_ok (ok l) next = next l

unfoldable pub recover_loop : Os → Disk → List ℕ → Log → Result Log
recover_loop os disk [] l = ok l
recover_loop os disk (base_index ∷ rest) l =
    then_ok (recover_one os disk rest base_index l) (λ l'. recover_loop os disk rest l')

abbrev pub recover_listed : Os → Disk → List ℕ → Log → Result Log
recover_listed os disk [] l = ok l
recover_listed os disk (i ∷ is) l =
    recover_loop os disk (i ∷ is) (record l { index = []; segments = [] })

abbrev pub recover_indices : Os → Disk → Log → Result (List ℕ) → Result Log
recover_indices os disk l (err e) = err e
recover_indices os disk l (ok indices) = recover_listed os disk indices l

unfoldable pub recover : Os → Disk → Log → Result Log
recover os disk l = recover_indices os disk l (list_segments os disk)

-- The `&Log{…}` of Open, before recovery.
abbrev pub fresh_log : Options → CursorState → Log
fresh_log opts state = record {
  opts = opts;
  segments = [];
  active = none;
  next_idx = 0;
  cur = state;
  closed_flag = false;
  index = [];
}

abbrev pub recover_loaded : Os → Options → Disk → Result CursorState → Result Log
recover_loaded os opts disk (err e) = err e
recover_loaded os opts disk (ok state) = recover os disk (fresh_log opts state)

unfoldable pub open_log : Os → Options → Disk → Result Log
open_log os opts disk =
    if os.succeeds mkdir_all (ascii "stream")
    then recover_loaded os opts disk (load os disk)
    else err io

-- ===== src/Wal/Segment/Defects.antt =====
-- (*segment).append of pkg/wal/segment.go behind a torn record, and above the record limit.
use nile.Prelude.{
  ℕ, ◌+◌, ◌<◌, ◌≤◌, ◌≡◌, refl, sym, ap, ◌∙◌, arith, Bytes, IsU32, length, All, some, List, [], ◌++◌,
  append_assoc, append-nil, length-append,
}
use nile.Wal.Record.{
  record_too_large, max_record_payload, put_uint32, encode_record, failed, decode_record,
}
use nile.Wal.Record.RoundTrip.{decode-encode_record}
use nile.Wal.Record.Torn.{decode_short_payload}
use nile.Wal.Disk.{ok, healthy, Disk, plain, find_file}
use nile.Wal.Disk.Files.{find-append_file}
use nile.Wal.Segment
use nile.Wal.Segment.{Segment, Read, read_loop, read_content, read_found, read_all}
use nile.Wal.Segment.Reading.{encode_all, Fits, whole, read_content-truncated, read_content-records}

-- After a successful append the segment's file holds what it held, and the record.
append_reads :
    (disk : Disk) (seg : Segment) (p content : Bytes)
    → find_file seg.path disk.stream ≡ some (plain seg.path content)
    → read_all healthy (Segment.append healthy disk seg p).1 seg.path
      ≡ read_content (content ++ encode_record p)
unfolding Segment.append read_all
append_reads disk seg p content h =
    ap read_found
      (find-append_file seg.path (encode_record p) disk.stream (plain seg.path content) h)

-- A segment file ends in a record that a crash cut short: its header announces `v` bytes, and `part` is
-- there. If a record appended behind these bytes does not fill the gap, the append succeeds, and reading the
-- segment then gives the old records alone, without an error. `v` is within the record limit.
pub append_after_torn :
    (disk : Disk) (seg : Segment) (ps : List Bytes) (v c : ℕ) (part p : Bytes)
    → find_file seg.path disk.stream
      ≡ some (plain seg.path (encode_all ps ++ (put_uint32 v ++ (put_uint32 c ++ part))))
    → All Fits ps
    → v ≤ max_record_payload
    → IsU32 c
    → length part + length (encode_record p) < v
    → ((Segment.append healthy disk seg p).0
        ≡ ok (record seg { size = seg.size + length (encode_record p) }))
      × (read_all healthy (Segment.append healthy disk seg p).1 seg.path ≡ whole ps)
append_after_torn disk seg ps v c part p h fit fits hc gap = (
  unfold Segment.append in refl,
  append_reads disk seg p _ h
      ∙ ap read_content
          (append_assoc (encode_all ps) (put_uint32 v ++ (put_uint32 c ++ part)) (encode_record p))
      ∙ read_content-truncated ps (put_uint32 v ++ (put_uint32 c ++ (part ++ encode_record p))) fit
          (decode_short_payload v c (part ++ encode_record p) fits hc
            (omega (arith, length-append part (encode_record p)))),
)

-- A payload above the record limit is appended without an error; reading the segment then stops
-- there with one. Its length is below 2 ^ 32.
pub append_too_large :
    (disk : Disk) (seg : Segment) (ps : List Bytes) (p : Bytes)
    → find_file seg.path disk.stream ≡ some (plain seg.path (encode_all ps))
    → All Fits ps
    → max_record_payload < length p
    → IsU32 (length p)
    → ((Segment.append healthy disk seg p).0
        ≡ ok (record seg { size = seg.size + length (encode_record p) }))
      × (read_all healthy (Segment.append healthy disk seg p).1 seg.path
          ≡ record { records = ps; error = some record_too_large })
unfolding read_content read_loop
append_too_large disk seg ps p h fit big small = (
  unfold Segment.append in refl,
  append_reads disk seg p (encode_all ps) h
      ∙ read_content-records ps (encode_record p) fit
      ∙ rw (refused, read_loop) (rw append-nil),
)
  where
    refused : decode_record (encode_record p) ≡ failed record_too_large
    refused =
        ap decode_record (sym (append-nil (encode_record p)))
        ∙ decode-encode_record p [] small
        ∙ ground (arith, big)

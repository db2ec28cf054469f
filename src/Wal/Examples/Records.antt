-- ===== src/Wal/Examples/Records.antt =====
-- The theorems on records, segments and names, at small inputs.
use nile.Prelude.{
  ℕ, ◌+◌, ◌≡◌, ◌≤◌, refl, arith, Bytes, ascii, IsByte, length, take, All, some, [], ◌∷◌, ◌++◌,
}
use nile.Wal.Record.{
  record_too_large, max_record_payload, put_uint32, checksum_ieee, encode_record, payload,
  decode_record, read_full,
}
use nile.Wal.Record.RoundTrip.{decode-encode_record}
use nile.Wal.Record.Inversion.{decode_record_sound}
use nile.Wal.Name.{digits, segment_name, parse_segment_name}
use nile.Wal.Name.RoundTrip.{parse-segment_name}
use nile.Wal.Disk.{ok, healthy, Disk, empty_disk, plain, find_file}
use nile.Wal.Segment
use nile.Wal.Segment.{Segment, Read, read_content, read_all}
use nile.Wal.Segment.Reading.{encode_all, Fits, whole, read_content-torn}
use nile.Wal.Segment.Soundness.{Stopped, read_content_sound}
use nile.Wal.Segment.Defects.{append_after_torn, append_too_large}
use nile.Wal.Examples.{zeros, length-zeros}

parse-segment_name_example : parse_segment_name (segment_name 42) ≡ some 42
parse-segment_name_example = parse-segment_name 42 (omega arith)

decode-encode_record_example :
    decode_record (encode_record (ascii "a") ++ (5 ∷ [])) ≡ payload (ascii "a") (5 ∷ [])
decode-encode_record_example = decode-encode_record (ascii "a") (5 ∷ []) (omega arith)

-- A record of one byte, and one byte of the next.
abbrev bytes : Bytes
bytes = 1 ∷ 0 ∷ 0 ∷ 0 ∷ 67 ∷ 190 ∷ 183 ∷ 232 ∷ 97 ∷ 5 ∷ []

bytes-IsByte : All IsByte bytes
bytes-IsByte = (
  omega arith,
  (
    omega arith,
    (
      omega arith,
      (
        omega arith,
        (
          omega arith,
          (omega arith, (omega arith, (omega arith, (omega arith, (omega arith, tt))))),
        ),
      ),
    ),
  ),
)

decode_record_sound_example :
    (bytes ≡ encode_record (ascii "a") ++ (5 ∷ [])) × (1 ≤ max_record_payload)
unfolding decode_record read_full checksum_ieee
decode_record_sound_example = decode_record_sound bytes (ascii "a") (5 ∷ []) bytes-IsByte refl

read_content-torn_example :
    read_content (encode_all (ascii "a" ∷ []) ++ take 5 (encode_record (ascii "b")))
    ≡ whole (ascii "a" ∷ [])
unfolding encode_record
read_content-torn_example =
    read_content-torn (ascii "a" ∷ []) (ascii "b") 5 (omega arith, tt) (omega arith) (omega arith)

read_content_sound_example :
    (tail : Bytes) × (bytes ≡ encode_all (read_content bytes).records ++ tail)
    × All Fits (read_content bytes).records
    × Stopped tail (read_content bytes).error
read_content_sound_example = read_content_sound bytes bytes-IsByte

abbrev base : ℕ
base = 42

abbrev path : Bytes
path = segment_name 0

abbrev segment : ℕ → Segment
segment n = record { path = path; base_index = 0; size = n }

-- One record, and a header that announces 100 bytes, with one of them.
abbrev torn_disk : Disk
torn_disk = record empty_disk {
  stream =
      plain path (encode_all (ascii "a" ∷ []) ++ (put_uint32 100 ++ (put_uint32 7 ++ (1 ∷ []))))
      ∷ [];
}

append_after_torn_example :
    ((Segment.append healthy torn_disk (segment 18) (ascii "b")).0
      ≡ ok (segment (18 + length (encode_record (ascii "b")))))
    × (read_all healthy (Segment.append healthy torn_disk (segment 18) (ascii "b")).1 path
        ≡ whole (ascii "a" ∷ []))
unfolding find_file encode_record segment_name digits
append_after_torn_example =
    append_after_torn torn_disk (segment 18) (ascii "a" ∷ []) 100 7 (1 ∷ []) (ascii "b") refl
      (omega arith, tt) (omega arith) (omega arith) (omega arith)

abbrev one_disk : Disk
one_disk = record empty_disk { stream = plain path (encode_all (ascii "a" ∷ [])) ∷ [] }

append_too_large_example :
    ((Segment.append healthy one_disk (segment 9) (zeros 67108865)).0
      ≡ ok (segment (9 + length (encode_record (zeros 67108865)))))
    × (read_all healthy (Segment.append healthy one_disk (segment 9) (zeros 67108865)).1 path
        ≡ record { records = ascii "a" ∷ []; error = some record_too_large })
unfolding find_file segment_name digits
append_too_large_example =
    append_too_large one_disk (segment 9) (ascii "a" ∷ []) (zeros 67108865) refl (omega arith, tt)
      (omega (arith, length-zeros 67108865)) (omega (arith, length-zeros 67108865))

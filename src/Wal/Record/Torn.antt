-- ===== src/Wal/Record/Torn.antt =====
-- decodeRecord of pkg/wal/record.go on a record that was cut short.
use nile.Prelude.{
  ℕ, zero, suc, ◌≤◌, ◌<◌, ◌+◌, ◌-◌, ◌≡◌, refl, ◌∙◌, arith, Bytes, IsU32, u32, length, take, ltb,
  Bool-cases, inl, inr, length-take_le, [], ◌∷◌, ◌++◌,
}
use nile.Wal.Record.{
  truncated, max_record_payload, put_uint32, checksum_ieee, encode_record, read_full, failed,
  check_payload, decode_body, decode_record,
}
use nile.Wal.Record.RoundTrip.{decode_record-header, read_full-short, checksum-IsU32}

pub length-encode_record : (p : Bytes) → length (encode_record p) ≡ 8 + length p
unfolding encode_record
length-encode_record p = omega arith

decode_short_header :
    (src : Bytes) → 0 < length src → length src < 8 → decode_record src ≡ failed truncated
unfolding decode_record decode_body
decode_short_header src h k = rw (read_full-short 8 src h k)

check_payload-short :
    (c n : ℕ) (src : Bytes) → length src < n → check_payload c (read_full n src) ≡ failed truncated
unfolding check_payload read_full
check_payload-short c zero src h = absurd (omega arith)
check_payload-short c (suc n) [] h = refl
check_payload-short c (suc n) (b ∷ src) h = ground arith

-- A header that announces more bytes than follow it.
pub decode_short_payload :
    (v c : ℕ) (rest : Bytes)
    → v ≤ max_record_payload
    → IsU32 c
    → length rest < v
    → decode_record (put_uint32 v ++ (put_uint32 c ++ rest)) ≡ failed truncated
decode_short_payload v c rest h hc k =
    decode_record-header v c rest (omega arith) hc ∙ ground (arith, check_payload-short c v rest k)

take_encoding :
    (j : ℕ) (p : Bytes)
    → take (suc (suc (suc (suc (suc (suc (suc (suc j)))))))) (encode_record p)
      ≡ put_uint32 (u32 (length p)) ++ (put_uint32 (checksum_ieee p) ++ take j p)
unfolding encode_record
take_encoding j p = refl

-- Every proper, nonempty prefix of a record within the size limit decodes as truncated.
pub decode_record-torn :
    (p : Bytes) (k : ℕ)
    → length p ≤ max_record_payload
    → 0 < k
    → k < length (encode_record p)
    → decode_record (take k (encode_record p)) ≡ failed truncated
decode_record-torn p k fits pos short =
    let n : length (take k (encode_record p)) ≡ k =
      length-take_le k (encode_record p) (omega arith) in
    elim (Bool-cases (ltb k 8)) [
      | inl e ↦ decode_short_header (take k (encode_record p)) (omega arith) (ground arith)
      | inr e ↦
          let j = k - 8 in
          let k_eq : k ≡ suc (suc (suc (suc (suc (suc (suc (suc j))))))) = ground arith in
          let len : u32 (length p) ≡ length p = omega arith in
          let cut : length (take j p) ≡ j =
            length-take_le j p (omega (arith, length-encode_record p)) in
          rw k_eq (
            rw (take_encoding j p, len)
              (decode_short_payload (length p) (checksum_ieee p) (take j p) fits (checksum-IsU32 p)
                (omega (arith, length-encode_record p))))
    ]

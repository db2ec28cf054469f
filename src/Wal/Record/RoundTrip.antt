-- ===== src/Wal/Record/RoundTrip.antt =====
-- encodeRecord and decodeRecord of pkg/wal/record.go against each other.
use nile.Prelude.{
  ℕ, zero, suc, ◌≤◌, ◌<◌, ◌≡◌, refl, ap, ◌∙◌, arith, Bytes, IsU32, u32, length, take, drop, ltb,
  if◌then◌else◌, length-append, take-append_length, drop-append_length, [], ◌∷◌, ◌++◌,
}
use nile.Wal.Record.{
  record_too_large, max_record_payload, put_uint32, uint32, checksum_ieee, encode_record, full,
  unexpected_eof, read_full, payload, failed, check_payload, decode_body, decode_record,
}

pub uint32-put_uint32 : (v : ℕ) → IsU32 v → uint32 (put_uint32 v) ≡ v
uint32-put_uint32 v h = omega arith

pub checksum-IsU32 : (p : Bytes) → IsU32 (checksum_ieee p)
unfolding checksum_ieee
checksum-IsU32 p = omega arith

-- Enough bytes: they are read, and the rest is left.
pub read_full-full :
    (n : ℕ) (src : Bytes) → n ≤ length src → read_full n src ≡ full (take n src) (drop n src)
unfolding read_full
read_full-full zero src h = refl
read_full-full (suc n) [] h = absurd (omega arith)
read_full-full (suc n) (b ∷ src) h = ground arith

pub read_full-append :
    (n : ℕ) (p rest : Bytes) → length p ≡ n → read_full n (p ++ rest) ≡ full p rest
read_full-append n p rest h =
    read_full-full n (p ++ rest) (omega (arith, length-append p rest))
    ∙ rw (take-append_length n p rest h, drop-append_length n p rest h)

-- Some bytes, and not enough.
pub read_full-short :
    (n : ℕ) (src : Bytes) → 0 < length src → length src < n → read_full n src ≡ unexpected_eof
unfolding read_full
read_full-short zero src h k = absurd (omega arith)
read_full-short (suc n) [] h k = absurd (omega arith)
read_full-short (suc n) (b ∷ src) h k = ground arith

decode_body-header :
    (v c : ℕ) (rest : Bytes)
    → IsU32 v
    → IsU32 c
    → decode_body (full (put_uint32 v ++ put_uint32 c) rest) ≡ (
        if ltb max_record_payload v
        then failed record_too_large
        else check_payload c (read_full v rest))
unfolding decode_body
decode_body-header v c rest hv hc = rw (uint32-put_uint32 v hv, uint32-put_uint32 c hc)

-- Decoding what begins with a whole header goes by the header's two fields.
pub decode_record-header :
    (v c : ℕ) (rest : Bytes)
    → IsU32 v
    → IsU32 c
    → decode_record (put_uint32 v ++ (put_uint32 c ++ rest)) ≡ (
        if ltb max_record_payload v
        then failed record_too_large
        else check_payload c (read_full v rest))
unfolding decode_record
decode_record-header v c rest hv hc =
    ap decode_body (read_full-append 8 (put_uint32 v ++ put_uint32 c) rest refl)
    ∙ decode_body-header v c rest hv hc

-- Whatever follows a record, decoding it gives its payload and leaves what follows, up to the size limit;
-- a payload above the limit, which encodeRecord writes all the same, is refused.
pub decode-encode_record :
    (p rest : Bytes)
    → IsU32 (length p)
    → decode_record (encode_record p ++ rest)
      ≡ (if ltb max_record_payload (length p) then failed record_too_large else payload p rest)
unfolding encode_record check_payload
decode-encode_record p rest h =
    let e : u32 (length p) ≡ length p = omega arith in
    rw
      (
        e,
        decode_record-header (length p) (checksum_ieee p) (p ++ rest) h (checksum-IsU32 p),
        read_full-append (length p) p rest refl,
      )
      (ground arith)

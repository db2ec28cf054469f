-- ===== src/Wal/Record/Inversion.antt =====
-- What a successful decodeRecord of pkg/wal/record.go tells of the bytes that it read.
use nile.Prelude.{
  ℕ, zero, suc, ◌≤◌, ◌≡◌, sym, ap, ap₂, ◌∙◌, arith, Bytes, IsByte, u32, length, take, drop, All,
  ltb, Bool-cases, inl, inr, take-append-drop, length-drop, length-take_le, [], ◌∷◌, ◌++◌,
}
use nile.Wal.Record.{
  max_record_payload, put_uint32, uint32, checksum_ieee, encode_record, ReadFull, full, eof,
  unexpected_eof, read_full, payload, check_payload, decode_body, decode_record,
}

pub All-append_inv : (xs ys : Bytes) → All IsByte (xs ++ ys) → All IsByte xs × All IsByte ys
All-append_inv [] ys h = (tt, h)
All-append_inv (x ∷ xs) ys h = ((h.0, (All-append_inv xs ys h.1).0), (All-append_inv xs ys h.1).1)

pub read_full_inv :
    (n : ℕ) (src a b : Bytes) → read_full n src ≡ full a b → (length a ≡ n) × (src ≡ a ++ b)
unfolding read_full
read_full_inv zero src a b h = ground arith
read_full_inv (suc n) [] a b h = absurd (cc)
read_full_inv (suc n) (x ∷ src) a b h = ground (arith, take-append-drop n src, length-take_le n src)

check_payload_inv :
    (c : ℕ) (r : ReadFull) (p rest : Bytes)
    → check_payload c r ≡ payload p rest
    → (r ≡ full p rest) × (checksum_ieee p ≡ c)
unfolding check_payload
check_payload_inv c eof p rest h = absurd (cc)
check_payload_inv c unexpected_eof p rest h = absurd (cc)
check_payload_inv c (full q r) p rest h = ground arith

pub decode_body_inv :
    (r : ReadFull) (p rest : Bytes)
    → decode_body r ≡ payload p rest
    → (hdr : Bytes) × (r ≡ full hdr (p ++ rest))
      × (uint32 (take 4 hdr) ≡ length p)
      × (uint32 (drop 4 hdr) ≡ checksum_ieee p)
      × (length p ≤ max_record_payload)
unfolding decode_body
decode_body_inv eof p rest h = absurd (cc)
decode_body_inv unexpected_eof p rest h = absurd (cc)
decode_body_inv (full hdr body) p rest h =
    elim (Bool-cases (ltb max_record_payload (uint32 (take 4 hdr)))) [
      | inl e ↦ absurd (cc (rw e at h))
      | inr e ↦
          let k : check_payload (uint32 (drop 4 hdr)) (read_full (uint32 (take 4 hdr)) body)
              ≡ payload p rest =
            rw e at h in
          let (r, s) = check_payload_inv _ (read_full (uint32 (take 4 hdr)) body) p rest k in
          let (l, m) = read_full_inv _ body p rest r in
          (hdr, ap (full hdr) m, sym l, sym s, ground (arith, l))
    ]

put_uint32-uint32 : (b : Bytes) → length b ≡ 4 → All IsByte b → put_uint32 (uint32 b) ≡ b
put_uint32-uint32 (a ∷ b ∷ c ∷ d ∷ []) h k = ground arith
put_uint32-uint32 [] h k = absurd (omega arith)
put_uint32-uint32 (a ∷ []) h k = absurd (omega arith)
put_uint32-uint32 (a ∷ b ∷ []) h k = absurd (omega arith)
put_uint32-uint32 (a ∷ b ∷ c ∷ []) h k = absurd (omega arith)
put_uint32-uint32 (a ∷ b ∷ c ∷ d ∷ e ∷ r) h k = absurd (omega arith)

-- Eight bytes are the two fields that they spell.
header_fields :
    (hdr : Bytes)
    → length hdr ≡ 8
    → All IsByte hdr
    → hdr ≡ put_uint32 (uint32 (take 4 hdr)) ++ put_uint32 (uint32 (drop 4 hdr))
header_fields hdr n h =
    let split : take 4 hdr ++ drop 4 hdr ≡ hdr = take-append-drop 4 hdr in
    let (lo, hi) = All-append_inv (take 4 hdr) (drop 4 hdr) (rw split h) in
    let lo_eq = put_uint32-uint32 (take 4 hdr) (length-take_le 4 hdr (omega arith)) lo in
    let hi_eq = put_uint32-uint32 (drop 4 hdr) (omega (arith, length-drop 4 hdr)) hi in
    sym split ∙ ap₂ ◌++◌ (sym lo_eq) (sym hi_eq)

header_of :
    (v c : ℕ) (hdr body : Bytes)
    → hdr ≡ put_uint32 v ++ put_uint32 c
    → hdr ++ body ≡ put_uint32 v ++ (put_uint32 c ++ body)
header_of v c hdr body e = rw e

-- A record is decoded only from bytes that are exactly its encoding, followed by what is left; the
-- payload is within the size limit.
pub decode_record_sound :
    (src p rest : Bytes)
    → All IsByte src
    → decode_record src ≡ payload p rest
    → (src ≡ encode_record p ++ rest) × (length p ≤ max_record_payload)
unfolding decode_record encode_record
decode_record_sound src p rest h e =
    let (hdr, r, l, c, fits) = decode_body_inv (read_full 8 src) p rest e in
    let (n, s) = read_full_inv 8 src hdr (p ++ rest) r in
    let bytes : All IsByte hdr = (All-append_inv hdr (p ++ rest) (rw s at h)).0 in
    let len : u32 (length p) ≡ length p = omega arith in
    let fields : hdr ≡ put_uint32 (u32 (length p)) ++ put_uint32 (checksum_ieee p) =
      rw (len, ← l, ← c) (header_fields hdr n bytes) in
    (s ∙ header_of (u32 (length p)) (checksum_ieee p) hdr (p ++ rest) fields, fits)

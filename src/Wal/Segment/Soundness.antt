-- ===== src/Wal/Segment/Soundness.antt =====
-- What readAll of pkg/wal/segment.go returns on any file content, well formed or not.
use nile.Prelude.{
  ℕ, zero, suc, ◌<◌, ◌≡◌, ◌≢◌, ◌⊎◌, inl, inr, refl, ap, ◌∙◌, arith, Bytes, IsByte, IsU32, length,
  take, drop, All, Option, none, some, List, [], ◌∷◌, ◌++◌, append-nil, append_assoc,
}
use nile.Wal.Record.{
  Error, truncated, corrupt_record, encode_record, put_uint32, checksum_ieee, Decoded, payload,
  end_of_file, failed, decode_record, read_full, ReadFull, full, eof, unexpected_eof, decode_body,
  check_payload, uint32,
}
use nile.Wal.Record.RoundTrip.{decode_record-header, read_full-append}
use nile.Wal.Record.Inversion.{decode_record_sound, All-append_inv}
use nile.Wal.Segment.{Read, read_loop, read_content, reported}
use nile.Wal.Segment.Reading.{
  encode_all, Fits, prepend, decode_shrinks, read_loop-payload, read_loop-acc, read_content-records,
}

check_payload-end : (c : ℕ) (r : ReadFull) → check_payload c r ≢ end_of_file
unfolding check_payload
check_payload-end c eof h = cc
check_payload-end c unexpected_eof h = cc
check_payload-end c (full p rest) h = ground arith

decode_body-end : (r : ReadFull) → decode_body r ≡ end_of_file → r ≡ eof
unfolding decode_body
decode_body-end eof h = refl
decode_body-end unexpected_eof h = absurd (cc)
decode_body-end (full hdr rest) h =
    absurd (
      ground
        (arith, check_payload-end (uint32 (drop 4 hdr)) (read_full (uint32 (take 4 hdr)) rest)))

read_full-eof : (n : ℕ) (src : Bytes) → read_full n src ≡ eof → src ≡ []
unfolding read_full
read_full-eof zero src h = absurd (cc)
read_full-eof (suc n) [] h = refl
read_full-eof (suc n) (b ∷ src) h = ground arith

decode_record-end : (src : Bytes) → decode_record src ≡ end_of_file → src ≡ []
unfolding decode_record
decode_record-end src h = read_full-eof 8 src (decode_body-end (read_full 8 src) h)

-- Why the loop stopped before `tail`, and its error: at the end of the file or at a partial record there is
-- none.
abbrev pub Stopped : Bytes → Option Error → Type 0
Stopped tail error =
    ((tail ≡ []) × (error ≡ none))
    ⊎ ((decode_record tail ≡ failed truncated) × (error ≡ none))
    ⊎ ((e : Error) × (decode_record tail ≡ failed e) × (e ≢ truncated) × (error ≡ some e))

Stopped-failed :
    (e : Error) (tail : Bytes) → decode_record tail ≡ failed e → Stopped tail (reported e)
Stopped-failed truncated tail h = inr (inl (h, refl))
Stopped-failed e tail h = inr (inr (e, h, (λ q. cc), refl))

abbrev Explained : Bytes → Read → Type 0
Explained src r =
    (tail : Bytes) × (src ≡ encode_all r.records ++ tail)
    × All Fits r.records
    × Stopped tail r.error

Explained-payload :
    (src p rest : Bytes) (r : Read)
    → src ≡ encode_record p ++ rest
    → Fits p
    → Explained rest r
    → Explained src (prepend (p ∷ []) r)
Explained-payload src p rest r e fits (tail, s, h, stop) =
    (tail, e ∙ rw (append_assoc) (ap (λ t. encode_record p ++ t) s), (fits, h), stop)

read_loop-Explained :
    (f : ℕ) (src : Bytes) → All IsByte src → length src < f → Explained src (read_loop f src [])
unfolding read_loop
read_loop-Explained zero src h k = absurd (omega arith)
read_loop-Explained (suc f) src h k =
    go (decode_record src) refl (λ rest. read_loop-Explained f rest)
  where
    go :
        (d : Decoded)
        → decode_record src ≡ d
        → ((rest : Bytes)
            → All IsByte rest
            → length rest < f
            → Explained rest (read_loop f rest []))
        → Explained src (read_loop (suc f) src [])
    go (payload p rest) e ih =
        let (s, fits) = decode_record_sound src p rest h e in
        let bytes : All IsByte rest = (All-append_inv (encode_record p) rest (rw s at h)).1 in
        rw (read_loop-payload f src p rest [] e ∙ read_loop-acc f rest (p ∷ [])) (
          Explained-payload src p rest (read_loop f rest []) s fits
            (ih rest bytes (omega (arith, decode_shrinks src p rest e))))
    go end_of_file e ih = rw (e, read_loop) (src, refl, tt, inl (decode_record-end src e, refl))
    go (failed x) e ih = rw (e, read_loop) (src, refl, tt, Stopped-failed x src e)

-- On any bytes: the records read are exactly what the content begins with, each within the size limit; what
-- is left is empty or a partial record, and there is no error, or it decodes as another error, which is the
-- one returned.
pub read_content_sound :
    (src : Bytes)
    → All IsByte src
    → (tail : Bytes) × (src ≡ encode_all (read_content src).records ++ tail)
      × All Fits (read_content src).records
      × Stopped tail (read_content src).error
unfolding read_content
read_content_sound src h = read_loop-Explained (suc (length src)) src h (omega arith)

-- A record whose payload does not have the checksum of its header ends the reading with an error, and the
-- records before it are returned. The payloads are within the record limit.
pub read_content-corrupt :
    (ps : List Bytes) (p rest : Bytes) (c : ℕ)
    → All Fits ps
    → Fits p
    → IsU32 c
    → checksum_ieee p ≢ c
    → read_content (encode_all ps ++ (put_uint32 (length p) ++ (put_uint32 c ++ (p ++ rest))))
      ≡ record { records = ps; error = some corrupt_record }
unfolding read_content read_loop check_payload
read_content-corrupt ps p rest c h fits hc bad =
    let src = put_uint32 (length p) ++ (put_uint32 c ++ (p ++ rest)) in
    let e : decode_record src ≡ failed corrupt_record =
      decode_record-header (length p) c (p ++ rest) (omega arith) hc
      ∙ rw (read_full-append (length p) p rest refl) (ground arith) in
    read_content-records ps src h ∙ rw (e, read_loop) (rw append-nil)

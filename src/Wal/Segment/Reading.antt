-- ===== src/Wal/Segment/Reading.antt =====
-- readAll of pkg/wal/segment.go on what encodeRecord writes, record after record.
use nile.Prelude.{
  ℕ, zero, suc, ◌+◌, ◌≤◌, ◌<◌, ◌≡◌, refl, ap, ◌∙◌, arith, Bytes, length, take, All, none, List, [],
  ◌∷◌, ◌++◌, length-append, append-nil, append_assoc,
}
use nile.Wal.Record.{
  truncated, max_record_payload, encode_record, Decoded, payload, end_of_file, failed,
  decode_record, read_full,
}
use nile.Wal.Record.RoundTrip.{decode-encode_record}
use nile.Wal.Record.Inversion.{read_full_inv, decode_body_inv}
use nile.Wal.Record.Torn.{decode_record-torn}
use nile.Wal.Segment.{Read, read_loop, read_content}

-- The content of a segment file with the given records.
abbrev pub encode_all : List Bytes → Bytes
encode_all [] = []
encode_all (p ∷ ps) = encode_record p ++ encode_all ps

-- A payload that decodeRecord accepts.
abbrev pub Fits : Bytes → Type 0
Fits p = length p ≤ max_record_payload

abbrev pub prepend : List Bytes → Read → Read
prepend ps r = record { records = ps ++ r.records; error = r.error }

abbrev pub whole : List Bytes → Read
whole ps = record { records = ps; error = none }

pub decode_shrinks :
    (src p rest : Bytes) → decode_record src ≡ payload p rest → length rest + 8 ≤ length src
unfolding decode_record
decode_shrinks src p rest e =
    let (hdr, r, l, c, fits) = decode_body_inv (read_full 8 src) p rest e in
    let (n, s) = read_full_inv 8 src hdr (p ++ rest) r in
    omega (arith, ap length s, length-append hdr (p ++ rest), length-append p rest)

-- One round of the loop, by what the first record decodes to.
pub read_loop-payload :
    (f : ℕ) (src p rest : Bytes) (acc : List Bytes)
    → decode_record src ≡ payload p rest
    → read_loop (suc f) src acc ≡ read_loop f rest (acc ++ (p ∷ []))
unfolding read_loop
read_loop-payload f src p rest acc e = rw (e, read_loop)

-- With fuel for every byte the fuel does not matter.
read_loop-fuel :
    (f g : ℕ) (src : Bytes) (acc : List Bytes)
    → length src < f
    → length src < g
    → read_loop f src acc ≡ read_loop g src acc
unfolding read_loop
read_loop-fuel zero g src acc h k = absurd (omega arith)
read_loop-fuel (suc f) zero src acc h k = absurd (omega arith)
read_loop-fuel (suc f) (suc g) src acc h k = go (decode_record src) refl (λ p rest e.
    read_loop-fuel f g rest (acc ++ (p ∷ [])) (omega (arith, decode_shrinks src p rest e))
      (omega (arith, decode_shrinks src p rest e)))
  where
    go :
        (d : Decoded)
        → decode_record src ≡ d
        → ((p rest : Bytes)
            → decode_record src ≡ payload p rest
            → read_loop f rest (acc ++ (p ∷ [])) ≡ read_loop g rest (acc ++ (p ∷ [])))
        → read_loop (suc f) src acc ≡ read_loop (suc g) src acc
    go (payload p rest) e ih = rw (e, read_loop) (ih p rest e)
    go end_of_file e ih = rw (e, read_loop)
    go (failed x) e ih = rw (e, read_loop)

-- The records read before are kept in front.
pub read_loop-acc :
    (f : ℕ) (src : Bytes) (acc : List Bytes)
    → read_loop f src acc ≡ prepend acc (read_loop f src [])
unfolding read_loop
read_loop-acc zero src acc = rw append-nil
read_loop-acc (suc f) src acc = go (decode_record src) refl (λ rest acc'. read_loop-acc f rest acc')
  where
    go :
        (d : Decoded)
        → decode_record src ≡ d
        → ((rest : Bytes) (acc' : List Bytes)
            → read_loop f rest acc' ≡ prepend acc' (read_loop f rest []))
        → read_loop (suc f) src acc ≡ prepend acc (read_loop (suc f) src [])
    go (payload p rest) e ih =
        rw (e, read_loop)
          (ih rest (acc ++ (p ∷ [])) ∙ rw (ih rest (p ∷ []), append_assoc acc (p ∷ [])))
    go end_of_file e ih = rw (e, read_loop) (rw append-nil)
    go (failed x) e ih = rw (e, read_loop) (rw append-nil)

-- A whole record in front of any content.
pub read_content-record :
    (p rest : Bytes)
    → Fits p
    → read_content (encode_record p ++ rest) ≡ prepend (p ∷ []) (read_content rest)
unfolding read_content
read_content-record p rest fits =
    let src = encode_record p ++ rest in
    let e : decode_record src ≡ payload p rest =
      decode-encode_record p rest (omega arith) ∙ ground arith in
    read_loop-payload (length src) src p rest [] e
    ∙ read_loop-fuel (length src) (suc (length rest)) rest (p ∷ [])
        (omega (arith, decode_shrinks src p rest e)) (omega arith)
    ∙ read_loop-acc (suc (length rest)) rest (p ∷ [])

-- Records one after the other are read in order, and then whatever follows them.
pub read_content-records :
    (ps : List Bytes) (rest : Bytes)
    → All Fits ps
    → read_content (encode_all ps ++ rest) ≡ prepend ps (read_content rest)
read_content-records [] rest h = refl
read_content-records (p ∷ ps) rest (h, hs) = rw append_assoc (
    read_content-record p (encode_all ps ++ rest) h
    ∙ ap (prepend (p ∷ [])) (read_content-records ps rest hs))

read_content-nil : read_content [] ≡ whole []
unfolding read_content read_loop decode_record read_full
read_content-nil = refl

-- A segment file holding the records `ps` reads back as `ps`, with no error.
pub read_content-encode_all :
    (ps : List Bytes) → All Fits ps → read_content (encode_all ps) ≡ whole ps
read_content-encode_all ps h =
    let e : read_content (encode_all ps ++ []) ≡ prepend ps (read_content []) =
      read_content-records ps [] h in
    rw (append-nil, read_content-nil, append-nil) at e

-- A file that ends in bytes which decode as truncated reads as if they were not there.
pub read_content-truncated :
    (ps : List Bytes) (torn : Bytes)
    → All Fits ps
    → decode_record torn ≡ failed truncated
    → read_content (encode_all ps ++ torn) ≡ whole ps
unfolding read_content
read_content-truncated ps torn h e =
    read_content-records ps torn h ∙ rw (e, read_loop) (rw append-nil)

-- A crash in the middle of an append: whatever part of the last record reached the file, the records
-- before it are read, it is dropped, and there is no error.
pub read_content-torn :
    (ps : List Bytes) (p : Bytes) (k : ℕ)
    → All Fits ps
    → Fits p
    → k < length (encode_record p)
    → read_content (encode_all ps ++ take k (encode_record p)) ≡ whole ps
read_content-torn ps p zero h f short = rw append-nil (read_content-encode_all ps h)
read_content-torn ps p (suc k) h f short =
    read_content-truncated ps (take (suc k) (encode_record p)) h
      (decode_record-torn p (suc k) f (omega arith) short)

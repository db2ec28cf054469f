-- ===== src/Wal/Stream/Layout.antt =====
-- One more message at the end of the last part, in each of the lists that stand for the parts.
use nile.Prelude.{
  ℕ, zero, suc, ◌+◌, ◌≤◌, ◌≡◌, refl, sym, ap, ap₂, ◌∙◌, arith, Bytes, IsU64, length, get_elem?,
  some, List, [], ◌∷◌, ◌++◌, length-append, append_assoc, append-nil, bytes_eq_refl,
}
use nile.Wal.Record.{encode_record}
use nile.Wal.Name.{segment_name}
use nile.Wal.Name.Injective.{segment_name-ne}
use nile.Wal.Disk.{append_file}
use nile.Wal.Segment.Reading.{encode_all}
use nile.Wal.Log.{entries_from, set_segment}
use nile.Wal.Stream.{
  Parts, messages, count, segment_of, file_of, segments_from, files_from, index_from, Filled, entry,
}

abbrev pub last_base : ℕ → List Bytes → Parts → ℕ
last_base b ps [] = b
last_base b ps (q ∷ r) = last_base (b + length ps) q r

abbrev pub last_part : List Bytes → Parts → List Bytes
last_part ps [] = ps
last_part ps (q ∷ r) = last_part q r

-- The parts `ps ∷ rest` with `p` behind the last message.
abbrev pub add_last : Bytes → List Bytes → Parts → Parts
add_last p ps [] = (ps ++ (p ∷ [])) ∷ []
add_last p ps (q ∷ r) = ps ∷ add_last p q r

pub encode_all-append :
    (ps qs : List Bytes) → encode_all (ps ++ qs) ≡ encode_all ps ++ encode_all qs
encode_all-append [] qs = refl
encode_all-append (p ∷ ps) qs =
    rw append_assoc (ap (λ t. encode_record p ++ t) (encode_all-append ps qs))

pub encode_all-last :
    (ps : List Bytes) (p : Bytes) → encode_all (ps ++ (p ∷ [])) ≡ encode_all ps ++ encode_record p
encode_all-last ps p = encode_all-append ps (p ∷ []) ∙ rw append-nil

pub last_segment_lem :
    (b : ℕ) (ps : List Bytes) (rest : Parts)
    → get_elem? (segments_from b (ps ∷ rest)) (length rest)
      ≡ some (segment_of (last_base b ps rest) (last_part ps rest))
last_segment_lem b ps [] = refl
last_segment_lem b ps (q ∷ r) = last_segment_lem (b + length ps) q r

pub set_segment-last :
    (b : ℕ) (p : Bytes) (ps : List Bytes) (rest : Parts)
    → set_segment
        (length rest)
        (segment_of (last_base b ps rest) (last_part ps rest ++ (p ∷ [])))
        (segments_from b (ps ∷ rest))
      ≡ segments_from b (add_last p ps rest)
unfolding set_segment
set_segment-last b p ps [] = refl
set_segment-last b p ps (q ∷ r) =
    ap (λ t. segment_of b ps ∷ t) (set_segment-last (b + length ps) p q r)

pub last_base_bound :
    (b : ℕ) (ps : List Bytes) (rest : Parts)
    → (b ≤ last_base b ps rest)
      × (last_base b ps rest + length (last_part ps rest) ≡ b + count (ps ∷ rest))
last_base_bound b ps [] = omega arith
last_base_bound b ps (q ∷ r) = omega (arith, last_base_bound (b + length ps) q r)

pub append_file-last :
    (b : ℕ) (p : Bytes) (ps : List Bytes) (rest : Parts)
    → Filled (ps ∷ rest)
    → IsU64 (b + count (ps ∷ rest))
    → append_file (segment_name (last_base b ps rest)) (encode_record p) (files_from b (ps ∷ rest))
      ≡ files_from b (add_last p ps rest)
unfolding append_file
append_file-last b p ps [] h small = rw (bytes_eq_refl (segment_name b), encode_all-last ps p)
append_file-last b p ps (q ∷ r) h small =
    let far = last_base_bound (b + length ps) q r in
    rw (segment_name-ne b (last_base (b + length ps) q r) (omega arith) (omega arith) (omega arith))
      (ap (λ t. file_of b ps ∷ t) (append_file-last (b + length ps) p q r h.1 (omega arith)))

pub entries_from-last :
    (k i n : ℕ) → entries_from k i (suc n) ≡ entries_from k i n ++ (entry k (i + n) ∷ [])
unfolding entries_from
entries_from-last k i zero = ap (λ (m : ℕ). entry k m ∷ []) (omega arith)
entries_from-last k i (suc n) =
    ap (λ t. entry k i ∷ t)
      (entries_from-last k (i + 1) n
        ∙ ap (λ (m : ℕ). entries_from k (i + 1) n ++ (entry k m ∷ [])) (omega arith))

entries_from-part :
    (k : ℕ) (p : Bytes) (ps : List Bytes)
    → entries_from k 0 (length (ps ++ (p ∷ [])))
      ≡ entries_from k 0 (length ps) ++ (entry k (length ps) ∷ [])
entries_from-part k p ps =
    ap (λ (n : ℕ). entries_from k 0 n) (omega (arith, length-append ps (p ∷ [])))
    ∙ entries_from-last k 0 (length ps)
    ∙ ap (λ (n : ℕ). entries_from k 0 (length ps) ++ (entry k n ∷ [])) (omega arith)

pub index_from-last :
    (k : ℕ) (p : Bytes) (ps : List Bytes) (rest : Parts)
    → index_from k (add_last p ps rest)
      ≡ index_from k (ps ∷ rest) ++ (entry (k + length rest) (length (last_part ps rest)) ∷ [])
index_from-last k p ps [] =
    append-nil _
    ∙ entries_from-part k p ps
    ∙ ap₂ (λ t (n : ℕ). t ++ (entry n (length ps) ∷ [])) (sym (append-nil _)) (omega arith)
index_from-last k p ps (q ∷ r) =
    ap (λ t. entries_from k 0 (length ps) ++ t) (index_from-last (suc k) p q r)
    ∙ sym (append_assoc (entries_from k 0 (length ps)) (index_from (suc k) (q ∷ r)) _)
    ∙ ap (λ (n : ℕ). index_from k (ps ∷ (q ∷ r)) ++ (entry n (length (last_part q r)) ∷ []))
        (omega arith)

pub count-last :
    (p : Bytes) (ps : List Bytes) (rest : Parts)
    → count (add_last p ps rest) ≡ suc (count (ps ∷ rest))
count-last p ps [] = omega (arith, length-append ps (p ∷ []))
count-last p ps (q ∷ r) = omega (arith, count-last p q r)

pub messages-last :
    (p : Bytes) (ps : List Bytes) (rest : Parts)
    → messages (add_last p ps rest) ≡ messages (ps ∷ rest) ++ (p ∷ [])
messages-last p ps [] = append-nil (ps ++ (p ∷ [])) ∙ ap (λ t. t ++ (p ∷ [])) (sym (append-nil ps))
messages-last p ps (q ∷ r) =
    ap (λ t. ps ++ t) (messages-last p q r) ∙ sym (append_assoc ps (messages (q ∷ r)) (p ∷ []))

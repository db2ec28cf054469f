-- ===== src/Wal/Stream/Roll.antt =====
-- rollSegment of pkg/wal/wal.go, and when Append calls it, on a log that holds some parts.
use nile.Prelude.{
  ℕ, suc, ◌+◌, ◌<◌, ◌≡◌, refl, ap, ◌∙◌, arith, Bytes, IsU64, length, All, none, some, List, [], ◌∷◌,
  ◌++◌, length-append,
}
use nile.Wal.Name.{segment_name}
use nile.Wal.Name.Injective.{segment_name-ne}
use nile.Wal.Disk.{healthy, append_file}
use nile.Wal.Segment.{create_segment}
use nile.Wal.Segment.Reading.{Fits}
use nile.Wal.Log.{Wal, entries_from}
use nile.Wal.Log.Append.{roll_segment}
use nile.Wal.Stream.{
  Parts, messages, count, segment_of, file_of, segments_from, files_from, index_from, active_of,
  holding, Filled, IsClean,
}
use nile.Wal.Stream.Layout.{last_part}
use nile.Wal.Stream.Append.{length-segments_from}

-- Every part holds a message.
abbrev pub Full : Parts → Type 0
Full = All (λ ps. 0 < length ps)

pub Full-last :
    (ps : List Bytes) (rest : Parts)
    → Filled (ps ∷ rest)
    → 0 < length (last_part ps rest)
    → Full (ps ∷ rest)
Full-last ps [] h k = (k, tt)
Full-last ps (q ∷ r) h k = (h.0, Full-last q r h.1 k)

Filled-roll : (parts : Parts) → Full parts → Filled (parts ++ ([] ∷ []))
Filled-roll [] h = tt
Filled-roll (ps ∷ []) h = (h.0, tt)
Filled-roll (ps ∷ (q ∷ r)) h = (h.0, Filled-roll (q ∷ r) h.1)

segments_from-roll :
    (b : ℕ) (parts : Parts)
    → segments_from b parts
        ++ (record { path = segment_name (b + count parts); base_index = b + count parts; size = 0 }
            ∷ [])
      ≡ segments_from b (parts ++ ([] ∷ []))
segments_from-roll b [] = ap (λ (n : ℕ). segment_of n [] ∷ []) (omega arith)
segments_from-roll b (ps ∷ rest) =
    ap (λ (n : ℕ). segment_of b ps ∷ (segments_from (b + length ps) rest ++ (segment_of n [] ∷ [])))
      (omega arith)
    ∙ ap (λ t. segment_of b ps ∷ t) (segments_from-roll (b + length ps) rest)

append_file-roll :
    (b : ℕ) (parts : Parts)
    → Full parts
    → IsU64 (b + count parts)
    → append_file (segment_name (b + count parts)) [] (files_from b parts)
      ≡ files_from b (parts ++ ([] ∷ []))
unfolding append_file
append_file-roll b [] h small = ap (λ (n : ℕ). file_of n [] ∷ []) (omega arith)
append_file-roll b (ps ∷ rest) h small =
    rw (segment_name-ne b (b + count (ps ∷ rest)) (omega arith) small (omega arith)) (
      ap
        (λ (n : ℕ).
          file_of b ps ∷ append_file (segment_name n) [] (files_from (b + length ps) rest))
        (omega arith)
      ∙ ap (λ t. file_of b ps ∷ t) (append_file-roll (b + length ps) rest h.1 (omega arith)))

index_from-roll : (k : ℕ) (parts : Parts) → index_from k parts ≡ index_from k (parts ++ ([] ∷ []))
unfolding entries_from
index_from-roll k [] = refl
index_from-roll k (ps ∷ rest) =
    ap (λ t. entries_from k 0 (length ps) ++ t) (index_from-roll (suc k) rest)

pub count-roll : (parts : Parts) → count parts ≡ count (parts ++ ([] ∷ []))
count-roll [] = omega arith
count-roll (ps ∷ rest) = ap (λ (n : ℕ). length ps + n) (count-roll rest)

pub messages-roll : (parts : Parts) → messages (parts ++ ([] ∷ [])) ≡ messages parts
messages-roll [] = refl
messages-roll (ps ∷ rest) = ap (λ t. ps ++ t) (messages-roll rest)

active_of-roll : (parts : Parts) → some (length parts) ≡ active_of (parts ++ ([] ∷ []))
active_of-roll [] = refl
active_of-roll (ps ∷ rest) = ap some (omega (arith, length-append rest ([] ∷ [])))

fit-roll : (parts : Parts) → All (All Fits) parts → All (All Fits) (parts ++ ([] ∷ []))
fit-roll [] h = (tt, tt)
fit-roll (ps ∷ rest) h = (h.0, fit-roll rest h.1)

-- An empty part at the end.
pub roll_segment-holding :
    (w : Wal) (parts : Parts)
    → Full parts
    → IsU64 (count parts)
    → roll_segment healthy (holding w parts) ≡ (none, holding w (parts ++ ([] ∷ [])))
unfolding roll_segment create_segment
roll_segment-holding w parts h small = λ i. (
  none,
  record w {
    log = record (w.log) {
      segments = segments_eq i;
      active = (ap some (length-segments_from 0 parts) ∙ active_of-roll parts) i;
      next_idx = count-roll parts i;
      index = index_from-roll 0 parts i;
    };
    disk = record (w.disk) { stream = files_eq i };
  },
)
  where
    zero_base : count parts ≡ 0 + count parts
    zero_base = omega arith

    segments_eq :
        segments_from 0 parts
          ++ (record { path = segment_name (count parts); base_index = count parts; size = 0 } ∷ [])
        ≡ segments_from 0 (parts ++ ([] ∷ []))
    segments_eq =
        ap (λ (n : ℕ). segments_from 0 parts ++ (segment_of n [] ∷ [])) zero_base
        ∙ segments_from-roll 0 parts

    files_eq :
        append_file (segment_name (count parts)) [] (files_from 0 parts)
        ≡ files_from 0 (parts ++ ([] ∷ []))
    files_eq =
        ap (λ (n : ℕ). append_file (segment_name n) [] (files_from 0 parts)) zero_base
        ∙ append_file-roll 0 parts h (omega arith)

pub IsClean-roll : (parts : Parts) → IsClean parts → Full parts → IsClean (parts ++ ([] ∷ []))
IsClean-roll parts c h = record {
  filled = Filled-roll parts h;
  fit = fit-roll parts c.fit;
  small = omega (arith, c.small, count-roll parts);
}

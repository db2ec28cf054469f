-- ===== src/Wal/Stream/Append.antt =====
-- Append of pkg/wal/wal.go on a log that holds some parts.
use nile.Prelude.{
  ℕ, suc, ◌+◌, ◌-◌, ◌≡◌, refl, sym, ap, ap₂, ◌∙◌, arith, Bytes, IsU64, length, some, List, [], ◌∷◌,
  ◌++◌, length-append, u64, sub64,
}
use nile.Wal.Record.{encode_record}
use nile.Wal.Name.{segment_name}
use nile.Wal.Disk.{ok, healthy}
use nile.Wal.Segment
use nile.Wal.Segment.Reading.{encode_all}
use nile.Wal.Log.{Wal, set_segment}
use nile.Wal.Log.Append.{append_active, append_to, at_position, active_segment}
use nile.Wal.Stream.{
  Parts, count, segment_of, segments_from, active_of, entry, index_from, holding, Filled,
}
use nile.Wal.Stream.Layout.{
  last_base, last_part, add_last, last_segment_lem, set_segment-last, last_base_bound,
  append_file-last, index_from-last, count-last, encode_all-last,
}

pub active_segment-holding :
    (w : Wal) (ps : List Bytes) (rest : Parts)
    → active_segment (holding w (ps ∷ rest)).log
      ≡ some (length rest, segment_of (last_base 0 ps rest) (last_part ps rest))
unfolding active_segment
active_segment-holding w ps rest = ap (at_position (length rest)) (last_segment_lem 0 ps rest)

pub active_of-last :
    (p : Bytes) (ps : List Bytes) (rest : Parts)
    → active_of (add_last p ps rest) ≡ some (length rest)
active_of-last p ps [] = refl
active_of-last p ps (q ∷ r) = ap some (len q r)
  where
    len : (q : List Bytes) (r : Parts) → length (add_last p q r) ≡ suc (length r)
    len q [] = refl
    len q (s ∷ t) = ap suc (len s t)

pub length-segments_from : (b : ℕ) (parts : Parts) → length (segments_from b parts) ≡ length parts
length-segments_from b [] = refl
length-segments_from b (ps ∷ rest) = ap suc (length-segments_from (b + length ps) rest)

pub append_active-holding :
    (w : Wal) (p : Bytes) (ps : List Bytes) (rest : Parts)
    → Filled (ps ∷ rest)
    → IsU64 (suc (count (ps ∷ rest)))
    → append_active healthy (holding w (ps ∷ rest)) p
      ≡ (ok (count (ps ∷ rest)), holding w (add_last p ps rest))
unfolding append_active append_to Segment.append
append_active-holding w p ps rest h small =
    ap (append_to healthy (holding w (ps ∷ rest)) p) (active_segment-holding w ps rest) ∙ λ i. (
      ok (count (ps ∷ rest)),
      record w {
        log = record (w.log) {
          segments = segments_eq i;
          active = sym (active_of-last p ps rest) i;
          next_idx = next_eq i;
          index = index_eq i;
        };
        disk = record (w.disk) { stream = append_file-last 0 p ps rest h (omega arith) i };
      },
    )
  where
    base : ℕ
    base = last_base 0 ps rest

    segments_eq :
        set_segment
          (length rest)
          (record {
            path = segment_name base;
            base_index = base;
            size = length (encode_all (last_part ps rest)) + length (encode_record p);
          })
          (segments_from 0 (ps ∷ rest))
        ≡ segments_from 0 (add_last p ps rest)
    segments_eq =
        ap
          (λ (n : ℕ).
            set_segment (length rest)
              (record { path = segment_name base; base_index = base; size = n })
              (segments_from 0 (ps ∷ rest)))
          (omega (
            arith,
            length-append (encode_all (last_part ps rest)) (encode_record p),
            ap length (encode_all-last (last_part ps rest) p),
          ))
        ∙ set_segment-last 0 p ps rest

    next_eq : u64 (count (ps ∷ rest) + 1) ≡ count (add_last p ps rest)
    next_eq = omega (arith, count-last p ps rest)

    index_eq :
        index_from 0 (ps ∷ rest)
          ++ (entry (length (segments_from 0 (ps ∷ rest)) - 1) (sub64 (count (ps ∷ rest)) base)
              ∷ [])
        ≡ index_from 0 (add_last p ps rest)
    index_eq =
        ap₂ (λ (k n : ℕ). index_from 0 (ps ∷ rest) ++ (entry k n ∷ []))
          (omega (arith, length-segments_from 0 (ps ∷ rest)))
          (omega (arith, last_base_bound 0 ps rest))
        ∙ sym (index_from-last 0 p ps rest)

-- ===== src/Wal/Stream/Finding.antt =====
-- The files of a log that holds some parts, as its readers find them.
use nile.Prelude.{
  ℕ, ◌+◌, ◌<◌, ◌≡◌, refl, ap, ap₂, ◌∙◌, arith, Bytes, IsU64, length, All, some, List, [], ◌∷◌, true,
  false, bytes_eq_refl,
}
use nile.Wal.Name.{segment_name, sort, insert}
use nile.Wal.Name.RoundTrip.{parse-segment_name}
use nile.Wal.Name.Injective.{segment_name-ne}
use nile.Wal.Disk.{ok, healthy, File, Disk, plain, find_file}
use nile.Wal.Segment.{
  read_found, read_all, open_segment, open_found, list_segments, list_entry, parsed_indices,
}
use nile.Wal.Segment.Reading.{encode_all, Fits, whole, read_content-encode_all}
use nile.Wal.Stream.{Parts, count, segment_of, file_of, files_from, bases_from, Filled}

-- Every part's file is found under its name.
abbrev pub Finds : List File → ℕ → Parts → Type 0
Finds files b [] = Unit {0}
Finds files b (ps ∷ rest) =
    (find_file (segment_name b) files ≡ some (file_of b ps)) × Finds files (b + length ps) rest

-- A file of a smaller index in front hides none of them.
Finds-skip :
    (a : ℕ) (content : Bytes) (files : List File) (b : ℕ) (parts : Parts)
    → a < b
    → IsU64 (b + count parts)
    → Finds files b parts
    → Finds (plain (segment_name a) content ∷ files) b parts
unfolding find_file
Finds-skip a content files b [] lt small h = tt
Finds-skip a content files b (ps ∷ rest) lt small h = (
  rw (segment_name-ne a b (omega arith) (omega arith) (omega arith)) h.0,
  Finds-skip a content files (b + length ps) rest (omega arith) (omega arith) h.1,
)

pub Finds-files_from :
    (b : ℕ) (parts : Parts)
    → Filled parts
    → IsU64 (b + count parts)
    → Finds (files_from b parts) b parts
unfolding find_file
Finds-files_from b [] h small = tt
Finds-files_from b (ps ∷ []) h small = (rw (bytes_eq_refl (segment_name b)), tt)
Finds-files_from b (ps ∷ (q ∷ r)) h small = (
  rw (bytes_eq_refl (segment_name b)),
  Finds-skip b (encode_all ps) (files_from (b + length ps) (q ∷ r)) (b + length ps) (q ∷ r)
      (omega arith) (omega arith) (Finds-files_from (b + length ps) (q ∷ r) h.1 (omega arith)),
)

-- A segment's file reads back as its part.
pub read_all-part :
    (disk : Disk) (b : ℕ) (ps : List Bytes)
    → find_file (segment_name b) disk.stream ≡ some (file_of b ps)
    → All Fits ps
    → read_all healthy disk (segment_name b) ≡ whole ps
unfolding read_all
read_all-part disk b ps e fit = ap read_found e ∙ read_content-encode_all ps fit

pub open_segment-part :
    (disk : Disk) (b : ℕ) (ps : List Bytes)
    → find_file (segment_name b) disk.stream ≡ some (file_of b ps)
    → open_segment healthy disk b ≡ ok (segment_of b ps)
unfolding open_segment
open_segment-part disk b ps e = ap (open_found true (segment_name b) b) e

parsed_indices-files_from :
    (b : ℕ) (parts : Parts)
    → IsU64 (b + count parts)
    → parsed_indices (files_from b parts) ≡ bases_from b parts
unfolding parsed_indices
parsed_indices-files_from b [] small = refl
parsed_indices-files_from b (ps ∷ rest) small =
    ap₂ (list_entry false) (parse-segment_name b (omega arith))
      (parsed_indices-files_from (b + length ps) rest (omega arith))

sort-bases_from : (b : ℕ) (parts : Parts) → sort (bases_from b parts) ≡ bases_from b parts
unfolding sort insert
sort-bases_from b [] = refl
sort-bases_from b (ps ∷ rest) = ap (insert b) (sort-bases_from (b + length ps) rest) ∙ front rest
  where
    front :
        (rest : Parts)
        → insert b (bases_from (b + length ps) rest) ≡ b ∷ bases_from (b + length ps) rest
    front [] = refl
    front (q ∷ r) = ground arith

-- The listing of stream/ is the base indices of the parts, in order.
pub list_segments-holding :
    (disk : Disk) (parts : Parts)
    → disk.stream ≡ files_from 0 parts
    → IsU64 (count parts)
    → list_segments healthy disk ≡ ok (bases_from 0 parts)
unfolding list_segments
list_segments-holding disk parts e small =
    ap (λ files. ok (sort (parsed_indices files))) e
    ∙ ap (λ l. ok (sort l)) (parsed_indices-files_from 0 parts (omega arith))
    ∙ ap ok (sort-bases_from 0 parts)

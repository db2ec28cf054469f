-- ===== src/Wal/Stream/Refreshing.antt =====
-- refresh of pkg/wal/wal.go on a log whose files hold nothing else.
use nile.Prelude.{
  ℕ, ◌+◌, ◌≤◌, ◌≡◌, refl, ap, ◌∙◌, arith, Bytes, length, All, none, some, List, [], ◌∷◌, true,
  sub64,
}
use nile.Wal.Name.{segment_name}
use nile.Wal.Disk.{healthy, File, Disk, find_file}
use nile.Wal.Segment.{Segment}
use nile.Wal.Segment.Reading.{Fits}
use nile.Wal.Log.{Log, Wal}
use nile.Wal.Log.Refresh.{
  known, refresh_one, refresh_new, last_segment, add_records, add_reread, refresh_last, refresh,
  then_log, reread_last, refresh_listed,
}
use nile.Wal.Stream.{
  Parts, segment_of, file_of, segments_from, files_from, bases_from, holding, IsClean,
}
use nile.Wal.Stream.Layout.{last_base, last_part, last_base_bound}
use nile.Wal.Stream.Finding.{Finds, Finds-files_from, read_all-part, list_segments-holding}

abbrev pub AllKnown : List Segment → List ℕ → Type 0
AllKnown segs = All (λ b. known b segs ≡ true)

known-cons :
    (s : Segment) (segs : List Segment) (bs : List ℕ) → AllKnown segs bs → AllKnown (s ∷ segs) bs
unfolding known
known-cons s segs [] h = tt
known-cons s segs (b ∷ bs) h = (ground (arith, h.0), known-cons s segs bs h.1)

pub AllKnown-bases_from :
    (b : ℕ) (parts : Parts) → AllKnown (segments_from b parts) (bases_from b parts)
unfolding known
AllKnown-bases_from b [] = tt
AllKnown-bases_from b (ps ∷ rest) = (
  ground arith,
  known-cons (segment_of b ps) (segments_from (b + length ps) rest)
      (bases_from (b + length ps) rest) (AllKnown-bases_from (b + length ps) rest),
)

pub refresh_new-known :
    (disk : Disk) (olds : List Segment) (bs : List ℕ) (l : Log)
    → AllKnown olds bs
    → refresh_new healthy disk olds bs l ≡ (none, l)
unfolding refresh_new refresh_one
refresh_new-known disk olds [] l h = refl
refresh_new-known disk olds (b ∷ bs) l h = rw h.0 (refresh_new-known disk olds bs l h.1)

pub last_segment-segments_from :
    (b : ℕ) (ps : List Bytes) (rest : Parts)
    → last_segment (segments_from b (ps ∷ rest))
      ≡ some (segment_of (last_base b ps rest) (last_part ps rest))
unfolding last_segment
last_segment-segments_from b ps [] = refl
last_segment-segments_from b ps (q ∷ r) = last_segment-segments_from (b + length ps) q r

last_file :
    (files : List File) (b : ℕ) (ps : List Bytes) (rest : Parts)
    → Finds files b (ps ∷ rest)
    → find_file (segment_name (last_base b ps rest)) files
      ≡ some (file_of (last_base b ps rest) (last_part ps rest))
last_file files b ps [] h = h.0
last_file files b ps (q ∷ r) h = last_file files (b + length ps) q r h.1

last_fit :
    (ps : List Bytes) (rest : Parts) → All (All Fits) (ps ∷ rest) → All Fits (last_part ps rest)
last_fit ps [] h = h.0
last_fit ps (q ∷ r) h = last_fit q r h.1

pub add_records_none :
    (disk : Disk) (seg : Segment) (n : ℕ) (l : Log)
    → n ≤ sub64 l.next_idx seg.base_index
    → add_records healthy disk seg n l ≡ l
unfolding add_records
add_records_none disk seg n l h = ground arith

refresh_last-holding :
    (w : Wal) (parts : Parts)
    → IsClean parts
    → refresh_last healthy (holding w parts).disk (holding w parts).log
      ≡ (none, (holding w parts).log)
unfolding refresh_last last_segment
refresh_last-holding w [] c = refl
refresh_last-holding w (ps ∷ rest) c =
    let l = (holding w (ps ∷ rest)).log in
    let disk = (holding w (ps ∷ rest)).disk in
    let base = last_base 0 ps rest in
    let seg = segment_of base (last_part ps rest) in
    let finds = Finds-files_from 0 (ps ∷ rest) c.filled (omega (arith, c.small)) in
    ap (reread_last healthy disk l) (last_segment-segments_from 0 ps rest)
    ∙ ap (add_reread healthy disk seg l) (
        read_all-part disk base (last_part ps rest)
          (last_file (files_from 0 (ps ∷ rest)) 0 ps rest finds) (last_fit ps rest c.fit))
    ∙ ap (λ l'. (none, l'))
        (add_records_none disk seg (length (last_part ps rest)) l
          (omega (arith, last_base_bound 0 ps rest, c.small)))

pub refresh-holding :
    (w : Wal) (parts : Parts)
    → IsClean parts
    → refresh healthy (holding w parts).disk (holding w parts).log ≡ (none, (holding w parts).log)
unfolding refresh
refresh-holding w parts c =
    let l = (holding w parts).log in
    let disk = (holding w parts).disk in
    ap (refresh_listed healthy disk l) (list_segments-holding disk parts refl c.small)
    ∙ ap (λ r. then_log r (refresh_last healthy disk))
        (refresh_new-known disk (segments_from 0 parts) (bases_from 0 parts) l
          (AllKnown-bases_from 0 parts))
    ∙ refresh_last-holding w parts c

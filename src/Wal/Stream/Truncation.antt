-- ===== src/Wal/Stream/Truncation.antt =====
-- Truncate of pkg/wal/wal.go on a log that holds some parts.
use nile.Prelude.{
  ℕ, ◌+◌, ◌≡◌, length, refl, ap, ◌∙◌, Bytes, none, some, List, [], ◌∷◌, false, arith, if◌then◌else◌,
  bytes_eq_refl,
}
use nile.Wal.Record.{closed, no_messages}
use nile.Wal.Name.{segment_name}
use nile.Wal.Disk.{err, healthy, find_file, remove_file, json, File, plain}
use nile.Wal.Segment.{list_segments}
use nile.Wal.Segment.Reading.{encode_all}
use nile.Wal.Cursor.{cursor_zero, save}
use nile.Wal.Log.{Wal}
use nile.Wal.Log.Truncation.{
  remove_one, remove_segments, then_files, removed, truncate_listed, truncate, reset, remove_found,
}
use nile.Wal.Log.Delivery.{save_cursor, next_unprocessed}
use nile.Wal.Stream.{Parts, files_from, bases_from, holding, IsClean, Holds}
use nile.Wal.Stream.Finding.{list_segments-holding}
use nile.Wal.Stream.Delivery.{next_unprocessed-Holds}

remove_first :
    (name content : Bytes) (files : List File)
    → remove_one healthy name (plain name content ∷ files) ≡ (none, files)
unfolding remove_one find_file remove_file
remove_first name content files =
    ap
      (λ b.
        remove_found healthy name (plain name content ∷ files)
          (if b then some (plain name content) else find_file name files))
      (bytes_eq_refl name)
    ∙ ap (λ b. (none, if b then files else plain name content ∷ remove_file name files))
        (bytes_eq_refl name)

remove_segments-files_from :
    (b : ℕ) (parts : Parts)
    → remove_segments healthy (bases_from b parts) (files_from b parts) ≡ (none, [])
unfolding remove_segments
remove_segments-files_from b [] = refl
remove_segments-files_from b (ps ∷ rest) =
    ap (λ r. then_files r (remove_segments healthy (bases_from (b + length ps) rest)))
      (remove_first (segment_name b) (encode_all ps) (files_from (b + length ps) rest))
    ∙ remove_segments-files_from (b + length ps) rest

-- The empty log with the cursor at zero, in memory and on disk; all other files of `w`.
abbrev emptied : Wal → Wal
emptied w = record {
  log = reset w.log;
  disk = record (w.disk) { stream = []; cursor = some (json cursor_zero); cursor_tmp = none };
}

truncate-holding :
    (w : Wal) (parts : Parts)
    → IsClean parts
    → w.log.closed_flag ≡ false
    → truncate healthy (holding w parts) ≡ (none, emptied w)
unfolding truncate save_cursor save
truncate-holding w parts c opened =
    ap
      (λ b.
        if b
        then (some closed, holding w parts)
        else truncate_listed healthy (holding w parts)
            (list_segments healthy (holding w parts).disk))
      opened
    ∙ ap (truncate_listed healthy (holding w parts))
        (list_segments-holding (holding w parts).disk parts refl c.small)
    ∙ ap (removed healthy (holding w parts)) (remove_segments-files_from 0 parts)

IsClean-nil : IsClean []
IsClean-nil = record { filled = tt; fit = tt; small = omega arith }

-- Truncate on a healthy system succeeds and leaves an open log that holds no message, with the cursor at
-- zero in memory and on disk, the dead letters and the snapshots as they were. NextUnprocessed then
-- reports that there is no message, whatever had not been consumed before.
pub truncate-Holds :
    (w : Wal) (parts : Parts)
    → Holds w parts
    → w.log.closed_flag ≡ false
    → (w' : Wal) × (truncate healthy w ≡ (none, w'))
      × Holds w' []
      × (w'.log.cur ≡ cursor_zero)
      × (w'.disk.cursor ≡ some (json cursor_zero))
      × (w'.disk.dead ≡ w.disk.dead)
      × (w'.disk.snapshots ≡ w.disk.snapshots)
      × (next_unprocessed healthy w' ≡ (err no_messages, w'))
unfolding reset
truncate-Holds w parts h opened = (
  emptied w,
  ap (truncate healthy) h.state ∙ truncate-holding w parts h.clean opened,
  empty,
  refl,
  refl,
  refl,
  refl,
  next_unprocessed-Holds (emptied w) [] empty opened,
)
  where
    empty : Holds (emptied w) []
    empty = record { state = refl; clean = IsClean-nil }

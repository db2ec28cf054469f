-- ===== src/Wal/Stream/Snapshot.antt =====
-- Snapshot of pkg/wal on a log that holds some parts, and the header that readers check.
use nile.Prelude.{
  ℕ, ◌+◌, ◌≡◌, refl, sym, ap, ap₂, subst, ◌∙◌, Bytes, none, some, List, [], ◌∷◌, ◌++◌, false, true,
  arith, if◌then◌else◌, All, All-append,
}
use nile.Wal.Record.{closed}
use nile.Wal.Record.RoundTrip.{read_full-append}
use nile.Wal.Disk.{ok, healthy, Disk, File, plain, remove_file}
use nile.Wal.Segment.{read_content}
use nile.Wal.Segment.Reading.{encode_all, Fits, whole, read_content-encode_all}
use nile.Wal.Log.{Wal}
use nile.Wal.Snapshot.{
  snapshot_header, snapshot_version, check_header, read_snapshot_header, copy_found, then_bytes,
  copy_segments, with_disk, finish_snapshot, snapshot,
}
use nile.Wal.Stream.{Parts, messages, segments_from, Holds}
use nile.Wal.Stream.Layout.{encode_all-append}
use nile.Wal.Stream.Finding.{Finds, Finds-files_from}

copy_segments-parts :
    (disk : Disk) (b : ℕ) (parts : Parts)
    → Finds disk.stream b parts
    → copy_segments healthy disk (segments_from b parts) ≡ ok (encode_all (messages parts))
unfolding copy_segments
copy_segments-parts disk b [] h = refl
copy_segments-parts disk b (ps ∷ rest) h =
    ap₂ then_bytes (ap (copy_found true) h.0) (copy_segments-parts disk (b + _) rest h.1)
    ∙ ap ok (sym (encode_all-append ps (messages rest)))

-- A header of this version is read back, and what follows it is left.
pub read-snapshot_header :
    (rest : Bytes) → read_snapshot_header (snapshot_header ++ rest) ≡ ok (snapshot_version, rest)
unfolding read_snapshot_header snapshot_header check_header
read-snapshot_header rest = ap check_header (read_full-append 8 snapshot_header rest refl)

All-messages : (parts : Parts) → All (All Fits) parts → All Fits (messages parts)
All-messages [] h = tt
All-messages (ps ∷ rest) h = All-append Fits ps (messages rest) h.0 (All-messages rest h.1)

-- Snapshot on a healthy system succeeds and changes neither the log nor the stream; the file at `dest` has
-- a header of the current version, and behind it the records of all messages in order, consumed or not.
pub snapshot-Holds :
    (w : Wal) (parts : Parts) (dest : Bytes)
    → Holds w parts
    → w.log.closed_flag ≡ false
    → (content : Bytes) × (others : List File) × (snapshot healthy dest w
        ≡ (none, record w { disk = record (w.disk) { snapshots = plain dest content ∷ others } }))
      × (body : Bytes) × (read_snapshot_header content ≡ ok (snapshot_version, body))
      × (read_content body ≡ whole (messages parts))
unfolding snapshot finish_snapshot
snapshot-Holds w parts dest h opened = (
  snapshot_header ++ encode_all (messages parts),
  remove_file dest w.disk.snapshots,
  ap
        (λ b.
          if b
          then (some closed, w)
          else with_disk w
              (finish_snapshot healthy dest w.disk (copy_segments healthy w.disk w.log.segments)))
        opened
      ∙ ap (λ r. with_disk w (finish_snapshot healthy dest w.disk r)) copied,
  encode_all (messages parts),
  read-snapshot_header (encode_all (messages parts)),
  read_content-encode_all (messages parts) (All-messages parts h.clean.fit),
)
  where
    finds : Finds w.disk.stream 0 parts
    finds =
        subst (λ (v : Wal). Finds v.disk.stream 0 parts) (sym h.state)
          (Finds-files_from 0 parts h.clean.filled (omega (arith, h.clean.small)))

    copied : copy_segments healthy w.disk w.log.segments ≡ ok (encode_all (messages parts))
    copied =
        ap (λ (v : Wal). copy_segments healthy w.disk v.log.segments) h.state
        ∙ copy_segments-parts w.disk 0 parts finds

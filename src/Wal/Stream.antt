-- ===== src/Wal/Stream.antt =====
-- What a log of pkg/wal stands for: a list of messages, cut into the parts that the segments hold.
-- The part that begins with message `b` is the segment of base index `b`.
pub mod Layout
pub mod Append
pub mod Roll
pub mod Growth
pub mod Finding
pub mod Recovery
pub mod Truncation
pub mod Cursor
pub mod DeadLetters
pub mod Snapshot
pub mod Order
pub mod Polling
pub mod Restart
pub mod Refreshing
pub mod Delivery
pub mod Skipping
pub mod Writers
use nile.Prelude.{
  ℕ, zero, suc, ◌+◌, ◌<◌, ◌≡◌, Bytes, IsU64, length, All, false, Option, none, some, List, [], ◌∷◌,
  ◌++◌,
}
use nile.Wal.Name.{segment_name}
use nile.Wal.Disk.{File, plain, Disk}
use nile.Wal.Segment.{Segment}
use nile.Wal.Segment.Reading.{encode_all, Fits}
use nile.Wal.Log.{IndexEntry, Log, Wal, entries_from}

-- The messages of each segment.
abbrev pub Parts : Type 0
Parts = List (List Bytes)

abbrev pub messages : Parts → List Bytes
messages [] = []
messages (ps ∷ rest) = ps ++ messages rest

abbrev pub count : Parts → ℕ
count [] = 0
count (ps ∷ rest) = length ps + count rest

abbrev pub segment_of : ℕ → List Bytes → Segment
segment_of b ps = record { path = segment_name b; base_index = b; size = length (encode_all ps) }

abbrev pub file_of : ℕ → List Bytes → File
file_of b ps = plain (segment_name b) (encode_all ps)

abbrev pub segments_from : ℕ → Parts → List Segment
segments_from b [] = []
segments_from b (ps ∷ rest) = segment_of b ps ∷ segments_from (b + length ps) rest

abbrev pub files_from : ℕ → Parts → List File
files_from b [] = []
files_from b (ps ∷ rest) = file_of b ps ∷ files_from (b + length ps) rest

abbrev pub bases_from : ℕ → Parts → List ℕ
bases_from b [] = []
bases_from b (ps ∷ rest) = b ∷ bases_from (b + length ps) rest

abbrev pub entry : ℕ → ℕ → IndexEntry
entry k i = record { seg_idx = k; record_idx = i }

-- The entries of the segments from number `k` on.
abbrev pub index_from : ℕ → Parts → List IndexEntry
index_from k [] = []
index_from k (ps ∷ rest) = entries_from k 0 (length ps) ++ index_from (suc k) rest

-- Every part but the last holds a message.
abbrev pub Filled : Parts → Type 0
Filled [] = Unit {0}
Filled (ps ∷ []) = Unit {0}
Filled (ps ∷ (qs ∷ rest)) = (0 < length ps) × Filled (qs ∷ rest)

-- The last segment is the active one.
abbrev pub active_of : Parts → Option ℕ
active_of [] = none
active_of (ps ∷ rest) = some (length rest)

-- The log in memory and the files of stream/ hold the parts; all else is as in `w`.
abbrev pub holding : Wal → Parts → Wal
holding w parts = record w {
  log = record (w.log) {
    segments = segments_from 0 parts;
    active = active_of parts;
    next_idx = count parts;
    index = index_from 0 parts;
  };
  disk = record (w.disk) { stream = files_from 0 parts };
}

pub record IsClean (parts : Parts) : Type 0 where
  pub filled : Filled parts
  pub fit : All (All Fits) parts
  pub small : IsU64 (count parts)

-- `w` is a log that holds the parts.
pub record Holds (w : Wal) (parts : Parts) : Type 0 where
  pub state : w ≡ holding w parts
  pub clean : IsClean parts

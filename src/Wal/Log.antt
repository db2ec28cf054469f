-- ===== src/Wal/Log.antt =====
-- pkg/wal/wal.go: the state of a Log, and its children the operations.
pub mod Recovery
pub mod Append
pub mod Failure
pub mod Refresh
pub mod Delivery
pub mod DeadLetters
pub mod Truncation
use nile.Prelude.{
  ℕ, zero, suc, ◌+◌, ◌-◌, u64, ltb, ◌||◌, if◌then◌else◌, Bool, true, Option, List, [], ◌∷◌, ◌&&◌,
}
use nile.Wal.Disk.{CursorState, Disk}
use nile.Wal.Segment.{Segment}

-- Options. The limits are signed in Go; every test treats a negative one as it treats 0.
pub record Options : Type 0 where
  pub max_messages : ℕ
  pub max_bytes : ℕ
  pub segment_size : ℕ
  pub max_depth : ℕ

abbrev pub default_options : Options
default_options = record {
  max_messages = 10000;
  max_bytes = 10485760;
  segment_size = 1048576;
  max_depth = 0;
}

pub record IndexEntry : Type 0 where
  pub seg_idx : ℕ
  pub record_idx : ℕ

-- `active` points into `segments`, so it is kept as a position in that list.
pub record Log : Type 0 where
  pub opts : Options
  pub segments : List Segment
  pub active : Option ℕ
  pub next_idx : ℕ
  pub cur : CursorState
  pub closed_flag : Bool
  pub index : List IndexEntry

-- A log and the files below its data directory.
pub record Wal : Type 0 where
  pub log : Log
  pub disk : Disk

-- One entry for each record of a segment, in order.
unfoldable pub entries_from : ℕ → ℕ → ℕ → List IndexEntry
entries_from seg_idx from zero = []
entries_from seg_idx from (suc n) =
    record { seg_idx = seg_idx; record_idx = from } ∷ entries_from seg_idx (from + 1) n

-- `if baseIdx+count > l.nextIdx { l.nextIdx = baseIdx + count }`
unfoldable pub raise_next : ℕ → ℕ → ℕ → ℕ
raise_next base_index count next_idx =
    if ltb next_idx (u64 (base_index + count)) then u64 (base_index + count) else next_idx

-- A write through a pointer into `segments`.
unfoldable pub set_segment : ℕ → Segment → List Segment → List Segment
set_segment i s [] = []
set_segment zero s (t ∷ ts) = s ∷ ts
set_segment (suc i) s (t ∷ ts) = t ∷ set_segment i s ts

unfoldable pub total_size : List Segment → ℕ
total_size [] = 0
total_size (s ∷ ss) = s.size + total_size ss

-- TotalBytes
unfoldable pub total_bytes : Log → ℕ
unfolding total_size
total_bytes l = total_size l.segments

-- Depth
unfoldable pub depth : Log → ℕ
depth l = if ltb l.cur.consumed l.next_idx then l.next_idx - l.cur.consumed else 0

-- NextIndex
unfoldable pub next_index : Log → ℕ
next_index l = l.next_idx

-- retentionExceeded of retention.go
unfoldable pub retention_exceeded : Log → Bool
unfolding total_size
retention_exceeded l =
    ltb 0 l.opts.max_messages && ltb l.opts.max_messages l.cur.consumed
    || (ltb 0 l.opts.max_bytes && ltb l.opts.max_bytes (total_size l.segments))

-- Close
unfoldable pub close_log : Log → Log
close_log l = if l.closed_flag then l else record l { closed_flag = true }

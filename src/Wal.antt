-- ===== src/Wal.antt =====
-- pkg/wal: the segmented write-ahead log.
pub mod Record
pub mod Name
pub mod Disk
pub mod Segment
pub mod Cursor
pub mod Log
pub mod Snapshot
pub mod Stream
pub mod Backend
mod Examples

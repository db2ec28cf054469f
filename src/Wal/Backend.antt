-- ===== src/Wal/Backend.antt =====
-- `var _ store.Store = (*Log)(nil)` of pkg/wal/wal.go: the log is a backend of the store interface.
use nile.Wal.Disk.{Os}
use nile.Wal.Log.{Wal, depth, total_bytes, retention_exceeded, close_log}
use nile.Wal.Log.Append.{append}
use nile.Wal.Log.Delivery.{next_unprocessed, mark_processed, mark_post_processed}
use nile.Wal.Log.DeadLetters.{dead_letter, read_dead_letters}
use nile.Wal.Log.Truncation.{truncate}
use nile.Wal.Snapshot.{snapshot}
use nile.Store.{Store}

abbrev pub wal_store : Os → Store Wal
wal_store os = record {
  append = append os;
  next_unprocessed = next_unprocessed os;
  mark_processed = mark_processed os;
  mark_post_processed = mark_post_processed os;
  retention_exceeded = λ w. retention_exceeded w.log;
  snapshot = snapshot os;
  truncate = truncate os;
  dead_letter = dead_letter os;
  read_dead_letters = λ w. let r = read_dead_letters os w.disk in (r.records, r.error);
  depth = λ w. depth w.log;
  total_bytes = λ w. total_bytes w.log;
  close = λ w. record w { log = close_log w.log };
}

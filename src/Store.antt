-- ===== src/Store.antt =====
-- pkg/store/store.go: the interface between the log and the lifecycle manager.
use nile.Prelude.{ℕ, Bytes, Bool, Option, List}
use nile.Wal.Record.{Error}
use nile.Wal.Disk.{Result}

-- Each method takes the state of the backend, and returns it with the method's results.
pub record Store (S : Type 0) : Type 0 where
  pub append : Bytes → S → Result ℕ × S
  pub next_unprocessed : S → Result (ℕ × Bytes) × S
  pub mark_processed : ℕ → S → Option Error × S
  pub mark_post_processed : ℕ → S → Option Error × S
  pub retention_exceeded : S → Bool
  pub snapshot : Bytes → S → Option Error × S
  pub truncate : S → Option Error × S
  pub dead_letter : ℕ → Bytes → S → Option Error × S
  pub read_dead_letters : S → List Bytes × Option Error
  pub depth : S → ℕ
  pub total_bytes : S → ℕ
  pub close : S → S

-- ===== src/Wal/Stream/Restart.antt =====
-- A consumer of pkg/wal that stops after MarkProcessed, and one that opens the log again.
use nile.Prelude.{ℕ, ◌+◌, IsU64, ◌≡◌, sym, ap, ◌∙◌, subst, take, drop, Option, false}
use nile.Wal.Record.{Error}
use nile.Wal.Disk.{ok, healthy}
use nile.Wal.Log.{Options, Log, Wal}
use nile.Wal.Log.Recovery.{open_log}
use nile.Wal.Log.Delivery.{consume, mark_processed}
use nile.Wal.Stream.{Parts, messages, Holds}
use nile.Wal.Stream.Cursor.{IsLater, consume-IsLater, mark_processed-Holds}
use nile.Wal.Stream.Recovery.{open_log-Holds}
use nile.Wal.Stream.Order.{deliver, deliver_in_order}

-- A consumer stops after it has marked a message processed, and opens the log again, on a healthy system: it
-- is given exactly the messages from the later one of two places on, in order: the one behind the marked
-- message, and the cursor that it had. The marked offset is below 2 ^ 64 - 1.
pub restart_resumes :
    (n offset : ℕ) (w : Wal) (parts : Parts) (opts : Options)
    → Holds w parts
    → w.log.closed_flag ≡ false
    → IsU64 (offset + 1)
    → let disk = (mark_processed healthy offset w).1.disk in
      (from : ℕ) × IsLater (offset + 1) w.log.cur.consumed from
      × ((l : Log) × (open_log healthy opts disk ≡ ok l)
          × (deliver n (record { log = l; disk = disk }) ≡ take n (drop from (messages parts))))
restart_resumes n offset w parts opts h opened small =
    ((consume offset w.log.cur).consumed, consume-IsLater offset w.log.cur small, reopened)
  where
    reopened :
        let disk = (mark_processed healthy offset w).1.disk in
        (l : Log) × (open_log healthy opts disk ≡ ok l)
        × (deliver n (record { log = l; disk = disk })
            ≡ take n (drop (consume offset w.log.cur).consumed (messages parts)))
    reopened =
        let (w', e, held, _, on_disk, _, _) = mark_processed-Holds w parts offset h opened in
        let (l, found, holds, cur, unclosed, _) =
          open_log-Holds w' parts opts (consume offset w.log.cur) held on_disk in
        subst
          (λ (r : Option Error × Wal).
            (k : Log) × (open_log healthy opts r.1.disk ≡ ok k)
            × (deliver n (record { log = k; disk = r.1.disk })
                ≡ take n (drop (consume offset w.log.cur).consumed (messages parts))))
          (sym e)
          (
            l,
            found,
            deliver_in_order n (record { log = l; disk = w'.disk }) parts holds unclosed
                ∙ ap (λ c. take n (drop c.consumed (messages parts))) cur,
          )

-- ===== src/Wal/Examples/Streams.antt =====
-- The theorems on the log, at one log of two segments.
use nile.Prelude.{
  ℕ, take, drop, ◌≡◌, ◌≢◌, ◌⊎◌, refl, arith, Bytes, ascii, none, some, List, [], ◌∷◌, true, false,
}
use nile.Wal.Record.{io, no_messages, encode_record}
use nile.Wal.Disk.{write, ok, err, Os, healthy, CursorState, File, plain, json}
use nile.Wal.Segment.{read_content}
use nile.Wal.Segment.Reading.{encode_all, whole}
use nile.Wal.Cursor.{cursor_zero, load, save}
use nile.Wal.Log.{Log, Wal, default_options}
use nile.Wal.Log.Append.{append, must_roll, append_active, active_segment, append_to}
use nile.Wal.Log.Failure.{Untouched, append_failed}
use nile.Wal.Segment
use nile.Wal.Stream.Restart.{restart_resumes}
use nile.Wal.Stream.Polling.{next_unprocessed_sees}
use nile.Wal.Log.Recovery.{open_log}
use nile.Wal.Log.Delivery.{next_unprocessed, mark_processed}
use nile.Wal.Log.DeadLetters.{dead_content, dead_letter, read_dead_letters}
use nile.Wal.Log.Truncation.{truncate}
use nile.Wal.Snapshot.{snapshot, read_snapshot_header, snapshot_version}
use nile.Wal.Stream.{Parts, Holds, holding, messages}
use nile.Wal.Stream.Growth.{append-Holds}
use nile.Wal.Stream.Order.{deliver, deliver_in_order}
use nile.Wal.Stream.Recovery.{open_log-Holds}
use nile.Wal.Stream.Delivery.{next_unprocessed-Holds}
use nile.Wal.Stream.Truncation.{truncate-Holds}
use nile.Wal.Stream.Snapshot.{snapshot-Holds}
use nile.Wal.Stream.DeadLetters.{dead_letter-Holds}
use nile.Wal.Stream.Cursor.{IsLater, save_atomic, replaced}
use nile.Wal.Examples.{parts, stored, stored-Holds}

-- The third message goes to a second consumer: two are consumed.
abbrev consumed_two : Wal
consumed_two = record stored {
  log = record (stored.log) { cur = record { consumed = 2; post_processed = 0 } };
}

consumed_two-Holds : Holds consumed_two parts
consumed_two-Holds = record { state = refl; clean = stored-Holds.clean }

append-Holds_example :
    (parts' : Parts) × (append healthy (ascii "e") stored ≡ (ok 3, holding stored parts'))
    × Holds (holding stored parts') parts'
    × (messages parts' ≡ ascii "a" ∷ ascii "bc" ∷ ascii "d" ∷ ascii "e" ∷ [])
append-Holds_example =
    append-Holds stored (ascii "e") parts stored-Holds refl (omega arith) (omega arith)
      (omega arith)

deliver_in_order_example : deliver 2 consumed_two ≡ ascii "d" ∷ []
deliver_in_order_example = deliver_in_order 2 consumed_two parts consumed_two-Holds refl

open_log-Holds_example :
    (l : Log) × (open_log healthy default_options stored.disk ≡ ok l)
    × Holds (record { log = l; disk = stored.disk }) parts
    × (l.cur ≡ cursor_zero)
    × (l.closed_flag ≡ false)
    × (l.opts ≡ default_options)
unfolding load
open_log-Holds_example = open_log-Holds stored parts default_options cursor_zero stored-Holds refl

next_unprocessed-Holds_example :
    next_unprocessed healthy consumed_two ≡ (ok (2, ascii "d"), consumed_two)
next_unprocessed-Holds_example = next_unprocessed-Holds consumed_two parts consumed_two-Holds refl

truncate-Holds_example :
    (w' : Wal) × (truncate healthy consumed_two ≡ (none, w'))
    × Holds w' []
    × (w'.log.cur ≡ cursor_zero)
    × (w'.disk.cursor ≡ some (json cursor_zero))
    × (w'.disk.dead ≡ none)
    × (w'.disk.snapshots ≡ [])
    × (next_unprocessed healthy w' ≡ (err no_messages, w'))
truncate-Holds_example = truncate-Holds consumed_two parts consumed_two-Holds refl

snapshot-Holds_example :
    (content : Bytes) × (others : List File) × (snapshot healthy (ascii "s") consumed_two ≡ (
      none,
      record consumed_two {
        disk = record (consumed_two.disk) { snapshots = plain (ascii "s") content ∷ others };
      },
    ))
    × (body : Bytes) × (read_snapshot_header content ≡ ok (snapshot_version, body))
    × (read_content body ≡ whole (ascii "a" ∷ ascii "bc" ∷ ascii "d" ∷ []))
snapshot-Holds_example = snapshot-Holds consumed_two parts (ascii "s") consumed_two-Holds refl

dead_letter-Holds_example :
    (w' : Wal) × (dead_letter healthy 2 (ascii "d") consumed_two ≡ (none, w'))
    × (read_dead_letters healthy w'.disk ≡ whole (ascii "d" ∷ []))
    × (dead_content w'.disk.dead ≡ encode_all (ascii "d" ∷ []))
    × Holds w' parts
    × IsLater 3 2 w'.log.cur.consumed
    × (w'.log.cur.post_processed ≡ 0)
    × (load healthy w'.disk ≡ ok w'.log.cur)
dead_letter-Holds_example =
    dead_letter-Holds consumed_two parts 2 (ascii "d") [] consumed_two-Holds refl refl tt
      (omega arith) (omega arith)

-- Only the first byte of a write reaches the file.
abbrev full : Os
full = record { succeeds = λ c _. elim c [ write ↦ false | _ ↦ true ]; short_write = 1 }

abbrev moved : CursorState
moved = record { consumed = 3; post_processed = 1 }

save_atomic_example :
    ((save full stored.disk moved).1.cursor ≡ replaced (save full stored.disk moved).0 moved none)
    × ((save full stored.disk moved).1.stream ≡ stored.disk.stream)
    × ((save full stored.disk moved).1.dead ≡ none)
    × (((save full stored.disk moved).0 ≢ none)
        ⊎ (load healthy (save full stored.disk moved).1 ≡ ok moved))
save_atomic_example = save_atomic full stored.disk moved

restart_resumes_example :
    let disk = (mark_processed healthy 0 stored).1.disk in
    (from : ℕ) × IsLater 1 0 from
    × ((l : Log) × (open_log healthy default_options disk ≡ ok l)
        × (deliver 5 (record { log = l; disk = disk }) ≡ take 5 (drop from (messages parts))))
restart_resumes_example =
    restart_resumes 5 0 stored parts default_options stored-Holds refl (omega arith)

append_failed_example : Untouched stored (append full (ascii "e") stored).1
unfolding append must_roll append_active active_segment append_to Segment.append encode_record
append_failed_example = append_failed full (ascii "e") stored io refl

abbrev consumed_all : Wal
consumed_all = record stored {
  log = record (stored.log) { cur = record { consumed = 3; post_processed = 0 } };
}

next_unprocessed_sees_example :
    next_unprocessed healthy
      (record consumed_all { disk = (append_active healthy consumed_all (ascii "e")).1.disk })
    ≡ (
      ok (3, ascii "e"),
      holding consumed_all ((ascii "a" ∷ ascii "bc" ∷ []) ∷ ((ascii "d" ∷ ascii "e" ∷ []) ∷ [])),
    )
next_unprocessed_sees_example =
    next_unprocessed_sees consumed_all (ascii "e") (ascii "a" ∷ ascii "bc" ∷ [])
      ((ascii "d" ∷ []) ∷ []) (record { state = refl; clean = stored-Holds.clean }) refl refl
      (omega arith) (omega arith)

-- ===== src/Wal/Stream/DeadLetters.antt =====
-- DeadLetter and ReadDeadLetters of pkg/wal/retention.go.
use nile.Prelude.{
  ℕ, ◌+◌, IsU64, ◌⊎◌, ◌≤◌, ◌≡◌, refl, sym, ap, ◌∙◌, Bytes, none, some, List, [], ◌∷◌, ◌++◌, false,
  arith, if◌then◌else◌, All, All-append,
}
use nile.Wal.Record.{closed, encode_record}
use nile.Wal.Disk.{ok, Os, healthy, json}
use nile.Wal.Cursor.{load, save}
use nile.Wal.Segment.{Read}
use nile.Wal.Segment.Reading.{encode_all, Fits, whole, read_content-encode_all}
use nile.Wal.Log.{Wal}
use nile.Wal.Log.Delivery.{consume, save_cursor}
use nile.Wal.Log.DeadLetters.{dead_content, dead_letter, read_dead_letters}
use nile.Wal.Stream.{Parts, Holds}
use nile.Wal.Stream.Cursor.{IsLater, consume-IsLater, post_processed-consume}
use nile.Wal.Stream.Layout.{encode_all-last}

-- On a healthy system DeadLetter of an open log succeeds: the payload is the last of the dead letters that
-- ReadDeadLetters returns, behind those that were there; the cursor, in memory and on disk, is the later
-- one of the place behind the offset and the cursor that was there, with the post-processing mark as it was; and
-- the log holds the same messages. The payloads are within the record limit, and the offset is below 2 ^ 64 - 1.
pub dead_letter-Holds :
    (w : Wal) (parts : Parts) (offset : ℕ) (p : Bytes) (letters : List Bytes)
    → Holds w parts
    → w.log.closed_flag ≡ false
    → dead_content w.disk.dead ≡ encode_all letters
    → All Fits letters
    → Fits p
    → IsU64 (offset + 1)
    → (w' : Wal) × (dead_letter healthy offset p w ≡ (none, w'))
      × (read_dead_letters healthy w'.disk ≡ whole (letters ++ (p ∷ [])))
      × (dead_content w'.disk.dead ≡ encode_all (letters ++ (p ∷ [])))
      × Holds w' parts
      × IsLater (offset + 1) w.log.cur.consumed w'.log.cur.consumed
      × (w'.log.cur.post_processed ≡ w.log.cur.post_processed)
      × (load healthy w'.disk ≡ ok w'.log.cur)
unfolding dead_letter save_cursor save load read_dead_letters
dead_letter-Holds w parts offset p letters h opened e fit fits small = (
  given_up w,
  ap (λ b. if b then (some closed, w) else (none, given_up w)) opened,
  ap read_of content_eq
      ∙ read_content-encode_all (letters ++ (p ∷ []))
          (All-append Fits letters (p ∷ []) fit (fits, tt)),
  content_eq,
  record { state = ap given_up h.state; clean = h.clean },
  consume-IsLater offset w.log.cur small,
  post_processed-consume offset w.log.cur,
  refl,
)
  where
    given_up : Wal → Wal
    given_up v = record v {
      log = record (v.log) { cur = consume offset w.log.cur };
      disk = record (v.disk) {
        dead = some (dead_content w.disk.dead ++ encode_record p);
        cursor = some (json (consume offset w.log.cur));
        cursor_tmp = none;
      };
    }

    content_eq : dead_content w.disk.dead ++ encode_record p ≡ encode_all (letters ++ (p ∷ []))
    content_eq = ap (λ t. t ++ encode_record p) e ∙ sym (encode_all-last letters p)

    read_of : Bytes → Read
    read_of content = read_dead_letters healthy (record (w.disk) { dead = some content })

-- Whatever system calls fail in DeadLetter: the cursor never goes back, and it stays, or the whole record is in
-- the dead letter file; the next index, the index and the stream files stay.
pub dead_letter_safe :
    (os : Os) (offset : ℕ) (p : Bytes) (w : Wal)
    → let w' = (dead_letter os offset p w).1 in
      (w.log.cur.consumed ≤ w'.log.cur.consumed)
      × ((w'.log.cur.consumed ≡ w.log.cur.consumed)
          ⊎ (w'.disk.dead ≡ some (dead_content w.disk.dead ++ encode_record p)))
      × (w'.disk.stream ≡ w.disk.stream)
      × (w'.log.next_idx ≡ w.log.next_idx)
      × (w'.log.index ≡ w.log.index)
unfolding dead_letter save_cursor save consume
dead_letter_safe os offset p w =
    (ground arith, ground arith, ground arith, ground arith, ground arith)

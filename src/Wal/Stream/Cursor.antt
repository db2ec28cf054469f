-- ===== src/Wal/Stream/Cursor.antt =====
-- The cursor of pkg/wal: Save, MarkProcessed and MarkPostProcessed.
use nile.Prelude.{
  ℕ, ◌⊎◌, ◌+◌, ◌<◌, ◌≤◌, ◌≡◌, ◌≢◌, refl, ap, Option, none, some, false, arith, if◌then◌else◌, IsU64,
  ltb,
}
use nile.Wal.Record.{Error, closed}
use nile.Wal.Disk.{ok, Os, healthy, CursorState, CursorFile, json, Disk}
use nile.Wal.Cursor.{load, save}
use nile.Wal.Log.{Wal}
use nile.Wal.Log.Delivery.{consume, mark_processed, mark_post_processed}
use nile.Wal.Stream.{Parts, Holds}

-- What cursor.json holds after Save, by the error that Save returned.
abbrev pub replaced : Option Error → CursorState → Option CursorFile → Option CursorFile
replaced none state old = some (json state)
replaced (some e) state old = old

-- Whatever system calls fail, Save leaves in cursor.json the new state if it returns no error, and what was
-- there before if it returns one; it touches no message file. It returns an error, or Load reads what it saved.
pub save_atomic :
    (os : Os) (disk : Disk) (state : CursorState)
    → ((save os disk state).1.cursor ≡ replaced (save os disk state).0 state disk.cursor)
      × ((save os disk state).1.stream ≡ disk.stream)
      × ((save os disk state).1.dead ≡ disk.dead)
      × (((save os disk state).0 ≢ none) ⊎ (load healthy (save os disk state).1 ≡ ok state))
unfolding save load
save_atomic os disk state = ground arith

-- `k` is the larger one of `a` and `b`.
abbrev pub IsLater : ℕ → ℕ → ℕ → Type 0
IsLater a b k = (a ≤ k) × (b ≤ k) × ((k ≡ a) ⊎ (k ≡ b))

pub consume-IsLater :
    (offset : ℕ) (cur : CursorState)
    → IsU64 (offset + 1)
    → IsLater (offset + 1) cur.consumed (consume offset cur).consumed
unfolding consume
consume-IsLater offset cur fits = (ground arith, ground arith, ground arith)

pub post_processed-consume :
    (offset : ℕ) (cur : CursorState) → (consume offset cur).post_processed ≡ cur.post_processed
unfolding consume
post_processed-consume offset cur = ground arith

-- MarkProcessed of an open log, whatever system calls fail: the cursor in memory is past the offset,
-- and not behind where it was, and the next index, the index, the files of the
-- stream and the post-processing mark stay. The offset is below 2 ^ 64 - 1.
pub mark_processed_lem :
    (os : Os) (offset : ℕ) (w : Wal)
    → w.log.closed_flag ≡ false
    → IsU64 (offset + 1)
    → let w' = (mark_processed os offset w).1 in
      (offset < w'.log.cur.consumed)
      × (w.log.cur.consumed ≤ w'.log.cur.consumed)
      × (w'.log.cur.post_processed ≡ w.log.cur.post_processed)
      × (w'.log.next_idx ≡ w.log.next_idx)
      × (w'.log.index ≡ w.log.index)
      × (w'.disk.stream ≡ w.disk.stream)
unfolding mark_processed save
mark_processed_lem os offset w opened fits =
    (ground arith, ground arith, ground arith, ground arith, ground arith, ground arith)

-- MarkPostProcessed, whatever system calls fail: an open log keeps the larger of its mark and the offset,
-- and the consumed cursor, the next index and the stream files stay.
pub mark_post_processed_lem :
    (os : Os) (offset : ℕ) (w : Wal)
    → w.log.closed_flag ≡ false
    → let w' = (mark_post_processed os offset w).1 in
      (w'.log.cur.post_processed
        ≡ (if ltb w.log.cur.post_processed offset then offset else w.log.cur.post_processed))
      × (w'.log.cur.consumed ≡ w.log.cur.consumed)
      × (w'.log.next_idx ≡ w.log.next_idx)
      × (w'.disk.stream ≡ w.disk.stream)
unfolding mark_post_processed save
mark_post_processed_lem os offset w opened =
    (ground arith, ground arith, ground arith, ground arith)

-- On a healthy system MarkProcessed of an open log succeeds; the log holds the same messages, and the new
-- cursor is on disk.
pub mark_processed-Holds :
    (w : Wal) (parts : Parts) (offset : ℕ)
    → Holds w parts
    → w.log.closed_flag ≡ false
    → (w' : Wal) × (mark_processed healthy offset w ≡ (none, w'))
      × Holds w' parts
      × (w'.log.cur ≡ consume offset w.log.cur)
      × (load healthy w'.disk ≡ ok (consume offset w.log.cur))
      × (w'.log.closed_flag ≡ false)
      × (w'.log.opts ≡ w.log.opts)
unfolding mark_processed save load
mark_processed-Holds w parts offset h opened = (
  marked w,
  ap (λ b. if b then (some closed, w) else (none, marked w)) opened,
  record { state = ap marked h.state; clean = h.clean },
  refl,
  refl,
  opened,
  refl,
)
  where
    marked : Wal → Wal
    marked v = record v {
      log = record (v.log) { cur = consume offset w.log.cur };
      disk = record (v.disk) { cursor = some (json (consume offset w.log.cur)); cursor_tmp = none };
    }

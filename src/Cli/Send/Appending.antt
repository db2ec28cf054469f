-- ===== src/Cli/Send/Appending.antt =====
-- The messages of `nile send` and the log below the data directory, in cmd/nile/main.go.
use nile.Prelude.{
  ℕ, suc, ◌+◌, ◌<◌, ◌≡◌, refl, ap, sym, subst, ◌∙◌, arith, Bytes, IsU64, length, length-append,
  append_assoc, append-nil, false, none, List, [], ◌∷◌, ◌++◌, All,
}
use nile.Wal.Disk.{healthy, Result, ok, Disk, CursorState}
use nile.Wal.Cursor.{load}
use nile.Wal.Log.{Options, Wal, close_log, default_options}
use nile.Wal.Log.Recovery.{open_log}
use nile.Wal.Segment.Reading.{Fits}
use nile.Wal.Stream.{Parts, messages, count, holding, Holds}
use nile.Wal.Stream.Growth.{append-Holds, count-length}
use nile.Wal.Stream.Recovery.{open_log-Holds}
use nile.Cli.Send.{
  to_send, parse_send_args, SentLine, after_append, append_each, sent, send_opened, send_parsed,
  cmd_send,
}

-- The lines of the messages, numbered from `offset`.
abbrev pub lines_from : ℕ → List Bytes → List SentLine
lines_from offset [] = []
lines_from offset (msg ∷ msgs) =
    record { offset = offset; msg = msg } ∷ lines_from (suc offset) msgs

-- The log closed, its files as they are.
abbrev pub closing : Wal → Wal
closing w = record w { log = close_log w.log }

append_each-Holds :
    (msgs : List Bytes) (w : Wal) (parts : Parts)
    → Holds w parts
    → w.log.closed_flag ≡ false
    → 0 < w.log.opts.segment_size
    → All Fits msgs
    → IsU64 (count parts + length msgs)
    → (parts' : Parts) × (append_each healthy w msgs ≡ record {
      lines = lines_from (length (messages parts)) msgs;
      error = none;
      wal = closing (holding w parts');
    })
      × Holds (holding w parts') parts'
      × (messages parts' ≡ messages parts ++ msgs)
unfolding append_each
append_each-Holds [] w parts h opened pos fits small = (
  parts,
  ap (λ (v : Wal). record { lines = []; error = none; wal = closing v }) h.state,
  record { state = refl; clean = h.clean },
  sym (append-nil (messages parts)),
)
append_each-Holds (msg ∷ msgs) w parts h opened pos (f, fits) small =
    let (parts1, e1, h1, m1) = append-Holds w msg parts h opened pos f (omega arith) in
    let n1 : length (messages parts1) ≡ suc (length (messages parts)) =
      ap length m1 ∙ length-append (messages parts) (msg ∷ []) ∙ omega arith in
    let fit1 : IsU64 (count parts1 + length msgs) =
      omega (arith, n1, count-length parts1, count-length parts) in
    let (parts2, e2, h2, m2) =
      append_each-Holds msgs (holding w parts1) parts1 h1 opened pos fits fit1 in
    (
      parts2,
      ap (λ (q : Result ℕ × Wal). after_append msg q.0 q.1 (append_each healthy q.1 msgs)) e1
          ∙ ap (after_append msg (ok (length (messages parts))) (holding w parts1)) e2
          ∙ ap
              (λ n. record {
                lines = record { offset = length (messages parts); msg = msg } ∷ lines_from n msgs;
                error = none;
                wal = closing (holding w parts2);
              })
              n1,
      h2,
      m2 ∙ ap (λ t. t ++ msgs) m1 ∙ append_assoc (messages parts) (msg ∷ []) msgs,
    )

load-holding : (w : Wal) (parts : Parts) → load healthy (holding w parts).disk ≡ load healthy w.disk
unfolding load
load-holding w parts = refl

parsed-Holds :
    (disk : Disk) (w : Wal) (parts : Parts) (state : CursorState) (data_dir name : Bytes)
    (msgs : List Bytes)
    → disk ≡ w.disk
    → Holds w parts
    → load healthy w.disk ≡ ok state
    → All Fits msgs
    → IsU64 (count parts + length msgs)
    → (v : Wal) × (parts' : Parts) × (send_opened healthy data_dir disk msgs
          (open_log healthy default_options disk)
        ≡ sent data_dir (record {
          lines = lines_from (length (messages parts)) msgs;
          error = none;
          wal = closing v;
        }))
      × Holds v parts'
      × (messages parts' ≡ messages parts ++ msgs)
      × (load healthy v.disk ≡ ok state)
parsed-Holds disk w parts state data_dir name msgs on_disk h loaded fits small =
    let (l, found, holds, cur, unclosed, opts) =
      open_log-Holds w parts default_options state h loaded in
    let (parts', e, h', m) =
      append_each-Holds msgs (record { log = l; disk = w.disk }) parts holds unclosed
        (subst (λ (o : Options). 0 < o.segment_size) (sym opts) (omega arith)) fits small in
    (
      holding (record { log = l; disk = w.disk }) parts',
      parts',
      ap (λ d. send_opened healthy data_dir d msgs (open_log healthy default_options d)) on_disk
          ∙ ap (send_opened healthy data_dir w.disk msgs) found
          ∙ ap (sent data_dir) e,
      h',
      m,
      load-holding (record { log = l; disk = w.disk }) parts' ∙ loaded,
    )

cmd_send-parsed :
    (disks : Bytes → Disk) (args : List Bytes)
    → cmd_send healthy disks args ≡ send_parsed healthy disks (parse_send_args args false [] [])
unfolding cmd_send
cmd_send-parsed disks args = refl

-- `nile send` on a healthy system, when its arguments name a data directory and messages within
-- the record limit, and that directory has the files of a log with a cursor that can be read and
-- room for the offsets below 2 ^ 64: it prints every message with its offset, the numbers from the
-- log's length on, without an error, and the log that it closes and its files hold the old
-- messages and then the new ones, in the order of the arguments, with the cursor on disk as it was.
pub cmd_send-Holds :
    (disks : Bytes → Disk) (args : List Bytes) (data_dir name : Bytes) (msgs : List Bytes) (w : Wal)
    (parts : Parts) (state : CursorState)
    → parse_send_args args false [] [] ≡ to_send data_dir name msgs
    → disks data_dir ≡ w.disk
    → Holds w parts
    → load healthy w.disk ≡ ok state
    → All Fits msgs
    → IsU64 (count parts + length msgs)
    → (v : Wal) × (parts' : Parts) × (cmd_send healthy disks args
        ≡ sent data_dir (record {
          lines = lines_from (length (messages parts)) msgs;
          error = none;
          wal = closing v;
        }))
      × Holds v parts'
      × (messages parts' ≡ messages parts ++ msgs)
      × (load healthy v.disk ≡ ok state)
cmd_send-Holds disks args data_dir name msgs w parts state parsed on_disk h loaded fits small =
    let (v, parts', e, h', m, c) =
      parsed-Holds (disks data_dir) w parts state data_dir name msgs on_disk h loaded fits small in
    (v, parts', cmd_send-parsed disks args ∙ ap (send_parsed healthy disks) parsed ∙ e, h', m, c)

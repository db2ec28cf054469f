-- ===== src/Cli/Status/Reporting.antt =====
-- What `nile status` of cmd/nile/main.go says of a log.
use nile.Prelude.{
  ℕ, ℤ, ◌≡◌, refl, ap, sym, ◌∙◌, arith, Bytes, length, length-append, true, ◌-◌, ◌+◌, some, List,
  [], ◌∷◌,
}
use nile.Wal.Disk.{healthy, ok, CursorState, Disk}
use nile.Wal.Cursor.{load}
use nile.Wal.Log.{Log, Wal, default_options, next_index, depth, total_bytes, total_size}
use nile.Wal.Log.Recovery.{open_log}
use nile.Wal.Log.DeadLetters.{read_dead_letters}
use nile.Wal.Segment.Reading.{encode_all}
use nile.Wal.Stream.{Parts, messages, segments_from, Holds}
use nile.Wal.Stream.Layout.{encode_all-append}
use nile.Wal.Stream.Growth.{count-length}
use nile.Wal.Stream.Recovery.{open_log-Holds}
use nile.Trim.{trim_space}
use nile.Cli.Int.{parse_int}
use nile.Cli.Path.{default_data_dir}
use nile.Cli.Status.{
  StatusHost, Report, running, pid_file, unless_none, report_of, process_status, pid_status,
  file_status, cmd_status,
}

pub total_size-segments_from :
    (b : ℕ) (parts : Parts)
    → total_size (segments_from b parts) ≡ length (encode_all (messages parts))
unfolding total_size
total_size-segments_from b [] = refl
total_size-segments_from b (ps ∷ rest) =
    ap (λ n. length (encode_all ps) + n) (total_size-segments_from (b + length ps) rest)
    ∙ sym (
        ap length (encode_all-append ps (messages rest))
        ∙ length-append (encode_all ps) (encode_all (messages rest)))

-- The report of a log with these messages and this cursor.
abbrev pub report : CursorState → Disk → List Bytes → Report
report state disk ms = record {
  next_index = length ms;
  depth = length ms - state.consumed;
  total_bytes = length (encode_all ms);
  dead_letters = unless_none (length (read_dead_letters healthy disk).records);
}

depth-minus : (l : Log) → depth l ≡ l.next_idx - l.cur.consumed
unfolding depth
depth-minus l = ground arith

report_of-Holds :
    (w : Wal) (parts : Parts) (state : CursorState)
    → Holds w parts
    → load healthy w.disk ≡ ok state
    → report_of healthy w.disk (open_log healthy default_options w.disk)
      ≡ some (report state w.disk (messages parts))
unfolding next_index total_bytes
report_of-Holds w parts state h loaded =
    let (l, found, holds, cur, _, _) = open_log-Holds w parts default_options state h loaded in
    let next_eq : l.next_idx ≡ length (messages parts) =
      ap (λ (v : Wal). v.log.next_idx) holds.state ∙ count-length parts in
    let size_eq : total_size l.segments ≡ length (encode_all (messages parts)) =
      ap (λ (v : Wal). total_size v.log.segments) holds.state ∙ total_size-segments_from 0 parts in
    let depth_eq : depth l ≡ length (messages parts) - state.consumed =
      depth-minus l
      ∙ ap (λ n. n - l.cur.consumed) next_eq
      ∙ ap (λ (c : CursorState). length (messages parts) - c.consumed) cur in
    ap (report_of healthy w.disk) found ∙ (λ i. some (record {
      next_index = next_eq i;
      depth = depth_eq i;
      total_bytes = size_eq i;
      dead_letters = unless_none (length (read_dead_letters healthy w.disk).records);
    }))

running-process :
    (host : StatusHost) (disk : Disk) (pid : ℤ)
    → host.finds pid ≡ true
    → host.signals pid ≡ true
    → process_status healthy host disk pid
      ≡ running pid (report_of healthy disk (open_log healthy default_options disk))
running-process host disk pid f g = rw (f, g) refl

cmd_status-file :
    (host : StatusHost) (disks : Bytes → Disk) (name : Bytes) (args : List Bytes)
    → cmd_status healthy host disks (name ∷ args)
      ≡ file_status healthy host
          (disks (default_data_dir name))
          (host.read_file (pid_file (default_data_dir name)))
unfolding cmd_status
cmd_status-file host disks name args = refl

-- `nile status` on a healthy system, when the file with the process number below the default data
-- directory holds the number of a process that can be signalled, and that directory has the files of
-- a log with a cursor that can be read: it prints that the copt runs, the number of messages, how
-- many are behind the cursor, the size of their records, and the number of dead letters that can
-- be read, if there are any.
pub cmd_status-Holds :
    (host : StatusHost) (disks : Bytes → Disk) (name : Bytes) (args : List Bytes) (text : Bytes)
    (pid : ℤ) (w : Wal) (parts : Parts) (state : CursorState)
    → host.read_file (pid_file (default_data_dir name)) ≡ some text
    → parse_int (trim_space text) ≡ some pid
    → host.finds pid ≡ true
    → host.signals pid ≡ true
    → disks (default_data_dir name) ≡ w.disk
    → Holds w parts
    → load healthy w.disk ≡ ok state
    → cmd_status healthy host disks (name ∷ args)
      ≡ running pid (some (report state w.disk (messages parts)))
cmd_status-Holds host disks name args text pid w parts state has_file is_pid finds signals on_disk h
      loaded =
    cmd_status-file host disks name args
    ∙ ap (file_status healthy host (disks (default_data_dir name))) has_file
    ∙ ap (pid_status healthy host (disks (default_data_dir name))) is_pid
    ∙ ap (λ d. process_status healthy host d pid) on_disk
    ∙ running-process host w.disk pid finds signals
    ∙ ap (running pid) (report_of-Holds w parts state h loaded)

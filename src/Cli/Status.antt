-- ===== src/Cli/Status.antt =====
-- `nile status` of cmd/nile/main.go: cmdStatus.
pub mod Reporting
use nile.Prelude.{
  ℕ, zero, suc, ℤ, Bytes, ascii, ltb, length, Bool, true, false, if◌then◌else◌, Option, none, some,
  List, [], ◌∷◌, ◌++◌,
}
use nile.Wal.Disk.{Os, Result, ok, err, Disk}
use nile.Wal.Log.{Log, default_options, next_index, depth, total_bytes}
use nile.Wal.Log.Recovery.{open_log}
use nile.Wal.Log.DeadLetters.{read_dead_letters}
use nile.Trim.{trim_space}
use nile.Cli.Int.{parse_int}
use nile.Filepath.{split_slash, walk, rooted}
use nile.Cli.Path.{default_data_dir}

-- The files with process numbers, and which processes there are and can be signalled.
pub record StatusHost : Type 0 where
  pub read_file : Bytes → Option Bytes
  pub finds : ℤ → Bool
  pub signals : ℤ → Bool

-- What is printed of an open log; the dead letters only if there are any.
pub record Report : Type 0 where
  pub next_index : ℕ
  pub depth : ℕ
  pub total_bytes : ℕ
  pub dead_letters : Option ℕ

-- The first outcome ends the program with status 1.
pub data Status : Type 0 where
  copt_name_required no_pid_file invalid_pid_file not_running : Status
  stale : ℤ → Status
  running : ℤ → Option Report → Status

-- filepath.Join(dataDir, "run", "nile.pid")
abbrev pub pid_file : Bytes → Bytes
pid_file data_dir = rooted (walk [] (split_slash data_dir ++ (ascii "run" ∷ ascii "nile.pid" ∷ [])))

abbrev pub unless_none : ℕ → Option ℕ
unless_none n = if ltb 0 n then some n else none

abbrev pub report_of : Os → Disk → Result Log → Option Report
report_of os disk (err e) = none
report_of os disk (ok l) = some (record {
  next_index = next_index l;
  depth = depth l;
  total_bytes = total_bytes l;
  dead_letters = unless_none (length (read_dead_letters os disk).records);
})

abbrev pub process_status : Os → StatusHost → Disk → ℤ → Status
process_status os host disk pid =
    if host.finds pid
    then if host.signals pid
      then running pid (report_of os disk (open_log os default_options disk))
      else stale pid
    else not_running

abbrev pub pid_status : Os → StatusHost → Disk → Option ℤ → Status
pid_status os host disk none = invalid_pid_file
pid_status os host disk (some pid) = process_status os host disk pid

abbrev pub file_status : Os → StatusHost → Disk → Option Bytes → Status
file_status os host disk none = no_pid_file
file_status os host disk (some text) = pid_status os host disk (parse_int (trim_space text))

-- `disks` has the files below each data directory.
unfoldable pub cmd_status : Os → StatusHost → (Bytes → Disk) → List Bytes → Status
unfolding next_index depth total_bytes open_log read_dead_letters split_slash walk rooted parse_int
    trim_space
cmd_status os host disks [] = copt_name_required
cmd_status os host disks (name ∷ args) =
    let data_dir = default_data_dir name in
    file_status os host (disks data_dir) (host.read_file (pid_file data_dir))

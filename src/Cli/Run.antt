-- ===== src/Cli/Run.antt =====
-- `nile run` of cmd/nile/main.go: cmdRun up to the call of Start, and the file with the process number.
pub mod Startup
use nile.Prelude.{
  ℕ, zero, ℤ, pos, negsuc, Bytes, ascii, Bool, true, false, if◌then◌else◌, Option, none, some, List,
  [], ◌∷◌, ◌++◌,
}
use nile.Wal.Record.{Error}
use nile.Wal.Disk.{Os, Result, ok, err, Disk}
use nile.Wal.Log.{Options, Log, Wal}
use nile.Wal.Log.Recovery.{open_log}
use nile.Lifecycle.Manager.{Manager, new}
use nile.Telemetry.{SetupHost, SetupError, Process, setup}
use nile.Sandbox.{SandboxConfig, NebCommand, neb_command}
use nile.Filepath.{split_slash, walk, rooted}
use nile.Cli.Args.{RunConfig, ArgsError, RunArgs, rejected, accepted, parse_run_args}
use nile.Cli.Status.{pid_file}

-- What the operating system answers.
pub record RunHost : Type 0 where
  pub look_path : Bytes → Option Bytes
  pub absolute : Bytes → Option Bytes
  pub makes_dir : Bytes → Bool
  pub writes_pid : Bytes → Bool
  pub telemetry : SetupHost
  pub exists : Bytes → Bool
  pub stdin_pipe : Bool
  pub stdout_pipe : Bool
  pub starts : Bool

-- How the command ends: every way but the last by os.Exit(1), which runs no deferred call. `link` is
-- the transport on the pipes of the neb.
pub data RunExit (T : Type 0) : Type 0 where
  run_bad_args : ArgsError → RunExit T
  no_path not_absolute no_neb no_stdin no_stdout not_started : RunExit T
  no_dir : Bytes → RunExit T
  no_telemetry : SetupError → RunExit T
  no_wal : Error → RunExit T
  served : NebCommand → Manager Wal T → RunExit T

-- The exit, or the start of the manager, and whether the file with the process number is there then.
abbrev pub Run : Type 0 → Type 0
Run T = RunExit T × Bool

-- A limit below 0 counts as 0.
abbrev pub limit : ℤ → ℕ
limit (pos n) = n
limit (negsuc n) = 0

abbrev pub run_options : RunConfig → Options
run_options c = record {
  max_messages = limit c.max_messages;
  max_bytes = limit c.max_bytes;
  segment_size = limit c.segment_size;
  max_depth = limit c.max_depth;
}

-- filepath.Join of the data directory, an absolute path, and a name
abbrev pub sub_dir : RunConfig → Bytes → Bytes
sub_dir c name = rooted (walk [] (split_slash c.data_dir ++ (name ∷ [])))

abbrev pub sandbox_config : RunConfig → Bytes → SandboxConfig
sandbox_config c binary = record {
  neb_binary = binary;
  state_dir = sub_dir c (ascii "state");
  retain_dir = sub_dir c (ascii "retain");
  network = false;
}

-- From the neb's command on; `link` is the transport on the pipes of a started neb.
abbrev pub run_neb :
    {T : Type 0} → RunHost → T → ℕ → RunConfig → Wal → Bool → Option NebCommand → Run T
run_neb host link stop_in c w left none = (no_neb, left)
run_neb host link stop_in c w left (some cmd) =
    if host.stdin_pipe
    then if host.stdout_pipe
      then if host.starts
        then (served cmd (new c.name c.data_dir c.max_retries w link stop_in), left)
        else (not_started, left)
      else (no_stdout, left)
    else (no_stdin, left)

abbrev pub run_opened :
    {T : Type 0} → RunHost → T → ℕ → RunConfig → Bytes → Disk → Bool → Result Log → Run T
run_opened host link stop_in c binary disk left (err e) = (no_wal e, left)
run_opened host link stop_in c binary disk left (ok l) =
    run_neb host link stop_in c (record { log = l; disk = disk }) left
      (neb_command host.exists (sandbox_config c binary))

abbrev pub run_telemetry :
    {T : Type 0}
    → Os
    → RunHost
    → T
    → ℕ
    → RunConfig
    → Bytes
    → Disk
    → Bool
    → Option SetupError
    → Run T
run_telemetry os host link stop_in c binary disk left (some e) = (no_telemetry e, left)
run_telemetry os host link stop_in c binary disk left none =
    run_opened host link stop_in c binary disk left (open_log os (run_options c) disk)

-- The loop over the four directories; a failed write of the process number is only logged.
abbrev pub run_dirs :
    {T : Type 0} → Os → RunHost → T → ℕ → RunConfig → Bytes → Disk → List Bytes → Run T
run_dirs os host link stop_in c binary disk [] =
    run_telemetry os host link stop_in c binary disk (host.writes_pid (pid_file c.data_dir))
      (setup host.telemetry (record { open_files = []; global_providers = false })).0
run_dirs os host link stop_in c binary disk (dir ∷ dirs) =
    let rest = run_dirs os host link stop_in c binary disk dirs in
    if host.makes_dir dir then rest else (no_dir dir, false)

abbrev pub run_dir_names : RunConfig → List Bytes
run_dir_names c =
    sub_dir c (ascii "state")
    ∷ sub_dir c (ascii "retain")
    ∷ sub_dir c (ascii "dead")
    ∷ sub_dir c (ascii "run")
    ∷ []

-- filepath.Abs
abbrev pub run_absolute :
    {T : Type 0} → Os → RunHost → T → ℕ → RunConfig → Disk → Option Bytes → Run T
run_absolute os host link stop_in c disk none = (not_absolute, false)
run_absolute os host link stop_in c disk (some binary) =
    run_dirs os host link stop_in c binary disk (run_dir_names c)

-- exec.LookPath
abbrev pub run_found : {T : Type 0} → Os → RunHost → T → ℕ → RunConfig → Disk → Option Bytes → Run T
run_found os host link stop_in c disk none = (no_path, false)
run_found os host link stop_in c disk (some path) =
    run_absolute os host link stop_in c disk (host.absolute path)

abbrev pub run_parsed : {T : Type 0} → Os → RunHost → T → ℕ → (Bytes → Disk) → RunArgs → Run T
run_parsed os host link stop_in disks (rejected e) = (run_bad_args e, false)
run_parsed os host link stop_in disks (accepted c) =
    run_found os host link stop_in c (disks c.data_dir) (host.look_path c.binary)

-- `stop_in` is when a signal stops the manager; `disks` has the files below each data directory.
unfoldable pub cmd_run : {T : Type 0} → Os → RunHost → T → ℕ → (Bytes → Disk) → List Bytes → Run T
unfolding parse_run_args open_log neb_command setup new
cmd_run os host link stop_in disks args =
    run_parsed os host link stop_in disks (parse_run_args args)

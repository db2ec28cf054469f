-- ===== src/Cli/Run/Startup.antt =====
-- How `nile run` of cmd/nile/main.go starts.
use nile.Prelude.{
  ℕ, ◌≡◌, refl, ap, ◌∙◌, Bytes, Bool, true, false, if_cases, Option, none, some, List, [], ◌∷◌,
  subst, sym, All,
}
use nile.Wal.Disk.{Os, Result, ok, err, healthy, CursorState, Disk}
use nile.Wal.Log.{Log, Wal}
use nile.Wal.Log.Recovery.{open_log}
use nile.Wal.Cursor.{load}
use nile.Wal.Stream.{Parts, Holds}
use nile.Wal.Stream.Recovery.{open_log-Holds}
use nile.Lifecycle.Manager.{new}
use nile.Telemetry.{SetupError, setup}
use nile.Sandbox.{SandboxConfig, NebCommand, neb_command, neb_env}
use nile.Cli.Args.{RunConfig, accepted, parse_run_args}
use nile.Cli.Status.{pid_file}
use nile.Cli.Run.{
  RunHost, served, Run, run_options, sandbox_config, run_neb, run_opened, run_telemetry, run_dirs,
  run_dir_names, run_absolute, run_found, run_parsed, cmd_run,
}

-- The file is there.
abbrev Leaves : {T : Type 0} → Bool → Run T → Type 0
Leaves written r = r.1 ≡ written

run_neb-Leaves :
    {T : Type 0} (host : RunHost) (link : T) (stop_in : ℕ) (c : RunConfig) (w : Wal) (left : Bool)
    (o : Option NebCommand)
    → Leaves left (run_neb host link stop_in c w left o)
run_neb-Leaves host link stop_in c w left none = refl
run_neb-Leaves {T = T} host link stop_in c w left (some cmd) =
    if_cases (Leaves {T = T} left) host.stdin_pipe
      (λ _.
        if_cases (Leaves {T = T} left) host.stdout_pipe
          (λ _. if_cases (Leaves {T = T} left) host.starts (λ _. refl) (λ _. refl)) (λ _. refl))
      (λ _. refl)

run_opened-Leaves :
    {T : Type 0} (host : RunHost) (link : T) (stop_in : ℕ) (c : RunConfig) (binary : Bytes)
    (disk : Disk) (left : Bool) (r : Result Log)
    → Leaves left (run_opened host link stop_in c binary disk left r)
run_opened-Leaves host link stop_in c binary disk left (err e) = refl
run_opened-Leaves host link stop_in c binary disk left (ok l) =
    run_neb-Leaves host link stop_in c (record { log = l; disk = disk }) left
      (neb_command host.exists (sandbox_config c binary))

run_telemetry-Leaves :
    {T : Type 0} (os : Os) (host : RunHost) (link : T) (stop_in : ℕ) (c : RunConfig)
    (binary : Bytes) (disk : Disk) (left : Bool) (o : Option SetupError)
    → Leaves left (run_telemetry os host link stop_in c binary disk left o)
run_telemetry-Leaves os host link stop_in c binary disk left (some e) = refl
run_telemetry-Leaves os host link stop_in c binary disk left none =
    run_opened-Leaves host link stop_in c binary disk left (open_log os (run_options c) disk)

run_dirs-made :
    {T : Type 0} (os : Os) (host : RunHost) (link : T) (stop_in : ℕ) (c : RunConfig)
    (binary : Bytes) (disk : Disk) (dirs : List Bytes)
    → All (λ d. host.makes_dir d ≡ true) dirs
    → run_dirs os host link stop_in c binary disk dirs
      ≡ run_dirs os host link stop_in c binary disk []
run_dirs-made os host link stop_in c binary disk [] h = refl
run_dirs-made os host link stop_in c binary disk (d ∷ dirs) (h, hs) =
    rw h (run_dirs-made os host link stop_in c binary disk dirs hs)

neb_command-exists :
    (exists : Bytes → Bool) (cfg : SandboxConfig)
    → exists cfg.neb_binary ≡ true
    → neb_command exists cfg ≡ some (record { path = cfg.neb_binary; env = neb_env cfg })
unfolding neb_command
neb_command-exists exists cfg h = rw h refl

-- `nile run` behind its arguments, the search for the binary and the directories.
cmd_run-prepared :
    {T : Type 0} (os : Os) (host : RunHost) (link : T) (stop_in : ℕ) (disks : Bytes → Disk)
    (args : List Bytes) (c : RunConfig) (path binary : Bytes)
    → parse_run_args args ≡ accepted c
    → host.look_path c.binary ≡ some path
    → host.absolute path ≡ some binary
    → All (λ d. host.makes_dir d ≡ true) (run_dir_names c)
    → cmd_run os host link stop_in disks args
      ≡ run_dirs os host link stop_in c binary (disks c.data_dir) []
unfolding cmd_run
cmd_run-prepared os host link stop_in disks args c path binary parsed found abs made =
    ap (run_parsed os host link stop_in disks) parsed
    ∙ ap (run_found os host link stop_in c (disks c.data_dir)) found
    ∙ ap (run_absolute os host link stop_in c (disks c.data_dir)) abs
    ∙ run_dirs-made os host link stop_in c binary (disks c.data_dir) (run_dir_names c) made

-- `nile run` with arguments that are accepted, a binary that is found and directories that can be
-- made: the file with the process number is there if it could be written, whichever later step before Start
-- fails.
pub cmd_run-pid_file :
    {T : Type 0} (os : Os) (host : RunHost) (link : T) (stop_in : ℕ) (disks : Bytes → Disk)
    (args : List Bytes) (c : RunConfig) (path binary : Bytes)
    → parse_run_args args ≡ accepted c
    → host.look_path c.binary ≡ some path
    → host.absolute path ≡ some binary
    → All (λ d. host.makes_dir d ≡ true) (run_dir_names c)
    → (cmd_run os host link stop_in disks args).1 ≡ host.writes_pid (pid_file c.data_dir)
cmd_run-pid_file {T = T} os host link stop_in disks args c path binary parsed found abs made =
    subst (Leaves {T = T} (host.writes_pid (pid_file c.data_dir)))
      (sym (cmd_run-prepared os host link stop_in disks args c path binary parsed found abs made))
      (run_telemetry-Leaves os host link stop_in c binary (disks c.data_dir)
        (host.writes_pid (pid_file c.data_dir))
        (setup host.telemetry (record { open_files = []; global_providers = false })).0)

-- `nile run` on a healthy system where every step succeeds, on the files that a log `w` left with a
-- cursor that can be read: the neb is started with its state and retain directories in the
-- environment, and the manager starts as lifecycle.New makes it, with the retry limit of the
-- arguments and the opened log, which holds the same messages, with that cursor and the limits of
-- the arguments; the file with the process number is there if it could be written.
pub cmd_run-Holds :
    {T : Type 0} (host : RunHost) (link : T) (stop_in : ℕ) (disks : Bytes → Disk)
    (args : List Bytes) (c : RunConfig) (path binary : Bytes) (w : Wal) (parts : Parts)
    (state : CursorState)
    → parse_run_args args ≡ accepted c
    → host.look_path c.binary ≡ some path
    → host.absolute path ≡ some binary
    → All (λ d. host.makes_dir d ≡ true) (run_dir_names c)
    → (setup host.telemetry (record { open_files = []; global_providers = false })).0 ≡ none
    → host.exists binary ≡ true
    → host.stdin_pipe ≡ true
    → host.stdout_pipe ≡ true
    → host.starts ≡ true
    → disks c.data_dir ≡ w.disk
    → Holds w parts
    → load healthy w.disk ≡ ok state
    → (l : Log) × (cmd_run healthy host link stop_in disks args ≡ (
      served
          (record { path = binary; env = neb_env (sandbox_config c binary) })
          (new c.name c.data_dir c.max_retries (record { log = l; disk = w.disk }) link stop_in),
      host.writes_pid (pid_file c.data_dir),
    ))
      × Holds (record { log = l; disk = w.disk }) parts
      × (l.cur ≡ state)
      × (l.closed_flag ≡ false)
      × (l.opts ≡ run_options c)
cmd_run-Holds host link stop_in disks args c path binary w parts state parsed found abs made tel neb
      i o go on_disk h loaded =
    let (l, opened, holds, cur, unclosed, opts) =
      open_log-Holds w parts (run_options c) state h loaded in
    let left = host.writes_pid (pid_file c.data_dir) in
    let neb_eq : neb_command host.exists (sandbox_config c binary)
        ≡ some (record { path = binary; env = neb_env (sandbox_config c binary) }) =
      neb_command-exists host.exists (sandbox_config c binary) neb in
    (
      l,
      cmd_run-prepared healthy host link stop_in disks args c path binary parsed found abs made
          ∙ ap (run_telemetry healthy host link stop_in c binary (disks c.data_dir) left) tel
          ∙ ap
              (λ d.
                run_opened host link stop_in c binary d left (open_log healthy (run_options c) d))
              on_disk
          ∙ ap (run_opened host link stop_in c binary w.disk left) opened
          ∙ ap (run_neb host link stop_in c (record { log = l; disk = w.disk }) left) neb_eq
          ∙ rw (i, o, go) refl,
      holds,
      cur,
      unclosed,
      opts,
    )

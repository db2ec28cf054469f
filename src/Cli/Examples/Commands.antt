-- ===== src/Cli/Examples/Commands.antt =====
-- The theorems on the commands of cmd/nile/main.go, at one copt with a log of two segments.
use nile.Prelude.{◌≡◌, refl, arith, Bytes, ascii, Bool, true, pos, none, some, List, [], ◌∷◌}
use nile.Wal.Disk.{healthy, ok, Disk, empty_disk}
use nile.Wal.Cursor.{cursor_zero, load}
use nile.Wal.Log.{Wal, default_options}
use nile.Wal.Log.Recovery.{fresh_log}
use nile.Wal.Stream.{Parts, Holds, holding, messages}
use nile.Cli.{dispatch, run_command}
use nile.Trim.{trim_space}
use nile.Cli.Int.{parse_int}
use nile.Cli.Path.{default_data_dir}
use nile.Cli.Args.{RunConfig, accepted, parse_run_args}
use nile.Cli.Args.RoundTrip.{IsRunConfig, command_line, parse_run_args-command_line}
use nile.Cli.Args.Validity.{parse_run_args-IsRunConfig}
use nile.Cli.Install.{InstallHost, created, unit_path, cmd_install}
use nile.Cli.Install.Unit.{exec_setting}
use nile.Cli.Install.Restart.{restarted, cmd_install-restart}
use nile.Cli.Send.{sent, parse_send_args, cmd_send}
use nile.Cli.Send.Appending.{lines_from, closing, cmd_send-Holds}
use nile.Cli.Status.{StatusHost, running, cmd_status}
use nile.Cli.Status.Reporting.{report, cmd_status-Holds}
use nile.Cli.Watch.{watch_start, watch}
use nile.Cli.Watch.Following.{shown, latest, states, Changing, watch_follows}
use nile.Cli.Run.{RunHost}
use nile.Cli.Examples.{config, config-IsRunConfig, split_spaces, split_spaces-SplitsWords}

abbrev pub short_args : List Bytes
short_args =
    ascii "counter"
    ∷ ascii "--binary"
    ∷ ascii "/opt/counter"
    ∷ ascii "--max-retries"
    ∷ ascii "0"
    ∷ []

abbrev pub short_config : RunConfig
short_config = record {
  name = ascii "counter";
  binary = ascii "/opt/counter";
  data_dir = ascii "/var/lib/nile/counter";
  max_messages = pos 10000;
  max_bytes = pos 10485760;
  segment_size = pos 1048576;
  message_timeout = pos 60;
  max_retries = pos 0;
  max_depth = pos 0;
}

pub short_args-accepted : parse_run_args short_args ≡ accepted short_config
unfolding parse_run_args default_data_dir parse_int
short_args-accepted = refl

parse_run_args-command_line_example : parse_run_args (command_line config) ≡ accepted config
parse_run_args-command_line_example = parse_run_args-command_line config config-IsRunConfig

parse_run_args-IsRunConfig_example : IsRunConfig short_config
parse_run_args-IsRunConfig_example =
    parse_run_args-IsRunConfig short_args short_config short_args-accepted

abbrev install_host : InstallHost
install_host = record {
  absolute = λ p. some p;
  executable = some (ascii "/usr/bin/nile");
  home = some (ascii "/home/ann");
  makes_dir = λ p. true;
  creates = λ p. true;
  writes = λ p. true;
}

cmd_install-restart_example :
    (text : Bytes) × (cmd_install install_host short_args
      ≡ created (unit_path (ascii "/home/ann") (ascii "counter")) text)
    × ((line : Bytes) × (exec_setting text ≡ some line)
        × ((run_args : List Bytes) × (dispatch (split_spaces line) ≡ run_command run_args)
            × (parse_run_args run_args ≡ accepted (restarted short_config (ascii "/opt/counter")))))
cmd_install-restart_example =
    cmd_install-restart split_spaces split_spaces-SplitsWords install_host short_args short_config
      (ascii "/opt/counter") (ascii "/usr/bin/nile") (ascii "/home/ann") short_args-accepted refl
      refl refl refl refl refl refl (refl, (refl, (refl, (refl, tt))))

-- A log of three messages; the files are the same below every directory.
abbrev pub two_parts : Parts
two_parts = (ascii "a" ∷ ascii "bc" ∷ []) ∷ ((ascii "d" ∷ []) ∷ [])

abbrev pub held : Wal
held = holding (record { log = fresh_log default_options cursor_zero; disk = empty_disk }) two_parts

pub held-Holds : Holds held two_parts
held-Holds = record {
  state = refl;
  clean = record {
    filled = (omega arith, tt);
    fit = ((omega arith, (omega arith, tt)), ((omega arith, tt), tt));
    small = omega arith;
  };
}

abbrev pub disks : Bytes → Disk
disks dir = held.disk

cmd_send-Holds_example :
    (v : Wal) × (parts : Parts) × (cmd_send healthy disks
        (ascii "counter" ∷ ascii "e" ∷ ascii "fg" ∷ [])
      ≡ sent (ascii "/var/lib/nile/counter") (record {
        lines = lines_from 3 (ascii "e" ∷ ascii "fg" ∷ []);
        error = none;
        wal = closing v;
      }))
    × Holds v parts
    × (messages parts ≡ ascii "a" ∷ ascii "bc" ∷ ascii "d" ∷ ascii "e" ∷ ascii "fg" ∷ [])
    × (load healthy v.disk ≡ ok cursor_zero)
unfolding load parse_send_args default_data_dir
cmd_send-Holds_example =
    cmd_send-Holds disks (ascii "counter" ∷ ascii "e" ∷ ascii "fg" ∷ [])
      (ascii "/var/lib/nile/counter") (ascii "counter") (ascii "e" ∷ ascii "fg" ∷ []) held two_parts
      cursor_zero refl refl held-Holds refl (omega arith, (omega arith, tt)) (omega arith)

abbrev status_host : StatusHost
status_host = record {
  read_file = λ p. some (ascii "42\n");
  finds = λ z. true;
  signals = λ z. true;
}

cmd_status-Holds_example :
    cmd_status healthy status_host disks (ascii "counter" ∷ [])
    ≡ running
        (pos 42)
        (some (report cursor_zero held.disk (ascii "a" ∷ ascii "bc" ∷ ascii "d" ∷ [])))
unfolding load parse_int trim_space
cmd_status-Holds_example =
    cmd_status-Holds status_host disks (ascii "counter") [] (ascii "42\n") (pos 42) held two_parts
      cursor_zero refl refl refl refl refl held-Holds refl

watch_follows_example :
    (latest watch_start
        (shown (watch healthy watch_start (empty_disk ∷ held.disk ∷ held.disk ∷ [])))
      ≡ latest watch_start (states healthy (empty_disk ∷ held.disk ∷ held.disk ∷ [])))
    × Changing watch_start
        (shown (watch healthy watch_start (empty_disk ∷ held.disk ∷ held.disk ∷ [])))
watch_follows_example = watch_follows healthy (empty_disk ∷ held.disk ∷ held.disk ∷ [])

-- Every step succeeds but the start of the neb.
abbrev pub run_host : Bool → RunHost
run_host starts = record {
  look_path = λ p. some p;
  absolute = λ p. some p;
  makes_dir = λ p. true;
  writes_pid = λ p. true;
  telemetry = record { makes_dir = true; opens = λ h. true; exports = λ h. true };
  exists = λ p. true;
  stdin_pipe = true;
  stdout_pipe = true;
  starts = starts;
}

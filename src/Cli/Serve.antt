-- ===== src/Cli/Serve.antt =====
-- `nile run` of cmd/nile/main.go as a whole: cmdRun with Start, the signals and what is done behind them.
pub mod Delivery
pub mod PidFile
use nile.Prelude.{ℕ, Bytes, Bool, true, false, if◌then◌else◌, Option, none, some, List}
use nile.Wal.Disk.{Os, Disk}
use nile.Wal.Log.{Wal, close_log}
use nile.Wal.Backend.{wal_store}
use nile.Transport.{Transport}
use nile.Lifecycle.Manager.{Manager}
use nile.Lifecycle.Pump.{Exit, running, closed_twice, start}
use nile.Cli.Status.{pid_file}
use nile.Cli.Run.{RunHost, RunExit, served, Run, cmd_run}

-- How the program ends: before Start, by a second signal, by a panic, or when Start has returned. The last
-- outcome has no counterpart: the pump still runs after the rounds given.
pub data RunEnd (T : Type 0) : Type 0 where
  not_served : RunExit T → RunEnd T
  forced : RunEnd T
  panicked : RunEnd T
  returned : Exit → Manager Wal T → RunEnd T
  still_running : Manager Wal T → RunEnd T

-- The exit status. An error of Start is logged, and cmdRun returns.
abbrev pub exit_status : {T : Type 0} → RunEnd T → Option ℕ
exit_status (not_served e) = some 1
exit_status forced = some 1
exit_status panicked = some 2
exit_status (returned e m) = some 0
exit_status (still_running m) = none

-- tr.Close, and the deferred Close of the log.
abbrev pub cleaned : {T : Type 0} → Transport T → Manager Wal T → Manager Wal T
cleaned transport m = record m {
  link = transport.close m.link;
  backend = record (m.backend) { log = close_log m.backend.log };
}

-- Behind Start. `second` when a second signal comes before Start returns. `left` is whether the file with the
-- process number is there; the deferred os.Remove takes it away, on a panic too. With the end: whether it is left.
abbrev pub end_run :
    {T : Type 0} → Transport T → Bool → Bool → Exit × Manager Wal T → RunEnd T × Bool
end_run transport second left (running, m) = (still_running m, left)
end_run transport second left (closed_twice, m) = (panicked, false)
end_run transport second left (exit, m) =
    if second then (forced, left) else (returned exit (cleaned transport m), false)

abbrev pub serve_run : {T : Type 0} → Os → Transport T → List Bytes → Bool → Run T → RunEnd T × Bool
serve_run os transport paths second (served cmd m, left) =
    end_run transport second left (start (wal_store os) transport paths m)
serve_run os transport paths second (exit, left) = (not_served exit, left)

-- `link` is the transport on the neb's pipes, `stop_in` counts the looks at stopCh until the first signal,
-- and `paths` are the names of snapshots, one for each round of the pump.
unfoldable pub nile_run :
    {T : Type 0}
    → Os
    → RunHost
    → Transport T
    → T
    → ℕ
    → List Bytes
    → Bool
    → (Bytes → Disk)
    → List Bytes
    → RunEnd T × Bool
unfolding cmd_run start
nile_run os host transport link stop_in paths second disks args =
    serve_run os transport paths second (cmd_run os host link stop_in disks args)

-- ===== src/Cli/Serve/PidFile.antt =====
-- The file with the process number at the end of `nile run`, in cmd/nile/main.go.
use nile.Prelude.{◌≡◌, Bool, true, false, not, ◌&&◌}
use nile.Wal.Disk.{Disk}
use nile.Wal.Log.{Wal}
use nile.Transport.{Transport}
use nile.Lifecycle.Manager.{Manager}
use nile.Cli.Run.{Run}
use nile.Cli.Serve.{RunEnd, not_served, forced, panicked, returned, still_running}

-- Deferred calls run when cmdRun returns and when it panics, and not at os.Exit.
abbrev pub runs_deferred : {T : Type 0} → RunEnd T → Bool
runs_deferred (not_served e) = false
runs_deferred forced = false
runs_deferred panicked = true
runs_deferred (returned e m) = true
runs_deferred (still_running m) = false

abbrev Removes : {T : Type 0} → Bool → RunEnd T × Bool → Type 0
Removes written r = r.1 ≡ (not (runs_deferred r.0) && written)

-- ===== src/Telemetry/Examples.antt =====
-- Telemetry whose files can be opened, with an error in the second call of Shutdown.
use nile.Prelude.{◌⊎◌, Bytes, ascii, true, false, none, some, []}
use nile.Telemetry.{Process, SetupHost, ShutdownErrors, setup}
use nile.Telemetry.Handles.{IsUndone, IsReady, setup-shutdown}

abbrev fresh : Process
fresh = record { open_files = []; global_providers = false }

abbrev host : SetupHost
host = record { makes_dir = true; opens = λ h. true; exports = λ h. true }

abbrev errors : ShutdownErrors Bytes
errors = record {
  tracer = none;
  meter = some (ascii "flush");
  trace_file = none;
  metric_file = none;
}

setup-shutdown_example : IsUndone fresh (setup host fresh) ⊎ IsReady errors fresh (setup host fresh)
setup-shutdown_example = setup-shutdown host errors fresh

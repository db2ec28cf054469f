-- ===== src/Telemetry.antt =====
-- pkg/otel/otel.go: the files and providers of a copt's telemetry.
pub mod Metrics
pub mod Handles
mod Examples
use nile.Prelude.{Bytes, Bool, true, false, if◌then◌else◌, Option, none, some, List, [], ◌∷◌}

pub data Handle : Type 0 where
  traces metrics : Handle

-- The open files, the latest first, and whether the global providers are those of this package.
pub record Process : Type 0 where
  pub open_files : List Handle
  pub global_providers : Bool

-- What the operating system and the exporters of go.opentelemetry.io answer.
pub record SetupHost : Type 0 where
  pub makes_dir : Bool
  pub opens : Handle → Bool
  pub exports : Handle → Bool

pub data SetupError : Type 0 where
  no_telemetry_dir : SetupError
  not_opened no_exporter : Handle → SetupError

abbrev pub same_handle : Handle → Handle → Bool
same_handle traces traces = true
same_handle traces metrics = false
same_handle metrics traces = false
same_handle metrics metrics = true

-- Close releases the latest open file of that name.
unfoldable pub close_handle : Handle → List Handle → List Handle
close_handle h [] = []
close_handle h (k ∷ ks) = if same_handle k h then ks else k ∷ close_handle h ks

abbrev pub open_handle : Handle → Process → Process
open_handle h p = record p { open_files = h ∷ p.open_files }

abbrev pub closed : Handle → Process → Process
closed h p = record p { open_files = close_handle h p.open_files }

-- From the metrics file on.
abbrev pub setup_metrics : SetupHost → Process → Option SetupError × Process
setup_metrics host p =
    if host.opens metrics
    then if host.exports metrics
      then (none, record (open_handle metrics p) { global_providers = true })
      else (some (no_exporter metrics), closed metrics (closed traces (open_handle metrics p)))
    else (some (not_opened metrics), closed traces p)

-- Setup
unfoldable pub setup : SetupHost → Process → Option SetupError × Process
unfolding close_handle
setup host p =
    if host.makes_dir
    then if host.opens traces
      then if host.exports traces
        then setup_metrics host (open_handle traces p)
        else (some (no_exporter traces), closed traces (open_handle traces p))
      else (some (not_opened traces), p)
    else (some no_telemetry_dir, p)

-- The errors of the four calls of Shutdown.
pub record ShutdownErrors {ℓ} (E : Type ℓ) : Type ℓ where
  pub tracer : Option E
  pub meter : Option E
  pub trace_file : Option E
  pub metric_file : Option E

-- `if err != nil && firstErr == nil`
abbrev pub first_error {ℓ} : {E : Type ℓ} → Option E → Option E → Option E
first_error none err = err
first_error (some first) err = some first

-- Shutdown. A Close that reports an error has released the file all the same.
unfoldable pub shutdown {ℓ} : {E : Type ℓ} → ShutdownErrors E → Process → Option E × Process
unfolding close_handle
shutdown es p = (
  first_error (first_error (first_error (first_error none es.tracer) es.meter) es.trace_file)
      es.metric_file,
  closed metrics (closed traces p),
)

-- ===== src/Telemetry/Metrics.antt =====
-- pkg/otel/metrics.go: the instruments of a copt. An instrument is a third-party object that is given numbers: of
-- a counter the sum is kept, of a gauge the last number, and of the histogram how many there were.
use nile.Prelude.{ℕ, suc, Option, none, some}

-- `Metrics`, with what its instruments have been given since NewMetrics.
pub record Metrics : Type 0 where
  pub received : ℕ
  pub processed : ℕ
  pub dead_lettered : ℕ
  pub durations : ℕ
  pub stream_depth : Option ℕ
  pub stream_bytes : Option ℕ
  pub retention : ℕ

-- NewMetrics. The errors of the meter are ignored.
abbrev pub new_metrics : Metrics
new_metrics = record {
  received = 0;
  processed = 0;
  dead_lettered = 0;
  durations = 0;
  stream_depth = none;
  stream_bytes = none;
  retention = 0;
}

-- RecordReceived
abbrev pub record_received : Metrics → Metrics
record_received m = record m { received = suc m.received }

-- RecordProcessed
abbrev pub record_processed : Metrics → Metrics
record_processed m = record m { processed = suc m.processed }

-- RecordDeadLettered
abbrev pub record_dead_lettered : Metrics → Metrics
record_dead_lettered m = record m { dead_lettered = suc m.dead_lettered }

-- RecordDuration
abbrev pub record_duration : Metrics → Metrics
record_duration m = record m { durations = suc m.durations }

-- RecordDepth
abbrev pub record_depth : ℕ → Metrics → Metrics
record_depth depth m = record m { stream_depth = some depth }

-- RecordBytes
abbrev pub record_bytes : ℕ → Metrics → Metrics
record_bytes bytes m = record m { stream_bytes = some bytes }

-- RecordRetention
abbrev pub record_retention : Metrics → Metrics
record_retention m = record m { retention = suc m.retention }

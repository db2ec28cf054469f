-- ===== src/Lifecycle/Pump.antt =====
-- pkg/lifecycle/manager.go: retention, shutdown, the pump and Start.
use nile.Prelude.{
  ℕ, Bool, Bytes, if◌then◌else◌, true, false, ◌||◌, Option, none, some, List, [], ◌∷◌,
}
use nile.Wal.Record.{Error, no_messages}
use nile.Wal.Disk.{Result, ok, err}
use nile.Store.{Store}
use nile.Protocol.{init, retain, shutdown, init_params, retain_params, no_params}
use nile.Transport.{Transport}
use nile.Telemetry.Metrics.{record_depth, record_bytes, record_retention}
use nile.Lifecycle.States.{
  starting, idle, draining, retaining, stopping, stopped, failed, same_state,
}
use nile.Lifecycle.Manager.{
  Manager, Failure, store_failed, Sent, answered, unanswered, stop_signalled, transition,
  try_transition, send, stored, entered, process_message,
}

-- How the pump ended.
pub data Exit : Type 0 where
  stopped_by_request : Exit
  failed_with : Failure → Exit
  -- no Go value: the pump still runs after the rounds given
  running : Exit
  -- a panic: doneCh is closed twice
  closed_twice : Exit

-- One round of the loop: it goes on, or the pump returns.
pub data Round (S T : Type 0) : Type 0 where
  continue : Manager S T → Round S T
  leave : Exit → Manager S T → Round S T

-- The state before is overwritten, unless it is `idle` or `stopping`.
abbrev pub begin_shutdown : {S T : Type 0} → Manager S T → Manager S T
begin_shutdown m =
    if same_state m.state idle || same_state m.state stopping
    then try_transition stopping m
    else record m { state = stopping }

module _ {S T : Type 0} (store : Store S) (transport : Transport T) where
  -- Whatever the neb answers, the manager ends stopped.
  unfoldable pub shut_down : Manager S T → Manager S T
  shut_down m = record ((send transport shutdown no_params (begin_shutdown m)).1) {
    state = stopped;
  }

  abbrev pub after_truncate : Manager S T → Option Error × S → Option Failure × Manager S T
  after_truncate m (some e, s) =
      (some (store_failed e), try_transition failed (record m { backend = s }))
  after_truncate m (none, s) =
      (none, try_transition idle (record m { backend = s; metrics = record_retention m.metrics }))

  -- After the neb's answer to the retain request.
  abbrev pub after_retain : Sent × Manager S T → Option Failure × Manager S T
  after_retain (unanswered e, m) = (some e, try_transition failed m)
  after_retain (answered result, m) = after_truncate m (store.truncate m.backend)

  abbrev pub after_snapshot : Bytes → Manager S T → Option Failure × Manager S T
  after_snapshot path m =
      entered store transport (λ m'. after_retain (send transport retain (retain_params path) m'))
        (transition retaining m)

  abbrev pub take_snapshot : Bytes → Manager S T → Option Failure × Manager S T
  take_snapshot path m = stored m (store.snapshot path m.backend) (after_snapshot path)

  -- `path` is the name with the time that doRetention chooses.
  unfoldable pub do_retention : Bytes → Manager S T → Option Failure × Manager S T
  do_retention path m = entered store transport (take_snapshot path) (transition draining m)

  abbrev pub ticked : Bool × Manager S T → Round S T
  ticked (true, m) = leave stopped_by_request (shut_down m)
  ticked (false, m) = continue m

  -- The end of a round where nothing was read: stop, or wait for the next tick.
  abbrev pub wait_tick : Manager S T → Round S T
  wait_tick m = ticked (stop_signalled m)

  abbrev pub checked : (Manager S T → Round S T) → Option Failure × Manager S T → Round S T
  checked next (some e, m) = leave (failed_with e) m
  checked next (none, m) = next m

  -- "if m.store.RetentionExceeded()"
  abbrev pub with_retention : Bytes → Manager S T → Option Failure × Manager S T
  with_retention path m =
      if store.retention_exceeded m.backend then do_retention path m else (none, m)

  -- The gauges of the stream, while idle.
  abbrev pub gauged : Manager S T → Manager S T
  gauged m = record m {
    metrics =
        record_bytes (store.total_bytes m.backend) (record_depth (store.depth m.backend) m.metrics);
  }

  abbrev pub read_next : Bytes → Manager S T → Result (ℕ × Bytes) × S → Round S T
  read_next path m (err no_messages, s) =
      checked (λ m'. wait_tick (gauged m')) (with_retention path (record m { backend = s }))
  read_next path m (err e, s) = leave (failed_with (store_failed e)) (record m { backend = s })
  read_next path m (ok (offset, payload), s) =
      checked (λ m'. checked continue (with_retention path m'))
        (process_message store transport offset payload (record m { backend = s }))

  abbrev pub run_round : Bytes → Manager S T → Round S T
  run_round path m =
      if same_state m.state idle
      then read_next path m (store.next_unprocessed m.backend)
      else wait_tick m

  -- After the look at stopCh with which a round begins.
  abbrev pub looked : Bytes → Bool × Manager S T → Round S T
  looked path (true, m) = leave stopped_by_request (shut_down m)
  looked path (false, m) = run_round path m

  unfoldable pub pump_round : Bytes → Manager S T → Round S T
  pump_round path m = looked path (stop_signalled m)

  -- `defer close(m.doneCh)`
  abbrev pub close_done : Exit → Manager S T → Exit × Manager S T
  close_done e m = if m.done then (closed_twice, m) else (e, record m { done = true })

  abbrev pub after_round : (Manager S T → Exit × Manager S T) → Round S T → Exit × Manager S T
  after_round next (continue m) = next m
  after_round next (leave e m) = close_done e m

  -- The loop, for as many rounds as there are snapshot names.
  unfoldable pub pump : List Bytes → Manager S T → Exit × Manager S T
  pump [] m = (running, m)
  pump (path ∷ paths) m = after_round (pump paths) (pump_round path m)

  abbrev pub checked_exit :
      (Manager S T → Exit × Manager S T) → Option Failure × Manager S T → Exit × Manager S T
  checked_exit next (some e, m) = (failed_with e, m)
  checked_exit next (none, m) = next m

  abbrev pub after_init : List Bytes → Sent × Manager S T → Exit × Manager S T
  after_init paths (unanswered e, m) = (failed_with e, try_transition failed m)
  after_init paths (answered result, m) = checked_exit (pump paths) (transition idle m)

  unfoldable pub start : List Bytes → Manager S T → Exit × Manager S T
  start paths m =
      checked_exit (λ m'. after_init paths (send transport init (init_params m'.name) m'))
        (transition starting m)

-- Stop closes stopCh; what is left to wait for is nothing.
unfoldable pub stop : {S T : Type 0} → Manager S T → Manager S T
stop m = record m { stop_in = 0 }

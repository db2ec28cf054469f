-- ===== src/Lifecycle/Examples.antt =====
-- The theorems on the manager, at a log with three messages and a neb that refuses its first request.
mod Serving
use nile.Prelude.{
  ◌↔◌, ℕ, zero, suc, ◌+◌, ◌≡◌, ◌⊎◌, refl, arith, ascii, Option, none, some, [], ◌∷◌, true, pos,
}
use nile.Protocol.{Response}
use nile.Transport.{Transport}
use nile.Wal.Disk.{healthy, empty_disk}
use nile.Wal.Cursor.{cursor_zero}
use nile.Wal.Log.{Wal, default_options}
use nile.Wal.Log.Recovery.{fresh_log}
use nile.Wal.Stream.{holding}
use nile.Wal.Backend.{wal_store}
use nile.Lifecycle.States.{can_transition, idle, processing, failed}
use nile.Lifecycle.States.Paths.{◌⟶◌, ◌⟶*◌, can_transition_iff, diagram_reach}
use nile.Lifecycle.Manager.{Manager, Failure, new, retries_or_default, rounds, process_message}
use nile.Lifecycle.Pump.{pump, do_retention}
use nile.Lifecycle.Fate.{Fate}
use nile.Lifecycle.Outcome.{process_message-Fate}
use nile.Lifecycle.Counting.{Counted, process_message-Counted}
use nile.Lifecycle.Retention.{Cycle, do_retention-Cycle}
use nile.Lifecycle.Ending.{Ends, pump-Ends}

abbrev answer_to : ℕ → Option Response
answer_to zero = none
answer_to (suc n) = some (record {
  result = some (record { status = ascii "ok"; post_process = true });
  error = none;
  id = suc n;
})

-- It counts its requests.
abbrev neb : Transport ℕ
neb = record { send = λ _ n. (answer_to n, suc n); close = λ n. n }

abbrev three : Wal
three =
    holding (record { log = fresh_log default_options cursor_zero; disk = empty_disk })
      ((ascii "a" ∷ ascii "bc" ∷ []) ∷ ((ascii "d" ∷ []) ∷ []))

-- Stop comes after three looks.
abbrev manager : Manager Wal ℕ
manager = record (new (ascii "counter") (ascii "data") (pos 2) three 0 3) { state = idle }

process_message-Fate_example :
    let r = process_message (wal_store healthy) neb 0 (ascii "a") manager in
    (used : ℕ) × (r.1.req_id ≡ 0 + used)
    × Fate (wal_store healthy) neb 0 (ascii "a") three 3 used r.1.backend r.1.link r.1.stop_in
    × ((r.1.state ≡ idle) ⊎ ((f : Failure) × (r.0 ≡ some f)))
unfolding new retries_or_default
process_message-Fate_example =
    process_message-Fate (wal_store healthy) neb 0 (ascii "a") manager 3 refl refl (omega arith)

process_message-Counted_example :
    Counted
      (wal_store healthy)
      0
      (ascii "a")
      manager
      (process_message (wal_store healthy) neb 0 (ascii "a") manager)
process_message-Counted_example =
    process_message-Counted (wal_store healthy) neb 0 (ascii "a") manager

do_retention-Cycle_example :
    Cycle
      (wal_store healthy)
      neb
      (ascii "s")
      manager
      (do_retention (wal_store healthy) neb (ascii "s") manager)
do_retention-Cycle_example = do_retention-Cycle (wal_store healthy) neb (ascii "s") manager refl

pump-Ends_example :
    Ends (pump (wal_store healthy) neb (ascii "s" ∷ ascii "t" ∷ ascii "u" ∷ ascii "v" ∷ []) manager)
unfolding new
pump-Ends_example =
    pump-Ends (wal_store healthy) neb (ascii "s" ∷ ascii "t" ∷ ascii "u" ∷ ascii "v" ∷ []) manager
      refl (omega arith)

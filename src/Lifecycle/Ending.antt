-- ===== src/Lifecycle/Ending.antt =====
-- The end of the pump of pkg/lifecycle/manager.go.
use nile.Prelude.{
  ℕ, suc, ◌<◌, ◌≤◌, ◌≡◌, refl, ap, ◌⊎◌, sym, subst, ◌∙◌, arith, Bytes, Bool, true, false, Option,
  none, some, List, [], ◌∷◌, length, Bool-cases, inl, inr, if◌then◌else◌,
}
use nile.Wal.Record.{no_messages}
use nile.Wal.Disk.{Result, ok, err}
use nile.Store.{Store}
use nile.Transport.{Transport}
use nile.Lifecycle.States.{idle, stopped, same_state}
use nile.Lifecycle.Manager.{
  Manager, Failure, store_failed, stop_signalled, transition, try_transition, send, process_message,
}
use nile.Lifecycle.Pump.{
  gauged, Exit, stopped_by_request, failed_with, closed_twice, Round, continue, leave, shut_down,
  wait_tick, ticked, looked, after_round, checked, with_retention, read_next, run_round, pump_round,
  close_done, pump,
}
use nile.Lifecycle.Looks.{Within, process_message-Keeps, with_retention-Keeps}

-- Stopped as requested, or a failure.
abbrev pub Returned : {S T : Type 0} → Exit → Manager S T → Type 0
Returned e m =
    ((e ≡ stopped_by_request) × (m.state ≡ stopped)) ⊎ ((f : Failure) × (e ≡ failed_with f))

abbrev pub Ends : {S T : Type 0} → Exit × Manager S T → Type 0
Ends r = (r.1.done ≡ true) × Returned r.0 r.1

module _ {S T : Type 0} (store : Store S) (transport : Transport T) where
  -- A round that goes on has used up one of `b` looks; one that leaves does so for a Go reason, and a stop
  -- has left the manager stopped.
  abbrev Falls : ℕ → Round S T → Type 0
  Falls b (continue m) = (suc m.stop_in ≤ b) × (m.done ≡ false)
  Falls b (leave e m) = (m.done ≡ false) × Returned e m

  checked_rule :
      (b : ℕ) (next : Manager S T → Round S T) (r : Option Failure × Manager S T)
      → r.1.done ≡ false
      → (r.0 ≡ none → Falls b (next r.1))
      → Falls b (checked store transport next r)
  checked_rule b next (some e, m) h good = (h, inr (e, refl))
  checked_rule b next (none, m) h good = good refl

  shut_down-stopped : (m : Manager S T) → (shut_down store transport m).state ≡ stopped
  unfolding shut_down
  shut_down-stopped m = refl

  shut_down-done : (m : Manager S T) → m.done ≡ false → (shut_down store transport m).done ≡ false
  unfolding shut_down send try_transition transition
  shut_down-done m h = ground arith

  leave_stopped :
      (b : ℕ) (m : Manager S T)
      → m.done ≡ false
      → Falls b (leave stopped_by_request (shut_down store transport m))
  leave_stopped b m h = (shut_down-done m h, inl (refl, shut_down-stopped m))

  look_again :
      (m : Manager S T)
      → (stop_signalled m).0 ≡ false
      → suc (stop_signalled m).1.stop_in ≤ m.stop_in
  unfolding stop_signalled
  look_again m h = ground arith

  look_done : (m : Manager S T) → (stop_signalled m).1.done ≡ m.done
  unfolding stop_signalled
  look_done m = ground arith

  look_le : (m : Manager S T) → (stop_signalled m).1.stop_in ≤ m.stop_in
  unfolding stop_signalled
  look_le m = ground arith

  ticked-Falls :
      (b : ℕ) (r : Bool × Manager S T)
      → suc r.1.stop_in ≤ b
      → r.1.done ≡ false
      → Falls b (ticked store transport r)
  ticked-Falls b (true, m) h d = leave_stopped b m d
  ticked-Falls b (false, m) h d = (h, d)

  wait_tick-Falls :
      (b : ℕ) (m : Manager S T)
      → suc m.stop_in ≤ b
      → m.done ≡ false
      → Falls b (wait_tick store transport m)
  wait_tick-Falls b m h d =
      ticked-Falls b (stop_signalled m) (omega (arith, look_le m)) (look_done m ∙ d)

  read_next-Falls :
      (b : ℕ) (path : Bytes) (m : Manager S T) (r : Result (ℕ × Bytes) × S)
      → Within store transport b m
      → Falls (suc b) (read_next store transport path m r)
  read_next-Falls b path m (ok (offset, p), s) h =
      let k = process_message-Keeps store transport b offset p (record m { backend = s }) h in
      checked_rule (suc b)
        (λ m'. checked store transport continue (with_retention store transport path m'))
        (process_message store transport offset p (record m { backend = s })) k.1
        (λ q.
          let l =
            with_retention-Keeps store transport b path
              (process_message store transport offset p (record m { backend = s })).1 k in
          checked_rule (suc b) continue
            (with_retention store transport path
              (process_message store transport offset p (record m { backend = s })).1)
            l.1 (λ z. (omega (arith, l.0), l.1)))
  read_next-Falls b path m (err no_messages, s) h =
      let l = with_retention-Keeps store transport b path (record m { backend = s }) h in
      checked_rule (suc b) (λ m'. wait_tick store transport (gauged store transport m'))
        (with_retention store transport path (record m { backend = s })) l.1
        (λ z.
          wait_tick-Falls (suc b)
            (gauged store transport
              (with_retention store transport path (record m { backend = s })).1)
            (omega (arith, l.0)) l.1)
  read_next-Falls b path m (err e, s) h = (h.1, inr (store_failed e, refl))

  run_round-Falls :
      (b : ℕ) (path : Bytes) (m : Manager S T)
      → Within store transport b m
      → Falls (suc b) (run_round store transport path m)
  run_round-Falls b path m h = elim (Bool-cases (same_state m.state idle)) [
    | inl e ↦ rw e (read_next-Falls b path m (store.next_unprocessed m.backend) h)
    | inr e ↦ rw e (wait_tick-Falls (suc b) m (omega (arith, h.0)) h.1)
  ]

  Falls-le : (a b : ℕ) (r : Round S T) → a ≤ b → Falls a r → Falls b r
  Falls-le a b (continue m) h k = (omega arith, k.1)
  Falls-le a b (leave e m) h k = k

  looked-Falls :
      (b : ℕ) (path : Bytes) (r : Bool × Manager S T)
      → (r.0 ≡ false → suc r.1.stop_in ≤ b)
      → r.1.done ≡ false
      → Falls b (looked store transport path r)
  looked-Falls b path (true, m) h d = leave_stopped b m d
  looked-Falls b path (false, m) h d =
      Falls-le (suc m.stop_in) b (run_round store transport path m) (h refl)
        (run_round-Falls m.stop_in path m (omega arith, d))

  pump_round-Falls :
      (path : Bytes) (m : Manager S T)
      → m.done ≡ false
      → Falls m.stop_in (pump_round store transport path m)
  unfolding pump_round
  pump_round-Falls path m d =
      looked-Falls m.stop_in path (stop_signalled m) (look_again m) (look_done m ∙ d)

  close_done-Ends :
      (b : ℕ) (e : Exit) (m : Manager S T)
      → Falls b (leave e m)
      → Ends (close_done store transport e m)
  close_done-Ends b e m (d, k) =
      subst Ends (sym (ap (λ x. if x then (closed_twice, m) else (e, record m { done = true })) d))
        (refl, k)

  after_round-Ends :
      (b n : ℕ) (next : Manager S T → Exit × Manager S T) (r : Round S T)
      → Falls b r
      → b < suc n
      → ((m : Manager S T) → m.done ≡ false → m.stop_in < n → Ends (next m))
      → Ends (after_round store transport next r)
  after_round-Ends b n next (continue m) k h good = good m k.1 (omega arith)
  after_round-Ends b n next (leave e m) k h good = close_done-Ends b e m k

-- A pump that is given more rounds than there are looks at stopCh before it is found closed returns, with
-- doneCh closed, and closed once: it stops as requested, with the manager stopped, or it reports a failure.
-- doneCh is open when it begins.
pub pump-Ends :
    {S T : Type 0} (store : Store S) (transport : Transport T) (paths : List Bytes)
    (m : Manager S T)
    → m.done ≡ false
    → m.stop_in < length paths
    → Ends (pump store transport paths m)
unfolding pump
pump-Ends store transport [] m d h = absurd (omega arith)
pump-Ends store transport (path ∷ paths) m d h =
    after_round-Ends store transport m.stop_in (length paths) (pump store transport paths)
      (pump_round store transport path m) (pump_round-Falls store transport path m d) h
      (pump-Ends store transport paths)

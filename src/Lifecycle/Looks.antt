-- ===== src/Lifecycle/Looks.antt =====
-- The looks at stopCh, and doneCh, along the steps of pkg/lifecycle/manager.go.
use nile.Prelude.{
  ℕ, ◌≤◌, ◌≡◌, arith, Bytes, Bool, true, false, Option, none, some, Bool-cases, inl, inr,
}
use nile.Wal.Record.{Error}
use nile.Protocol.{Method, Params, retain, retain_params, StatusResult}
use nile.Store.{Store}
use nile.Transport.{Transport}
use nile.Lifecycle.States.{State, idle, failed, draining, retaining, processing, post_processing}
use nile.Lifecycle.Manager.{
  count_processed, count_dead_letter, Manager, Failure, Sent, answered, unanswered, rounds,
  stop_signalled, transition, try_transition, send, give_up, succeed, post_process, attempts,
  process_message,
}
use nile.Lifecycle.Pump.{
  do_retention, take_snapshot, after_snapshot, after_retain, after_truncate, with_retention,
}
use nile.Lifecycle.Rules.{stored_rule, entered_rule, attempts_rule, sent}

module _ {S T : Type 0} (store : Store S) (transport : Transport T) (b : ℕ) where
  -- Not more looks at stopCh are left than `b`, and doneCh is open.
  abbrev pub Within : Manager S T → Type 0
  Within m = (m.stop_in ≤ b) × (m.done ≡ false)

  abbrev pub Keeps : Option Failure × Manager S T → Type 0
  Keeps r = Within r.1

  try_transition-Within : (to : State) (m : Manager S T) → Within m → Within (try_transition to m)
  unfolding try_transition transition
  try_transition-Within to m h = ground arith

  transition-Within : (to : State) (m : Manager S T) → Within m → Keeps (transition to m)
  unfolding transition
  transition-Within to m h = ground arith

  send-Within :
      (method : Method) (sent_with : Params) (m : Manager S T)
      → Within m
      → Within (send transport method sent_with m).1
  unfolding send
  send-Within method sent_with m h = h

  post_process-Keeps :
      (p : Bool) (offset : ℕ) (m : Manager S T)
      → Within m
      → Keeps (post_process store transport p offset m)
  unfolding post_process
  post_process-Keeps false offset m h = try_transition-Within idle m h
  post_process-Keeps true offset m h =
      let k = try_transition-Within post_processing m h in
      stored_rule Keeps (try_transition post_processing m)
        (store.mark_post_processed offset (try_transition post_processing m).backend)
        (λ m''. (none, try_transition idle m'')) (λ e q. k) (λ q. try_transition-Within idle _ k)

  succeed-Keeps :
      (s : StatusResult) (offset : ℕ) (m : Manager S T)
      → Within m
      → Keeps (succeed store transport s offset m)
  unfolding succeed
  succeed-Keeps s offset m h =
      stored_rule Keeps (count_processed m) (store.mark_processed offset m.backend)
        (post_process store transport s.post_process offset) (λ e q. h)
        (λ q. post_process-Keeps s.post_process offset _ h)

  attempts-Keeps :
      (n : ℕ) (retry : Bool) (offset : ℕ) (p : Bytes) (m : Manager S T)
      → Within m
      → Keeps (attempts store transport n retry offset p m)
  attempts-Keeps n retry offset p m h =
      attempts_rule store transport offset p (λ k. Within) Keeps
        (record {
          unanswered_round = λ k m e h q. unfold send in h;
          answered_round = λ k m s h q.
              succeed-Keeps s offset (sent store transport offset p m).1 (unfold send in h);
          look = λ k m h q. unfold stop_signalled in ground arith;
          halt = λ k m h q.
              try_transition-Within idle (stop_signalled m).1
                (unfold stop_signalled in ground arith);
          exhausted = λ m h.
              unfold give_up in
              stored_rule Keeps (count_dead_letter m) (store.dead_letter offset p m.backend) _
                (λ e q. h) (λ q. try_transition-Within idle _ h);
        })
        n retry m h

  pub process_message-Keeps :
      (offset : ℕ) (p : Bytes) (m : Manager S T)
      → Within m
      → Keeps (process_message store transport offset p m)
  unfolding process_message
  process_message-Keeps offset p m h =
      entered_rule Keeps store transport
        (attempts store transport (rounds m.max_retries) false offset p) (transition processing m)
        (λ e q. transition-Within processing m h)
        (λ q.
          attempts-Keeps (rounds m.max_retries) false offset p (transition processing m).1
            (transition-Within processing m h))

  after_truncate-Keeps :
      (m : Manager S T) (r : Option Error × S)
      → Within m
      → Keeps (after_truncate store transport m r)
  after_truncate-Keeps m (some e, s) h = try_transition-Within failed _ h
  after_truncate-Keeps m (none, s) h = try_transition-Within idle _ h

  after_retain-Keeps :
      (r : Sent × Manager S T) → Within r.1 → Keeps (after_retain store transport r)
  after_retain-Keeps (unanswered e, m) h = try_transition-Within failed m h
  after_retain-Keeps (answered s, m) h = after_truncate-Keeps m (store.truncate m.backend) h

  pub do_retention-Keeps :
      (path : Bytes) (m : Manager S T) → Within m → Keeps (do_retention store transport path m)
  unfolding do_retention
  do_retention-Keeps path m h =
      entered_rule Keeps store transport (take_snapshot store transport path)
        (transition draining m) (λ e q. transition-Within draining m h)
        (λ q.
          stored_rule Keeps (transition draining m).1 _ (after_snapshot store transport path)
            (λ e z. transition-Within draining m h)
            (λ z.
              entered_rule Keeps store transport _ (transition retaining _)
                (λ e y. transition-Within retaining _ (transition-Within draining m h))
                (λ y. after_retain-Keeps _ (
                  send-Within retain (retain_params path) _
                    (transition-Within retaining _ (transition-Within draining m h))))))

  pub with_retention-Keeps :
      (path : Bytes) (m : Manager S T) → Within m → Keeps (with_retention store transport path m)
  with_retention-Keeps path m h = elim (Bool-cases (store.retention_exceeded m.backend)) [
    | inl e ↦ rw e (do_retention-Keeps path m h)
    | inr e ↦ rw e h
  ]

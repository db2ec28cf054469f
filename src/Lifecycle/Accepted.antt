-- ===== src/Lifecycle/Accepted.antt =====
-- processMessage and the pump of pkg/lifecycle/manager.go when the neb accepts the first request.
use nile.Prelude.{ℕ, suc, ◌+◌, u64, ◌≡◌, refl, ap, ◌∙◌, Bytes, true, false, Option, none}
use nile.Protocol.{message, message_params, new_request, StatusResult, Response}
use nile.Base64.{encode_base64}
use nile.Store.{Store}
use nile.Transport.{Transport}
use nile.Telemetry.Metrics.{record_processed, record_duration}
use nile.Lifecycle.States.{idle, processing, can_transition}
use nile.Lifecycle.Retention.{moved, transition_to}
use nile.Lifecycle.Manager.{
  Manager, Failure, answered, answer, rounds, try_transition, send, stored, post_process, succeed,
  after_send, attempts, entered, process_message,
}

module _ {S T : Type 0} (store : Store S) (transport : Transport T) (offset : ℕ) (p : Bytes)
    (m : Manager S T) where
  -- The neb's answer to the first request, and its state after it.
  abbrev pub first_answer : Option Response × T
  first_answer =
      transport.send
        (new_request (u64 (m.req_id + 1)) message (message_params offset (encode_base64 p))) m.link

  -- The manager when the neb has answered and the message is marked, and at the end.
  abbrev marked : S → Manager S T
  marked s = record (moved processing m) {
    req_id = u64 (m.req_id + 1);
    backend = s;
    link = first_answer.1;
    metrics = record_duration (record_processed m.metrics);
  }

  -- Before it is marked.
  abbrev unmarked : Manager S T
  unmarked = record (moved processing m) { req_id = u64 (m.req_id + 1); link = first_answer.1 }

  abbrev pub accepted : S → Manager S T
  accepted s = moved idle (marked s)

  pub process_message-accepted :
      (r : ℕ) (a : StatusResult) (s : S)
      → m.state ≡ idle
      → rounds m.max_retries ≡ suc r
      → answer first_answer.0 ≡ answered a
      → a.post_process ≡ false
      → store.mark_processed offset m.backend ≡ (none, s)
      → process_message store transport offset p m ≡ (none, accepted s)
  unfolding process_message attempts send succeed post_process try_transition can_transition
  process_message-accepted r a s idle_eq more ans quiet stored_eq =
      ap (entered store transport (attempts store transport (rounds m.max_retries) false offset p))
        (transition_to processing m (ap (λ t. can_transition t processing) idle_eq))
      ∙ ap (λ n. attempts store transport n false offset p (moved processing m)) more
      ∙ ap
          (λ x.
            after_send store transport offset (attempts store transport r true offset p)
              (x, unmarked))
          ans
      ∙ ap (λ x. stored (marked m.backend) x (post_process store transport a.post_process offset))
          stored_eq
      ∙ ap (λ b. post_process store transport b offset (marked s)) quiet
      ∙ ap (λ (x : Option Failure × Manager S T). (none, x.1)) (transition_to idle (marked s) refl)

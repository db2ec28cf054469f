-- ===== src/Lifecycle/Counting.antt =====
-- What processMessage of pkg/lifecycle/manager.go reports to the metrics of pkg/otel, over any store and any neb.
use nile.Prelude.{
  ℕ, suc, Bool, true, false, ◌≡◌, ap, ◌∙◌, arith, Bytes, Option, none, ◌⊎◌, inl, inr,
}
use nile.Protocol.{StatusResult}
use nile.Store.{Store}
use nile.Transport.{Transport}
use nile.Telemetry.Metrics.{record_processed, record_duration, record_dead_lettered}
use nile.Lifecycle.States.{State, post_processing, idle, processing}
use nile.Lifecycle.Manager.{
  count_processed, count_dead_letter, succeed, post_process, attempts, process_message, send,
  stop_signalled, rounds, Manager, Failure, transition, try_transition, give_up,
}
use nile.Lifecycle.Fate.{backend-try_transition, stop_in-try_transition}
use nile.Lifecycle.Rules.{stored_rule, entered_rule, attempts_rule, sent}

-- What the metrics say of the message, and what the store was asked for.
pub data Counted {S T : Type 0} (store : Store S) (offset : ℕ) (p : Bytes) (m : Manager S T)
    (r : Option Failure × Manager S T) : Type 0 where
  uncounted :
      r.1.metrics ≡ m.metrics
      → r.1.backend ≡ m.backend
      → (r.0 ≡ none → r.1.stop_in ≡ 0)
      → Counted store offset p m r
  processed :
      r.1.metrics ≡ record (m.metrics) {
        processed = suc m.metrics.processed;
        durations = suc m.metrics.durations;
      }
      → (r.1.backend ≡ (store.mark_processed offset m.backend).1)
        ⊎ (r.1.backend
            ≡ (store.mark_post_processed offset (store.mark_processed offset m.backend).1).1)
      → Counted store offset p m r
  dead :
      r.1.metrics ≡ record (m.metrics) { dead_lettered = suc m.metrics.dead_lettered }
      → r.1.backend ≡ (store.dead_letter offset p m.backend).1
      → Counted store offset p m r

module _ {S T : Type 0} (to : State) (m : Manager S T) where
  metrics-try_transition : (try_transition to m).metrics ≡ m.metrics
  unfolding try_transition transition
  metrics-try_transition = ground arith

module _ {S T : Type 0} (store : Store S) (transport : Transport T) (offset : ℕ) (p : Bytes)
    (m₀ : Manager S T) where
  abbrev Counts : Option Failure × Manager S T → Type 0
  Counts r = Counted store offset p m₀ r

  -- Nothing has been counted or stored yet.
  abbrev Same : ℕ → Manager S T → Type 0
  Same k m = (m.metrics ≡ m₀.metrics) × (m.backend ≡ m₀.backend)

  give_up-Counts : (m : Manager S T) → Same 0 m → Counts (give_up store transport offset p m)
  unfolding give_up
  give_up-Counts m h =
      stored_rule Counts (count_dead_letter m) (store.dead_letter offset p m.backend)
        (λ m'. (none, try_transition idle m')) (λ e q. dead (ap record_dead_lettered h.0) dead_eq)
        (λ q.
          dead (metrics-try_transition idle _ ∙ ap record_dead_lettered h.0)
            (backend-try_transition idle _ ∙ dead_eq))
    where
      dead_eq : (store.dead_letter offset p m.backend).1 ≡ (store.dead_letter offset p m₀.backend).1
      dead_eq = ap (λ s. (store.dead_letter offset p s).1) h.1

  post_process-Counts :
      (b : Bool) (m : Manager S T)
      → m.metrics ≡ record_duration (record_processed m₀.metrics)
      → m.backend ≡ (store.mark_processed offset m₀.backend).1
      → Counts (post_process store transport b offset m)
  unfolding post_process
  post_process-Counts false m h k =
      processed (metrics-try_transition idle m ∙ h) (inl (backend-try_transition idle m ∙ k))
  post_process-Counts true m h k =
      stored_rule Counts m' (store.mark_post_processed offset m'.backend)
        (λ m''. (none, try_transition idle m'')) (λ e q. processed counted (inr post_eq))
        (λ q.
          processed (metrics-try_transition idle _ ∙ counted)
            (inr (backend-try_transition idle _ ∙ post_eq)))
    where
      m' : Manager S T
      m' = try_transition post_processing m

      counted : m'.metrics ≡ record_duration (record_processed m₀.metrics)
      counted = metrics-try_transition post_processing m ∙ h

      post_eq :
          (store.mark_post_processed offset m'.backend).1
          ≡ (store.mark_post_processed offset (store.mark_processed offset m₀.backend).1).1
      post_eq =
          ap (λ s. (store.mark_post_processed offset s).1)
            (backend-try_transition post_processing m ∙ k)

  succeed-Counts :
      (s : StatusResult) (m : Manager S T) → Same 0 m → Counts (succeed store transport s offset m)
  unfolding succeed
  succeed-Counts s m h =
      stored_rule Counts (count_processed m) (store.mark_processed offset m.backend)
        (post_process store transport s.post_process offset)
        (λ e q. processed counted (inl marked_eq))
        (λ q. post_process-Counts s.post_process _ counted marked_eq)
    where
      counted :
          record_duration (record_processed m.metrics)
          ≡ record_duration (record_processed m₀.metrics)
      counted = ap (λ x. record_duration (record_processed x)) h.0

      marked_eq :
          (store.mark_processed offset m.backend).1 ≡ (store.mark_processed offset m₀.backend).1
      marked_eq = ap (λ s. (store.mark_processed offset s).1) h.1

  attempts-Counts :
      (n : ℕ) (m : Manager S T) → Same n m → Counts (attempts store transport n false offset p m)
  attempts-Counts n m h =
      attempts_rule store transport offset p Same Counts
        (record {
          unanswered_round = λ k m' e i q. unfold send in i;
          answered_round = λ k m' s i q.
              succeed-Counts s (sent store transport offset p m').1 (unfold send in i);
          look = λ k m' i q. unfold stop_signalled in ground arith;
          halt = λ k m' i q.
              uncounted (metrics-try_transition idle _ ∙ (unfold stop_signalled in ground arith))
                (backend-try_transition idle _ ∙ (unfold stop_signalled in ground arith))
                (λ _. stop_in-try_transition idle _ ∙ (unfold stop_signalled in ground arith));
          exhausted = λ m' i. give_up-Counts m' i;
        })
        n false m h

-- processMessage, from any state, over any store and any neb: the metrics count a message at most once. It is
-- one more processed message with one duration when the store was asked to mark it as processed, and perhaps
-- as post-processed; one more dead letter when the store was asked for that; and without an error none of these only if
-- Stop has come, with the store as it was. The other instruments stay.
pub process_message-Counted :
    {S T : Type 0} (store : Store S) (transport : Transport T) (offset : ℕ) (p : Bytes)
    (m : Manager S T)
    → Counted store offset p m (process_message store transport offset p m)
unfolding process_message
process_message-Counted store transport offset p m =
    entered_rule (Counted store offset p m) store transport
      (attempts store transport (rounds m.max_retries) false offset p) (transition processing m)
      (λ e q. unfold transition in uncounted (ground arith) (ground arith) (λ z. absurd (cc)))
      (λ q.
        attempts-Counts store transport offset p m (rounds m.max_retries)
          (transition processing m).1 (unfold transition in ground arith))

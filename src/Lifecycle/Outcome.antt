-- ===== src/Lifecycle/Outcome.antt =====
-- What processMessage of pkg/lifecycle/manager.go does, over any store and any neb.
use nile.Prelude.{
  ℕ, u64, ℤ, pos, negsuc, sym, subst, Bool, true, false, suc, ◌+◌, ◌-◌, IsU64, ◌<◌, ◌≤◌, ◌≡◌, refl,
  ap, ◌∙◌, arith, Bytes, Option, none, some, ◌⊎◌, inl, inr,
}
use nile.Protocol.{StatusResult, message, message_params, new_request}
use nile.Base64.{encode_base64}
use nile.Store.{Store}
use nile.Transport.{Transport}
use nile.Lifecycle.States.{post_processing, State, idle, processing, can_transition}
use nile.Lifecycle.Manager.{
  answered, count_processed, count_dead_letter, succeed, post_process, attempts, process_message,
  send, stop_signalled, rounds, Manager, Failure, transition, try_transition, give_up,
}
use nile.Lifecycle.Rules.{stored_rule, entered_rule, attempts_rule, sent}
use nile.Lifecycle.Fate.{
  Replied, answer-answered, Fate, kept, consumed, post_consumed, dead, backend-try_transition,
  link-try_transition, stop_in-try_transition, req_id-try_transition,
}

module _ {S T : Type 0} (store : Store S) (transport : Transport T) (offset : ℕ) (p : Bytes)
    (m₀ : Manager S T) (n : ℕ) where
  -- A step that reports no error ends idle, and the message has one of the fates.
  abbrev Ends : Option Failure × Manager S T → Type 0
  Ends r =
      (used : ℕ) × (r.1.req_id ≡ m₀.req_id + used)
      × Fate store transport offset p m₀.backend n used r.1.backend r.1.link r.1.stop_in
      × (r.0 ≡ none → r.1.state ≡ idle)

  -- With `k` rounds left nothing has changed but the requests made.
  abbrev Before : ℕ → Manager S T → Type 0
  Before k m = (m.state ≡ processing) × (m.backend ≡ m₀.backend) × (m.req_id + k ≡ m₀.req_id + n)

  give_up-Ends : (m : Manager S T) → Before 0 m → Ends (give_up store transport offset p m)
  unfolding give_up
  give_up-Ends m h =
      stored_rule Ends (count_dead_letter m) (store.dead_letter offset p m.backend)
        (λ m'. (none, try_transition idle m')) (λ e q. (n, omega arith, dead dead_eq refl, λ z. cc))
        (λ q. (
          n,
          req_id-try_transition idle _ ∙ omega arith,
          dead (backend-try_transition idle _ ∙ dead_eq) refl,
          λ z. unfold try_transition transition can_transition in ground arith,
        ))
    where
      dead_eq : (store.dead_letter offset p m.backend).1 ≡ (store.dead_letter offset p m₀.backend).1
      dead_eq = ap (λ s. (store.dead_letter offset p s).1) h.1

  -- The manager after an answer, with the requests counted.
  abbrev Answered : ℕ → Manager S T → Type 0
  Answered used m =
      (m.state ≡ processing)
      × (m.backend ≡ m₀.backend)
      × (m.req_id ≡ m₀.req_id + used)
      × (0 < used)
      × (used ≤ n)

  marked_eq :
      (m : Manager S T) (used : ℕ)
      → Answered used m
      → (store.mark_processed offset m.backend).1 ≡ (store.mark_processed offset m₀.backend).1
  marked_eq m used h = ap (λ s. (store.mark_processed offset s).1) h.1

  still :
      (to : State) (m : Manager S T) {result : StatusResult}
      → Replied transport offset p result m.link
      → Replied transport offset p result (try_transition to m).link
  still to m {result} = subst (Replied transport offset p result) (sym (link-try_transition to m))

  post_process-Ends :
      (b : Bool) (m : Manager S T) (used : ℕ) (result : StatusResult)
      → Replied transport offset p result m.link
      → b ≡ result.post_process
      → m.state ≡ processing
      → m.backend ≡ (store.mark_processed offset m₀.backend).1
      → m.req_id ≡ m₀.req_id + used
      → 0 < used
      → used ≤ n
      → Ends (post_process store transport b offset m)
  unfolding post_process
  post_process-Ends false m used result rep asked st be rq lo hi = (
    used,
    req_id-try_transition idle m ∙ rq,
    consumed result (still idle m rep) (backend-try_transition idle m ∙ be) lo hi,
    λ z. unfold try_transition transition can_transition in ground arith,
  )
  post_process-Ends true m used result rep asked st be rq lo hi =
      stored_rule Ends m' (store.mark_post_processed offset m'.backend)
        (λ m''. (none, try_transition idle m''))
        (λ e q. (
          used,
          rq',
          post_consumed result (still post_processing m rep) (sym asked) post_eq lo hi,
          λ z. cc,
        ))
        (λ q. (
          used,
          req_id-try_transition idle _ ∙ rq',
          post_consumed result (still idle _ (still post_processing m rep)) (sym asked)
              (backend-try_transition idle _ ∙ post_eq) lo hi,
          λ z. unfold try_transition transition can_transition in ground arith,
        ))
    where
      m' : Manager S T
      m' = try_transition post_processing m

      rq' : m'.req_id ≡ m₀.req_id + used
      rq' = req_id-try_transition post_processing m ∙ rq

      post_eq :
          (store.mark_post_processed offset m'.backend).1
          ≡ (store.mark_post_processed offset (store.mark_processed offset m₀.backend).1).1
      post_eq =
          ap (λ s. (store.mark_post_processed offset s).1)
            (backend-try_transition post_processing m ∙ be)

  succeed-Ends :
      (s : StatusResult) (m : Manager S T) (used : ℕ)
      → Replied transport offset p s m.link
      → Answered used m
      → Ends (succeed store transport s offset m)
  unfolding succeed
  succeed-Ends s m used rep h =
      stored_rule Ends (count_processed m) (store.mark_processed offset m.backend)
        (post_process store transport s.post_process offset)
        (λ e q. (used, h.2, consumed s rep (marked_eq m used h) h.3 h.4, λ z. cc))
        (λ q.
          post_process-Ends s.post_process _ used s rep refl h.0 (marked_eq m used h) h.2 h.3 h.4)

  sent-Replied :
      (m : Manager S T) (s : StatusResult)
      → (sent store transport offset p m).0 ≡ answered s
      → Replied transport offset p s (sent store transport offset p m).1.link
  unfolding send
  sent-Replied m s q =
      let request =
        new_request (u64 (m.req_id + 1)) message (message_params offset (encode_base64 p)) in
      let r = transport.send request m.link in
      let (response, got, fine, result) = answer-answered r.0 s q in
      (m.link, u64 (m.req_id + 1), response, λ i. (got i, r.1), fine, result)

  attempts-Ends :
      (retry : Bool) (m : Manager S T)
      → IsU64 (m₀.req_id + n)
      → Before n m
      → Ends (attempts store transport n retry offset p m)
  attempts-Ends retry m small h =
      attempts_rule store transport offset p Before' Ends
        (record {
          unanswered_round = λ k m e h q. unfold send in ground arith;
          answered_round = λ k m s h q.
              succeed-Ends s (sent store transport offset p m).1 (suc (n - suc k))
                (sent-Replied m s q) (unfold send in ground arith);
          look = λ k m h q. unfold stop_signalled in ground arith;
          halt = λ k m h q. (
            n - suc k,
            req_id-try_transition idle _ ∙ (unfold stop_signalled in ground arith),
            kept (backend-try_transition idle _ ∙ (unfold stop_signalled in ground arith))
                (omega arith)
                (stop_in-try_transition idle _ ∙ (unfold stop_signalled in ground arith)),
            λ z. unfold stop_signalled try_transition transition can_transition in ground arith,
          );
          exhausted = λ m h. give_up-Ends m (h.0, h.1, h.2);
        })
        n retry m (h.0, h.1, h.2, omega arith)
    where
      Before' : ℕ → Manager S T → Type 0
      Before' k m =
          (m.state ≡ processing)
          × (m.backend ≡ m₀.backend)
          × (m.req_id + k ≡ m₀.req_id + n)
          × (k ≤ n)

idle_or_failed :
    {S T : Type 0} (r : Option Failure × Manager S T)
    → (r.0 ≡ none → r.1.state ≡ idle)
    → (r.1.state ≡ idle) ⊎ ((f : Failure) × (r.0 ≡ some f))
idle_or_failed (none, m) h = inl (h refl)
idle_or_failed (some f, m) h = inr (f, refl)

-- How often a message is sent at most: once more than the retry limit, and never with a negative limit.
abbrev pub IsTries : ℤ → ℕ → Type 0
IsTries (pos k) n = n ≡ suc k
IsTries (negsuc k) n = n ≡ 0

rounds_lem : (z : ℤ) (n : ℕ) → IsTries z n → rounds z ≡ n
unfolding rounds
rounds_lem (pos k) n h = sym h
rounds_lem (negsuc k) n h = sym h

module _ {S T : Type 0} (store : Store S) (transport : Transport T) (offset : ℕ) (p : Bytes)
    (m : Manager S T) where
  process_message-Ends :
      m.state ≡ idle
      → IsU64 (m.req_id + rounds m.max_retries)
      → Ends store transport offset p m
          (rounds m.max_retries)
          (process_message store transport offset p m)
  unfolding process_message transition can_transition
  process_message-Ends h small =
      entered_rule (Ends store transport offset p m (rounds m.max_retries)) store transport
        (attempts store transport (rounds m.max_retries) false offset p) (transition processing m)
        (λ e q. absurd (ground arith))
        (λ q.
          attempts-Ends store transport offset p m (rounds m.max_retries) false
            (transition processing m).1 small (ground arith))

-- Whatever the store, the neb and the moment of a stop: processing a message from `idle` makes at most
-- MaxRetries + 1 requests, none with a negative MaxRetries, and leaves the store in one of four ways:
-- untouched if a look that found Stop ended the retries before those requests; marked processed, and this only if
-- the neb answered the last request, which is one for this message, with a result; also marked post-processed, if
-- that result asks for it; or with the message as a dead letter, and this only after all those requests. The
-- manager is idle again, or an error is reported. The request numbers stay below 2 ^ 64.
pub process_message-Fate :
    {S T : Type 0} (store : Store S) (transport : Transport T) (offset : ℕ) (p : Bytes)
    (m : Manager S T) (tries : ℕ)
    → IsTries m.max_retries tries
    → m.state ≡ idle
    → IsU64 (m.req_id + tries)
    → let r = process_message store transport offset p m in
      (used : ℕ) × (r.1.req_id ≡ m.req_id + used)
      × Fate store transport offset p m.backend tries used r.1.backend r.1.link r.1.stop_in
      × ((r.1.state ≡ idle) ⊎ ((f : Failure) × (r.0 ≡ some f)))
process_message-Fate store transport offset p m tries counted h small =
    let tries_eq = rounds_lem m.max_retries tries counted in
    let outcome =
      subst (λ n. Ends store transport offset p m n (process_message store transport offset p m))
        tries_eq
        (process_message-Ends store transport offset p m h
          (subst (λ n. IsU64 (m.req_id + n)) (sym tries_eq) small)) in
    (
      outcome.0,
      outcome.1,
      outcome.2,
      idle_or_failed (process_message store transport offset p m) outcome.3,
    )

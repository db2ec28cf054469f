-- ===== src/Lifecycle/Unanswered.antt =====
-- processMessage of pkg/lifecycle/manager.go over a transport that answers nothing any more.
use nile.Prelude.{ℕ, ◌≡◌, ◌⊎◌, inl, inr, ap, ◌∙◌, arith, Bytes, true, false, Option, none}
use nile.Protocol.{Request, Response, StatusResult}
use nile.Store.{Store}
use nile.Transport.{Transport}
use nile.Transport.Stdio.{Stdio, send_stdio, stdio}
use nile.Lifecycle.States.{idle, processing, can_transition}
use nile.Lifecycle.Manager.{
  count_dead_letter, Manager, Failure, answered, answer, rounds, send, stop_signalled, transition,
  try_transition, give_up, attempts, process_message,
}
use nile.Lifecycle.Fate.{link-try_transition, backend-try_transition, stop_in-try_transition}
use nile.Lifecycle.Rules.{stored_rule, entered_rule, attempts_rule, sent}

module _ {S T : Type 0} (store : Store S) (transport : Transport T) (offset : ℕ) (p : Bytes)
    (m₀ : Manager S T) (mute : (req : Request) → transport.send req m₀.link ≡ (none, m₀.link)) where
  -- The message is a dead letter, or Stop has come.
  abbrev GivenUp : Option Failure × Manager S T → Type 0
  GivenUp r =
      (r.1.link ≡ m₀.link)
      × ((r.1.backend ≡ (store.dead_letter offset p m₀.backend).1)
          ⊎ ((r.1.backend ≡ m₀.backend) × (r.1.stop_in ≡ 0)))

  abbrev Same : ℕ → Manager S T → Type 0
  Same k m = (m.link ≡ m₀.link) × (m.backend ≡ m₀.backend)

  give_up-GivenUp : (m : Manager S T) → Same 0 m → GivenUp (give_up store transport offset p m)
  unfolding give_up
  give_up-GivenUp m h =
      stored_rule GivenUp (count_dead_letter m) (store.dead_letter offset p m.backend)
        (λ m'. (none, try_transition idle m')) (λ e q. (h.0, inl dead_eq))
        (λ q. (link-try_transition idle _ ∙ h.0, inl (backend-try_transition idle _ ∙ dead_eq)))
    where
      dead_eq : (store.dead_letter offset p m.backend).1 ≡ (store.dead_letter offset p m₀.backend).1
      dead_eq = ap (λ s. (store.dead_letter offset p s).1) h.1

  mute_again :
      (m : Manager S T)
      → m.link ≡ m₀.link
      → (req : Request) → transport.send req m.link ≡ (none, m₀.link)
  mute_again m h req = ap (transport.send req) h ∙ mute req

  sent_unanswered :
      (m : Manager S T) (s : StatusResult)
      → m.link ≡ m₀.link
      → (sent store transport offset p m).0 ≡ answered s
      → ⊥
  unfolding send
  sent_unanswered m s h q = cc (ap (λ (x : Option Response × T). answer x.0) (mute_again m h _))

  attempts-GivenUp :
      (n : ℕ) (m : Manager S T) → Same n m → GivenUp (attempts store transport n false offset p m)
  attempts-GivenUp n m h =
      attempts_rule store transport offset p Same GivenUp
        (record {
          unanswered_round = λ k m' e i q. (
            unfold send in ap (λ (x : Option Response × T). x.1) (mute_again m' i.0 _),
            unfold send in i.1,
          );
          answered_round = λ k m' s i q. absurd (sent_unanswered m' s i.0 q);
          look = λ k m' i q. unfold stop_signalled in ground arith;
          halt = λ k m' i q. (
            link-try_transition idle _ ∙ (unfold stop_signalled in ground arith),
            inr (
              backend-try_transition idle _ ∙ (unfold stop_signalled in ground arith),
              stop_in-try_transition idle _ ∙ (unfold stop_signalled in ground arith),
            ),
          );
          exhausted = λ m' i. give_up-GivenUp m' i;
        })
        n false m h

  process_message-GivenUp : m₀.state ≡ idle → GivenUp (process_message store transport offset p m₀)
  unfolding process_message transition can_transition
  process_message-GivenUp h =
      entered_rule GivenUp store transport
        (attempts store transport (rounds m₀.max_retries) false offset p) (transition processing m₀)
        (λ e q. absurd (ground arith))
        (λ q. attempts-GivenUp (rounds m₀.max_retries) (transition processing m₀).1 (ground arith))

send_stdio-mute :
    (req : Request) (s : Stdio)
    → (s.closed_flag ≡ true) ⊎ (s.broken ≡ true)
    → (stdio.send req s) ≡ (none, s)
unfolding send_stdio
send_stdio-mute req s h = ground arith

-- Once the transport is broken, by one response that came too late, or closed: whatever the store, every
-- message that is processed from `idle` becomes a dead letter, without a byte to the neb, unless Stop comes
-- first; then it stays where it is.
pub broken_dead_letter :
    {S : Type 0} (store : Store S) (offset : ℕ) (p : Bytes) (m : Manager S Stdio)
    → (m.link.closed_flag ≡ true) ⊎ (m.link.broken ≡ true)
    → m.state ≡ idle
    → let r = process_message store stdio offset p m in
      (r.1.link ≡ m.link)
      × ((r.1.backend ≡ (store.dead_letter offset p m.backend).1)
          ⊎ ((r.1.backend ≡ m.backend) × (r.1.stop_in ≡ 0)))
broken_dead_letter store offset p m gone h =
    process_message-GivenUp store stdio offset p m (λ req. send_stdio-mute req m.link gone) h

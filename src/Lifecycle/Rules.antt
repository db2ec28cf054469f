-- ===== src/Lifecycle/Rules.antt =====
-- One rule for each place where pkg/lifecycle/manager.go branches on what a call returned: a property of
-- the result holds if it holds on both branches.
use nile.Prelude.{Bytes, zero, suc, ℕ, ◌≡◌, refl, Bool, true, false, Option, none, some}
use nile.Wal.Record.{Error}
use nile.Protocol.{StatusResult, message, message_params}
use nile.Base64.{encode_base64}
use nile.Store.{Store}
use nile.Transport.{Transport}
use nile.Lifecycle.States.{idle}
use nile.Lifecycle.Manager.{
  send, stop_signalled, give_up, attempts, Manager, Failure, store_failed, Sent, answered,
  unanswered, try_transition, stored, succeed, after_send, after_backoff, entered,
}

module _ {S T : Type 0} (Q : Option Failure × Manager S T → Type 0) where
  pub stored_rule :
      (m : Manager S T) (r : Option Error × S) (next : Manager S T → Option Failure × Manager S T)
      → ((e : Error) → r.0 ≡ some e → Q (some (store_failed e), record m { backend = r.1 }))
      → (r.0 ≡ none → Q (next (record m { backend = r.1 })))
      → Q (stored m r next)
  stored_rule m (some e, s) next bad good = bad e refl
  stored_rule m (none, s) next bad good = good refl

  module _ (store : Store S) (transport : Transport T) where
    pub after_send_rule :
        (offset : ℕ) (again : Manager S T → Option Failure × Manager S T) (r : Sent × Manager S T)
        → ((e : Failure) → r.0 ≡ unanswered e → Q (again r.1))
        → ((s : StatusResult) → r.0 ≡ answered s → Q (succeed store transport s offset r.1))
        → Q (after_send store transport offset again r)
    after_send_rule offset again (unanswered e, m) bad good = bad e refl
    after_send_rule offset again (answered s, m) bad good = good s refl

    pub after_backoff_rule :
        (go : Manager S T → Option Failure × Manager S T) (r : Bool × Manager S T)
        → (r.0 ≡ true → Q (none, try_transition idle r.1))
        → (r.0 ≡ false → Q (go r.1))
        → Q (after_backoff store transport go r)
    after_backoff_rule go (true, m) bad good = bad refl
    after_backoff_rule go (false, m) bad good = good refl

    pub entered_rule :
        (next : Manager S T → Option Failure × Manager S T) (r : Option Failure × Manager S T)
        → ((e : Failure) → r.0 ≡ some e → Q (some e, r.1))
        → (r.0 ≡ none → Q (next r.1))
        → Q (entered store transport next r)
    entered_rule next (some e, m) bad good = bad e refl
    entered_rule next (none, m) bad good = good refl

-- The retry loop: `I k m` holds of the manager with `k` rounds left, `Q` of the result.
module _ {S T : Type 0} (store : Store S) (transport : Transport T) (offset : ℕ) (p : Bytes) where
  abbrev pub sent : Manager S T → Sent × Manager S T
  sent m = send transport message (message_params offset (encode_base64 p)) m

  pub record Loop (I : ℕ → Manager S T → Type 0) (Q : Option Failure × Manager S T → Type 0)
      : Type 0 where
    pub unanswered_round :
        (k : ℕ) (m : Manager S T) (e : Failure)
        → I (suc k) m
        → (sent m).0 ≡ unanswered e
        → I k (sent m).1
    pub answered_round :
        (k : ℕ) (m : Manager S T) (s : StatusResult)
        → I (suc k) m
        → (sent m).0 ≡ answered s
        → Q (succeed store transport s offset (sent m).1)
    pub look :
        (k : ℕ) (m : Manager S T)
        → I (suc k) m
        → (stop_signalled m).0 ≡ false
        → I (suc k) (stop_signalled m).1
    pub halt :
        (k : ℕ) (m : Manager S T)
        → I (suc k) m
        → (stop_signalled m).0 ≡ true
        → Q (none, try_transition idle (stop_signalled m).1)
    pub exhausted : (m : Manager S T) → I 0 m → Q (give_up store transport offset p m)

  pub attempts_rule :
      (I : ℕ → Manager S T → Type 0) (Q : Option Failure × Manager S T → Type 0)
      → Loop I Q
      → (n : ℕ) (retry : Bool) (m : Manager S T) → I n m
      → Q (attempts store transport n retry offset p m)
  unfolding attempts
  attempts_rule I Q loop zero retry m h = loop.exhausted m h
  attempts_rule I Q loop (suc n) retry m h = start retry (attempts_rule I Q loop n true)
    where
      round :
          ((m' : Manager S T) → I n m' → Q (attempts store transport n true offset p m'))
          → (m' : Manager S T) → I (suc n) m'
          → Q (
              after_send store transport offset
                (attempts store transport n true offset p)
                (sent m'))
      round ih m' h' =
          after_send_rule Q store transport offset (attempts store transport n true offset p)
            (sent m') (λ e q. ih (sent m').1 (loop.unanswered_round n m' e h' q))
            (λ s q. loop.answered_round n m' s h' q)

      start :
          (retry : Bool)
          → ((m' : Manager S T) → I n m' → Q (attempts store transport n true offset p m'))
          → Q (attempts store transport (suc n) retry offset p m)
      start true ih =
          after_backoff_rule Q store transport
            (λ m'.
              after_send store transport offset (attempts store transport n true offset p)
                (sent m'))
            (stop_signalled m) (loop.halt n m h)
            (λ q. round ih (stop_signalled m).1 (loop.look n m h q))
      start false ih = round ih m h

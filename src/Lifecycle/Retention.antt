-- ===== src/Lifecycle/Retention.antt =====
-- doRetention of pkg/lifecycle/manager.go, over any store and any neb.
use nile.Prelude.{
  true, ◌≡◌, refl, sym, ap, ◌∙◌, arith, Bytes, Option, none, some, if◌then◌else◌, ◌++◌, ◌∷◌, [],
}
use nile.Wal.Record.{Error}
use nile.Protocol.{retain, retain_params, StatusResult}
use nile.Store.{Store}
use nile.Transport.{Transport}
use nile.Lifecycle.States.{State, idle, draining, retaining, failed, can_transition}
use nile.Lifecycle.Manager.{
  Manager, Failure, invalid_transition, store_failed, Sent, answered, unanswered, transition,
  try_transition, send,
}
use nile.Lifecycle.Pump.{do_retention, after_snapshot, after_retain, after_truncate}
use nile.Lifecycle.Rules.{stored_rule}

module _ {S T : Type 0} (store : Store S) (transport : Transport T) (path : Bytes) where
  -- The manager that asks the neb to retain: the snapshot is taken, nothing is truncated.
  abbrev pub Asking : Manager S T → Manager S T → Type 0
  Asking m₀ m =
      (m.state ≡ retaining) × (m.backend ≡ (store.snapshot path m₀.backend).1) × (m.link ≡ m₀.link)

  -- How a retention cycle that begins with `m₀` ends: the snapshot fails; the neb does not confirm it; the
  -- truncation fails; or all is done.
  pub data Cycle (m₀ : Manager S T) (r : Option Failure × Manager S T) : Type 0 where
    no_snapshot :
        (e : Error)
        → (store.snapshot path m₀.backend).0 ≡ some e
        → r.0 ≡ some (store_failed e)
        → r.1.state ≡ draining
        → r.1.backend ≡ (store.snapshot path m₀.backend).1
        → Cycle m₀ r
    not_retained :
        (e : Failure) (m : Manager S T)
        → (store.snapshot path m₀.backend).0 ≡ none
        → Asking m₀ m
        → (send transport retain (retain_params path) m).0 ≡ unanswered e
        → r.0 ≡ some e
        → r.1.state ≡ failed
        → r.1.backend ≡ (store.snapshot path m₀.backend).1
        → Cycle m₀ r
    not_truncated :
        (e : Error) (s : StatusResult) (m : Manager S T)
        → (store.snapshot path m₀.backend).0 ≡ none
        → Asking m₀ m
        → (send transport retain (retain_params path) m).0 ≡ answered s
        → (store.truncate (store.snapshot path m₀.backend).1).0 ≡ some e
        → r.0 ≡ some (store_failed e)
        → r.1.state ≡ failed
        → r.1.backend ≡ (store.truncate (store.snapshot path m₀.backend).1).1
        → Cycle m₀ r
    completed :
        (s : StatusResult) (m : Manager S T)
        → (store.snapshot path m₀.backend).0 ≡ none
        → Asking m₀ m
        → (send transport retain (retain_params path) m).0 ≡ answered s
        → (store.truncate (store.snapshot path m₀.backend).1).0 ≡ none
        → r.0 ≡ none
        → r.1.state ≡ idle
        → r.1.backend ≡ (store.truncate (store.snapshot path m₀.backend).1).1
        → Cycle m₀ r

  to_failed : (m : Manager S T) → m.state ≡ retaining → (try_transition failed m).state ≡ failed
  unfolding try_transition transition can_transition
  to_failed m h = ground arith

  to_idle : (m : Manager S T) → m.state ≡ retaining → (try_transition idle m).state ≡ idle
  unfolding try_transition transition can_transition
  to_idle m h = ground arith

  backend_kept : (to : State) (m : Manager S T) → (try_transition to m).backend ≡ m.backend
  unfolding try_transition transition
  backend_kept to m = ground arith

  after_retain-Cycle :
      (m₀ m : Manager S T) (x : Sent × Manager S T)
      → (store.snapshot path m₀.backend).0 ≡ none
      → Asking m₀ m
      → x ≡ send transport retain (retain_params path) m
      → x.1.state ≡ retaining
      → x.1.backend ≡ m.backend
      → Cycle m₀ (after_retain store transport x)
  after_retain-Cycle m₀ m (unanswered e, m') snap ask q st be =
      not_retained e m snap ask (ap (λ (y : Sent × Manager S T). y.0) (sym q)) refl
        (to_failed m' st) (backend_kept failed m' ∙ be ∙ ask.1)
  after_retain-Cycle m₀ m (answered s, m') snap ask q st be = go (store.truncate m'.backend) cut
    where
      cut : store.truncate m'.backend ≡ store.truncate (store.snapshot path m₀.backend).1
      cut = ap store.truncate (be ∙ ask.1)

      told : (send transport retain (retain_params path) m).0 ≡ answered s
      told = ap (λ (y : Sent × Manager S T). y.0) (sym q)

      go :
          (t : Option Error × S)
          → t ≡ store.truncate (store.snapshot path m₀.backend).1
          → Cycle m₀ (after_truncate store transport m' t)
      go (some e, b) z =
          not_truncated e s m snap ask told (ap (λ (y : Option Error × S). y.0) (sym z)) refl
            (to_failed _ st) (backend_kept failed _ ∙ ap (λ (y : Option Error × S). y.1) z)
      go (none, b) z =
          completed s m snap ask told (ap (λ (y : Option Error × S). y.0) (sym z)) refl
            (to_idle _ st) (backend_kept idle _ ∙ ap (λ (y : Option Error × S). y.1) z)

-- The manager in another state, with the line that is logged.
abbrev pub moved : {S T : Type 0} → State → Manager S T → Manager S T
moved to m = record m { state = to; logged = m.logged ++ ((m.state, to) ∷ []) }

pub transition_to :
    {S T : Type 0} (to : State) (m : Manager S T)
    → can_transition m.state to ≡ true
    → transition to m ≡ (none, moved to m)
unfolding transition
transition_to to m h =
    ap (λ b. if b then (none, moved to m) else (some (invalid_transition m.state to), m)) h

begin_draining :
    {S T : Type 0} (m : Manager S T)
    → m.state ≡ idle
    → transition draining m ≡ (none, moved draining m)
unfolding can_transition
begin_draining m h = transition_to draining m (ap (λ s. can_transition s draining) h)

begin_retaining :
    {S T : Type 0} (m : Manager S T)
    → m.state ≡ draining
    → transition retaining m ≡ (none, moved retaining m)
unfolding can_transition
begin_retaining m h = transition_to retaining m (ap (λ s. can_transition s retaining) h)

-- Whatever the store and the neb: a retention cycle begun in `idle` ends in one of four ways. The store is
-- truncated only after the snapshot has succeeded and the neb has confirmed it; the cycle reports no error
-- exactly in the way that ends with the truncated store, and then the manager is idle. After a failed
-- snapshot the manager stays in `draining`, after the other failures in `failed`.
pub do_retention-Cycle :
    {S T : Type 0} (store : Store S) (transport : Transport T) (path : Bytes) (m : Manager S T)
    → m.state ≡ idle
    → Cycle store transport path m (do_retention store transport path m)
unfolding do_retention
do_retention-Cycle {S} {T} store transport path m h = rw (begin_draining m h) (
    stored_rule (Cycle store transport path m) (moved draining m) (store.snapshot path m.backend)
      (after_snapshot store transport path) (λ e q. no_snapshot e q refl refl refl)
      (λ q. rw (begin_retaining snapped refl) (
        after_retain-Cycle store transport path m (moved retaining snapped) _ q (refl, refl, refl)
          refl (unfold send in refl) (unfold send in refl))))
  where
    snapped : Manager S T
    snapped = record (moved draining m) { backend = (store.snapshot path m.backend).1 }

-- ===== src/Lifecycle/States/Paths.antt =====
-- The transition diagram of pkg/lifecycle/states.go as a relation, and what it reaches.
use nile.Prelude.{◌≡◌, ◌≢◌, ◌↔◌, refl, arith, true}
use nile.Lifecycle.States.{
  State, created, starting, idle, processing, post_processing, draining, retaining, stopping,
  stopped, failed, can_transition,
}

infix 40 ◌⟶◌ ◌⟶*◌
pub data ◌⟶◌ : State → State → Type 0 where
  start : created ⟶ starting
  ready : starting ⟶ idle
  init_failed : starting ⟶ failed
  receive : idle ⟶ processing
  drain : idle ⟶ draining
  stop : idle ⟶ stopping
  post : processing ⟶ post_processing
  done : processing ⟶ idle
  posted : post_processing ⟶ idle
  retain : draining ⟶ retaining
  retained : retaining ⟶ idle
  retain_failed : retaining ⟶ failed
  stop_done : stopping ⟶ stopped
  restart : failed ⟶ starting

pub data ◌⟶*◌ : State → State → Type 0 where
  here : {s : State} → s ⟶* s
  then : {s t u : State} → s ⟶ t → t ⟶* u → s ⟶* u

ruleset edges = (
  start, ready, init_failed, receive, drain, stop, post, done, posted, retain, retained,
  retain_failed, stop_done, restart,
)

edge_of : (s t : State) → can_transition s t ≡ true → s ⟶ t
unfolding can_transition
edge_of created t h = grind (arith, edges)
edge_of starting t h = grind (arith, edges)
edge_of idle t h = grind (arith, edges)
edge_of _ t h = grind (arith, edges)

of_edge : {s t : State} → s ⟶ t → can_transition s t ≡ true
unfolding can_transition
of_edge start = refl
of_edge _ = refl

-- canTransition answers true exactly on the edges of the diagram.
pub can_transition_iff : (s t : State) → (can_transition s t ≡ true) ↔ (s ⟶ t)
can_transition_iff s t = (edge_of s t, of_edge)

pub to_idle : (s : State) → s ≢ stopping → s ≢ stopped → s ⟶* idle
to_idle stopping h k = absurd (h refl)
to_idle stopped h k = absurd (k refl)
to_idle _ h k = search (here, then, edges)

from_idle : (t : State) → t ≢ created → idle ⟶* t
from_idle created h = absurd (h refl)
from_idle idle h = here
from_idle _ h = search (here, then, edges)

⟶*-trans : {s t u : State} → s ⟶* t → t ⟶* u → s ⟶* u
⟶*-trans here q = q
⟶*-trans (then e p) q = then e (⟶*-trans p q)

stopped_stays : {s t : State} → s ⟶* t → s ≡ stopped → t ≡ stopped
stopped_stays here e = e
stopped_stays (then p q) e = absurd (leaves p e)
  where
    leaves : {s t : State} → s ⟶ t → s ≡ stopped → ⊥
    leaves start e = cc
    leaves _ e = cc

-- From every state but `stopping` and `stopped` the diagram leads to every state but `created`: a manager
-- that has failed can recover.
pub diagram_reach : (s t : State) → s ≢ stopping → s ≢ stopped → t ≢ created → s ⟶* t
diagram_reach s t h k c = ⟶*-trans (to_idle s h k) (from_idle t c)

-- ===== src/Lifecycle/Started.antt =====
-- Start of pkg/lifecycle/manager.go over the log of pkg/wal, from the init request to the stop.
use nile.Prelude.{
  ℕ, suc, ◌+◌, ◌-◌, ◌||◌, if_cases, ◌≤◌, ◌==◌, u64, ◌≡◌, refl, ap, ◌∙◌, arith, Bytes, IsByte, true,
  false, Option, List, [], ◌∷◌, ◌++◌, if◌then◌else◌, length, take, drop, All,
}
use nile.Wal.Disk.{healthy}
use nile.Wal.Log.{Wal, total_size}
use nile.Wal.Stream.{Parts, messages, count, segments_from, Holds}
use nile.Wal.Backend.{wal_store}
use nile.Protocol.{init, shutdown, init_params, no_params, new_request, StatusResult, Response}
use nile.Store.{Store}
use nile.Transport.{Transport}
use nile.Lifecycle.States.{
  State, created, starting, idle, stopped, can_transition, same_state, stopping,
}
use nile.Lifecycle.Manager.{
  Manager, Failure, answered, answer, rounds, send, stop_signalled, try_transition,
}
use nile.Lifecycle.Pump.{
  closed_twice, stopped_by_request, shut_down, begin_shutdown, looked, pump_round, after_round,
  close_done, pump, checked_exit, after_init, start,
}
use nile.Lifecycle.Retention.{moved, transition_to}
use nile.Lifecycle.Accepting.{Accepts, numbered}
use nile.Lifecycle.Delivery.{Serves, pump-Served}

-- The neb's answer to the first request of a manager, and its state after it.
abbrev pub init_answer : {S T : Type 0} → Transport T → Manager S T → Option Response × T
init_answer transport m =
    transport.send (new_request (u64 (m.req_id + 1)) init (init_params m.name)) m.link

-- The manager once the neb has answered.
abbrev pub booted : {S T : Type 0} → Transport T → Manager S T → Manager S T
booted transport m =
    moved idle (record (moved starting m) {
      req_id = u64 (m.req_id + 1);
      link = (init_answer transport m).1;
    })

start-booted :
    {S T : Type 0} (store : Store S) (transport : Transport T) (paths : List Bytes)
    (m : Manager S T) (a : StatusResult)
    → m.state ≡ created
    → answer (init_answer transport m).0 ≡ answered a
    → start store transport paths m ≡ pump store transport paths (booted transport m)
unfolding start send can_transition
start-booted store transport paths m a fresh ans =
    ap
      (checked_exit store transport
        (λ m'. after_init store transport paths (send transport init (init_params m'.name) m')))
      (transition_to starting m (ap (λ t. can_transition t starting) fresh))
    ∙ ap
        (λ x. after_init store transport paths (
          x,
          record (moved starting m) {
            req_id = u64 (m.req_id + 1);
            link = (init_answer transport m).1;
          },
        ))
        ans
    ∙ ap (checked_exit store transport (pump store transport paths)) (
        transition_to idle
          (record (moved starting m) {
            req_id = u64 (m.req_id + 1);
            link = (init_answer transport m).1;
          })
          refl)

-- The beginning of a shutdown changes the state and the log lines alone.
begin_shutdown-state :
    {S T : Type 0} (m : Manager S T)
    → (to : State) × (lines : List (State × State)) × (begin_shutdown m
        ≡ record m { state = to; logged = lines })
unfolding try_transition
begin_shutdown-state {S} {T} m =
    if_cases
      (λ r.
        (to : State) × (lines : List (State × State)) × (r
          ≡ record m { state = to; logged = lines }))
      (same_state m.state idle || same_state m.state stopping)
      (λ _.
        if_cases
          (λ (r : Option Failure × Manager S T).
            (to : State) × (lines : List (State × State)) × (r.1
              ≡ record m { state = to; logged = lines }))
          (can_transition m.state stopping)
          (λ _. (stopping, m.logged ++ ((m.state, stopping) ∷ []), refl))
          (λ _. (m.state, m.logged, refl)))
      (λ _. (stopping, m.logged, refl))

-- The last request, and the neb's state after it.
abbrev pub shut_link : {S T : Type 0} → Transport T → Manager S T → T
shut_link transport m =
    (transport.send (new_request (u64 (m.req_id + 1)) shutdown no_params) m.link).1

shut_down-state :
    {S T : Type 0} (store : Store S) (transport : Transport T) (m : Manager S T)
    → (lines : List (State × State)) × (shut_down store transport m ≡ record m {
      state = stopped;
      req_id = u64 (m.req_id + 1);
      link = shut_link transport m;
      logged = lines;
    })
unfolding shut_down send
shut_down-state store transport m =
    let (to, lines, e) = begin_shutdown-state m in
    (lines, ap (λ b. record ((send transport shutdown no_params b).1) { state = stopped }) e)

-- The manager that has been stopped.
abbrev pub finished :
    {S T : Type 0} → Transport T → Manager S T → List (State × State) → Manager S T
finished transport m lines = record m {
  state = stopped;
  req_id = u64 (m.req_id + 1);
  link = shut_link transport m;
  logged = lines;
  done = true;
}

pump-stopped :
    {S T : Type 0} (store : Store S) (transport : Transport T) (path : Bytes) (paths : List Bytes)
    (m : Manager S T)
    → m.stop_in ≡ 0
    → m.done ≡ false
    → (lines : List (State × State)) × (pump store transport (path ∷ paths) m
        ≡ (stopped_by_request, finished transport m lines))
unfolding pump pump_round stop_signalled
pump-stopped store transport path paths m now going =
    let (lines, e) = shut_down-state store transport m in
    (
      lines,
      ap
            (λ b. after_round store transport (pump store transport paths) (
              looked store transport path
                (if b then (true, m) else (false, record m { stop_in = m.stop_in - 1 }))))
            {x = m.stop_in == 0} {y = true} (ground arith)
          ∙ ap (close_done store transport stopped_by_request) e
          ∙ ap
              (λ b.
                if b
                then (
                  closed_twice,
                  record m {
                    state = stopped;
                    req_id = u64 (m.req_id + 1);
                    link = shut_link transport m;
                    logged = lines;
                  },
                )
                else (stopped_by_request, finished transport m lines))
              going,
    )

-- A new manager on a log of `parts`, with room below the retention limits and a neb that answers init.
pub record Boots {T : Type 0} (transport : Transport T) (Ready : T → Type 0) (parts : Parts)
    (m : Manager Wal T) : Type 0 where
  pub holds : Holds m.backend parts
  pub opened : m.backend.log.closed_flag ≡ false
  pub few : count parts ≤ m.backend.log.opts.max_messages
  pub light : total_size (segments_from 0 parts) ≤ m.backend.log.opts.max_bytes
  pub bytes : All (All IsByte) (messages parts)
  pub fresh : m.state ≡ created
  pub tries : (r : ℕ) × (rounds m.max_retries ≡ suc r)
  pub answers : (a : StatusResult) × (answer (init_answer transport m).0 ≡ answered a)
  pub ready : Ready (init_answer transport m).1
  pub unfinished : m.done ≡ false

booted-Serves :
    {T X : Type 0} (transport : Transport T) (Ready : T → Type 0) (seen : T → List X)
    (entry : ℕ → Bytes → X) (parts : Parts) (m : Manager Wal T)
    → Boots transport Ready parts m
    → Serves transport Ready seen entry parts (booted transport m)
booted-Serves transport Ready seen entry parts m b = record {
  holds = b.holds;
  opened = b.opened;
  few = b.few;
  light = b.light;
  bytes = b.bytes;
  idles = refl;
  tries = b.tries;
  ready = b.ready;
  unfinished = b.unfinished;
}

-- Start on a healthy system, with a neb that answers init and then accepts every message, and with Stop after
-- as many looks as `paths` has names: it returns because of the stop, the manager is stopped and doneCh
-- closed. Behind init the neb has taken in exactly that many messages, the next ones from the cursor on, each
-- once, in order and with its number; its last request is the shutdown. The cursor is past these messages,
-- which the log still holds. There are that many, and the retention limits are not reached.
pub start_delivers :
    {T X : Type 0} (transport : Transport T) (Ready : T → Type 0) (seen : T → List X)
    (entry : ℕ → Bytes → X) (parts : Parts) (paths : List Bytes) (last : Bytes) (m : Manager Wal T)
    → Accepts transport Ready seen entry
    → Boots transport Ready parts m
    → m.stop_in ≡ length paths
    → m.backend.log.cur.consumed + length paths ≤ count parts
    → (m' : Manager Wal T) × (t : T) × (id : ℕ) × (start
          (wal_store healthy)
          transport
          (paths ++ (last ∷ []))
          m
        ≡ (stopped_by_request, m'))
      × (m'.state ≡ stopped)
      × (m'.done ≡ true)
      × (m'.link ≡ (transport.send (new_request id shutdown no_params) t).1)
      × (seen t
          ≡ seen (init_answer transport m).1
            ++ numbered entry m.backend.log.cur.consumed
                (take (length paths) (drop m.backend.log.cur.consumed (messages parts))))
      × Holds m'.backend parts
      × (m'.backend.log.closed_flag ≡ false)
      × (m'.backend.log.cur.consumed ≡ m.backend.log.cur.consumed + length paths)
start_delivers transport Ready seen entry parts paths last m neb b timely left =
    let (m1, goes_on, s1, k1, c1, v1) =
      pump-Served transport Ready seen entry parts neb paths (booted transport m)
        (booted-Serves transport Ready seen entry parts m b) (omega (arith, timely)) left in
    let (lines, ends) =
      pump-stopped (wal_store healthy) transport last [] m1 (omega (arith, k1, timely))
        s1.unfinished in
    (
      finished transport m1 lines,
      m1.link,
      u64 (m1.req_id + 1),
      start-booted (wal_store healthy) transport (paths ++ (last ∷ [])) m b.answers.0 b.fresh
            b.answers.1
          ∙ goes_on (last ∷ [])
          ∙ ends,
      refl,
      refl,
      refl,
      v1,
      s1.holds,
      s1.opened,
      c1,
    )

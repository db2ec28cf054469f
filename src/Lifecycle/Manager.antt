-- ===== src/Lifecycle/Manager.antt =====
-- pkg/lifecycle/manager.go: the state of a Manager, and its steps up to one message.
use nile.Prelude.{
  ℕ, ℤ, pos, negsuc, zero, suc, ◌+◌, ◌-◌, Bytes, u64, ◌==◌, if◌then◌else◌, Bool, true, false,
  Option, none, some, List, [], ◌∷◌, ◌++◌,
}
use nile.Wal.Record.{Error}
use nile.Store.{Store}
use nile.Protocol.{
  Method, message, Params, message_params, Response, StatusResult, Failed, parsed, refused,
  new_request, parse_result,
}
use nile.Transport.{Transport}
use nile.Base64.{encode_base64}
use nile.Telemetry.Metrics.{
  Metrics, new_metrics, record_processed, record_duration, record_dead_lettered,
}
use nile.Lifecycle.States.{State, created, idle, processing, post_processing, can_transition}

-- Why a step of the manager returned an error.
pub data Failure : Type 0 where
  invalid_transition : State → State → Failure
  send_failed : Failure
  result_failed : Failed → Failure
  store_failed : Error → Failure

-- `backend` and `link` are the store and the connection to the neb. Every look at stopCh takes one from
-- `stop_in`, and finds it closed once that is 0. `logged` is the "state transition" lines.
pub record Manager (S T : Type 0) : Type 0 where
  pub name : Bytes
  pub data_dir : Bytes
  pub max_retries : ℤ
  pub state : State
  pub req_id : ℕ
  pub backend : S
  pub link : T
  pub stop_in : ℕ
  pub done : Bool
  pub logged : List (State × State)
  pub metrics : Metrics

-- New: a retry count of 0 is taken as 3.
unfoldable pub retries_or_default : ℤ → ℤ
retries_or_default (pos zero) = pos 3
retries_or_default n = n

unfoldable pub new : {S T : Type 0} → Bytes → Bytes → ℤ → S → T → ℕ → Manager S T
unfolding retries_or_default
new name data_dir max_retries backend link stop_in = record {
  name = name;
  data_dir = data_dir;
  max_retries = retries_or_default max_retries;
  state = created;
  req_id = 0;
  backend = backend;
  link = link;
  stop_in = stop_in;
  done = false;
  logged = [];
  metrics = new_metrics;
}

-- `for attempt := 0; attempt <= m.MaxRetries; attempt++`: how many rounds.
unfoldable pub rounds : ℤ → ℕ
rounds (pos n) = suc n
rounds (negsuc n) = 0

-- A `select` that looks at stopCh.
unfoldable pub stop_signalled : {S T : Type 0} → Manager S T → Bool × Manager S T
stop_signalled m =
    if m.stop_in == 0 then (true, m) else (false, record m { stop_in = m.stop_in - 1 })

unfoldable pub transition : {S T : Type 0} → State → Manager S T → Option Failure × Manager S T
transition to m =
    if can_transition m.state to
    then (none, record m { state = to; logged = m.logged ++ ((m.state, to) ∷ []) })
    else (some (invalid_transition m.state to), m)

-- A transition whose error is ignored.
unfoldable pub try_transition : {S T : Type 0} → State → Manager S T → Manager S T
unfolding transition
try_transition to m = (transition to m).1

pub data Sent : Type 0 where
  answered : StatusResult → Sent
  unanswered : Failure → Sent

abbrev pub answer : Option Response → Sent
answer none = unanswered send_failed
answer (some r) = elim (parse_result r) [
  | refused e ↦ unanswered (result_failed e)
  | parsed s ↦ answered s
]

module _ {S T : Type 0} (transport : Transport T) where
  -- send: the next request number, the request, and the status result of the response.
  unfoldable pub send : Method → Params → Manager S T → Sent × Manager S T
  send method params m =
      let id = u64 (m.req_id + 1) in
      let r = transport.send (new_request id method params) m.link in
      (answer r.0, record m { req_id = id; link = r.1 })

-- RecordProcessed and RecordDuration. The Metrics of a Config may be nil; here they are not.
abbrev pub count_processed : {S T : Type 0} → Manager S T → Manager S T
count_processed m = record m { metrics = record_duration (record_processed m.metrics) }

abbrev pub count_dead_letter : {S T : Type 0} → Manager S T → Manager S T
count_dead_letter m = record m { metrics = record_dead_lettered m.metrics }

-- The result of a store's method that returns an error only.
abbrev pub stored :
    {S T : Type 0}
    → Manager S T
    → Option Error × S
    → (Manager S T → Option Failure × Manager S T)
    → Option Failure × Manager S T
stored m (some e, s) next = (some (store_failed e), record m { backend = s })
stored m (none, s) next = next (record m { backend = s })

module _ {S T : Type 0} (store : Store S) (transport : Transport T) where
  -- After the retries.
  unfoldable pub give_up : ℕ → Bytes → Manager S T → Option Failure × Manager S T
  give_up offset payload m =
      stored (count_dead_letter m) (store.dead_letter offset payload m.backend)
        (λ m'. (none, try_transition idle m'))

  -- "if result.PostProcess"
  unfoldable pub post_process : Bool → ℕ → Manager S T → Option Failure × Manager S T
  post_process false offset m = (none, try_transition idle m)
  post_process true offset m =
      let m' = try_transition post_processing m in
      stored m' (store.mark_post_processed offset m'.backend)
        (λ m''. (none, try_transition idle m''))

  -- The neb has answered.
  unfoldable pub succeed : StatusResult → ℕ → Manager S T → Option Failure × Manager S T
  succeed result offset m =
      stored (count_processed m) (store.mark_processed offset m.backend)
        (post_process result.post_process offset)

  abbrev pub after_send :
      ℕ
      → (Manager S T → Option Failure × Manager S T)
      → Sent × Manager S T
      → Option Failure × Manager S T
  after_send offset again (unanswered e, m) = again m
  after_send offset again (answered result, m) = succeed result offset m

  -- The backoff before a retry: a stop ends the processing with the message unprocessed.
  abbrev pub after_backoff :
      (Manager S T → Option Failure × Manager S T)
      → Bool × Manager S T
      → Option Failure × Manager S T
  after_backoff go (true, m) = (none, try_transition idle m)
  after_backoff go (false, m) = go m

  -- The rounds that are left; `retry` is false in the first one.
  unfoldable pub attempts : ℕ → Bool → ℕ → Bytes → Manager S T → Option Failure × Manager S T
  attempts zero retry offset payload m = give_up offset payload m
  attempts (suc n) retry offset payload m =
      let go : Manager S T → Option Failure × Manager S T = λ m'.
        after_send offset (attempts n true offset payload)
          (send transport message (message_params offset (encode_base64 payload)) m') in
      if retry then after_backoff go (stop_signalled m) else go m

  abbrev pub entered :
      (Manager S T → Option Failure × Manager S T)
      → Option Failure × Manager S T
      → Option Failure × Manager S T
  entered next (some e, m) = (some e, m)
  entered next (none, m) = next m

  unfoldable pub process_message : ℕ → Bytes → Manager S T → Option Failure × Manager S T
  process_message offset payload m =
      entered (attempts (rounds m.max_retries) false offset payload) (transition processing m)

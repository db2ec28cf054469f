-- ===== src/Counter.antt =====
-- examples/counter-service/main.go: a neb that writes every event to activity.log.
pub mod Reception
pub mod Text
mod Examples
use nile.Prelude.{
  ℕ, zero, Bytes, ascii, Bool, true, false, Option, none, some, List, [], ◌∷◌, ◌++◌, if◌then◌else◌,
  pos, negsuc,
}
use nile.Wal.Name.{digits}
use nile.Base64.{decode_base64}
use nile.Protocol.{
  Method, init, message, retain, shutdown, Params, init_params, message_params, retain_params,
  no_params, Request, Response, StatusResult, RpcError,
}
use nile.Transport.{Transport}

-- A line of the standard input, as json.Unmarshal reads it.
pub data Line : Type 0 where
  request : Request → Line
  unknown_method : Bytes → ℕ → Line
  garbled : Line

-- `activity` has the lines of activity.log, each behind its time stamp; every write to it succeeds.
pub record Service : Type 0 where
  pub activity : List Bytes
  pub exited : Bool

-- `logf`
abbrev pub logf : Bytes → Service → Service
logf text s = record s { activity = s.activity ++ (text ∷ []) }

-- `respond` with statusResult{Status: "ok"}
abbrev pub respond : ℕ → Response
respond id = record {
  result = some (record { status = ascii "ok"; post_process = false });
  error = none;
  id = id;
}

-- The fields that json.Unmarshal sets in a messageParams; other params leave it zero.
abbrev pub message_of : Params → ℕ × Bytes
message_of (message_params offset data') = (offset, data')
message_of _ = (0, [])

abbrev pub snapshot_of : Params → Bytes
snapshot_of (retain_params path) = path
snapshot_of _ = []

-- Data that is no base64 is shown raw.
abbrev pub shown : Bytes → Option Bytes → Bytes
shown raw none = raw
shown raw (some decoded) = decoded

-- `fmt.Sprintf("MSG offset=%d | %s", …)`
unfoldable pub message_line : ℕ → Bytes → Bytes
message_line offset text = ascii "MSG offset=" ++ (digits 19 offset ++ (ascii " | " ++ text))

unfoldable pub answer_message : ℕ → ℕ × Bytes → Service → Option Response × Service
unfolding message_line decode_base64
answer_message id (offset, data') s =
    (some (respond id), logf (message_line offset (shown data' (decode_base64 data'))) s)

-- The switch on the method.
unfoldable pub answer_request : Request → Service → Option Response × Service
unfolding answer_message
answer_request r s = elim r.method [
  | init ↦ (some (respond r.id), logf (ascii "INIT") s)
  | message ↦ answer_message r.id (message_of r.params) s
  | retain ↦ (some (respond r.id), logf (ascii "RETAIN snapshot=" ++ snapshot_of r.params) s)
  | shutdown ↦ (some (respond r.id), record (logf (ascii "SHUTDOWN") s) { exited = true })
]

unfoldable pub answer_line : Line → Service → Option Response × Service
unfolding answer_request
answer_line (request r) s = answer_request r s
answer_line (unknown_method name id) s = (
  some (record {
    result = none;
    error = some (record { code = negsuc 32600; text = ascii "unknown method" });
    id = id;
  }),
  logf (ascii "UNKNOWN method=" ++ name) s,
)
answer_line garbled s = (none, logf (ascii "ERROR parse") s)

-- One turn of the loop. A service that has exited answers nothing.
unfoldable pub serve : Line → Service → Option Response × Service
unfolding answer_line
serve line s = if s.exited then (none, s) else answer_line line s

-- The manager's end of the pipe, when each request is answered in time.
abbrev pub counter_service : Transport Service
counter_service = record { send = λ r s. serve (request r) s; close = λ s. s }

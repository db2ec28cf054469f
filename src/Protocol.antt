-- ===== src/Protocol.antt =====
-- pkg/protocol/jsonrpc.go: requests to the neb and its responses. Here a request is the value that
-- json.Marshal writes, and a response is what json.Unmarshal makes of the neb's line.
pub mod Envelope
pub mod Text
use nile.Prelude.{ℕ, ℤ, Bytes, ascii, Bool, Option, none, some}

abbrev pub version : Bytes
version = ascii "2.0"

pub data Method : Type 0 where
  init message retain shutdown : Method

-- The params that the runtime sends: InitParams, MessageParams, RetainParams, or none.
pub data Params : Type 0 where
  init_params : Bytes → Params
  message_params : ℕ → Bytes → Params
  retain_params : Bytes → Params
  no_params : Params

pub record Request : Type 0 where
  pub jsonrpc : Bytes
  pub method : Method
  pub params : Params
  pub id : ℕ

pub record RpcError : Type 0 where
  pub code : ℤ
  pub text : Bytes

pub record StatusResult : Type 0 where
  pub status : Bytes
  pub post_process : Bool

-- `result` is none if json.Unmarshal refuses it as a StatusResult.
pub record Response : Type 0 where
  pub result : Option StatusResult
  pub error : Option RpcError
  pub id : ℕ

pub data Failed : Type 0 where
  rpc : RpcError → Failed
  unmarshal : Failed

pub data Parsed : Type 0 where
  parsed : StatusResult → Parsed
  refused : Failed → Parsed

abbrev pub new_request : ℕ → Method → Params → Request
new_request id method params = record {
  jsonrpc = version;
  method = method;
  params = params;
  id = id;
}

-- ParseResult: an error of the neb comes first.
unfoldable pub parse_result : Response → Parsed
parse_result r = elim r.error [
  | some e ↦ refused (rpc e)
  | none ↦ elim r.result [ none ↦ refused unmarshal | some s ↦ parsed s ]
]

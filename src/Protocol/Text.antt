-- ===== src/Protocol/Text.antt =====
-- pkg/protocol/jsonrpc.go: the JSON texts of requests and responses.
use nile.Prelude.{ℕ, pos, Bytes, ascii, true, false, if◌then◌else◌, Option, none, some, [], ◌++◌}
use nile.Wal.Name.{digits}
use nile.Cli.Int.{format_int}
use nile.Json.{Value, Fields, str, object, no_fields, field, emit}
use nile.Json.Object.{
  uint, Setter, is_for, into_string, into_bool, into_uint, into_int, into_raw, into_struct,
  into_pointer, fine_only, unmarshal,
}
use nile.Protocol.{
  Method, init, message, retain, shutdown, Params, init_params, message_params, retain_params,
  no_params, Request, Response, StatusResult, RpcError,
}

abbrev pub method_name : Method → Bytes
method_name init = ascii "init"
method_name message = ascii "message"
method_name retain = ascii "retain"
method_name shutdown = ascii "shutdown"

-- InitParams, MessageParams and RetainParams in front of the other fields; the runtime sets no Config. Without
-- params the field is left out.
abbrev pub params_field : Params → Fields → Fields
params_field (init_params name) rest =
    field (ascii "params") (object (field (ascii "name") (str name) no_fields)) rest
params_field (message_params offset payload) rest =
    field (ascii "params")
      (object (field (ascii "offset") (uint offset) (field (ascii "data") (str payload) no_fields)))
      rest
params_field (retain_params snapshot) rest =
    field (ascii "params") (object (field (ascii "snapshot") (str snapshot) no_fields)) rest
params_field no_params rest = rest

unfoldable pub request_value : Request → Value
unfolding digits
request_value r = object (
    field (ascii "jsonrpc") (str r.jsonrpc) (
      field (ascii "method") (str (method_name r.method))
        (params_field r.params (field (ascii "id") (uint r.id) no_fields))))

-- (*Request).Encode of a request of NewRequest
unfoldable pub encode_request : Request → Bytes
unfolding request_value emit
encode_request r = emit (request_value r)

-- A Response with the result still raw.
pub record RawResponse : Type 0 where
  pub jsonrpc : Bytes
  pub result : Option Value
  pub error : Option RpcError
  pub id : ℕ

abbrev pub zero_rpc_error : RpcError
zero_rpc_error = record { code = pos 0; text = [] }

unfoldable pub set_rpc_error : Setter RpcError
unfolding is_for into_string into_int
set_rpc_error k v e =
    if is_for (ascii "code") k
    then (let (x, fine) = into_int v e.code in (record e { code = x }, fine))
    else if is_for (ascii "message") k
    then (let (x, fine) = into_string v e.text in (record e { text = x }, fine))
    else (e, true)

abbrev pub zero_response : RawResponse
zero_response = record { jsonrpc = []; result = none; error = none; id = 0 }

unfoldable pub set_response : Setter RawResponse
unfolding is_for into_string into_uint into_pointer set_rpc_error
set_response k v r =
    if is_for (ascii "jsonrpc") k
    then (let (x, fine) = into_string v r.jsonrpc in (record r { jsonrpc = x }, fine))
    else if is_for (ascii "result") k
    then (let (x, fine) = into_raw v r.result in (record r { result = x }, fine))
    else if is_for (ascii "error") k
    then (let (x, fine) = into_pointer set_rpc_error zero_rpc_error v r.error in
        (record r { error = x }, fine))
    else if is_for (ascii "id") k
    then (let (x, fine) = into_uint v r.id in (record r { id = x }, fine))
    else (r, true)

abbrev pub zero_status : StatusResult
zero_status = record { status = []; post_process = false }

unfoldable pub set_status : Setter StatusResult
unfolding is_for into_string into_bool
set_status k v s =
    if is_for (ascii "status") k
    then (let (x, fine) = into_string v s.status in (record s { status = x }, fine))
    else if is_for (ascii "post_process") k
    then (let (x, fine) = into_bool v s.post_process in (record s { post_process = x }, fine))
    else (s, true)

-- The result as ParseResult unmarshals it; without one the text is empty, which is an error.
abbrev pub status_of : Option Value → Option StatusResult
status_of none = none
status_of (some v) = fine_only (into_struct set_status v zero_status)

abbrev pub response_of : Option RawResponse → Option Response
response_of none = none
response_of (some r) = some (record { result = status_of r.result; error = r.error; id = r.id })

-- DecodeResponse, with the result read ahead.
unfoldable pub decode_response : Bytes → Option Response
unfolding unmarshal set_response into_struct set_status
decode_response text = response_of (unmarshal set_response zero_response text)

-- (*RPCError).Error
unfoldable pub error_text : RpcError → Bytes
unfolding format_int
error_text e = ascii "rpc error " ++ (format_int e.code ++ (ascii ": " ++ e.text))

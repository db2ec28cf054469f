-- ===== src/Counter/Text.antt =====
-- examples/counter-service/main.go: the JSON texts that the service reads and writes.
pub mod Requests
pub mod Responses
pub mod Exchange
pub mod Reception
use nile.Prelude.{
  ℕ, ℤ, Bytes, ascii, bytes_eq, Bool, true, false, if◌then◌else◌, Option, none, some, [], ◌∷◌,
}
use nile.Wal.Name.{digits}
use nile.Cli.Int.{format_int}
use nile.Json.{Value, Fields, num, str, object, no_fields, field, emit}
use nile.Json.Object.{
  uint, Stored, Setter, is_for, into_string, into_uint, into_raw, into_struct, unmarshal,
}
use nile.Protocol.{
  Method, init, message, retain, shutdown, Params, message_params, retain_params, no_params,
  Request, Response, StatusResult, RpcError,
}
use nile.Protocol.Text.{decode_response, encode_request}
use nile.Transport.{Transport}
use nile.Counter.{Line, request, unknown_method, garbled, Service, answer_line}

-- `request`
pub record RawRequest : Type 0 where
  pub jsonrpc : Bytes
  pub method : Bytes
  pub params : Option Value
  pub id : ℕ

abbrev pub zero_request : RawRequest
zero_request = record { jsonrpc = []; method = []; params = none; id = 0 }

unfoldable pub set_request : Setter RawRequest
unfolding is_for into_string into_uint
set_request k v r =
    if is_for (ascii "jsonrpc") k
    then (let (x, fine) = into_string v r.jsonrpc in (record r { jsonrpc = x }, fine))
    else if is_for (ascii "method") k
    then (let (x, fine) = into_string v r.method in (record r { method = x }, fine))
    else if is_for (ascii "params") k
    then (let (x, fine) = into_raw v r.params in (record r { params = x }, fine))
    else if is_for (ascii "id") k
    then (let (x, fine) = into_uint v r.id in (record r { id = x }, fine))
    else (r, true)

-- `messageParams`, the offset and the data
unfoldable pub set_message : Setter (ℕ × Bytes)
unfolding is_for into_string into_uint
set_message k v (offset, payload) =
    if is_for (ascii "offset") k
    then (let (x, fine) = into_uint v offset in ((x, payload), fine))
    else if is_for (ascii "data") k
    then (let (x, fine) = into_string v payload in ((offset, x), fine))
    else ((offset, payload), true)

-- `retainParams`
unfoldable pub set_snapshot : Setter Bytes
unfolding is_for into_string
set_snapshot k v snapshot =
    if is_for (ascii "snapshot") k then into_string v snapshot else (snapshot, true)

-- The errors of these two are ignored: what was set before stays.
unfoldable pub raw_message : Option Value → Params
unfolding into_struct set_message
raw_message none = message_params 0 []
raw_message (some v) = let (p, _) = into_struct set_message v (0, []) in message_params p.0 p.1

unfoldable pub raw_snapshot : Option Value → Params
unfolding into_struct set_snapshot
raw_snapshot none = retain_params []
raw_snapshot (some v) = let (p, _) = into_struct set_snapshot v [] in retain_params p

abbrev pub as_request : Method → Params → RawRequest → Line
as_request method params r =
    request (record { jsonrpc = r.jsonrpc; method = method; params = params; id = r.id })

-- The cases of the switch. The params of "init" and "shutdown" are not read.
abbrev pub by_method : RawRequest → Line
by_method r =
    if bytes_eq r.method (ascii "init")
    then as_request init no_params r
    else if bytes_eq r.method (ascii "message")
    then as_request message (raw_message r.params) r
    else if bytes_eq r.method (ascii "retain")
    then as_request retain (raw_snapshot r.params) r
    else if bytes_eq r.method (ascii "shutdown")
    then as_request shutdown no_params r
    else unknown_method r.method r.id

abbrev pub line_or_garbled : Option RawRequest → Line
line_or_garbled none = garbled
line_or_garbled (some r) = by_method r

unfoldable pub line_of : Bytes → Line
unfolding unmarshal set_request raw_message raw_snapshot
line_of text = line_or_garbled (unmarshal set_request zero_request text)

-- A statusResult has only the status.
abbrev pub result_field : Option StatusResult → Fields → Fields
result_field none rest = rest
result_field (some s) rest =
    field (ascii "result") (object (field (ascii "status") (str s.status) no_fields)) rest

-- The map is written in the order of its keys.
abbrev pub error_field : Option RpcError → Fields → Fields
error_field none rest = rest
error_field (some e) rest =
    field (ascii "error")
      (object (
        field (ascii "code") (num (format_int e.code))
          (field (ascii "message") (str e.text) no_fields)))
      rest

unfoldable pub response_value : Response → Value
unfolding digits format_int
response_value r = object (
    field (ascii "jsonrpc") (str (ascii "2.0"))
      (result_field r.result (error_field r.error (field (ascii "id") (uint r.id) no_fields))))

-- json.Marshal of a `response`
unfoldable pub response_text : Response → Bytes
unfolding response_value emit
response_text r = emit (response_value r)

abbrev pub text_or_none : Option Response → Option Bytes
text_or_none none = none
text_or_none (some r) = some (response_text r)

-- One turn of the loop, on the line that Scan has read; the text is printed with a newline.
unfoldable pub answer_text : Bytes → Service → Option Bytes × Service
unfolding line_of answer_line response_text
answer_text text s = let (r, s') = answer_line (line_of text) s in (text_or_none r, s')

abbrev pub response_or_none : Option Bytes → Option Response
response_or_none none = none
response_or_none (some text) = decode_response text

-- The manager's end of the pipe, with the texts on it.
abbrev pub text_service : Transport Service
text_service = record {
  send = λ r s.
      let (text, s') = answer_text (encode_request r) s in
      if s.exited then (none, s) else (response_or_none text, s');
  close = λ s. s;
}

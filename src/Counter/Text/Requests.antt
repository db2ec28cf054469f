-- ===== src/Counter/Text/Requests.antt =====
-- The texts of the manager's requests, as the service reads them.
use nile.Prelude.{ℕ, Bytes, ascii, IsU64, All, ◌≡◌, refl, ap, ◌∙◌, true, Option, none, some, ◌++◌}
use nile.Json.{Value, str, object, no_fields, field}
use nile.Json.Numeral.{digits-IsNumeral}
use nile.Json.Pieces.{IsPrintable}
use nile.Json.Chars.{IsAscii}
use nile.Json.Object.{uint, fine_only, is_for, fold, into_string, into_fields, into_struct}
use nile.Json.Written.{into_uint-digits, unmarshal-emit}
use nile.Protocol.{
  Method, init, message, retain, shutdown, Params, init_params, message_params, retain_params,
  no_params, Request,
}
use nile.Protocol.Text.{method_name, request_value, encode_request}
use nile.Counter.{
  respond, logf, request, Service, message_of, snapshot_of, answer_message, answer_request,
  answer_line,
}
use nile.Counter.Text.{
  set_request, set_message, set_snapshot, zero_request, raw_message, raw_snapshot, by_method,
  line_or_garbled, line_of,
}

-- The numbers of a request have 64 bits, and its strings are ASCII.
abbrev pub FitsParams : Params → Type 0
FitsParams (init_params name) = All IsAscii name
FitsParams (message_params offset payload) = IsU64 offset × All IsAscii payload
FitsParams (retain_params snapshot) = All IsAscii snapshot
FitsParams no_params = Unit

abbrev pub Fits : Request → Type 0
Fits r = IsU64 r.id × All IsAscii r.jsonrpc × FitsParams r.params

-- The object that is written for params.
abbrev raw_of : Params → Option Value
raw_of (init_params name) = some (object (field (ascii "name") (str name) no_fields))
raw_of (message_params offset payload) =
    some
      (object (field (ascii "offset") (uint offset) (field (ascii "data") (str payload) no_fields)))
raw_of (retain_params snapshot) = some (object (field (ascii "snapshot") (str snapshot) no_fields))
raw_of no_params = none

request_value-Printable :
    (jsonrpc : Bytes) (m : Method) (p : Params) (id : ℕ)
    → IsU64 id
    → FitsParams p
    → IsPrintable (request_value (record { jsonrpc = jsonrpc; method = m; params = p; id = id }))
unfolding request_value IsPrintable
request_value-Printable j m (init_params name) id h k =
    (tt, (tt, ((tt, tt), (digits-IsNumeral id h, tt))))
request_value-Printable j m (message_params offset payload) id h k =
    (tt, (tt, ((digits-IsNumeral offset (k.0), (tt, tt)), (digits-IsNumeral id h, tt))))
request_value-Printable j m (retain_params snapshot) id h k =
    (tt, (tt, ((tt, tt), (digits-IsNumeral id h, tt))))
request_value-Printable j m no_params id h k = (tt, (tt, (digits-IsNumeral id h, tt)))

request_fields :
    (jsonrpc : Bytes) (m : Method) (p : Params) (id : ℕ)
    → IsU64 id
    → into_struct set_request
        (request_value (record { jsonrpc = jsonrpc; method = m; params = p; id = id }))
        zero_request
      ≡ (record { jsonrpc = jsonrpc; method = method_name m; params = raw_of p; id = id }, true)
unfolding request_value into_struct into_fields set_request is_for fold into_string
request_fields j m (init_params name) id h = rw (into_uint-digits id 0 h) refl
request_fields j m (message_params offset payload) id h = rw (into_uint-digits id 0 h) refl
request_fields j m (retain_params snapshot) id h = rw (into_uint-digits id 0 h) refl
request_fields j m no_params id h = rw (into_uint-digits id 0 h) refl

raw_message-raw_of :
    (p : Params) → FitsParams p → message_of (raw_message (raw_of p)) ≡ message_of p
unfolding raw_message into_struct into_fields set_message is_for fold into_string
raw_message-raw_of (init_params name) k = refl
raw_message-raw_of (message_params offset payload) k = rw (into_uint-digits offset 0 (k.0)) refl
raw_message-raw_of (retain_params snapshot) k = refl
raw_message-raw_of no_params k = refl

raw_snapshot-raw_of : (p : Params) → snapshot_of (raw_snapshot (raw_of p)) ≡ snapshot_of p
unfolding raw_snapshot into_struct into_fields set_snapshot is_for fold into_string
raw_snapshot-raw_of (init_params name) = refl
raw_snapshot-raw_of (message_params offset payload) = refl
raw_snapshot-raw_of (retain_params snapshot) = refl
raw_snapshot-raw_of no_params = refl

by_method-answer :
    (jsonrpc : Bytes) (m : Method) (p : Params) (id : ℕ) (s : Service)
    → FitsParams p
    → answer_line
        (by_method
          (record { jsonrpc = jsonrpc; method = method_name m; params = raw_of p; id = id }))
        s
      ≡ answer_line (request (record { jsonrpc = jsonrpc; method = m; params = p; id = id })) s
unfolding answer_line answer_request
by_method-answer j init p id s k = refl
by_method-answer j message p id s k = ap (λ o. answer_message id o s) (raw_message-raw_of p k)
by_method-answer j retain p id s k =
    ap (λ t. (some (respond id), logf (ascii "RETAIN snapshot=" ++ t) s)) (raw_snapshot-raw_of p)
by_method-answer j shutdown p id s k = refl

-- The service answers the text of a request as it answers the request.
pub answer_line-encode_request :
    (r : Request) (s : Service)
    → Fits r
    → answer_line (line_of (encode_request r)) s ≡ answer_line (request r) s
unfolding line_of encode_request
answer_line-encode_request r s (h, _, k) =
    ap (λ o. answer_line (line_or_garbled o) s)
      (unmarshal-emit set_request zero_request (request_value r)
          (request_value-Printable r.jsonrpc r.method r.params r.id h k)
        ∙ ap fine_only (request_fields r.jsonrpc r.method r.params r.id h))
    ∙ by_method-answer r.jsonrpc r.method r.params r.id s k

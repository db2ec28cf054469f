-- ===== src/Counter/Text/Responses.antt =====
-- The texts of the service's responses, as the manager decodes them.
use nile.Prelude.{ℕ, pos, Bytes, ascii, IsU64, All, ◌≡◌, refl, ap, ◌∙◌, true, false, none, some}
use nile.Cli.Int.{IsInt64}
use nile.Json.{str, object, no_fields, field}
use nile.Json.Numeral.{digits-IsNumeral}
use nile.Json.Pieces.{IsPrintable}
use nile.Json.Chars.{IsAscii}
use nile.Json.Object.{fine_only, is_for, fold, into_string, into_fields, into_struct, into_pointer}
use nile.Json.Written.{into_uint-digits, into_int-format_int, format_int-IsNumeral, unmarshal-emit}
use nile.Protocol.{Response, RpcError}
use nile.Protocol.Text.{
  set_response, set_status, set_rpc_error, zero_response, decode_response, response_of,
}
use nile.Counter.Text.{response_value, response_text}

abbrev pub accepted_response : ℕ → Bytes → Response
accepted_response id status = record {
  result = some (record { status = status; post_process = false });
  error = none;
  id = id;
}

abbrev pub refusal_response : ℕ → RpcError → Response
refusal_response id e = record { result = none; error = some e; id = id }

-- What a response of the service can hold: its numbers fit, and its result has only a status; its strings are ASCII.
pub data IsOwn : Response → Type 0 where
  accepted :
      (id : ℕ) (status : Bytes)
      → IsU64 id
      → All IsAscii status
      → IsOwn (accepted_response id status)
  refusal :
      (id : ℕ) (e : RpcError)
      → IsU64 id
      → IsInt64 e.code
      → All IsAscii e.text
      → IsOwn (refusal_response id e)

accepted-Printable :
    (id : ℕ) (status : Bytes)
    → IsU64 id
    → IsPrintable (response_value (accepted_response id status))
unfolding response_value IsPrintable
accepted-Printable id status h = (tt, ((tt, tt), (digits-IsNumeral id h, tt)))

accepted_fields :
    (id : ℕ) (status : Bytes)
    → IsU64 id
    → into_struct set_response (response_value (accepted_response id status)) zero_response ≡ (
      record {
        jsonrpc = ascii "2.0";
        result = some (object (field (ascii "status") (str status) no_fields));
        error = none;
        id = id;
      },
      true,
    )
unfolding response_value into_struct into_fields set_response is_for fold into_string
accepted_fields id status h = rw (into_uint-digits id 0 h) refl

refusal-Printable :
    (id : ℕ) (e : RpcError)
    → IsU64 id
    → IsInt64 e.code
    → IsPrintable (response_value (refusal_response id e))
unfolding response_value IsPrintable
refusal-Printable id e h k =
    (tt, ((format_int-IsNumeral e.code k, (tt, tt)), (digits-IsNumeral id h, tt)))

refusal_fields :
    (id : ℕ) (e : RpcError)
    → IsU64 id
    → IsInt64 e.code
    → into_struct set_response (response_value (refusal_response id e)) zero_response
      ≡ (record { jsonrpc = ascii "2.0"; result = none; error = some e; id = id }, true)
unfolding response_value into_struct into_fields set_response set_rpc_error is_for fold into_string
    into_pointer
refusal_fields id e h k = rw (into_uint-digits id 0 h, into_int-format_int e.code (pos 0) k) refl

-- A response of the service, with a status or an error, whose id has 64 bits, whose error code is an int of 64
-- bits and whose strings are ASCII: DecodeResponse and ParseResult read it from the text as it was.
pub decode_response-text : (r : Response) → IsOwn r → decode_response (response_text r) ≡ some r
unfolding decode_response response_text
decode_response-text _ (accepted id status h _) =
    let r = accepted_response id status in
    ap response_of (
      unmarshal-emit set_response zero_response (response_value r) (accepted-Printable id status h)
      ∙ ap fine_only (accepted_fields id status h))
    ∙ (unfold into_struct into_fields set_status is_for fold into_string in refl)
decode_response-text _ (refusal id e h k _) =
    let r = refusal_response id e in
    ap response_of (
      unmarshal-emit set_response zero_response (response_value r) (refusal-Printable id e h k)
      ∙ ap fine_only (refusal_fields id e h k))

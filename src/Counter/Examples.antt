-- ===== src/Counter/Examples.antt =====
-- The texts of the counter service, at one message and one unknown method.
use nile.Prelude.{◌≡◌, arith, ascii, false, negsuc, some, [], ◌∷◌}
use nile.Protocol.{Request, RpcError, message, message_params, new_request}
use nile.Protocol.Text.{decode_response}
use nile.Counter.{Service}
use nile.Counter.Text.{response_text}
use nile.Counter.Text.Responses.{refusal_response, refusal, decode_response-text}

abbrev old_service : Service
old_service = record { activity = ascii "INIT" ∷ []; exited = false }

abbrev delivery : Request
delivery = new_request 2 message (message_params 41 (ascii "YmM="))

abbrev unknown : RpcError
unknown = record { code = negsuc 32600; text = ascii "unknown \"method\"" }

decode_response-text_example :
    decode_response (response_text (refusal_response 7 unknown)) ≡ some (refusal_response 7 unknown)
decode_response-text_example =
    decode_response-text (refusal_response 7 unknown)
      (refusal 7 unknown (omega arith) (omega arith) (omega arith))

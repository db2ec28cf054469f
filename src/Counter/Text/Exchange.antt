-- ===== src/Counter/Text/Exchange.antt =====
-- A request and its answer, both as texts.
use nile.Prelude.{
  ℕ, IsU64, arith, Bytes, ascii, if◌then◌else◌, ◌≡◌, refl, ap, ◌∙◌, sym, Option, none, some,
}
use nile.Protocol.{Params, Method, init, message, retain, shutdown, Request, Response}
use nile.Counter.{request, respond, Service, answer_line, answer_request, serve, counter_service}
use nile.Counter.Text.{text_or_none, response_or_none, answer_text, text_service}
use nile.Counter.Text.Requests.{Fits, answer_line-encode_request}
use nile.Counter.Text.Responses.{accepted, decode_response-text}

answer_request-respond :
    (j : Bytes) (m : Method) (p : Params) (id : ℕ) (s : Service)
    → (answer_request (record { jsonrpc = j; method = m; params = p; id = id }) s).0
      ≡ some (respond id)
unfolding answer_request
answer_request-respond j init p id s = refl
answer_request-respond j message p id s = refl
answer_request-respond j retain p id s = refl
answer_request-respond j shutdown p id s = refl

-- An answer, with its response put into a text and back.
abbrev through_text : Option Response × Service → Option Response × Service
through_text (r, s) = (response_or_none (text_or_none r), s)

through_text-respond :
    (id : ℕ) (a : Option Response × Service)
    → IsU64 id
    → a.0 ≡ some (respond id)
    → through_text a ≡ a
through_text-respond id (r, s) h e =
    ap (λ o. (response_or_none (text_or_none o), s)) e
    ∙ ap (λ o. (o, s))
        (decode_response-text (respond id) (accepted id (ascii "ok") h (omega arith)) ∙ sym e)

pub text_service-counter_service :
    (r : Request) (s : Service) → Fits r → text_service.send r s ≡ counter_service.send r s
unfolding serve answer_line answer_text
text_service-counter_service r s h =
    ap (λ (x : Option Response × Service). if s.exited then (none, s) else x)
      (ap through_text (answer_line-encode_request r s h)
        ∙ through_text-respond r.id (answer_line (request r) s) h.0
            (answer_request-respond r.jsonrpc r.method r.params r.id s))

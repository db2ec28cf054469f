-- ===== src/Counter/Reception.antt =====
-- examples/counter-service/main.go as the neb of a manager.
use nile.Prelude.{
  ◌∙◌, subst, sym, ascii, Option, ℕ, ◌≡◌, refl, ap, Bytes, IsByte, All, false, none, some, [], ◌∷◌,
  ◌++◌, if◌then◌else◌,
}
use nile.Protocol.{message, message_params, new_request, Response, StatusResult, parse_result}
use nile.Base64.{encode_base64}
use nile.Base64.RoundTrip.{decode-encode_base64}
use nile.Lifecycle.Manager.{answered, answer}
use nile.Lifecycle.Accepting.{Accepts}
use nile.Counter.{
  Service, request, logf, respond, shown, message_line, answer_line, serve, counter_service,
}

serve-message :
    (id offset : ℕ) (p : Bytes) (t : Service)
    → All IsByte p
    → t.exited ≡ false
    → serve (request (new_request id message (message_params offset (encode_base64 p)))) t
      ≡ (some (respond id), logf (message_line offset p) t)
unfolding serve
serve-message id offset p t bytes running =
    ap
      (λ b.
        if b
        then (none, t)
        else answer_line
            (request (new_request id message (message_params offset (encode_base64 p)))) t)
      running
    ∙ ap (λ o. (some (respond id), logf (message_line offset (shown (encode_base64 p) o)) t))
        (decode-encode_base64 p bytes)

-- Until it is shut down, the counter service answers every message with an "ok" for the manager, and writes one
-- line to activity.log: the offset and the very bytes of the payload.
pub counter_service-Accepts :
    Accepts counter_service (λ s. s.exited ≡ false) (λ s. s.activity) message_line
counter_service-Accepts = record {
  accepts = λ id offset p t _ _ bytes running.
      subst
        (λ (r : Option Response × Service).
          (a : StatusResult) × (answer r.0 ≡ answered a)
          × (a.post_process ≡ false)
          × (r.1.exited ≡ false)
          × (r.1.activity ≡ t.activity ++ (message_line offset p ∷ [])))
        (sym (serve-message id offset p t bytes running))
        (
          record { status = ascii "ok"; post_process = false },
          unfold parse_result in refl,
          refl,
          running,
          refl,
        );
}

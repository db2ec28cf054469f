-- ===== src/Counter/Text/Reception.antt =====
-- examples/counter-service/main.go as the neb of a manager, with the JSON texts.
use nile.Prelude.{
  ℕ, ◌+◌, ◌*◌, ◌/◌, ◌%◌, ◌<◌, ◌≡◌, subst, sym, arith, Option, Bytes, IsByte, All, false, [], ◌∷◌,
  ◌++◌,
}
use nile.Protocol.{message, message_params, new_request, Response, StatusResult}
use nile.Base64.{sextet, encode_base64}
use nile.Json.Chars.{IsAscii}
use nile.Lifecycle.Manager.{answered, answer}
use nile.Lifecycle.Accepting.{Accepts}
use nile.Counter.{Service, message_line}
use nile.Counter.Reception.{counter_service-Accepts}
use nile.Counter.Text.{text_service}
use nile.Counter.Text.Exchange.{text_service-counter_service}

sextet-IsAscii : (v : ℕ) → v < 64 → IsAscii (sextet v)
sextet-IsAscii v h = ground arith

encode_base64-IsAscii : (p : Bytes) → All IsByte p → All IsAscii (encode_base64 p)
unfolding encode_base64
encode_base64-IsAscii [] h = tt
encode_base64-IsAscii (a ∷ []) (ha, _) = (
  sextet-IsAscii (a / 4) (omega arith),
  (sextet-IsAscii (a % 4 * 16) (omega arith), (omega arith, (omega arith, tt))),
)
encode_base64-IsAscii (a ∷ (b ∷ [])) (ha, (hb, _)) = (
  sextet-IsAscii (a / 4) (omega arith),
  (
    sextet-IsAscii (a % 4 * 16 + b / 16) (omega arith),
    (sextet-IsAscii (b % 16 * 4) (omega arith), (omega arith, tt)),
  ),
)
encode_base64-IsAscii (a ∷ (b ∷ (c ∷ rest))) (ha, (hb, (hc, h))) = (
  sextet-IsAscii (a / 4) (omega arith),
  (
    sextet-IsAscii (a % 4 * 16 + b / 16) (omega arith),
    (
      sextet-IsAscii (b % 16 * 4 + c / 64) (omega arith),
      (sextet-IsAscii (c % 64) (omega arith), encode_base64-IsAscii rest h),
    ),
  ),
)

-- The same holds of the service behind the JSON texts.
pub text_service-Accepts :
    Accepts text_service (λ s. s.exited ≡ false) (λ s. s.activity) message_line
text_service-Accepts = record {
  accepts = λ id offset p t id_fits offset_fits bytes running.
      let r = new_request id message (message_params offset (encode_base64 p)) in
      subst
        (λ (o : Option Response × Service).
          (a : StatusResult) × (answer o.0 ≡ answered a)
          × (a.post_process ≡ false)
          × (o.1.exited ≡ false)
          × (o.1.activity ≡ t.activity ++ (message_line offset p ∷ [])))
        (sym (
          text_service-counter_service r t
            (id_fits, omega arith, (offset_fits, encode_base64-IsAscii p bytes))))
        (counter_service-Accepts.accepts id offset p t id_fits offset_fits bytes running);
}

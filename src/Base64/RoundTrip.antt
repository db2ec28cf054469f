-- ===== src/Base64/RoundTrip.antt =====
-- EncodeToString and DecodeString of Go's base64.StdEncoding together.
use nile.Prelude.{
  ℕ, ◌+◌, ◌*◌, ◌/◌, ◌%◌, ◌<◌, ◌≡◌, refl, ap, ◌∙◌, ap₂, arith, Bytes, IsByte, All, ◌==◌, false, some,
  [], ◌∷◌,
}
use nile.Base64.{sextet, encode_base64, from_sextet, without_newlines, decode_groups, decode_base64}

from_sextet-sextet : (v : ℕ) → v < 64 → from_sextet (sextet v) ≡ some v
unfolding from_sextet
from_sextet-sextet v h = ground arith

sextet_pad : (v : ℕ) → v < 64 → (sextet v == 61) ≡ false
sextet_pad v h = ground arith

without_newlines-sextet :
    (v : ℕ) (cs : Bytes)
    → v < 64
    → without_newlines (sextet v ∷ cs) ≡ sextet v ∷ without_newlines cs
unfolding without_newlines
without_newlines-sextet v cs h = ground arith

without_newlines-encode_base64 :
    (p : Bytes) → All IsByte p → without_newlines (encode_base64 p) ≡ encode_base64 p
unfolding encode_base64
without_newlines-encode_base64 [] h = unfold without_newlines in refl
without_newlines-encode_base64 (a ∷ []) (ha, _) =
    rw
      (
        without_newlines-sextet (a / 4) _ (omega arith),
        without_newlines-sextet (a % 4 * 16) _ (omega arith),
      )
      (unfold without_newlines in refl)
without_newlines-encode_base64 (a ∷ (b ∷ [])) (ha, (hb, _)) =
    rw
      (
        without_newlines-sextet (a / 4) _ (omega arith),
        without_newlines-sextet (a % 4 * 16 + b / 16) _ (omega arith),
        without_newlines-sextet (b % 16 * 4) _ (omega arith),
      )
      (unfold without_newlines in refl)
without_newlines-encode_base64 (a ∷ (b ∷ (c ∷ rest))) (ha, (hb, (hc, h))) = rw (
  without_newlines-sextet (a / 4) _ (omega arith),
  without_newlines-sextet (a % 4 * 16 + b / 16) _ (omega arith),
  without_newlines-sextet (b % 16 * 4 + c / 64) _ (omega arith),
  without_newlines-sextet (c % 64) _ (omega arith),
  without_newlines-encode_base64 rest h,
)

decode_groups-encode_base64 : (p : Bytes) → All IsByte p → decode_groups (encode_base64 p) ≡ some p
unfolding encode_base64 decode_groups
decode_groups-encode_base64 [] h = refl
decode_groups-encode_base64 (a ∷ []) (ha, _) =
    rw (from_sextet-sextet (a / 4) (omega arith), from_sextet-sextet (a % 4 * 16) (omega arith))
      (ap (λ (n : ℕ). some (n ∷ [])) (omega arith))
decode_groups-encode_base64 (a ∷ (b ∷ [])) (ha, (hb, _)) =
    rw
      (
        sextet_pad (b % 16 * 4) (omega arith),
        from_sextet-sextet (a / 4) (omega arith),
        from_sextet-sextet (a % 4 * 16 + b / 16) (omega arith),
        from_sextet-sextet (b % 16 * 4) (omega arith),
      )
      (ap₂ (λ (n m : ℕ). some (n ∷ m ∷ [])) (omega arith) (omega arith))
decode_groups-encode_base64 (a ∷ (b ∷ (c ∷ rest))) (ha, (hb, (hc, h))) =
    rw
      (
        sextet_pad (c % 64) (omega arith),
        from_sextet-sextet (a / 4) (omega arith),
        from_sextet-sextet (a % 4 * 16 + b / 16) (omega arith),
        from_sextet-sextet (b % 16 * 4 + c / 64) (omega arith),
        from_sextet-sextet (c % 64) (omega arith),
        decode_groups-encode_base64 rest h,
      )
      (ap₂ (λ (n : ℕ) (t : Bytes). some (n ∷ t)) (omega arith)
        (ap₂ (λ (n m : ℕ). n ∷ m ∷ rest) (omega arith) (omega arith)))

-- Decoding the encoded bytes gives the bytes back.
pub decode-encode_base64 : (p : Bytes) → All IsByte p → decode_base64 (encode_base64 p) ≡ some p
unfolding decode_base64
decode-encode_base64 p h =
    ap decode_groups (without_newlines-encode_base64 p h) ∙ decode_groups-encode_base64 p h

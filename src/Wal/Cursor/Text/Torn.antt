-- ===== src/Wal/Cursor/Text/Torn.antt =====
-- A cursor.json that was cut short.
use nile.Prelude.{
  ℕ, zero, suc, ◌+◌, ◌/◌, ◌%◌, ◌^◌, ◌<◌, ◌≤◌, ◌≡◌, refl, ap, ◌∙◌, sym, arith, ltb, ◌==◌, if_cases,
  All, All-append, Bytes, ascii, length, length-append, take, false, [], ◌∷◌, ◌++◌, append_assoc,
  IsU64,
}
use nile.Wal.Name.{digits}
use nile.Wal.Disk.{CursorState, malformed}
use nile.Wal.Cursor.Text.{cursor_text, cursor_file}
use nile.Json.{object, num, field, no_fields, emit}
use nile.Json.Parser.{wrong, skip, parse_value, parse_json}
use nile.Json.Object.{unmarshal}
use nile.Json.Fuel.{parse_json-cut}

abbrev IsNoBrace : ℕ → Type 0
IsNoBrace c = (c == 125) ≡ false

digits-IsNoBrace : (n v : ℕ) → v < 10 ^ suc n → All IsNoBrace (digits n v)
unfolding digits
digits-IsNoBrace zero v h = (ground arith, tt)
digits-IsNoBrace (suc n) v h =
    if_cases (λ ds. All IsNoBrace ds) (ltb v 10) (λ e. (ground arith, tt))
      (λ e.
        All-append IsNoBrace (digits n (v / 10)) ((48 + v % 10) ∷ [])
          (digits-IsNoBrace n (v / 10) (ground arith)) (ground arith, tt))

All-take : (n : ℕ) (xs : Bytes) → All IsNoBrace xs → All IsNoBrace (take n xs)
All-take zero xs h = tt
All-take (suc n) [] h = tt
All-take (suc n) (x ∷ xs) h = (h.0, All-take n xs h.1)

take-short : (n : ℕ) (xs ys : Bytes) → n ≤ length xs → take n (xs ++ ys) ≡ take n xs
take-short zero xs ys h = refl
take-short (suc n) [] ys h = absurd (omega arith)
take-short (suc n) (x ∷ xs) ys h = ap (λ t. x ∷ t) (take-short n xs ys (omega arith))

-- The text between the braces.
abbrev inside : Bytes → Bytes → Bytes
inside a b = ascii "\"consumed\":" ++ (a ++ (ascii ",\"post_processed\":" ++ b))

emit-inside :
    (a b : Bytes)
    → emit (
        object
          (field (ascii "consumed") (num a) (field (ascii "post_processed") (num b) no_fields)))
      ≡ 123 ∷ (inside a b ++ (125 ∷ []))
unfolding emit
emit-inside a b =
    ap (λ t. 123 ∷ (ascii "\"consumed\":" ++ t))
      (sym (append_assoc a (ascii ",\"post_processed\":" ++ b) (125 ∷ [])))

cursor_text-inside :
    (s : CursorState)
    → cursor_text s
      ≡ 123 ∷ (inside (digits 19 s.consumed) (digits 19 s.post_processed) ++ (125 ∷ []))
unfolding cursor_text
cursor_text-inside s = emit-inside (digits 19 s.consumed) (digits 19 s.post_processed)

inside-IsNoBrace : (a b : Bytes) → All IsNoBrace a → All IsNoBrace b → All IsNoBrace (inside a b)
inside-IsNoBrace a b h k =
    All-append IsNoBrace (ascii "\"consumed\":") (a ++ (ascii ",\"post_processed\":" ++ b))
      (ground arith)
      (All-append IsNoBrace a (ascii ",\"post_processed\":" ++ b) h
        (All-append IsNoBrace (ascii ",\"post_processed\":") b (ground arith) k))

refused_cursor : (ts : Bytes) → parse_json ts ≡ wrong → cursor_file ts ≡ malformed
unfolding cursor_file
refused_cursor ts h = rw (h, unmarshal) refl

-- A proper beginning of the text that Save writes for a state whose two offsets have 64 bits, as an interrupted
-- write may leave it, is refused by Load: it is never read as another state.
pub cursor_file-take :
    (s : CursorState) (n : ℕ)
    → IsU64 s.consumed
    → IsU64 s.post_processed
    → n < length (cursor_text s)
    → cursor_file (take n (cursor_text s)) ≡ malformed
cursor_file-take s zero h k e = refused_cursor [] (unfold parse_json parse_value skip in refl)
cursor_file-take s (suc n) h k e =
    let a = digits 19 s.consumed in
    let b = digits 19 s.post_processed in
    let within : n ≤ length (inside a b) =
      omega (arith, ap length (cursor_text-inside s), length-append (inside a b) (125 ∷ []), e) in
    ap (λ t. cursor_file (take (suc n) t)) (cursor_text-inside s)
    ∙ ap (λ t. cursor_file (123 ∷ t)) (take-short n (inside a b) (125 ∷ []) within)
    ∙ refused_cursor (123 ∷ take n (inside a b)) (
        parse_json-cut (take n (inside a b)) (
          All-take n (inside a b) (
            inside-IsNoBrace a b (digits-IsNoBrace 19 s.consumed (omega arith))
              (digits-IsNoBrace 19 s.post_processed (omega arith)))))

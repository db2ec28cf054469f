-- ===== src/Json/Reading.antt =====
-- The texts that Marshal writes, read by Unmarshal.
use nile.Prelude.{
  ℕ, zero, suc, ◌+◌, ◌*◌, ◌<◌, ◌≡◌, refl, ap, ◌∙◌, arith, Bytes, length, length-append, Bool, true,
  false, [], ◌∷◌, ◌++◌, append_assoc, append-nil,
}
use nile.Json.{
  Value, Items, Fields, null, bool, num, str, array, object, no_items, item, no_fields, field,
  comma, emit, emit_items, emit_fields,
}
use nile.Json.Chars.{quote}
use nile.Json.Number.{take_number, is_num_char}
use nile.Json.Numeral.{Stops}
use nile.Json.Parser.{
  literal, read, and_then, skip, scalar, parse_value, parse_items, parse_fields, alone, parse_json,
}
use nile.Json.Pieces.{
  IsPrintable, ArePrintableItems, ArePrintableFields, Starts-emit, parse_value-quote,
  parse_value-numeral, parse_items-item, parse_fields-field,
}

Stops-items : (xs : Items) (rest : Bytes) → Stops (emit_items xs false ++ rest)
unfolding emit take_number is_num_char
Stops-items no_items rest = refl
Stops-items (item v xs) rest = refl

Stops-fields : (fs : Fields) (rest : Bytes) → Stops (emit_fields fs false ++ rest)
unfolding emit take_number is_num_char
Stops-fields no_fields rest = refl
Stops-fields (field k v fs) rest = refl

length-emit_pos : (v : Value) → IsPrintable v → 0 < length (emit v)
length-emit_pos v h = let s = Starts-emit v h in rw (s.whole) (omega arith)

length-item :
    (first : Bool) (w : Value) (xs : Items)
    → length (emit_items (item w xs) first)
      ≡ length (comma first) + (length (emit w) + length (emit_items xs false))
unfolding emit
length-item first w xs =
    length-append (comma first) (emit w ++ emit_items xs false)
    ∙ ap (λ n. length (comma first) + n) (length-append (emit w) (emit_items xs false))

length-field :
    (first : Bool) (k : Bytes) (w : Value) (fs : Fields)
    → length (emit_fields (field k w fs) first)
      ≡ length (comma first)
        + (length (quote k) + suc (length (emit w) + length (emit_fields fs false)))
unfolding emit
length-field first k w fs =
    let more = emit_fields fs false in
    length-append (comma first) (quote k ++ (58 ∷ (emit w ++ more)))
    ∙ ap (λ n. length (comma first) + n)
        (length-append (quote k) (58 ∷ (emit w ++ more))
          ∙ ap (λ n. length (quote k) + suc n) (length-append (emit w) more))

-- An item and what is behind it, each read with the fuel that is left.
parse_items-next :
    (f : ℕ) (first : Bool) (w : Value) (xs : Items) (rest : Bytes)
    → IsPrintable w
    → parse_value f (emit w ++ (emit_items xs false ++ rest))
      ≡ read (w, emit_items xs false ++ rest)
    → parse_items f false (emit_items xs false ++ rest) ≡ read (xs, rest)
    → parse_items (suc f) first (emit_items (item w xs) first ++ rest) ≡ read (item w xs, rest)
parse_items-next f first w xs rest h one others =
    let more = emit_items xs false in
    let assoc : emit_items (item w xs) first ++ rest ≡ comma first ++ (emit w ++ (more ++ rest)) =
      unfold emit in
      append_assoc (comma first) (emit w ++ more) rest
      ∙ ap (λ t. comma first ++ t) (append_assoc (emit w) more rest) in
    ap (parse_items (suc f) first) assoc
    ∙ parse_items-item f first w (more ++ rest) h
    ∙ (rw one (rw others refl))

parse_fields-next :
    (f : ℕ) (first : Bool) (k : Bytes) (w : Value) (fs : Fields) (rest : Bytes)
    → parse_value f (emit w ++ (emit_fields fs false ++ rest))
      ≡ read (w, emit_fields fs false ++ rest)
    → parse_fields f false (emit_fields fs false ++ rest) ≡ read (fs, rest)
    → parse_fields (suc f) first (emit_fields (field k w fs) first ++ rest)
      ≡ read (field k w fs, rest)
parse_fields-next f first k w fs rest one others =
    let more = emit_fields fs false in
    let assoc : emit_fields (field k w fs) first ++ rest
        ≡ comma first ++ (quote k ++ (58 ∷ (emit w ++ (more ++ rest)))) =
      unfold emit in
      append_assoc (comma first) (quote k ++ (58 ∷ (emit w ++ more))) rest
      ∙ ap (λ t. comma first ++ t)
          (append_assoc (quote k) (58 ∷ (emit w ++ more)) rest
            ∙ ap (λ t. quote k ++ (58 ∷ t)) (append_assoc (emit w) more rest)) in
    ap (parse_fields (suc f) first) assoc
    ∙ parse_fields-field f first k (emit w ++ (more ++ rest))
    ∙ (rw one (rw others refl))

-- Two units of fuel for each character, and one more for what stands in brackets.
mutual
  unfolding parse_value emit IsPrintable skip scalar literal

  parse_value-written :
      (f : ℕ) (v : Value) (rest : Bytes)
      → IsPrintable v
      → Stops rest
      → 2 * length (emit v) < f
      → parse_value f (emit v ++ rest) ≡ read (v, rest)
  parse_value-written zero v rest h s enough = absurd (omega arith)
  parse_value-written (suc f) (object fs) rest h s enough =
      rw (parse_fields-written f fs true rest h (omega arith)) refl
  parse_value-written (suc f) (array xs) rest h s enough =
      rw (parse_items-written f xs true rest h (omega arith)) refl
  parse_value-written (suc f) (str t) rest h s enough = parse_value-quote f t rest
  parse_value-written (suc f) (num n) rest h s enough = parse_value-numeral f n rest h s
  parse_value-written (suc f) (bool true) rest h s enough = refl
  parse_value-written (suc f) (bool false) rest h s enough = refl
  parse_value-written (suc f) null rest h s enough = refl

  parse_items-written :
      (f : ℕ) (xs : Items) (first : Bool) (rest : Bytes)
      → ArePrintableItems xs
      → 2 * length (emit_items xs first) + 1 < f
      → parse_items f first (emit_items xs first ++ rest) ≡ read (xs, rest)
  parse_items-written zero xs first rest h enough = absurd (omega arith)
  parse_items-written (suc f) no_items first rest h enough = refl
  parse_items-written (suc f) (item w xs) first rest h enough =
      let size = length-item first w xs in
      parse_items-next f first w xs rest h.0
        (parse_value-written f w (emit_items xs false ++ rest) h.0 (Stops-items xs rest)
          (omega (arith, enough, size)))
        (parse_items-written f xs false rest h.1
          (omega (arith, enough, size, length-emit_pos w h.0)))

  parse_fields-written :
      (f : ℕ) (fs : Fields) (first : Bool) (rest : Bytes)
      → ArePrintableFields fs
      → 2 * length (emit_fields fs first) + 1 < f
      → parse_fields f first (emit_fields fs first ++ rest) ≡ read (fs, rest)
  parse_fields-written zero fs first rest h enough = absurd (omega arith)
  parse_fields-written (suc f) no_fields first rest h enough = refl
  parse_fields-written (suc f) (field k w fs) first rest h enough =
      let size = length-field first k w fs in
      parse_fields-next f first k w fs rest
        (parse_value-written f w (emit_fields fs false ++ rest) h.0 (Stops-fields fs rest)
          (omega (arith, enough, size)))
        (parse_fields-written f fs false rest h.1 (omega (arith, enough, size)))

-- Unmarshal reads what Marshal has written, with only that in the text.
pub parse_json-emit : (v : Value) → IsPrintable v → parse_json (emit v) ≡ read v
unfolding parse_json
parse_json-emit v h =
    let whole = parse_value-written (suc (2 * length (emit v))) v [] h refl (omega arith) in
    ap (λ o. and_then o alone) (rw append-nil at whole) ∙ closed
  where
    closed : and_then (read (v, [])) alone ≡ read v
    closed = unfold skip in refl

-- ===== src/Json/Pieces.antt =====
-- The pieces of the texts that Marshal writes, as the parser takes them.
use nile.Prelude.{
  ℕ, suc, ◌≤◌, ◌≡◌, refl, ap, ◌∙◌, arith, Bytes, ◌==◌, Bool, true, false, [], ◌∷◌, ◌++◌,
  append_assoc,
}
use nile.Json.{
  Value, Items, Fields, null, bool, num, str, array, object, no_items, item, no_fields, field,
  comma, emit,
}
use nile.Json.Chars.{quote, escapes}
use nile.Json.Quoting.{scan_chars-escapes}
use nile.Json.Number.{is_number, take_number, num_from}
use nile.Json.Numeral.{IsNumeral, Stops, take_number-append, number_head}
use nile.Json.Parser.{
  Outcome, read, and_then, is_space, skip, begins, key, scalar, number_of, value_from, parse_value,
  parse_items, parse_fields,
}

-- Every number of the value is one in its text.
unfoldable mutual
  pub IsPrintable : Value → Type 0
  IsPrintable (num n) = IsNumeral n
  IsPrintable (array xs) = ArePrintableItems xs
  IsPrintable (object fs) = ArePrintableFields fs
  IsPrintable _ = Unit

  pub ArePrintableItems : Items → Type 0
  ArePrintableItems no_items = Unit
  ArePrintableItems (item v xs) = IsPrintable v × ArePrintableItems xs

  pub ArePrintableFields : Fields → Type 0
  ArePrintableFields no_fields = Unit
  ArePrintableFields (field k v fs) = IsPrintable v × ArePrintableFields fs

-- A text that begins with a character that neither is a space nor closes an array.
pub record Starts (ts : Bytes) : Type 0 where
  pub char : ℕ
  pub more : Bytes
  pub whole : ts ≡ char ∷ more
  pub no_space : is_space char ≡ false
  pub no_end : (char == 93) ≡ false

no_numeral : IsNumeral [] → ⊥
unfolding is_number num_from
no_numeral h = cc (h.0)

Starts-numeral : (n : Bytes) → IsNumeral n → Starts n
unfolding is_number
Starts-numeral [] h = absurd (no_numeral h)
Starts-numeral (c ∷ cs) h =
    let (low, high) = number_head c cs h.0 in
    record { char = c; more = cs; whole = refl; no_space = ground arith; no_end = ground arith }

pub Starts-emit : (v : Value) → IsPrintable v → Starts (emit v)
unfolding emit IsPrintable quote
Starts-emit null h = record { char = 110; more = _; whole = refl; no_space = refl; no_end = refl }
Starts-emit (bool true) h = record {
  char = 116;
  more = _;
  whole = refl;
  no_space = refl;
  no_end = refl;
}
Starts-emit (bool false) h = record {
  char = 102;
  more = _;
  whole = refl;
  no_space = refl;
  no_end = refl;
}
Starts-emit (num n) h = Starts-numeral n h
Starts-emit (str s) h = record { char = 34; more = _; whole = refl; no_space = refl; no_end = refl }
Starts-emit (array xs) h = record {
  char = 91;
  more = _;
  whole = refl;
  no_space = refl;
  no_end = refl;
}
Starts-emit (object fs) h = record {
  char = 123;
  more = _;
  whole = refl;
  no_space = refl;
  no_end = refl;
}

pub skip-Starts : (ts rest : Bytes) → Starts ts → skip (ts ++ rest) ≡ ts ++ rest
unfolding skip
skip-Starts ts rest s = rw (s.whole, s.no_space) refl

begins-Starts : (ts rest : Bytes) → Starts ts → begins 93 (ts ++ rest) ≡ false
begins-Starts ts rest s = rw (s.whole, s.no_end) refl

pub key-quote : (k rest : Bytes) → key (quote k ++ (58 ∷ rest)) ≡ read (k, rest)
unfolding key quote skip
key-quote k rest =
    rw (append_assoc (escapes k) (34 ∷ []) (58 ∷ rest), scan_chars-escapes k (58 ∷ rest)) refl

pub parse_value-quote :
    (f : ℕ) (s rest : Bytes) → parse_value (suc f) (quote s ++ rest) ≡ read (str s, rest)
unfolding parse_value quote skip scalar
parse_value-quote f s rest =
    rw (append_assoc (escapes s) (34 ∷ []) rest, scan_chars-escapes s rest) refl

scalar-number :
    (c : ℕ) (cs : Bytes) → 45 ≤ c → c ≤ 57 → scalar c cs ≡ number_of (take_number (c ∷ cs))
unfolding scalar
scalar-number c cs low high = ground arith

value_from-number :
    (items : Bytes → Outcome (Items × Bytes)) (fields : Bytes → Outcome (Fields × Bytes)) (c : ℕ)
    (cs : Bytes)
    → 45 ≤ c
    → c ≤ 57
    → value_from items fields (c ∷ cs) ≡ scalar c cs
unfolding scalar
value_from-number items fields c cs low high =
    let no_object : (c == 123) ≡ false = ground arith in
    let no_array : (c == 91) ≡ false = ground arith in rw (no_object, no_array) refl

pub parse_value-numeral :
    (f : ℕ) (n rest : Bytes)
    → IsNumeral n
    → Stops rest
    → parse_value (suc f) (n ++ rest) ≡ read (num n, rest)
unfolding parse_value
parse_value-numeral f [] rest h s = absurd (no_numeral h)
parse_value-numeral f (c ∷ cs) rest h s =
    let (low, high) = number_head c cs h.0 in
    let taken = take_number-append (c ∷ cs) rest h.1 s in
    ap (value_from (parse_items f true) (parse_fields f true))
      (skip-Starts (c ∷ cs) rest (Starts-numeral (c ∷ cs) h))
    ∙ value_from-number (parse_items f true) (parse_fields f true) c (cs ++ rest) low high
    ∙ scalar-number c (cs ++ rest) low high
    ∙ ap number_of taken
    ∙ (rw h.0 refl)

pub parse_items-item :
    (f : ℕ) (first : Bool) (v : Value) (ts : Bytes)
    → IsPrintable v
    → parse_items (suc f) first (comma first ++ (emit v ++ ts))
      ≡ and_then
          (parse_value f (emit v ++ ts))
          λ (w, ts1). and_then (parse_items f false ts1) λ (xs, rest). read (item w xs, rest)
unfolding parse_items
parse_items-item f true v ts h =
    let s = Starts-emit v h in rw (skip-Starts (emit v) ts s, begins-Starts (emit v) ts s) refl
parse_items-item f false v ts h = unfold skip in refl

pub parse_fields-field :
    (f : ℕ) (first : Bool) (k : Bytes) (ts : Bytes)
    → parse_fields (suc f) first (comma first ++ (quote k ++ (58 ∷ ts)))
      ≡ and_then
          (parse_value f ts)
          λ (v, ts1). and_then (parse_fields f false ts1) λ (fs, rest). read (field k v fs, rest)
unfolding parse_fields
parse_fields-field f true k ts =
    let opens : skip (quote k ++ (58 ∷ ts)) ≡ quote k ++ (58 ∷ ts) = unfold skip quote in refl in
    let more : begins 125 (quote k ++ (58 ∷ ts)) ≡ false = unfold quote in refl in
    rw (opens, more, key-quote k ts) refl
parse_fields-field f false k ts = rw (key-quote k ts) refl

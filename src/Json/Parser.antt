-- ===== src/Json/Parser.antt =====
-- json.Unmarshal of encoding/json up to the values: recursive descent on the text. Go's limit of 10000 levels
-- of nesting is left out.
use nile.Prelude.{
  ℕ, zero, suc, ◌*◌, Bytes, ascii, length, ◌==◌, ◌||◌, Bool, true, false, if◌then◌else◌, Option,
  none, some, [], ◌∷◌,
}
use nile.Json.{
  Value, Items, Fields, null, bool, num, str, array, object, no_items, item, no_fields, field,
}
use nile.Json.Chars.{between, scan_chars}
use nile.Json.Number.{is_number, take_number}

-- `spent` has no counterpart: the fuel was too little.
pub data Outcome (A : Type 0) : Type 0 where
  read : A → Outcome A
  wrong spent : Outcome A

abbrev pub Parser : Type 0 → Type 0
Parser A = Bytes → Outcome (A × Bytes)

abbrev pub and_then : {A B : Type 0} → Outcome A → (A → Outcome B) → Outcome B
and_then (read a) f = f a
and_then wrong f = wrong
and_then spent f = spent

abbrev pub is_space : ℕ → Bool
is_space c = c == 32 || (c == 9 || (c == 10 || c == 13))

unfoldable pub skip : Bytes → Bytes
skip [] = []
skip (c ∷ cs) = let rest = skip cs in if is_space c then rest else c ∷ cs

-- The text behind a character, if it begins with that.
abbrev pub expect : ℕ → Parser (Unit {0})
expect c [] = wrong
expect c (d ∷ ds) = if d == c then read (tt, ds) else wrong

abbrev pub begins : ℕ → Bytes → Bool
begins c [] = false
begins c (d ∷ ds) = d == c

abbrev pub behind : Bytes → Bytes
behind [] = []
behind (d ∷ ds) = ds

-- The rest of a literal.
unfoldable pub literal : Bytes → Value → Parser Value
literal [] v ts = read (v, ts)
literal (c ∷ cs) v [] = wrong
literal (c ∷ cs) v (d ∷ ds) = let rest = literal cs v ds in if d == c then rest else wrong

abbrev pub number_of : Bytes × Bytes → Outcome (Value × Bytes)
number_of (n, rest) = if is_number n then read (num n, rest) else wrong

abbrev pub string_of : {A : Type 0} → (Bytes → A) → Option (Bytes × Bytes) → Outcome (A × Bytes)
string_of make none = wrong
string_of make (some (s, rest)) = read (make s, rest)

-- The key of a field, with the colon.
unfoldable pub key : Parser Bytes
unfolding skip scan_chars
key ts = and_then (expect 34 (skip ts)) λ (_, ts1).
    and_then (string_of (λ s. s) (scan_chars between none ts1))
      λ (k, ts2). and_then (expect 58 (skip ts2)) λ (_, ts3). read (k, ts3)

-- A comma, unless the element is the first.
abbrev pub separator : Bool → Parser (Unit {0})
separator first ts = if first then read (tt, ts) else expect 44 ts

-- A value that is no array and no object, by its first character.
unfoldable pub scalar : ℕ → Bytes → Outcome (Value × Bytes)
unfolding literal scan_chars is_number take_number
scalar c cs =
    if c == 34
    then string_of str (scan_chars between none cs)
    else if c == 116
    then literal (ascii "rue") (bool true) cs
    else if c == 102
    then literal (ascii "alse") (bool false) cs
    else if c == 110
    then literal (ascii "ull") null cs
    else number_of (take_number (c ∷ cs))

-- A value by its first character, given how the inside of an array and of an object is read.
abbrev pub value_from :
    (Bytes → Outcome (Items × Bytes)) → (Bytes → Outcome (Fields × Bytes)) → Parser Value
unfolding scalar
value_from items fields [] = wrong
value_from items fields (c ∷ cs) =
    if c == 123
    then and_then (fields cs) (λ (fs, rest). read (object fs, rest))
    else if c == 91
    then and_then (items cs) (λ (xs, rest). read (array xs, rest))
    else scalar c cs

unfoldable mutual
  unfolding skip key scalar

  pub parse_value : ℕ → Parser Value
  parse_value zero ts = spent
  parse_value (suc f) ts = value_from (parse_items f true) (parse_fields f true) (skip ts)

  pub parse_items : ℕ → Bool → Parser Items
  parse_items zero first ts = spent
  parse_items (suc f) first ts =
      let more = and_then (separator first (skip ts)) λ (_, ts1).
        and_then (parse_value f ts1)
          λ (v, ts2). and_then (parse_items f false ts2) λ (xs, rest). read (item v xs, rest) in
      if begins 93 (skip ts) then read (no_items, behind (skip ts)) else more

  pub parse_fields : ℕ → Bool → Parser Fields
  parse_fields zero first ts = spent
  parse_fields (suc f) first ts =
      let more = and_then (separator first (skip ts)) λ (_, ts1). and_then (key ts1) λ (k, ts2).
        and_then (parse_value f ts2)
          λ (v, ts3). and_then (parse_fields f false ts3) λ (fs, rest). read (field k v fs, rest) in
      if begins 125 (skip ts) then read (no_fields, behind (skip ts)) else more

-- Behind the value there may only be spaces.
abbrev pub nothing_behind : Value → Bytes → Outcome Value
nothing_behind v [] = read v
nothing_behind v (_ ∷ _) = wrong

abbrev pub alone : Value × Bytes → Outcome Value
alone (v, rest) = nothing_behind v (skip rest)

-- The text as a value, with fuel for each character.
unfoldable pub parse_json : Bytes → Outcome Value
unfolding parse_value skip
parse_json ts = and_then (parse_value (suc (2 * length ts)) ts) alone

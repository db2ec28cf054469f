-- ===== src/Json/Object.antt =====
-- json.Unmarshal of encoding/json from the values on: into a struct and its fields. A value of the wrong type is an
-- error in the end, but leaves its field alone, and the fields behind it are still set.
use nile.Prelude.{
  ℕ, Bytes, bytes_eq, ℤ, Bool, true, false, ◌==◌, ◌&&◌, if◌then◌else◌, leb, ◌-◌, Option, none, some,
  [], ◌∷◌,
}
use nile.Wal.Name.{digits, parse_uint}
use nile.Cli.Int.{parse_int}
use nile.Json.{Value, Fields, null, bool, num, str, object, no_fields, field}
use nile.Json.Parser.{read, wrong, spent, parse_json}

abbrev pub upper : ℕ → ℕ
upper c = if leb 97 c && leb c 122 then c - 32 else c

-- foldName: upper case, with U+017F as S and U+212A as K.
unfoldable pub fold : Bytes → Bytes
fold [] = []
fold (a ∷ []) = upper a ∷ []
fold (a ∷ b ∷ []) = if a == 197 && b == 191 then 83 ∷ [] else upper a ∷ upper b ∷ []
fold (a ∷ b ∷ c ∷ cs) =
    let kelvin = fold cs in
    let long_s = fold (c ∷ cs) in
    let plain = fold (b ∷ c ∷ cs) in
    if a == 226 && (b == 132 && c == 170)
    then 75 ∷ kelvin
    else if a == 197 && b == 191
    then 83 ∷ long_s
    else upper a ∷ plain

-- Whether a key is for the field with this name. The names of a struct differ also up to case, so that a key that
-- is a name is for no other field.
unfoldable pub is_for : Bytes → Bytes → Bool
unfolding fold
is_for name key = bytes_eq (fold key) (fold name)

-- A uint64 as Marshal writes it.
abbrev pub uint : ℕ → Value
uint n = num (digits 19 n)

-- What became of a field or a struct, and whether there was no error.
abbrev pub Stored : Type 0 → Type 0
Stored A = A × Bool

unfoldable pub into_string : Value → Bytes → Stored Bytes
into_string (str t) old = (t, true)
into_string null old = (old, true)
into_string _ old = (old, false)

unfoldable pub into_bool : Value → Bool → Stored Bool
into_bool (bool b) old = (b, true)
into_bool null old = (old, true)
into_bool _ old = (old, false)

abbrev pub number_or : {A : Type 0} → Option A → A → Stored A
number_or none old = (old, false)
number_or (some n) old = (n, true)

-- A uint64
unfoldable pub into_uint : Value → ℕ → Stored ℕ
unfolding parse_uint
into_uint (num n) old = number_or (parse_uint n) old
into_uint null old = (old, true)
into_uint _ old = (old, false)

-- An int
unfoldable pub into_int : Value → ℤ → Stored ℤ
unfolding parse_int
into_int (num n) old = number_or (parse_int n) old
into_int null old = (old, true)
into_int _ old = (old, false)

-- A json.RawMessage takes any value, null too.
abbrev pub into_raw : Value → Option Value → Stored (Option Value)
into_raw v old = (some v, true)

-- How a struct takes a field.
abbrev pub Setter : Type 0 → Type 0
Setter A = Bytes → Value → A → Stored A

-- The fields in the order of the text; a later one of the same name wins.
unfoldable pub into_fields : {A : Type 0} → Setter A → Fields → A → Stored A
into_fields set no_fields a = (a, true)
into_fields set (field k v fs) a =
    let (b, fine) = set k v a in let (c, rest) = into_fields set fs b in (c, fine && rest)

-- A null leaves the struct as it is.
unfoldable pub into_struct : {A : Type 0} → Setter A → Value → A → Stored A
unfolding into_fields
into_struct set (object fs) a = into_fields set fs a
into_struct set null a = (a, true)
into_struct set _ a = (a, false)

-- A pointer to a struct, which null resets.
unfoldable pub into_pointer : {A : Type 0} → Setter A → A → Value → Option A → Stored (Option A)
unfolding into_struct
into_pointer set zero_value null old = (none, true)
into_pointer set zero_value v none = let (a, fine) = into_struct set v zero_value in (some a, fine)
into_pointer set zero_value v (some old) = let (a, fine) = into_struct set v old in (some a, fine)

abbrev pub fine_only : {A : Type 0} → Stored A → Option A
fine_only (a, fine) = if fine then some a else none

-- json.Unmarshal of a text into a fresh struct; none is an error.
unfoldable pub unmarshal : {A : Type 0} → Setter A → A → Bytes → Option A
unfolding parse_json into_struct
unmarshal set zero_value text = elim (parse_json text) [
  | read v ↦ fine_only (into_struct set v zero_value)
  | wrong ↦ none
  | spent ↦ none
]

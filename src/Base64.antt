-- ===== src/Base64.antt =====
-- base64.StdEncoding of Go's library: EncodeToString, by which pkg/lifecycle/manager.go puts a payload into a
-- request, and DecodeString, by which examples/counter-service/main.go takes it out.
pub mod RoundTrip
use nile.Prelude.{
  ℕ, ◌+◌, ◌-◌, ◌*◌, ◌/◌, ◌%◌, Bytes, ltb, ◌==◌, if◌then◌else◌, ◌||◌, Option, none, some, [], ◌∷◌,
  ◌++◌,
}

-- A-Z a-z 0-9 + /
abbrev pub sextet : ℕ → ℕ
sextet v =
    if ltb v 26
    then v + 65
    else if ltb v 52
    then v + 71
    else if ltb v 62
    then v - 4
    else if v == 62
    then 43
    else 47

unfoldable pub encode_base64 : Bytes → Bytes
encode_base64 [] = []
encode_base64 (a ∷ []) = sextet (a / 4) ∷ sextet (a % 4 * 16) ∷ 61 ∷ 61 ∷ []
encode_base64 (a ∷ (b ∷ [])) =
    sextet (a / 4) ∷ sextet (a % 4 * 16 + b / 16) ∷ sextet (b % 16 * 4) ∷ 61 ∷ []
encode_base64 (a ∷ (b ∷ (c ∷ rest))) =
    sextet (a / 4)
    ∷ sextet (a % 4 * 16 + b / 16)
    ∷ sextet (b % 16 * 4 + c / 64)
    ∷ sextet (c % 64)
    ∷ encode_base64 rest

-- The value of a character of the alphabet.
unfoldable pub from_sextet : ℕ → Option ℕ
from_sextet c =
    if ltb c 43
    then none
    else if c == 43
    then some 62
    else if c == 47
    then some 63
    else if ltb c 48
    then none
    else if ltb c 58
    then some (c + 4)
    else if ltb c 65
    then none
    else if ltb c 91
    then some (c - 65)
    else if ltb c 97
    then none
    else if ltb c 123
    then some (c - 71)
    else none

-- Line ends are skipped wherever they stand.
unfoldable pub without_newlines : Bytes → Bytes
without_newlines [] = []
without_newlines (c ∷ cs) =
    let rest = without_newlines cs in if c == 10 || c == 13 then rest else c ∷ rest

-- The bytes of the last group of four, by how many of its characters are padding.
abbrev pub one_byte : Option ℕ → Option ℕ → Option Bytes
one_byte (some v) (some w) = some ((v * 4 + w / 16) ∷ [])
one_byte _ _ = none

abbrev pub two_bytes : Option ℕ → Option ℕ → Option ℕ → Option Bytes
two_bytes (some v) (some w) (some x) = some ((v * 4 + w / 16) ∷ (w % 16 * 16 + x / 4) ∷ [])
two_bytes _ _ _ = none

abbrev pub three_bytes : Option ℕ → Option ℕ → Option ℕ → Option ℕ → Option Bytes → Option Bytes
three_bytes (some v) (some w) (some x) (some y) (some rest) =
    some ((v * 4 + w / 16) ∷ (w % 16 * 16 + x / 4) ∷ (x % 4 * 64 + y) ∷ rest)
three_bytes _ _ _ _ _ = none

-- After a padded group nothing may follow.
abbrev pub at_end : Bytes → Option Bytes → Option Bytes
at_end [] r = r
at_end (c ∷ cs) r = none

unfoldable pub decode_groups : Bytes → Option Bytes
decode_groups [] = some []
decode_groups (a ∷ (b ∷ (c ∷ (d ∷ rest)))) =
    let more = decode_groups rest in
    if d == 61
    then (if c == 61
        then at_end rest (one_byte (from_sextet a) (from_sextet b))
        else at_end rest (two_bytes (from_sextet a) (from_sextet b) (from_sextet c)))
    else three_bytes (from_sextet a) (from_sextet b) (from_sextet c) (from_sextet d) more
decode_groups _ = none

unfoldable pub decode_base64 : Bytes → Option Bytes
unfolding decode_groups without_newlines from_sextet
decode_base64 s = decode_groups (without_newlines s)

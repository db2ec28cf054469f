-- ===== src/Json/Chars.antt =====
-- The strings of encoding/json. Bytes from 128 on are taken as parts of UTF-8 text without U+2028 and U+2029,
-- which is written and read as it is.
use nile.Prelude.{
  ℕ, zero, suc, ◌+◌, ◌<◌, ◌-◌, ◌*◌, ◌/◌, ◌%◌, Bytes, ltb, leb, ◌==◌, ◌&&◌, ◌||◌, Bool,
  if◌then◌else◌, Option, none, some, [], ◌∷◌, ◌++◌,
}

abbrev pub IsAscii : ℕ → Type 0
IsAscii c = c < 128

abbrev pub hex_digit : ℕ → ℕ
hex_digit d = if ltb d 10 then 48 + d else 87 + d

-- A byte as Marshal writes it in a string, with the escapes for HTML.
unfoldable pub escape : ℕ → Bytes
escape c =
    if c == 34
    then 92 ∷ 34 ∷ []
    else if c == 92
    then 92 ∷ 92 ∷ []
    else if c == 8
    then 92 ∷ 98 ∷ []
    else if c == 12
    then 92 ∷ 102 ∷ []
    else if c == 10
    then 92 ∷ 110 ∷ []
    else if c == 13
    then 92 ∷ 114 ∷ []
    else if c == 9
    then 92 ∷ 116 ∷ []
    else if ltb c 32 || (c == 60 || (c == 62 || c == 38))
    then 92 ∷ 117 ∷ 48 ∷ 48 ∷ hex_digit (c / 16) ∷ hex_digit (c % 16) ∷ []
    else c ∷ []

unfoldable pub escapes : Bytes → Bytes
unfolding escape
escapes [] = []
escapes (c ∷ cs) = escape c ++ escapes cs

unfoldable pub quote : Bytes → Bytes
unfolding escapes
quote s = 34 ∷ (escapes s ++ (34 ∷ []))

unfoldable pub hex_value : ℕ → Option ℕ
hex_value c =
    if leb 48 c && leb c 57
    then some (c - 48)
    else if leb 97 c && leb c 102
    then some (c - 87)
    else if leb 65 c && leb c 70
    then some (c - 55)
    else none

-- The byte of an escape with one letter.
unfoldable pub short_escape : ℕ → Option ℕ
short_escape c =
    if c == 34
    then some 34
    else if c == 92
    then some 92
    else if c == 47
    then some 47
    else if c == 98
    then some 8
    else if c == 102
    then some 12
    else if c == 110
    then some 10
    else if c == 114
    then some 13
    else if c == 116
    then some 9
    else none

-- A code point in UTF-8.
unfoldable pub utf8 : ℕ → Bytes
utf8 r =
    if ltb r 128
    then r ∷ []
    else if ltb r 2048
    then (192 + r / 64) ∷ (128 + r % 64) ∷ []
    else if ltb r 65536
    then (224 + r / 4096) ∷ (128 + r / 64 % 64) ∷ (128 + r % 64) ∷ []
    else (240 + r / 262144) ∷ (128 + r / 4096 % 64) ∷ (128 + r / 64 % 64) ∷ (128 + r % 64) ∷ []

-- U+FFFD
abbrev pub replacement : Bytes
replacement = 239 ∷ 191 ∷ 189 ∷ []

abbrev pub is_high : ℕ → Bool
is_high r = leb 55296 r && leb r 56319

abbrev pub is_low : ℕ → Bool
is_low r = leb 56320 r && leb r 57343

-- A high surrogate that is waiting for its low one, and gets none.
abbrev pub unpaired : Option ℕ → Bytes
unpaired none = []
unpaired (some hi) = replacement

-- Where the scan stands: between characters, behind a backslash, or in \uXXXX with so many digits to
-- come behind the next one.
pub data Place : Type 0 where
  between : Place
  behind_backslash : Place
  in_code : ℕ → ℕ → Place

abbrev pub prepend : Bytes → Option (Bytes × Bytes) → Option (Bytes × Bytes)
prepend out none = none
prepend out (some (s, rest)) = some (out ++ s, rest)

-- A whole code: what it puts out, and the high surrogate that waits then.
abbrev pub code_out : Option ℕ → ℕ → Bytes × Option ℕ
code_out (some hi) r =
    if is_low r
    then (utf8 (65536 + (hi - 55296) * 1024 + (r - 56320)), none)
    else if is_high r
    then (replacement, some r)
    else (replacement ++ utf8 r, none)
code_out none r =
    if is_high r then ([], some r) else if is_low r then (replacement, none) else (utf8 r, none)

abbrev pub or_fail : Option ℕ → (ℕ → Option (Bytes × Bytes)) → Option (Bytes × Bytes)
or_fail none next = none
or_fail (some x) next = next x

-- The string behind its opening quote, and what is left behind the closing one.
unfoldable pub scan_chars : Place → Option ℕ → Bytes → Option (Bytes × Bytes)
unfolding hex_value short_escape utf8
scan_chars place wait [] = none
scan_chars between wait (c ∷ cs) =
    let escaped = scan_chars behind_backslash wait cs in
    let more = prepend (unpaired wait ++ (c ∷ [])) (scan_chars between none cs) in
    if c == 34
    then some (unpaired wait, cs)
    else if c == 92
    then escaped
    else if ltb c 32
    then none
    else more
scan_chars behind_backslash wait (c ∷ cs) =
    let code = scan_chars (in_code 3 0) wait cs in
    let more = scan_chars between none cs in
    if c == 117
    then code
    else or_fail (short_escape c) (λ x. prepend (unpaired wait ++ (x ∷ [])) more)
scan_chars (in_code (suc k) acc) wait (c ∷ cs) =
    or_fail (hex_value c) (λ h. scan_chars (in_code k (acc * 16 + h)) wait cs)
scan_chars (in_code zero acc) wait (c ∷ cs) = or_fail (hex_value c) (λ h.
    let (out, waits) = code_out wait (acc * 16 + h) in prepend out (scan_chars between waits cs))

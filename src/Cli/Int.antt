-- ===== src/Cli/Int.antt =====
-- Go's int and int64 as text: strconv.Atoi, strconv.ParseInt and %d, which cmd/nile/main.go uses.
use nile.Prelude.{
  ℕ, zero, suc, ◌≤◌, ◌<◌, ◌≡◌, refl, ap, ◌∙◌, arith, Bytes, ℤ, pos, negsuc, ltb, ◌==◌,
  if◌then◌else◌, if_cases, Bool-cases, inl, inr, ◌+◌, ◌/◌, ◌%◌, ◌++◌, Option, none, some, [], ◌∷◌,
}
use nile.Wal.Name.{digits, parse_uint}
use nile.Wal.Name.RoundTrip.{parse_uint-digits}

-- A number of 64 bits with its sign.
abbrev pub IsInt64 : ℤ → Type 0
IsInt64 (pos n) = n < 9223372036854775808
IsInt64 (negsuc n) = n < 9223372036854775808

abbrev pub positive : Option ℕ → Option ℤ
positive none = none
positive (some n) = if ltb n 9223372036854775808 then some (pos n) else none

abbrev pub negative : Option ℕ → Option ℤ
negative none = none
negative (some zero) = some (pos 0)
negative (some (suc n)) = if ltb n 9223372036854775808 then some (negsuc n) else none

-- strconv.ParseInt(s, 10, 64), and strconv.Atoi where an int has 64 bits.
unfoldable pub parse_int : Bytes → Option ℤ
unfolding parse_uint
parse_int [] = none
parse_int (c ∷ cs) =
    if c == 45
    then negative (parse_uint cs)
    else if c == 43
    then positive (parse_uint cs)
    else positive (parse_uint (c ∷ cs))

-- %d
unfoldable pub format_int : ℤ → Bytes
unfolding digits
format_int (pos n) = digits 19 n
format_int (negsuc n) = 45 ∷ digits 19 (suc n)

digits_head : (n v : ℕ) → (c : ℕ) × (cs : Bytes) × (digits n v ≡ c ∷ cs) × (48 ≤ c)
unfolding digits
digits_head zero v = (48 + v, [], refl, omega arith)
digits_head (suc n) v =
    let (c, cs, e, h) = digits_head n (v / 10) in
    elim (Bool-cases (ltb v 10)) [
      | inl small ↦ (48 + v, [], rw small, omega arith)
      | inr big ↦ (c, cs ++ ((48 + v % 10) ∷ []), rw (big, e), h)
    ]

-- A text that begins with no sign is read as a natural number.
parse_int-unsigned :
    (s : Bytes) (c : ℕ) (cs : Bytes) → s ≡ c ∷ cs → 48 ≤ c → parse_int s ≡ positive (parse_uint s)
unfolding parse_int
parse_int-unsigned [] c cs e h = cc
parse_int-unsigned (d ∷ ds) c cs e h =
    let d_eq : d ≡ c = ground arith in
    if_cases (λ r. r ≡ positive (parse_uint (d ∷ ds))) (d == 45) (λ q. absurd (ground arith))
      (λ _.
        if_cases (λ r. r ≡ positive (parse_uint (d ∷ ds))) (d == 43) (λ q. absurd (ground arith))
          (λ _. refl))

pub parse_int-format_int : (z : ℤ) → IsInt64 z → parse_int (format_int z) ≡ some z
unfolding format_int
parse_int-format_int (pos n) h =
    let (c, cs, e, k) = digits_head 19 n in
    parse_int-unsigned (digits 19 n) c cs e k
    ∙ ap positive (parse_uint-digits n (omega arith))
    ∙ ground arith
parse_int-format_int (negsuc n) h =
    unfold parse_int in ap negative (parse_uint-digits (suc n) (omega arith)) ∙ ground arith

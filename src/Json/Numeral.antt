-- ===== src/Json/Numeral.antt =====
-- The numbers that Marshal writes, read again.
use nile.Prelude.{
  ℕ, zero, suc, ◌+◌, ◌/◌, ◌%◌, ◌^◌, ◌<◌, ◌≤◌, ◌≡◌, refl, ◌∙◌, arith, Bytes, ltb, true, Bool-cases,
  inl, inr, some, [], ◌∷◌, ◌++◌, append_assoc, append-nil, IsU64,
}
use nile.Wal.Name.{digits}
use nile.Json.Number.{
  is_num_char, NumState, beginning, minus, whole, first_digit, num_step, num_from, is_number,
  take_number,
}

-- A whole text that is a number.
abbrev pub IsNumeral : Bytes → Type 0
IsNumeral n = (is_number n ≡ true) × (take_number n ≡ (n, []))

-- A number in front of this text ends there.
abbrev pub Stops : Bytes → Type 0
Stops rest = take_number rest ≡ ([], rest)

pub take_number-append :
    (n rest : Bytes) → take_number n ≡ (n, []) → Stops rest → take_number (n ++ rest) ≡ (n, rest)
unfolding take_number
take_number-append [] rest h s = s
take_number-append (c ∷ cs) rest h s =
    let inner : take_number cs ≡ (cs, []) = ground arith in
    let char : is_num_char c ≡ true = ground arith in
    rw (take_number-append cs rest inner s, char) refl

pub number_head : (c : ℕ) (cs : Bytes) → is_number (c ∷ cs) ≡ true → (45 ≤ c) × (c ≤ 57)
unfolding is_number num_from num_step
number_head c cs h = ground arith

digit_char : (d : ℕ) → d < 10 → is_num_char (48 + d) ≡ true
unfolding is_num_char
digit_char d h = ground arith

num_from-whole_digit :
    (d : ℕ) (more : Bytes) → d < 10 → num_from whole ((48 + d) ∷ more) ≡ num_from whole more
unfolding num_from num_step
num_from-whole_digit d more h = ground arith

-- A state in which the first digit is expected.
abbrev Expects : NumState → Type 0
Expects s = (c : ℕ) → 48 ≤ c → num_step s c ≡ first_digit c

beginning-Expects : Expects beginning
unfolding num_step
beginning-Expects c h = ground arith

minus-Expects : Expects minus
unfolding num_step
minus-Expects c h = refl

num_from-first :
    (s : NumState) (d : ℕ) (more : Bytes)
    → Expects s
    → 0 < d
    → d < 10
    → num_from s ((48 + d) ∷ more) ≡ num_from whole more
unfolding num_from
num_from-first s d more e p h =
    let step : num_step s (48 + d) ≡ some whole = e (48 + d) (omega arith) ∙ ground arith in
    rw (step, num_from) refl

num_from-digits :
    (n : ℕ) (s : NumState) (v : ℕ) (more : Bytes)
    → Expects s
    → 0 < v
    → v < 10 ^ suc n
    → num_from s (digits n v ++ more) ≡ num_from whole more
unfolding digits
num_from-digits zero s v more e p h = num_from-first s v more e p (omega arith)
num_from-digits (suc n) s v more e p h = elim (Bool-cases (ltb v 10)) [
  | inl small ↦ rw small (num_from-first s v more e p (ground arith))
  | inr big ↦
      rw (big, append_assoc (digits n (v / 10)) ((48 + v % 10) ∷ []) more)
        (num_from-digits n s (v / 10) ((48 + v % 10) ∷ more) e (ground arith) (ground arith)
          ∙ num_from-whole_digit (v % 10) more (omega arith))
]

take_number-digits :
    (n v : ℕ) (more : Bytes)
    → v < 10 ^ suc n
    → take_number more ≡ (more, [])
    → take_number (digits n v ++ more) ≡ (digits n v ++ more, [])
unfolding digits
take_number-digits zero v more h t = unfold take_number in rw (t, digit_char v (omega arith)) refl
take_number-digits (suc n) v more h t = elim (Bool-cases (ltb v 10)) [
  | inl small ↦ rw small (unfold take_number in rw (t, digit_char v (ground arith)) refl)
  | inr big ↦
      rw (big, append_assoc (digits n (v / 10)) ((48 + v % 10) ∷ []) more)
        (take_number-digits n (v / 10) ((48 + v % 10) ∷ more) (ground arith)
          (unfold take_number in rw (t, digit_char (v % 10) (omega arith)) refl))
]

-- A number that an unsigned integer of 64 bits is written as.
pub digits-IsNumeral : (v : ℕ) → IsU64 v → IsNumeral (digits 19 v)
unfolding is_number take_number
digits-IsNumeral zero h = unfold digits num_from num_step is_num_char in (refl, refl)
digits-IsNumeral (suc v) h =
    let number =
      num_from-digits 19 beginning (suc v) [] beginning-Expects (omega arith) (omega arith) in
    let taken = take_number-digits 19 (suc v) [] (omega arith) refl in
    (rw append-nil at number ∙ ends, rw append-nil at taken)
  where
    ends : num_from whole [] ≡ true
    ends = unfold num_from in refl

-- The same with a sign.
pub negative-IsNumeral : (v : ℕ) → 0 < v → IsU64 v → IsNumeral (45 ∷ digits 19 v)
unfolding is_number take_number
negative-IsNumeral v p h =
    let number = num_from-digits 19 minus v [] minus-Expects p (omega arith) in
    let taken : take_number (digits 19 v) ≡ (digits 19 v, []) = (digits-IsNumeral v h).1 in
    (unfold num_from num_step in (rw append-nil at number), unfold is_num_char in rw taken refl)

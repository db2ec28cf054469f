-- ===== src/Json/Number.antt =====
-- The numbers of encoding/json: the grammar, and where a number ends.
use nile.Prelude.{
  ℕ, Bytes, leb, ◌==◌, ◌&&◌, ◌||◌, Bool, true, false, if◌then◌else◌, Option, none, some, [], ◌∷◌,
}

abbrev pub is_digit : ℕ → Bool
is_digit c = leb 48 c && leb c 57

-- What may stand in a number.
unfoldable pub is_num_char : ℕ → Bool
is_num_char c = is_digit c || (c == 43 || (c == 45 || (c == 46 || (c == 69 || c == 101))))

-- The states of the scanner within a number; it may end in `leading_zero`, `whole`, `fraction` and `exponent`.
pub data NumState : Type 0 where
  beginning minus leading_zero whole point fraction exponent_letter exponent_sign exponent :
      NumState

-- Behind the digits: a point if there has been none, or an exponent.
abbrev pub point_or_exponent : ℕ → Option NumState
point_or_exponent c =
    if c == 46 then some point else if c == 69 || c == 101 then some exponent_letter else none

abbrev pub first_digit : ℕ → Option NumState
first_digit c = if c == 48 then some leading_zero else if is_digit c then some whole else none

unfoldable pub num_step : NumState → ℕ → Option NumState
num_step beginning c = if c == 45 then some minus else first_digit c
num_step minus c = first_digit c
num_step leading_zero c = point_or_exponent c
num_step whole c = if is_digit c then some whole else point_or_exponent c
num_step point c = if is_digit c then some fraction else none
num_step fraction c =
    if is_digit c then some fraction else if c == 69 || c == 101 then some exponent_letter else none
num_step exponent_letter c =
    if c == 43 || c == 45 then some exponent_sign else if is_digit c then some exponent else none
num_step exponent_sign c = if is_digit c then some exponent else none
num_step exponent c = if is_digit c then some exponent else none

abbrev pub may_end : NumState → Bool
may_end leading_zero = true
may_end whole = true
may_end fraction = true
may_end exponent = true
may_end _ = false

unfoldable pub num_from : NumState → Bytes → Bool
unfolding num_step
num_from s [] = may_end s
num_from s (c ∷ cs) = elim (num_step s c) [ none ↦ false | some t ↦ num_from t cs ]

unfoldable pub is_number : Bytes → Bool
unfolding num_from
is_number = num_from beginning

-- The longest prefix of such characters, and what is left.
unfoldable pub take_number : Bytes → Bytes × Bytes
unfolding is_num_char
take_number [] = ([], [])
take_number (c ∷ cs) =
    let (n, rest) = take_number cs in if is_num_char c then (c ∷ n, rest) else ([], c ∷ cs)

-- ===== src/Json/Shrinking.antt =====
-- What each piece of the parser leaves of the text: an end of it, and less than before where something was read.
use nile.Prelude.{
  ℕ, zero, suc, ◌+◌, ◌*◌, ◌<◌, ◌≤◌, ◌≡◌, ◌≢◌, refl, arith, All, ltb, if_cases, subst, Bytes, ascii,
  length, ◌==◌, Bool, true, false, if◌then◌else◌, Option, none, some, [], ◌∷◌,
}
use nile.Json.{Value, null, bool, str}
use nile.Json.Chars.{
  Place, between, behind_backslash, in_code, prepend, or_fail, hex_value, short_escape, code_out,
  scan_chars,
}
use nile.Json.Number.{is_num_char, take_number, is_number, num_from}
use nile.Json.Parser.{
  Outcome, read, wrong, spent, and_then, is_space, skip, expect, begins, behind, separator, literal,
  key, scalar, string_of, number_of,
}

-- The run kept within its fuel, and `P` holds of what it read, if anything.
pub data Ensures {A : Type 0} (P : A → Type 0) : Outcome A → Type 0 where
  holds : {a : A} → P a → Ensures P (read a)
  refused : Ensures P wrong

pub Ensures-if :
    {A : Type 0} {P : A → Type 0} (b : Bool) {x y : Outcome A}
    → (b ≡ true → Ensures P x)
    → (b ≡ false → Ensures P y)
    → Ensures P (if b then x else y)
Ensures-if true hx hy = hx refl
Ensures-if false hx hy = hy refl

pub Ensures-then :
    {A B : Type 0} {P : A → Type 0} {Q : B → Type 0} {r : Outcome A} {f : A → Outcome B}
    → Ensures P r
    → ((a : A) → P a → Ensures Q (f a))
    → Ensures Q (and_then r f)
Ensures-then (holds {a} h) k = k a h
Ensures-then refused k = refused

pub Ensures-weaken :
    {A : Type 0} {P R : A → Type 0} {r : Outcome A}
    → Ensures P r
    → ((a : A) → P a → R a)
    → Ensures R r
Ensures-weaken (holds {a} h) k = holds (k a h)
Ensures-weaken refused k = refused

pub Ensures-spent : {A : Type 0} {P : A → Type 0} {r : Outcome A} → Ensures P r → r ≢ spent
Ensures-spent (holds h) = cc
Ensures-spent refused = cc

-- What is left is no longer than `n`, and has only characters of the text.
abbrev pub Leaves : (ℕ → Type 0) → ℕ → Bytes → Type 0
Leaves Q n rest = (length rest ≤ n) × All Q rest

-- The same of a string and what is behind it: something was read.
abbrev Within : (ℕ → Type 0) → ℕ → Option (Bytes × Bytes) → Type 0
Within Q n none = Unit
Within Q n (some (s, rest)) = (length rest < n) × All Q rest

module _ (Q : ℕ → Type 0) where
  Within-prepend :
      (n : ℕ) (out : Bytes) (o : Option (Bytes × Bytes))
      → Within Q n o
      → Within Q (suc n) (prepend out o)
  Within-prepend n out none h = tt
  Within-prepend n out (some (s, rest)) h = (omega (arith, h.0), h.1)

  Within-suc : (n : ℕ) (o : Option (Bytes × Bytes)) → Within Q n o → Within Q (suc n) o
  Within-suc n none h = tt
  Within-suc n (some (s, rest)) h = (omega (arith, h.0), h.1)

  Within-if :
      (n : ℕ) (b : Bool) (x y : Option (Bytes × Bytes))
      → Within Q n x
      → Within Q n y
      → Within Q n (if b then x else y)
  Within-if n true x y h k = h
  Within-if n false x y h k = k

  Within-or_fail :
      (n : ℕ) (o : Option ℕ) (f : ℕ → Option (Bytes × Bytes))
      → ((x : ℕ) → Within Q n (f x))
      → Within Q n (or_fail o f)
  Within-or_fail n none f h = tt
  Within-or_fail n (some x) f h = h x

  scan_chars-Within :
      (place : Place) (wait : Option ℕ) (ts : Bytes)
      → All Q ts
      → Within Q (length ts) (scan_chars place wait ts)
  unfolding scan_chars
  scan_chars-Within between wait [] q = tt
  scan_chars-Within behind_backslash wait [] q = tt
  scan_chars-Within (in_code k acc) wait [] q = tt
  scan_chars-Within between wait (c ∷ cs) q =
      Within-if _ (c == 34) _ _ (omega arith, q.1)
        (Within-if _ (c == 92) _ _ (Within-suc _ _ (scan_chars-Within behind_backslash wait cs q.1))
          (Within-if _ (ltb c 32) none _ tt
            (Within-prepend _ _ _ (scan_chars-Within between none cs q.1))))
  scan_chars-Within behind_backslash wait (c ∷ cs) q =
      Within-if _ (c == 117) _ _ (Within-suc _ _ (scan_chars-Within (in_code 3 0) wait cs q.1)) (
        Within-or_fail _ (short_escape c) _
          λ x. Within-prepend _ _ _ (scan_chars-Within between none cs q.1))
  scan_chars-Within (in_code (suc k) acc) wait (c ∷ cs) q =
      Within-or_fail _ (hex_value c) _
        λ h. Within-suc _ _ (scan_chars-Within (in_code k (acc * 16 + h)) wait cs q.1)
  scan_chars-Within (in_code zero acc) wait (c ∷ cs) q =
      Within-or_fail _ (hex_value c) _ λ h.
        Within-prepend _ _ _ (scan_chars-Within between (code_out wait (acc * 16 + h)).1 cs q.1)

  pub skip-Leaves : (ts : Bytes) → All Q ts → Leaves Q (length ts) (skip ts)
  unfolding skip
  skip-Leaves [] q = (omega arith, tt)
  skip-Leaves (c ∷ cs) q =
      let (short, all) = skip-Leaves cs q.1 in
      if_cases (λ (r : Bytes). Leaves Q (suc (length cs)) r) (is_space c) (λ _. (omega arith, all))
        (λ _. (omega arith, q))

  take_number-Leaves : (ts : Bytes) → All Q ts → Leaves Q (length ts) ((take_number ts).1)
  unfolding take_number
  take_number-Leaves [] q = (omega arith, tt)
  take_number-Leaves (c ∷ cs) q =
      let (short, all) = take_number-Leaves cs q.1 in
      if_cases (λ (r : Bytes × Bytes). Leaves Q (suc (length cs)) r.1) (is_num_char c)
        (λ _. (omega arith, all)) (λ _. (omega arith, q))

  -- Something was read.
  abbrev pub Shrinks : {A : Type 0} → Bytes → A × Bytes → Type 0
  Shrinks ts (a, rest) = (length rest < length ts) × All Q rest

  pub expect-Ensures : (c : ℕ) (ts : Bytes) → All Q ts → Ensures (Shrinks ts) (expect c ts)
  expect-Ensures c [] q = refused
  expect-Ensures c (d ∷ ds) q = Ensures-if (d == c) (λ _. holds (omega arith, q.1)) (λ _. refused)

  literal-Ensures :
      (cs : Bytes) (v : Value) (ts : Bytes)
      → All Q ts
      → Ensures (λ r. Leaves Q (length ts) (r.1)) (literal cs v ts)
  unfolding literal
  literal-Ensures [] v ts q = holds (omega arith, q)
  literal-Ensures (c ∷ cs) v [] q = refused
  literal-Ensures (c ∷ cs) v (d ∷ ds) q =
      Ensures-if (d == c)
        (λ _. Ensures-weaken (literal-Ensures cs v ds q.1) (λ r h. (omega (arith, h.0), h.1)))
        (λ _. refused)

  string_of-Ensures :
      {A : Type 0} (make : Bytes → A) (n : ℕ) (o : Option (Bytes × Bytes))
      → Within Q n o
      → Ensures (λ r. (length (r.1) < n) × All Q (r.1)) (string_of make o)
  string_of-Ensures make n none h = refused
  string_of-Ensures make n (some (s, rest)) h = holds h

  number-Ensures :
      (c : ℕ) (cs : Bytes)
      → All Q (c ∷ cs)
      → Ensures (Shrinks (c ∷ cs)) (number_of (take_number (c ∷ cs)))
  unfolding take_number
  number-Ensures c cs q =
      let (short, all) = take_number-Leaves cs q.1 in
      if_cases (λ (r : Bytes × Bytes). Ensures (Shrinks (c ∷ cs)) (number_of r)) (is_num_char c)
        (λ _.
          Ensures-if (is_number (c ∷ (take_number cs).0)) (λ _. holds (omega arith, all))
            (λ _. refused))
        (λ _. unfold is_number num_from in refused)

  pub scalar-Ensures :
      (c : ℕ) (cs : Bytes) → All Q (c ∷ cs) → Ensures (Shrinks (c ∷ cs)) (scalar c cs)
  unfolding scalar
  scalar-Ensures c cs q =
      Ensures-if (c == 34)
        (λ _.
          Ensures-weaken (string_of-Ensures str _ _ (scan_chars-Within between none cs q.1))
            (λ r h. (omega (arith, h.0), h.1)))
        (λ _.
          Ensures-if (c == 116) (λ _. word (ascii "rue") (bool true))
            (λ _.
              Ensures-if (c == 102) (λ _. word (ascii "alse") (bool false))
                (λ _.
                  Ensures-if (c == 110) (λ _. word (ascii "ull") null)
                    (λ _. number-Ensures c cs q))))
    where
      word : (name : Bytes) (v : Value) → Ensures (Shrinks (c ∷ cs)) (literal name v cs)
      word name v =
          Ensures-weaken (literal-Ensures name v cs q.1) (λ r h. (omega (arith, h.0), h.1))

  pub key-Ensures : (ts : Bytes) → All Q ts → Ensures (Shrinks ts) (key ts)
  unfolding key
  key-Ensures ts q =
      let (short, all) = skip-Leaves ts q in
      Ensures-then (expect-Ensures 34 (skip ts) all) λ r1 h1.
        Ensures-then (string_of-Ensures (λ s. s) _ _ (scan_chars-Within between none (r1.1) (h1.1)))
          λ r2 h2.
            let (short2, all2) = skip-Leaves (r2.1) (h2.1) in
            Ensures-then (expect-Ensures 58 (skip (r2.1)) all2)
              λ r3 h3. holds (omega (arith, h1.0, h2.0, h3.0), h3.1)

  pub separator-Ensures :
      (first : Bool) (ts : Bytes)
      → All Q ts
      → Ensures (λ r. Leaves Q (length ts) (r.1)) (separator first ts)
  separator-Ensures true ts q = holds (omega arith, q)
  separator-Ensures false ts q =
      Ensures-weaken (expect-Ensures 44 ts q) (λ r h. (omega (arith, h.0), h.1))

  -- A closing bracket is a character of the text.
  pub behind-Shrinks :
      (c : ℕ) (ts : Bytes)
      → All Q ts
      → begins c ts ≡ true
      → (length (behind ts) < length ts) × All Q (behind ts) × Q c
  behind-Shrinks c [] q h = cc
  behind-Shrinks c (d ∷ ds) q h =
      let e : d ≡ c = ground arith in (omega arith, q.1, subst Q e (q.0))

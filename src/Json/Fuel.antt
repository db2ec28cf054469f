-- ===== src/Json/Fuel.antt =====
-- The fuel of parse_json, and texts that stop before an object is closed.
use nile.Prelude.{
  ℕ, zero, suc, ◌*◌, ◌<◌, ◌≡◌, ◌≢◌, refl, ap, arith, All, Bytes, length, ◌==◌, Bool, true, false,
  [], ◌∷◌,
}
use nile.Json.{Value, Items, Fields, object}
use nile.Json.Parser.{
  Outcome, read, wrong, spent, and_then, skip, begins, scalar, value_from, parse_value, parse_items,
  parse_fields, nothing_behind, alone, parse_json,
}
use nile.Json.Shrinking.{
  Ensures, holds, refused, Ensures-if, Ensures-then, Ensures-weaken, Ensures-spent, Shrinks,
  skip-Leaves, scalar-Ensures, key-Ensures, separator-Ensures, behind-Shrinks,
}

module _ (Q : ℕ → Type 0) where
  -- The fields end with a closing brace.
  abbrev Closes : Bytes → Fields × Bytes → Type 0
  Closes ts (fs, rest) = (length rest < length ts) × All Q rest × Q 125

  value_from-Ensures :
      (items : Bytes → Outcome (Items × Bytes)) (fields : Bytes → Outcome (Fields × Bytes))
      (ts : Bytes)
      → ((cs : Bytes) → length cs < length ts → All Q cs → Ensures (Shrinks Q cs) (items cs))
      → ((cs : Bytes) → length cs < length ts → All Q cs → Ensures (Closes cs) (fields cs))
      → All Q ts
      → Ensures (Shrinks Q ts) (value_from items fields ts)
  unfolding scalar
  value_from-Ensures items fields [] hx hf q = refused
  value_from-Ensures items fields (c ∷ cs) hx hf q =
      Ensures-if (c == 123)
        (λ _. Ensures-then (hf cs (omega arith) q.1) λ r h. holds (omega (arith, h.0), h.1))
        (λ _.
          Ensures-if (c == 91)
            (λ _. Ensures-then (hx cs (omega arith) q.1) λ r h. holds (omega (arith, h.0), h.1))
            (λ _. scalar-Ensures Q c cs q))

  mutual
    unfolding parse_value

    parse_value-Ensures :
        (f : ℕ) (ts : Bytes)
        → 2 * length ts < f
        → All Q ts
        → Ensures (Shrinks Q ts) (parse_value f ts)
    parse_value-Ensures zero ts h q = absurd (omega arith)
    parse_value-Ensures (suc f) ts h q =
        let (short, all) = skip-Leaves Q ts q in
        Ensures-weaken
          (value_from-Ensures (parse_items f true) (parse_fields f true) (skip ts)
            (λ cs k p. parse_items-Ensures f true cs (omega arith) p)
            (λ cs k p. parse_fields-Ensures f true cs (omega arith) p) all)
          (λ r k. (omega (arith, k.0), k.1))

    parse_items-Ensures :
        (f : ℕ) (first : Bool) (ts : Bytes)
        → suc (2 * length ts) < f
        → All Q ts
        → Ensures (Shrinks Q ts) (parse_items f first ts)
    parse_items-Ensures zero first ts h q = absurd (omega arith)
    parse_items-Ensures (suc f) first ts h q =
        let (short, all) = skip-Leaves Q ts q in
        Ensures-if (begins 93 (skip ts))
          (λ e. let b = behind-Shrinks Q 93 (skip ts) all e in holds (omega (arith, b.0), b.1))
          (λ _. Ensures-then (separator-Ensures Q first (skip ts) all) λ r1 h1.
            Ensures-then (parse_value-Ensures f (r1.1) (omega (arith, h1.0)) h1.1) λ r2 h2.
              Ensures-then (parse_items-Ensures f false (r2.1) (omega (arith, h1.0, h2.0)) h2.1)
                λ r3 h3. holds (omega (arith, h1.0, h2.0, h3.0), h3.1))

    parse_fields-Ensures :
        (f : ℕ) (first : Bool) (ts : Bytes)
        → suc (2 * length ts) < f
        → All Q ts
        → Ensures (Closes ts) (parse_fields f first ts)
    parse_fields-Ensures zero first ts h q = absurd (omega arith)
    parse_fields-Ensures (suc f) first ts h q =
        let (short, all) = skip-Leaves Q ts q in
        Ensures-if (begins 125 (skip ts))
          (λ e.
            let b = behind-Shrinks Q 125 (skip ts) all e in holds (omega (arith, b.0), b.1, b.2))
          (λ _. Ensures-then (separator-Ensures Q first (skip ts) all) λ r1 h1.
            Ensures-then (key-Ensures Q (r1.1) h1.1) λ r2 h2.
              Ensures-then (parse_value-Ensures f (r2.1) (omega (arith, h1.0, h2.0)) h2.1) λ r3 h3.
                Ensures-then
                  (parse_fields-Ensures f false (r3.1) (omega (arith, h1.0, h2.0, h3.0)) h3.1)
                  λ r4 h4. holds (omega (arith, h1.0, h2.0, h3.0, h4.0), h4.1, h4.2))

nothing_behind-Ensures : (v : Value) (ts : Bytes) → Ensures (λ _. Unit {0}) (nothing_behind v ts)
nothing_behind-Ensures v [] = holds tt
nothing_behind-Ensures v (c ∷ cs) = refused

All-unit : (ts : Bytes) → All (λ _. Unit {0}) ts
All-unit [] = tt
All-unit (c ∷ cs) = (tt, All-unit cs)

-- On any text the recursive descent of Unmarshal ends: with two units of fuel for each character and one more it
-- reads a value or refuses the text, and is never out of fuel.
pub parse_json-total : (ts : Bytes) → parse_json ts ≢ spent
unfolding parse_json
parse_json-total ts = Ensures-spent (
    Ensures-then
      (parse_value-Ensures (λ _. Unit) (suc (2 * length ts)) ts (omega arith) (All-unit ts))
      λ r h. nothing_behind-Ensures r.0 (skip r.1))

never_closed :
    (Q : ℕ → Type 0) (ts : Bytes) (o : Outcome (Fields × Bytes))
    → (Q 125 → ⊥)
    → Ensures (Closes Q ts) o
    → o ≡ wrong
never_closed Q ts _ out (holds h) = absurd (out h.2)
never_closed Q ts _ out refused = refl

-- A text that begins with an opening brace and has no closing brace is refused.
pub parse_json-cut : (ts : Bytes) → All (λ c. (c == 125) ≡ false) ts → parse_json (123 ∷ ts) ≡ wrong
unfolding parse_json parse_value skip
parse_json-cut ts h =
    let Q : ℕ → Type 0 = λ c. (c == 125) ≡ false in
    let fields = parse_fields (2 * suc (length ts)) true ts in
    let closed : fields ≡ wrong =
      never_closed Q ts fields (λ e. cc) (parse_fields-Ensures Q _ true ts (omega arith) h) in
    ap
      (λ (o : Outcome (Fields × Bytes)).
        and_then (and_then o λ (fs, rest). read (object fs, rest)) alone)
      closed

-- ===== src/Json/Quoting.antt =====
-- The strings of encoding/json that Marshal has written, read again.
use nile.Prelude.{
  ℕ, ◌+◌, ◌*◌, ◌/◌, ◌%◌, ◌<◌, ◌≡◌, refl, ap, ◌∙◌, sym, arith, Bytes, ltb, ◌==◌, ◌||◌, true, false,
  if_cases, Option, none, some, [], ◌∷◌, ◌++◌, append_assoc,
}
use nile.Json.Chars.{
  hex_digit, escape, escapes, hex_value, utf8, prepend, between, code_out, scan_chars,
}

hex_value-hex_digit : (d : ℕ) → d < 16 → hex_value (hex_digit d) ≡ some d
unfolding hex_value
hex_value-hex_digit d h = ground arith

-- Reading `written` in front of anything gives the byte.
abbrev Gives : ℕ → Bytes → Type 0
Gives c written =
    (rest : Bytes)
    → scan_chars between none (written ++ rest) ≡ prepend (c ∷ []) (scan_chars between none rest)

scan_chars-plain :
    (c : ℕ) → (c == 34) ≡ false → (c == 92) ≡ false → ltb c 32 ≡ false → Gives c (c ∷ [])
unfolding scan_chars
scan_chars-plain c a b d rest = rw (a, b, d) refl

code_out-ascii : (r : ℕ) → r < 128 → code_out none r ≡ (r ∷ [], none)
unfolding utf8
code_out-ascii r h = ground arith

scan_chars-code :
    (c : ℕ) → c < 128 → Gives c (92 ∷ 117 ∷ 48 ∷ 48 ∷ hex_digit (c / 16) ∷ hex_digit (c % 16) ∷ [])
unfolding scan_chars
scan_chars-code c h rest = rw (hex_value-hex_digit (c / 16) (omega arith)) (
    rw (hex_value-hex_digit (c % 16) (omega arith)) (
      ap (λ (o : Bytes × Option ℕ). prepend o.0 (scan_chars between o.1 rest))
        (ap (code_out none) {x = (0 + c / 16) * 16 + c % 16} {y = c} (omega arith)
          ∙ code_out-ascii c h)))

is_eq : (c k : ℕ) → (c == k) ≡ true → c ≡ k
is_eq c k h = ground arith

same_byte :
    (c k : ℕ) (r : Option (Bytes × Bytes))
    → (c == k) ≡ true
    → prepend (k ∷ []) r ≡ prepend (c ∷ []) r
same_byte c k r h = ap (λ x. prepend (x ∷ []) r) (sym (is_eq c k h))

escape-Gives : (c : ℕ) → Gives c (escape c)
unfolding escape scan_chars
escape-Gives c =
    if_cases (Gives c) (c == 34) (λ e rest. same_byte c 34 (scan_chars between none rest) e)
      λ a.
        if_cases (Gives c) (c == 92) (λ e rest. same_byte c 92 (scan_chars between none rest) e)
          λ b.
            if_cases (Gives c) (c == 8) (λ e rest. same_byte c 8 (scan_chars between none rest) e)
              λ _.
                if_cases (Gives c) (c == 12)
                  (λ e rest. same_byte c 12 (scan_chars between none rest) e)
                  λ _.
                    if_cases (Gives c) (c == 10)
                      (λ e rest. same_byte c 10 (scan_chars between none rest) e)
                      λ _.
                        if_cases (Gives c) (c == 13)
                          (λ e rest. same_byte c 13 (scan_chars between none rest) e)
                          λ _.
                            if_cases (Gives c) (c == 9)
                              (λ e rest. same_byte c 9 (scan_chars between none rest) e)
                              λ _.
                                if_cases (Gives c) (ltb c 32 || (c == 60 || (c == 62 || c == 38)))
                                  (λ e. scan_chars-code c (ground arith))
                                  (λ e. scan_chars-plain c a b (ground arith))

-- Any string is read back, whatever follows it.
pub scan_chars-escapes :
    (s rest : Bytes) → scan_chars between none (escapes s ++ (34 ∷ rest)) ≡ some (s, rest)
unfolding escapes scan_chars
scan_chars-escapes [] rest = refl
scan_chars-escapes (c ∷ cs) rest =
    ap (scan_chars between none) (append_assoc (escape c) (escapes cs) (34 ∷ rest))
    ∙ escape-Gives c (escapes cs ++ (34 ∷ rest))
    ∙ ap (prepend (c ∷ [])) (scan_chars-escapes cs rest)

-- ===== src/Cli/Install/Words.antt =====
-- The words of ExecStart in the unit of cmd/nile/main.go.
use nile.Prelude.{
  and→both, ℕ, ℤ, pos, negsuc, zero, suc, ◌≡◌, ◌<◌, ◌+◌, ◌/◌, ◌%◌, ◌^◌, refl, sym, arith, Bytes,
  ascii, Bool, true, false, ◌&&◌, ◌||◌, leb, ltb, ltb→lt, ◌==◌, if_cases, List, [], ◌∷◌, ◌++◌, All,
  All-append,
}
use nile.Wal.Name.{has_prefix, digits}
use nile.Cli.Int.{IsInt64, format_int}
use nile.Cli.Args.{
  RunConfig, Flag, binary_flag, max_messages_flag, max_bytes_flag, message_timeout_flag,
  max_retries_flag, flag_text, is_empty,
}
use nile.Cli.Args.RoundTrip.{IsRunConfig}
use nile.Cli.Install.{UnitData, is_zero, unless_zero, exec_words, join_words, exec_start, unit_data}

-- The characters - . / 0..9 A..Z _ a..z.
abbrev pub is_plain : ℕ → Bool
is_plain c =
    (leb 45 c && leb c 57) || ((leb 65 c && leb c 90) || ((c == 95) || (leb 97 c && leb c 122)))

-- Not empty, and of such characters alone.
abbrev pub is_word : Bytes → Bool
is_word [] = false
is_word (c ∷ []) = is_plain c
is_word (c ∷ (d ∷ cs)) = is_plain c && is_word (d ∷ cs)

abbrev pub IsWord : Bytes → Type 0
IsWord w = is_word w ≡ true

IsWord-last : (w : Bytes) (c : ℕ) → IsWord w → is_plain c ≡ true → IsWord (w ++ (c ∷ []))
IsWord-last [] c h k = k
IsWord-last (b ∷ []) c h k = rw (h, k) refl
IsWord-last (b ∷ (d ∷ cs)) c h k =
    let (front, rest) = and→both (is_plain b) (is_word (d ∷ cs)) h in
    rw front (IsWord-last (d ∷ cs) c rest k)

digit_plain : (d : ℕ) → d < 10 → is_plain (48 + d) ≡ true
digit_plain d h = ground arith

digits-IsWord : (n v : ℕ) → v < 10 ^ suc n → IsWord (digits n v)
unfolding digits
digits-IsWord zero v h = digit_plain v (omega arith)
digits-IsWord (suc n) v h =
    if_cases IsWord (ltb v 10) (λ e. digit_plain v (ltb→lt _ _ e))
      (λ e.
        IsWord-last (digits n (v / 10)) _ (digits-IsWord n (v / 10) (omega arith))
          (digit_plain (v % 10) (omega arith)))

minus-IsWord : (w : Bytes) → IsWord w → IsWord (45 ∷ w)
minus-IsWord [] h = refl
minus-IsWord (c ∷ cs) h = h

format_int-IsWord : (z : ℤ) → IsInt64 z → IsWord (format_int z)
unfolding format_int
format_int-IsWord (pos n) h = digits-IsWord 19 n (omega arith)
format_int-IsWord (negsuc n) h =
    minus-IsWord (digits 19 (suc n)) (digits-IsWord 19 (suc n) (omega arith))

flag_text-IsWord : (f : Flag) → IsWord (flag_text f)
flag_text-IsWord binary_flag = refl
flag_text-IsWord _ = refl

unless_zero-IsWord : (f : Flag) (z : ℤ) → IsInt64 z → All IsWord (unless_zero f z)
unless_zero-IsWord f z h =
    if_cases (All IsWord) (is_zero z) (λ _. tt)
      (λ _. (flag_text-IsWord f, (format_int-IsWord z h, tt)))

pub exec_words-IsWord :
    (c : RunConfig) (binary nile_binary : Bytes)
    → IsRunConfig c
    → All IsWord (nile_binary ∷ c.name ∷ binary ∷ c.data_dir ∷ [])
    → All IsWord (exec_words (unit_data c binary nile_binary))
exec_words-IsWord c binary nile_binary ok (n, (m, (b, (d, _)))) = (
  n,
  (
    refl,
    (
      m,
      (
        refl,
        (
          b,
          (
            refl,
            (
              d,
              All-append IsWord _ _ (unless_zero-IsWord max_messages_flag _ ok.max_messages_fits) (
                  All-append IsWord _ _ (unless_zero-IsWord max_bytes_flag _ ok.max_bytes_fits) (
                    All-append IsWord _ _
                      (unless_zero-IsWord max_retries_flag _ ok.max_retries_fits)
                      (unless_zero-IsWord message_timeout_flag _ ok.message_timeout_fits))),
            ),
          ),
        ),
      ),
    ),
  ),
)

-- systemd's way to split a command into words, for words of such characters behind an absolute path.
abbrev pub SplitsWords : (Bytes → List Bytes) → Type 0
SplitsWords split =
    (program : Bytes) (ws : List Bytes)
    → has_prefix program (ascii "/") ≡ true
    → All IsWord (program ∷ ws)
    → split (join_words (program ∷ ws)) ≡ program ∷ ws

pub split-exec_start :
    (split : Bytes → List Bytes)
    → SplitsWords split
    → (u : UnitData) → has_prefix u.nile_binary (ascii "/") ≡ true
    → All IsWord (exec_words u)
    → split (exec_start u) ≡ exec_words u
unfolding exec_start
split-exec_start split splits u slash words = splits u.nile_binary _ slash words

pub IsWord-nonempty : (w : Bytes) → IsWord w → is_empty w ≡ false
IsWord-nonempty [] h = sym h
IsWord-nonempty (x ∷ w) h = refl

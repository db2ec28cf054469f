-- ===== src/Cli/Examples.antt =====
-- The commands of cmd/nile/main.go at one copt, and a splitter for the command lines of units.
mod Commands
mod Serving
use nile.Prelude.{
  ◌≡◌, refl, ap, sym, ◌∙◌, arith, ℕ, Bytes, ascii, Bool, true, false, ◌==◌, and→both, if◌then◌else◌,
  pos, some, List, [], ◌∷◌, ◌++◌, append_assoc, append-nil, All,
}
use nile.Cli.Args.{RunConfig}
use nile.Cli.Args.RoundTrip.{IsRunConfig}
use nile.Cli.Install.{join_words}
use nile.Cli.Install.Words.{is_plain, is_word, IsWord, SplitsWords}

abbrev pub config : RunConfig
config = record {
  name = ascii "counter";
  binary = ascii "/opt/counter";
  data_dir = ascii "/srv/counter";
  max_messages = pos 0;
  max_bytes = pos 4096;
  segment_size = pos 512;
  message_timeout = pos 5;
  max_retries = pos 2;
  max_depth = pos 10;
}

pub config-IsRunConfig : IsRunConfig config
config-IsRunConfig = record {
  named = refl;
  plain = refl;
  has_binary = refl;
  has_data_dir = refl;
  max_messages_fits = omega arith;
  max_bytes_fits = omega arith;
  segment_size_fits = omega arith;
  message_timeout_fits = omega arith;
  max_retries_fits = omega arith;
  max_depth_fits = omega arith;
}

-- The words between single spaces, behind the part `word` of the first one.
unfoldable pub split_from : Bytes → Bytes → List Bytes
split_from word [] = word ∷ []
split_from word (c ∷ cs) =
    let next = split_from [] cs in
    let more = split_from (word ++ (c ∷ [])) cs in if c == 32 then word ∷ next else more

abbrev pub split_spaces : Bytes → List Bytes
split_spaces = split_from []

is_plain-space : (c : ℕ) → is_plain c ≡ true → (c == 32) ≡ false
is_plain-space c h = ground arith

split_from-word :
    (word w rest : Bytes) → IsWord w → split_from word (w ++ rest) ≡ split_from (word ++ w) rest
unfolding split_from
split_from-word word [] rest h = absurd (cc)
split_from-word word (c ∷ []) rest h = rw (is_plain-space c h) refl
split_from-word word (c ∷ (d ∷ cs)) rest h =
    let (plain, more) = and→both (is_plain c) (is_word (d ∷ cs)) h in
    rw (is_plain-space c plain) (
      split_from-word (word ++ (c ∷ [])) (d ∷ cs) rest more
      ∙ ap (λ v. split_from v rest) (append_assoc word (c ∷ []) (d ∷ cs)))

split_from-space : (word rest : Bytes) → split_from word (32 ∷ rest) ≡ word ∷ split_from [] rest
unfolding split_from
split_from-space word rest = refl

split_from-nil : (word : Bytes) → split_from word [] ≡ word ∷ []
unfolding split_from
split_from-nil word = refl

split_from-join_words :
    (w : Bytes) (ws : List Bytes)
    → All IsWord (w ∷ ws)
    → split_from [] (join_words (w ∷ ws)) ≡ w ∷ ws
unfolding join_words
split_from-join_words w [] (h, _) =
    ap (split_from []) (sym (append-nil w)) ∙ split_from-word [] w [] h ∙ split_from-nil w
split_from-join_words w (v ∷ ws) (h, hs) =
    split_from-word [] w (32 ∷ join_words (v ∷ ws)) h
    ∙ split_from-space w (join_words (v ∷ ws))
    ∙ ap (λ r. w ∷ r) (split_from-join_words v ws hs)

pub split_spaces-SplitsWords : SplitsWords split_spaces
split_spaces-SplitsWords program ws slash words = split_from-join_words program ws words

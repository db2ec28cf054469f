-- ===== src/Cli/Args/RoundTrip.antt =====
-- A configuration written as arguments of `nile run`, and parseRunArgs of cmd/nile/main.go on them.
use nile.Prelude.{
  ℤ, ◌≡◌, refl, ap, ◌∙◌, arith, Bytes, ascii, false, ◌==◌, none, some, List, [], ◌∷◌,
}
use nile.Wal.Name.{has_prefix}
use nile.Cli.Int.{IsInt64, parse_int, format_int, parse_int-format_int}
use nile.Cli.Args.{
  RunConfig, run_defaults, Flag, binary_flag, data_dir_flag, max_messages_flag, max_bytes_flag,
  segment_size_flag, message_timeout_flag, max_retries_flag, max_depth_flag, flag_text, first_of,
  flag_of, accepted, with_int, set_flag, is_empty, check_config, parse_args, parse_run_args,
}

flag_of-flag_text : (f : Flag) → flag_of (flag_text f) ≡ some f
unfolding flag_of
flag_of-flag_text binary_flag = refl
flag_of-flag_text _ = refl

-- A text that does not begin with a dash is no flag.
flag_of-plain : (arg : Bytes) → has_prefix arg (ascii "-") ≡ false → flag_of arg ≡ none
unfolding flag_of first_of
flag_of-plain [] h = refl
flag_of-plain (c ∷ cs) h = let no_dash : (c == 45) ≡ false = ground arith in rw no_dash refl

pub parse_args-flag :
    (f : Flag) (val : Bytes) (rest : List Bytes) (c c' : RunConfig)
    → set_flag f val c ≡ some c'
    → parse_args (flag_text f ∷ val ∷ rest) none c ≡ parse_args rest none c'
unfolding parse_args
parse_args-flag f val rest c c' e = rw (flag_of-flag_text f, e, parse_args) refl

pub parse_args-name :
    (arg : Bytes) (rest : List Bytes) (c : RunConfig)
    → c.name ≡ []
    → has_prefix arg (ascii "-") ≡ false
    → parse_args (arg ∷ rest) none c ≡ parse_args rest none (record c { name = arg })
unfolding parse_args
parse_args-name arg rest c e h = rw (flag_of-plain arg h, e, h, parse_args) refl

pub set_flag-int :
    (z : ℤ) (set : ℤ → RunConfig)
    → IsInt64 z
    → with_int (parse_int (format_int z)) set ≡ some (set z)
set_flag-int z set h = ap (λ o. with_int o set) (parse_int-format_int z h)

-- What parseRunArgs asks of a configuration.
pub record IsRunConfig (c : RunConfig) : Type 0 where
  pub named : is_empty c.name ≡ false
  pub plain : has_prefix c.name (ascii "-") ≡ false
  pub has_binary : is_empty c.binary ≡ false
  pub has_data_dir : is_empty c.data_dir ≡ false
  pub max_messages_fits : IsInt64 c.max_messages
  pub max_bytes_fits : IsInt64 c.max_bytes
  pub segment_size_fits : IsInt64 c.segment_size
  pub message_timeout_fits : IsInt64 c.message_timeout
  pub max_retries_fits : IsInt64 c.max_retries
  pub max_depth_fits : IsInt64 c.max_depth

-- The configuration as the arguments behind `nile run`.
abbrev pub command_line : RunConfig → List Bytes
command_line c =
    c.name
    ∷ flag_text binary_flag
    ∷ c.binary
    ∷ flag_text data_dir_flag
    ∷ c.data_dir
    ∷ flag_text max_messages_flag
    ∷ format_int c.max_messages
    ∷ flag_text max_bytes_flag
    ∷ format_int c.max_bytes
    ∷ flag_text segment_size_flag
    ∷ format_int c.segment_size
    ∷ flag_text message_timeout_flag
    ∷ format_int c.message_timeout
    ∷ flag_text max_retries_flag
    ∷ format_int c.max_retries
    ∷ flag_text max_depth_flag
    ∷ format_int c.max_depth
    ∷ []

pub check_config_complete :
    (c : RunConfig)
    → is_empty c.name ≡ false
    → is_empty c.binary ≡ false
    → is_empty c.data_dir ≡ false
    → check_config c ≡ accepted c
unfolding check_config
check_config_complete c n b d = rw (n, b, d) refl

parse_args-command_line :
    (c : RunConfig) → IsRunConfig c → parse_args (command_line c) none run_defaults ≡ accepted c
unfolding set_flag
parse_args-command_line c ok =
    parse_args-name _ _ _ refl ok.plain
    ∙ parse_args-flag binary_flag _ _ _ _ refl
    ∙ parse_args-flag data_dir_flag _ _ _ _ refl
    ∙ parse_args-flag max_messages_flag _ _ _ _ (set_flag-int _ _ ok.max_messages_fits)
    ∙ parse_args-flag max_bytes_flag _ _ _ _ (set_flag-int _ _ ok.max_bytes_fits)
    ∙ parse_args-flag segment_size_flag _ _ _ _ (set_flag-int _ _ ok.segment_size_fits)
    ∙ parse_args-flag message_timeout_flag _ _ _ _ (set_flag-int _ _ ok.message_timeout_fits)
    ∙ parse_args-flag max_retries_flag _ _ _ _ (set_flag-int _ _ ok.max_retries_fits)
    ∙ parse_args-flag max_depth_flag _ _ _ _ (set_flag-int _ _ ok.max_depth_fits)
    ∙ (unfold parse_args in check_config_complete c ok.named ok.has_binary ok.has_data_dir)

-- Any configuration the program accepts, with all of its fields written as arguments of `nile
-- run` in the order of the usage text, is read back as it was.
pub parse_run_args-command_line :
    (c : RunConfig) → IsRunConfig c → parse_run_args (command_line c) ≡ accepted c
unfolding parse_run_args
parse_run_args-command_line c ok = parse_args-command_line c ok

-- ===== src/Cli/Install/Restart.antt =====
-- The unit of `nile install` and the command it starts, in cmd/nile/main.go.
use nile.Prelude.{
  ℤ, pos, ◌≡◌, refl, ap, sym, ◌∙◌, Bytes, ascii, Bool, true, false, if◌then◌else◌, none, some, List,
  [], ◌∷◌, ◌++◌, All, append-nil, drop,
}
use nile.Wal.Name.{has_prefix}
use nile.Cli.Int.{IsInt64, parse_int, format_int}
use nile.Cli.Args.{
  RunConfig, run_defaults, Flag, binary_flag, data_dir_flag, max_messages_flag, max_bytes_flag,
  message_timeout_flag, max_retries_flag, flag_text, accepted, with_int, set_flag, is_empty,
  parse_args, parse_run_args,
}
use nile.Cli.Args.RoundTrip.{
  IsRunConfig, parse_args-flag, parse_args-name, set_flag-int, check_config_complete,
}
use nile.Cli.Args.Validity.{parse_run_args-IsRunConfig}
use nile.Cli.Install.{
  UnitData, is_zero, unless_zero, exec_words, exec_start, unit_text, unit_dir, unit_path,
  InstallHost, created, unit_data, write_unit, for_binary, by_executable, below_home,
  install_config, cmd_install,
}
use nile.Cli.{dispatch, run_command}
use nile.Cli.Install.Unit.{exec_setting, exec_setting-unit_text}
use nile.Cli.Install.Words.{
  IsWord, IsWord-nonempty, exec_words-IsWord, SplitsWords, split-exec_start,
}

-- A number that is written only if it is not zero: zero leaves the default.
abbrev pub kept : ℤ → ℤ → ℤ
kept default z = if is_zero z then default else z

parse_args-unless_zero :
    (f : Flag) (z default : ℤ) (rest : List Bytes) (set : ℤ → RunConfig)
    → IsInt64 z
    → set_flag f (format_int z) (set default) ≡ with_int (parse_int (format_int z)) set
    → parse_args (unless_zero f z ++ rest) none (set default)
      ≡ parse_args rest none (set (kept default z))
parse_args-unless_zero f z default rest set h e = by_test (is_zero z)
  where
    by_test :
        (b : Bool)
        → parse_args
            ((if b then [] else flag_text f ∷ format_int z ∷ []) ++ rest)
            none
            (set default)
          ≡ parse_args rest none (set (if b then default else z))
    by_test true = refl
    by_test false = parse_args-flag f _ _ _ _ (e ∙ set_flag-int z set h)

-- The configuration of `c` as the unit hands it on.
abbrev pub restarted : RunConfig → Bytes → RunConfig
restarted c binary = record {
  name = c.name;
  binary = binary;
  data_dir = c.data_dir;
  max_messages = kept run_defaults.max_messages c.max_messages;
  max_bytes = kept run_defaults.max_bytes c.max_bytes;
  segment_size = run_defaults.segment_size;
  message_timeout = kept run_defaults.message_timeout c.message_timeout;
  max_retries = kept run_defaults.max_retries c.max_retries;
  max_depth = run_defaults.max_depth;
}

parse_args-exec_words :
    (c : RunConfig) (binary : Bytes)
    → is_empty binary ≡ false
    → IsRunConfig c
    → parse_args (drop 2 (exec_words (unit_data c binary (ascii "nile")))) none run_defaults
      ≡ accepted (restarted c binary)
unfolding set_flag
parse_args-exec_words c binary h ok =
    parse_args-name _ _ _ refl ok.plain
    ∙ parse_args-flag binary_flag _ _ _ _ refl
    ∙ parse_args-flag data_dir_flag _ _ _ _ refl
    ∙ parse_args-unless_zero max_messages_flag c.max_messages (pos 10000) _
        (λ z. record (restarted c binary) {
          max_messages = z;
          max_bytes = run_defaults.max_bytes;
          max_retries = run_defaults.max_retries;
          message_timeout = run_defaults.message_timeout;
        })
        ok.max_messages_fits refl
    ∙ parse_args-unless_zero max_bytes_flag c.max_bytes (pos 10485760) _
        (λ z. record (restarted c binary) {
          max_bytes = z;
          max_retries = run_defaults.max_retries;
          message_timeout = run_defaults.message_timeout;
        })
        ok.max_bytes_fits refl
    ∙ parse_args-unless_zero max_retries_flag c.max_retries (pos 3) _
        (λ z. record (restarted c binary) {
          max_retries = z;
          message_timeout = run_defaults.message_timeout;
        })
        ok.max_retries_fits refl
    ∙ ap
        (λ more.
          parse_args more none
            (record (restarted c binary) { message_timeout = run_defaults.message_timeout }))
        (sym (append-nil (unless_zero message_timeout_flag c.message_timeout)))
    ∙ parse_args-unless_zero message_timeout_flag c.message_timeout (pos 60) []
        (λ z. record (restarted c binary) { message_timeout = z }) ok.message_timeout_fits refl
    ∙ (unfold parse_args in check_config_complete (restarted c binary) ok.named h ok.has_data_dir)

cmd_install-accepted :
    (host : InstallHost) (args : List Bytes) (c : RunConfig)
    → parse_run_args args ≡ accepted c
    → cmd_install host args ≡ install_config host (accepted c)
unfolding cmd_install
cmd_install-accepted host args c e = ap (install_config host) e

dispatch-exec_words : (u : UnitData) → dispatch (exec_words u) ≡ run_command (drop 2 (exec_words u))
unfolding dispatch
dispatch-exec_words u = refl

parse_run_args-exec_words :
    (c : RunConfig) (binary nile_binary : Bytes)
    → is_empty binary ≡ false
    → IsRunConfig c
    → parse_run_args (drop 2 (exec_words (unit_data c binary nile_binary)))
      ≡ accepted (restarted c binary)
unfolding parse_run_args
parse_run_args-exec_words c binary nile_binary h ok = parse_args-exec_words c binary h ok

-- `nile install` with arguments that are accepted, on a host where no step fails and whose paths
-- and names need no quotes: it writes a unit file, and the value of ExecStart in its section [Service], split
-- into words, is `nile run` with arguments that are read as the configuration of the install,
-- with the absolute path of the binary, but with the default segment size and depth limit, and
-- with the default in place of a retention limit, retry limit or timeout of zero.
pub cmd_install-restart :
    (split : Bytes → List Bytes)
    → SplitsWords split
    → (host : InstallHost) (args : List Bytes) (c : RunConfig) (binary nile_binary home : Bytes)
    → parse_run_args args ≡ accepted c
    → host.absolute c.binary ≡ some binary
    → host.executable ≡ some nile_binary
    → host.home ≡ some home
    → host.makes_dir (unit_dir home) ≡ true
    → host.creates (unit_path home c.name) ≡ true
    → host.writes (unit_path home c.name) ≡ true
    → has_prefix nile_binary (ascii "/") ≡ true
    → All IsWord (nile_binary ∷ c.name ∷ binary ∷ c.data_dir ∷ [])
    → (text : Bytes) × (cmd_install host args ≡ created (unit_path home c.name) text)
      × ((line : Bytes) × (exec_setting text ≡ some line)
          × ((run_args : List Bytes) × (dispatch (split line) ≡ run_command run_args)
              × (parse_run_args run_args ≡ accepted (restarted c binary))))
cmd_install-restart split splits host args c binary nile_binary home parsed abs exe hm dir file
      wrote slash (n, (m, (b, d))) =
    let u = unit_data c binary nile_binary in
    let ok = parse_run_args-IsRunConfig args c parsed in
    let words = exec_words-IsWord c binary nile_binary ok (n, (m, (b, d))) in
    let written : write_unit host home u ≡ created (unit_path home c.name) (unit_text u) =
      rw (dir, file, wrote) refl in
    (
      unit_text u,
      cmd_install-accepted host args c parsed
          ∙ ap (for_binary host c) abs
          ∙ ap (by_executable host c binary) exe
          ∙ ap (below_home host u) hm
          ∙ written,
      (
        exec_start u,
        exec_setting-unit_text u m words,
        (
          drop 2 (exec_words u),
          ap dispatch (split-exec_start split splits u slash words) ∙ dispatch-exec_words u,
          parse_run_args-exec_words c binary nile_binary (IsWord-nonempty binary b) ok,
        ),
      ),
    )

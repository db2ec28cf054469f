-- ===== src/Cli/Args/Validity.antt =====
-- The configurations that parseRunArgs of cmd/nile/main.go lets through.
use nile.Prelude.{
  ℕ, ℤ, ◌≡◌, refl, subst, arith, Bytes, ascii, Bool, true, false, not, ◌&&◌, ltb, ltb→lt, ◌==◌,
  zero, suc, if_cases, Option, none, some, List, [], ◌∷◌,
}
use nile.Wal.Name.{has_prefix, parse_uint}
use nile.Cli.Int.{IsInt64, parse_int, positive, negative}
use nile.Filepath.{split_slash, walk, rooted}
use nile.Cli.Path.{or_root, default_data_dir}
use nile.Cli.Args.{
  RunConfig, run_defaults, Flag, binary_flag, data_dir_flag, max_messages_flag, max_bytes_flag,
  segment_size_flag, message_timeout_flag, max_retries_flag, max_depth_flag, flag_of, ArgsError,
  RunArgs, accepted, rejected, with_int, set_flag, is_empty, check_config, parse_args,
  parse_run_args,
}
use nile.Cli.Args.RoundTrip.{IsRunConfig}

-- The value an option has, if it has one, satisfies `P`.
abbrev OnSome : {A : Type 0} → (A → Type 0) → Option A → Type 0
OnSome P none = Unit
OnSome P (some a) = P a

positive-IsInt64 : (o : Option ℕ) → OnSome IsInt64 (positive o)
positive-IsInt64 none = tt
positive-IsInt64 (some n) =
    if_cases (OnSome IsInt64) (ltb n 9223372036854775808) (λ e. ltb→lt _ _ e) (λ _. tt)

negative-IsInt64 : (o : Option ℕ) → OnSome IsInt64 (negative o)
negative-IsInt64 none = tt
negative-IsInt64 (some zero) = omega arith
negative-IsInt64 (some (suc n)) =
    if_cases (OnSome IsInt64) (ltb n 9223372036854775808) (λ e. ltb→lt _ _ e) (λ _. tt)

parse_int-IsInt64 : (s : Bytes) → OnSome IsInt64 (parse_int s)
unfolding parse_int
parse_int-IsInt64 [] = tt
parse_int-IsInt64 (c ∷ cs) =
    if_cases (OnSome IsInt64) (c == 45) (λ _. negative-IsInt64 (parse_uint cs))
      (λ _.
        if_cases (OnSome IsInt64) (c == 43) (λ _. positive-IsInt64 (parse_uint cs))
          (λ _. positive-IsInt64 (parse_uint (c ∷ cs))))

and_not→false : (a b : Bool) → (a && not b) ≡ true → b ≡ false
and_not→false true false h = refl
and_not→false true true h = absurd (cc)
and_not→false false b h = absurd (cc)

-- What holds of the configuration while the arguments are read.
abbrev IsPartial : RunConfig → Type 0
IsPartial c =
    (has_prefix c.name (ascii "-") ≡ false)
    × IsInt64 c.max_messages
    × IsInt64 c.max_bytes
    × IsInt64 c.segment_size
    × IsInt64 c.message_timeout
    × IsInt64 c.max_retries
    × IsInt64 c.max_depth

with_int-OnSome :
    (P : RunConfig → Type 0) (s : Bytes) (set : ℤ → RunConfig)
    → ((z : ℤ) → IsInt64 z → P (set z))
    → OnSome P (with_int (parse_int s) set)
with_int-OnSome P s set k = after (parse_int s) (parse_int-IsInt64 s)
  where
    after : (o : Option ℤ) → OnSome IsInt64 o → OnSome P (with_int o set)
    after none h = tt
    after (some z) h = k z h

set_flag-IsPartial :
    (f : Flag) (val : Bytes) (c : RunConfig) → IsPartial c → OnSome IsPartial (set_flag f val c)
unfolding set_flag
set_flag-IsPartial binary_flag val c p = p
set_flag-IsPartial data_dir_flag val c p = p
set_flag-IsPartial max_messages_flag val c (n, m, b, s, t, r, d) =
    with_int-OnSome IsPartial val _ (λ z h. (n, h, b, s, t, r, d))
set_flag-IsPartial max_bytes_flag val c (n, m, b, s, t, r, d) =
    with_int-OnSome IsPartial val _ (λ z h. (n, m, h, s, t, r, d))
set_flag-IsPartial segment_size_flag val c (n, m, b, s, t, r, d) =
    with_int-OnSome IsPartial val _ (λ z h. (n, m, b, h, t, r, d))
set_flag-IsPartial message_timeout_flag val c (n, m, b, s, t, r, d) =
    with_int-OnSome IsPartial val _ (λ z h. (n, m, b, s, h, r, d))
set_flag-IsPartial max_retries_flag val c (n, m, b, s, t, r, d) =
    with_int-OnSome IsPartial val _ (λ z h. (n, m, b, s, t, h, d))
set_flag-IsPartial max_depth_flag val c (n, m, b, s, t, r, d) =
    with_int-OnSome IsPartial val _ (λ z h. (n, m, b, s, t, r, h))

abbrev OnAccepted : (RunConfig → Type 0) → RunArgs → Type 0
OnAccepted P (rejected e) = Unit
OnAccepted P (accepted c) = P c

default_data_dir-nonempty : (name : Bytes) → is_empty (default_data_dir name) ≡ false
unfolding default_data_dir
default_data_dir-nonempty name =
    rest (rooted (walk (ascii "nile" ∷ ascii "lib" ∷ ascii "var" ∷ []) (split_slash name)))
  where
    rest : (path : Bytes) → is_empty (or_root path) ≡ false
    rest [] = refl
    rest (c ∷ cs) = refl

check_config-IsRunConfig : (c : RunConfig) → IsPartial c → OnAccepted IsRunConfig (check_config c)
unfolding check_config
check_config-IsRunConfig c (n, m, b, s, t, r, d) =
    if_cases (OnAccepted IsRunConfig) (is_empty c.name) (λ _. tt)
      (λ named.
        if_cases (OnAccepted IsRunConfig) (is_empty c.binary) (λ _. tt)
          (λ has_binary.
            if_cases (OnAccepted IsRunConfig) (is_empty c.data_dir)
              (λ _.
                ready (record c { data_dir = default_data_dir c.name }) named has_binary
                  (default_data_dir-nonempty c.name) (n, m, b, s, t, r, d))
              (λ has_dir. ready c named has_binary has_dir (n, m, b, s, t, r, d))))
  where
    ready :
        (x : RunConfig)
        → is_empty x.name ≡ false
        → is_empty x.binary ≡ false
        → is_empty x.data_dir ≡ false
        → IsPartial x
        → IsRunConfig x
    ready x named has_binary has_dir (n, m, b, s, t, r, d) = record {
      named = named;
      plain = n;
      has_binary = has_binary;
      has_data_dir = has_dir;
      max_messages_fits = m;
      max_bytes_fits = b;
      segment_size_fits = s;
      message_timeout_fits = t;
      max_retries_fits = r;
      max_depth_fits = d;
    }

value-IsRunConfig :
    (e : ArgsError) (o : Option RunConfig) (more : RunConfig → RunArgs)
    → OnSome IsPartial o
    → ((c : RunConfig) → IsPartial c → OnAccepted IsRunConfig (more c))
    → OnAccepted IsRunConfig (elim o [ none ↦ rejected e | some c ↦ more c ])
value-IsRunConfig e none more h k = tt
value-IsRunConfig e (some c) more h k = k c h

flag-IsRunConfig :
    (o : Option Flag) (other : RunArgs) (more : Flag → RunArgs)
    → OnAccepted IsRunConfig other
    → ((f : Flag) → OnAccepted IsRunConfig (more f))
    → OnAccepted IsRunConfig (elim o [ none ↦ other | some f ↦ more f ])
flag-IsRunConfig none other more h k = h
flag-IsRunConfig (some f) other more h k = k f

parse_args-IsRunConfig :
    (args : List Bytes) (waiting : Option Flag) (c : RunConfig)
    → IsPartial c
    → OnAccepted IsRunConfig (parse_args args waiting c)
unfolding parse_args
parse_args-IsRunConfig [] none c p = check_config-IsRunConfig c p
parse_args-IsRunConfig [] (some f) c p = tt
parse_args-IsRunConfig (val ∷ rest) (some f) c p =
    value-IsRunConfig _ (set_flag f val c) _ (set_flag-IsPartial f val c p)
      (λ c' p'. parse_args-IsRunConfig rest none c' p')
parse_args-IsRunConfig (arg ∷ rest) none c (n, m, b, s, t, r, d) =
    flag-IsRunConfig (flag_of arg) _ _
      (if_cases (OnAccepted IsRunConfig) (is_empty c.name && not (has_prefix arg (ascii "-")))
        (λ e.
          parse_args-IsRunConfig rest none (record c { name = arg }) (plain_of e, m, b, s, t, r, d))
        (λ _. tt))
      (λ f. parse_args-IsRunConfig rest (some f) c (n, m, b, s, t, r, d))
  where
    plain_of :
        (is_empty c.name && not (has_prefix arg (ascii "-"))) ≡ true
        → has_prefix arg (ascii "-") ≡ false
    plain_of e = and_not→false (is_empty c.name) (has_prefix arg (ascii "-")) e

-- Whatever the arguments, a configuration that `nile run` accepts has a name that is not empty
-- and begins with no dash, a binary and a data directory that are not empty, and numbers within
-- 64 bits with their sign.
pub parse_run_args-IsRunConfig :
    (args : List Bytes) (c : RunConfig) → parse_run_args args ≡ accepted c → IsRunConfig c
unfolding parse_run_args
parse_run_args-IsRunConfig args c e = subst (OnAccepted IsRunConfig) e (
    parse_args-IsRunConfig args none run_defaults
      (refl, omega arith, omega arith, omega arith, omega arith, omega arith, omega arith))

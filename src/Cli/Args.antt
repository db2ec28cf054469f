-- ===== src/Cli/Args.antt =====
-- parseRunArgs of cmd/nile/main.go.
pub mod RoundTrip
pub mod Validity
use nile.Prelude.{
  ℕ, ℤ, pos, negsuc, Bytes, ascii, bytes_eq, if◌then◌else◌, Bool, true, false, ◌&&◌, not, Option,
  none, some, List, [], ◌∷◌, ◌++◌,
}
use nile.Wal.Name.{has_prefix}
use nile.Cli.Int.{parse_int}
use nile.Cli.Path.{default_data_dir}

pub record RunConfig : Type 0 where
  pub name : Bytes
  pub binary : Bytes
  pub data_dir : Bytes
  pub max_messages : ℤ
  pub max_bytes : ℤ
  pub segment_size : ℤ
  pub message_timeout : ℤ
  pub max_retries : ℤ
  pub max_depth : ℤ

abbrev pub run_defaults : RunConfig
run_defaults = record {
  name = [];
  binary = [];
  data_dir = [];
  max_messages = pos 10000;
  max_bytes = pos 10485760;
  segment_size = pos 1048576;
  message_timeout = pos 60;
  max_retries = pos 3;
  max_depth = pos 0;
}

-- The flags; each takes a value.
pub data Flag : Type 0 where
  binary_flag data_dir_flag max_messages_flag max_bytes_flag segment_size_flag : Flag
  message_timeout_flag max_retries_flag max_depth_flag : Flag

abbrev pub flag_text : Flag → Bytes
flag_text binary_flag = ascii "--binary"
flag_text data_dir_flag = ascii "--data-dir"
flag_text max_messages_flag = ascii "--max-messages"
flag_text max_bytes_flag = ascii "--max-bytes"
flag_text segment_size_flag = ascii "--segment-size"
flag_text message_timeout_flag = ascii "--message-timeout"
flag_text max_retries_flag = ascii "--max-retries"
flag_text max_depth_flag = ascii "--max-depth"

-- The cases of the switch, from `f` on.
unfoldable pub first_of : List Flag → Bytes → Option Flag
first_of [] arg = none
first_of (f ∷ fs) arg = if bytes_eq arg (flag_text f) then some f else first_of fs arg

unfoldable pub flag_of : Bytes → Option Flag
unfolding first_of
flag_of arg =
    first_of
      (binary_flag ∷ data_dir_flag ∷ max_messages_flag ∷ max_bytes_flag ∷ segment_size_flag
        ∷ message_timeout_flag ∷ max_retries_flag ∷ max_depth_flag ∷ [])
      arg

-- Every error ends the program with status 1.
pub data ArgsError : Type 0 where
  requires_value : Flag → ArgsError
  invalid_integer : Flag → Bytes → ArgsError
  unknown_flag : Bytes → ArgsError
  name_required binary_required : ArgsError

pub data RunArgs : Type 0 where
  rejected : ArgsError → RunArgs
  accepted : RunConfig → RunArgs

abbrev pub with_int : Option ℤ → (ℤ → RunConfig) → Option RunConfig
with_int none set = none
with_int (some n) set = some (set n)

unfoldable pub set_flag : Flag → Bytes → RunConfig → Option RunConfig
set_flag binary_flag val c = some (record c { binary = val })
set_flag data_dir_flag val c = some (record c { data_dir = val })
set_flag max_messages_flag val c = with_int (parse_int val) (λ n. record c { max_messages = n })
set_flag max_bytes_flag val c = with_int (parse_int val) (λ n. record c { max_bytes = n })
set_flag segment_size_flag val c = with_int (parse_int val) (λ n. record c { segment_size = n })
set_flag message_timeout_flag val c =
    with_int (parse_int val) (λ n. record c { message_timeout = n })
set_flag max_retries_flag val c = with_int (parse_int val) (λ n. record c { max_retries = n })
set_flag max_depth_flag val c = with_int (parse_int val) (λ n. record c { max_depth = n })

abbrev pub is_empty : Bytes → Bool
is_empty [] = true
is_empty (c ∷ cs) = false

-- The tests behind the loop.
unfoldable pub check_config : RunConfig → RunArgs
check_config c =
    if is_empty c.name
    then rejected name_required
    else if is_empty c.binary
    then rejected binary_required
    else if is_empty c.data_dir
    then accepted (record c { data_dir = default_data_dir c.name })
    else accepted c

-- The loop over the arguments; `waiting` is the flag whose value is next.
unfoldable pub parse_args : List Bytes → Option Flag → RunConfig → RunArgs
parse_args [] none c = check_config c
parse_args [] (some f) c = rejected (requires_value f)
parse_args (val ∷ rest) (some f) c = elim (set_flag f val c) [
  | none ↦ rejected (invalid_integer f val)
  | some c' ↦ parse_args rest none c'
]
parse_args (arg ∷ rest) none c = elim (flag_of arg) [
  | some f ↦ parse_args rest (some f) c
  | none ↦
      let more = parse_args rest none (record c { name = arg }) in
      if is_empty c.name && not (has_prefix arg (ascii "-"))
      then more
      else rejected (unknown_flag arg)
]

unfoldable pub parse_run_args : List Bytes → RunArgs
unfolding parse_args check_config set_flag flag_of
parse_run_args args = parse_args args none run_defaults

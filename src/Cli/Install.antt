-- ===== src/Cli/Install.antt =====
-- `nile install` of cmd/nile/main.go: cmdInstall, with the unit file it writes.
pub mod Words
pub mod Unit
pub mod Restart
use nile.Prelude.{
  ℤ, pos, negsuc, zero, suc, Bytes, ascii, Bool, true, false, if◌then◌else◌, Option, none, some,
  List, [], ◌∷◌, ◌++◌,
}
use nile.Cli.Int.{format_int}
use nile.Filepath.{split_slash, walk, rooted}
use nile.Cli.Args.{
  RunConfig, Flag, binary_flag, data_dir_flag, max_messages_flag, max_bytes_flag,
  message_timeout_flag, max_retries_flag, flag_text, ArgsError, RunArgs, accepted, rejected,
  parse_run_args,
}

pub record UnitData : Type 0 where
  pub name : Bytes
  pub nile_binary : Bytes
  pub binary : Bytes
  pub data_dir : Bytes
  pub max_messages : ℤ
  pub max_bytes : ℤ
  pub max_retries : ℤ
  pub message_timeout : ℤ

abbrev pub is_zero : ℤ → Bool
is_zero (pos zero) = true
is_zero (pos (suc n)) = false
is_zero (negsuc n) = false

-- {{if ne .N 0}} --flag {{.N}}{{end}}
abbrev pub unless_zero : Flag → ℤ → List Bytes
unless_zero f n = if is_zero n then [] else flag_text f ∷ format_int n ∷ []

-- The words of the line ExecStart.
abbrev pub exec_words : UnitData → List Bytes
exec_words u =
    u.nile_binary
    ∷ ascii "run"
    ∷ u.name
    ∷ flag_text binary_flag
    ∷ u.binary
    ∷ flag_text data_dir_flag
    ∷ u.data_dir
    ∷ (unless_zero max_messages_flag u.max_messages
        ++ (unless_zero max_bytes_flag u.max_bytes
            ++ (unless_zero max_retries_flag u.max_retries
                ++ unless_zero message_timeout_flag u.message_timeout)))

-- Words with a space between them.
unfoldable pub join_words : List Bytes → Bytes
join_words [] = []
join_words (w ∷ []) = w
join_words (w ∷ (v ∷ ws)) = w ++ (32 ∷ join_words (v ∷ ws))

unfoldable pub exec_start : UnitData → Bytes
unfolding join_words
exec_start u = join_words (exec_words u)

-- systemdUnitTemplate, executed.
unfoldable pub unit_text : UnitData → Bytes
unfolding exec_start
unit_text u =
    ascii "[Unit]\nDescription=Nile copt: "
    ++ (u.name
        ++ (ascii "\nAfter=network.target\n\n[Service]\nType=simple\nExecStart="
            ++ (exec_start u
                ++ ascii
                    "\nRestart=on-failure\nRestartSec=5\n\n[Install]\nWantedBy=default.target\n")))

-- filepath.Join on a first part that begins with a slash.
abbrev pub path_below : Bytes → List Bytes → Bytes
path_below dir parts = rooted (walk (walk [] (split_slash dir)) parts)

abbrev pub unit_dir : Bytes → Bytes
unit_dir home = path_below home (ascii ".config" ∷ ascii "systemd" ∷ ascii "user" ∷ [])

abbrev pub unit_name : Bytes → Bytes
unit_name name = ascii "nile-" ++ (name ++ ascii ".service")

abbrev pub unit_path : Bytes → Bytes → Bytes
unit_path home name = path_below (unit_dir home) (split_slash (unit_name name))

-- What the operating system answers. `home` is an absolute path.
pub record InstallHost : Type 0 where
  pub absolute : Bytes → Option Bytes
  pub executable : Option Bytes
  pub home : Option Bytes
  pub makes_dir : Bytes → Bool
  pub creates : Bytes → Bool
  pub writes : Bytes → Bool

-- Every outcome but the last ends the program with status 1. After `not_written` the file exists.
pub data Installed : Type 0 where
  bad_args : ArgsError → Installed
  no_binary_path no_executable no_home : Installed
  no_unit_dir no_unit_file not_written : Bytes → Installed
  created : Bytes → Bytes → Installed

abbrev pub unit_data : RunConfig → Bytes → Bytes → UnitData
unit_data c binary nile_binary = record {
  name = c.name;
  nile_binary = nile_binary;
  binary = binary;
  data_dir = c.data_dir;
  max_messages = c.max_messages;
  max_bytes = c.max_bytes;
  max_retries = c.max_retries;
  message_timeout = c.message_timeout;
}

abbrev pub write_unit : InstallHost → Bytes → UnitData → Installed
write_unit host home u =
    let path = unit_path home u.name in
    if host.makes_dir (unit_dir home)
    then if host.creates path
      then if host.writes path then created path (unit_text u) else not_written path
      else no_unit_file path
    else no_unit_dir (unit_dir home)

-- os.UserHomeDir
abbrev pub below_home : InstallHost → UnitData → Option Bytes → Installed
below_home host u none = no_home
below_home host u (some home) = write_unit host home u

-- os.Executable
abbrev pub by_executable : InstallHost → RunConfig → Bytes → Option Bytes → Installed
by_executable host c binary none = no_executable
by_executable host c binary (some nile_binary) =
    below_home host (unit_data c binary nile_binary) host.home

-- filepath.Abs
abbrev pub for_binary : InstallHost → RunConfig → Option Bytes → Installed
for_binary host c none = no_binary_path
for_binary host c (some binary) = by_executable host c binary host.executable

abbrev pub install_config : InstallHost → RunArgs → Installed
install_config host (rejected e) = bad_args e
install_config host (accepted c) = for_binary host c (host.absolute c.binary)

unfoldable pub cmd_install : InstallHost → List Bytes → Installed
unfolding parse_run_args unit_text
cmd_install host args = install_config host (parse_run_args args)

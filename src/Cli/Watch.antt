-- ===== src/Cli/Watch.antt =====
-- `nile watch` of cmd/nile/main.go: cmdWatch.
pub mod Following
use nile.Prelude.{
  ℕ, ℤ, pos, negsuc, ltb, sub64, Option, ◌-◌, Bytes, ascii, bytes_eq, ◌==◌, ◌&&◌, Bool, true, false,
  if◌then◌else◌, List, [], ◌∷◌,
}
use nile.Wal.Disk.{Os, Result, ok, err, Disk}
use nile.Wal.Log.{Log, default_options, next_index, depth, total_bytes}
use nile.Wal.Log.Recovery.{open_log}
use nile.Cli.Path.{default_data_dir}
use nile.Cli.Args.{is_empty}

pub data WatchArgs : Type 0 where
  watch_value_missing watch_usage : WatchArgs
  to_watch : Bytes → Bytes → WatchArgs

abbrev pub watch_target : Bytes → Bytes → WatchArgs
watch_target data_dir name =
    if is_empty name
    then watch_usage
    else to_watch (if is_empty data_dir then default_data_dir name else data_dir) name

-- The loop over the arguments; the first name counts.
unfoldable pub parse_watch_args : List Bytes → Bool → Bytes → Bytes → WatchArgs
parse_watch_args [] false data_dir name = watch_target data_dir name
parse_watch_args [] true data_dir name = watch_value_missing
parse_watch_args (arg ∷ rest) true data_dir name = parse_watch_args rest false arg name
parse_watch_args (arg ∷ rest) false data_dir name =
    let value = parse_watch_args rest true data_dir name in
    let word = parse_watch_args rest false data_dir (if is_empty name then arg else name) in
    if bytes_eq arg (ascii "--data-dir") then value else word

-- The conversion of a uint64.
abbrev pub int64 : ℕ → ℤ
int64 n = if ltb n 9223372036854775808 then pos n else negsuc (18446744073709551615 - n)

abbrev pub int_eq : ℤ → ℤ → Bool
int_eq (pos a) (pos b) = a == b
int_eq (pos a) (negsuc b) = false
int_eq (negsuc a) (pos b) = false
int_eq (negsuc a) (negsuc b) = a == b

-- lastDepth and lastNext.
pub record Seen : Type 0 where
  pub seen_depth : ℤ
  pub seen_next : ℤ

-- -1 and -1
abbrev pub watch_start : Seen
watch_start = record { seen_depth = negsuc 0; seen_next = negsuc 0 }

-- A line of the output, without its time.
pub record WatchLine : Type 0 where
  pub next : ℤ
  pub consumed : ℤ
  pub depth : ℤ
  pub bytes : ℕ

-- next - depth is a subtraction of 64 bits.
abbrev pub watch_line : Log → WatchLine
watch_line l = record {
  next = int64 (next_index l);
  consumed = int64 (sub64 (next_index l) (depth l));
  depth = int64 (depth l);
  bytes = total_bytes l;
}

abbrev pub seen_of : Log → Seen
seen_of l = record { seen_depth = int64 (depth l); seen_next = int64 (next_index l) }

abbrev pub is_seen : Seen → Log → Bool
is_seen s l = int_eq (int64 (depth l)) s.seen_depth && int_eq (int64 (next_index l)) s.seen_next

-- One round behind Open: what has been seen, and the line in front of those of the later rounds.
abbrev pub watch_opened : Seen → Log → (Seen → List WatchLine) → List WatchLine
watch_opened last l later = if is_seen last l then later last else watch_line l ∷ later (seen_of l)

abbrev pub watch_round : Seen → Result Log → (Seen → List WatchLine) → List WatchLine
watch_round last (err e) later = later last
watch_round last (ok l) later = watch_opened last l later

-- The loop until the signal; each round finds the files as they are by then.
unfoldable pub watch : Os → Seen → List Disk → List WatchLine
unfolding open_log next_index depth total_bytes
watch os last [] = []
watch os last (disk ∷ disks) =
    watch_round last (open_log os default_options disk) (λ s. watch os s disks)

pub data Watched : Type 0 where
  bad_watch_args : WatchArgs → Watched
  watched : Bytes → Bytes → List WatchLine → Watched

abbrev pub watch_parsed : Os → (Bytes → List Disk) → WatchArgs → Watched
watch_parsed os disks (to_watch data_dir name) =
    watched name data_dir (watch os watch_start (disks data_dir))
watch_parsed os disks bad = bad_watch_args bad

-- `disks` has the files below each data directory, round by round.
unfoldable pub cmd_watch : Os → (Bytes → List Disk) → List Bytes → Watched
unfolding watch parse_watch_args
cmd_watch os disks args = watch_parsed os disks (parse_watch_args args false [] [])

-- ===== src/Cli/Send.antt =====
-- `nile send` of cmd/nile/main.go: cmdSend.
pub mod Appending
use nile.Prelude.{
  ℕ, Bytes, ascii, bytes_eq, Bool, true, false, if◌then◌else◌, Option, none, some, List, [], ◌∷◌,
  ◌++◌,
}
use nile.Wal.Record.{Error}
use nile.Wal.Disk.{Os, Result, ok, err, Disk}
use nile.Wal.Log.{Log, Wal, default_options, close_log}
use nile.Wal.Log.Recovery.{open_log}
use nile.Wal.Log.Append.{append}
use nile.Cli.Path.{default_data_dir}
use nile.Cli.Args.{is_empty}

pub data SendArgs : Type 0 where
  value_missing send_usage no_message : SendArgs
  to_send : Bytes → Bytes → List Bytes → SendArgs

-- The tests behind the loop: the data directory, the copt's name and the messages.
abbrev pub send_target : Bytes → List Bytes → SendArgs
send_target data_dir [] = send_usage
send_target data_dir (name ∷ []) = no_message
send_target data_dir (name ∷ (msg ∷ msgs)) =
    to_send (if is_empty data_dir then default_data_dir name else data_dir) name (msg ∷ msgs)

-- The loop over the arguments; `waiting` when the value of --data-dir is next.
unfoldable pub parse_send_args : List Bytes → Bool → Bytes → List Bytes → SendArgs
parse_send_args [] false data_dir messages = send_target data_dir messages
parse_send_args [] true data_dir messages = value_missing
parse_send_args (arg ∷ rest) true data_dir messages = parse_send_args rest false arg messages
parse_send_args (arg ∷ rest) false data_dir messages =
    let value = parse_send_args rest true data_dir messages in
    let message = parse_send_args rest false data_dir (messages ++ (arg ∷ [])) in
    if bytes_eq arg (ascii "--data-dir") then value else message

-- One line of the output: the offset and the message.
pub record SentLine : Type 0 where
  pub offset : ℕ
  pub msg : Bytes

-- The output, the error that ended the loop, and the log and its files.
pub record Sent : Type 0 where
  pub lines : List SentLine
  pub error : Option Error
  pub wal : Wal

-- What one message adds to the outcome of the messages behind it. An error ends the program before
-- the log is closed.
abbrev pub after_append : Bytes → Result ℕ → Wal → Sent → Sent
after_append msg (err e) w rest = record { lines = []; error = some e; wal = w }
after_append msg (ok offset) w rest = record rest {
  lines = record { offset = offset; msg = msg } ∷ rest.lines;
}

-- The loop over the messages, with the deferred Close.
unfoldable pub append_each : Os → Wal → List Bytes → Sent
unfolding append
append_each os w [] = record { lines = []; error = none; wal = record w { log = close_log w.log } }
append_each os w (msg ∷ msgs) =
    let (r, w') = append os msg w in after_append msg r w' (append_each os w' msgs)

-- Every outcome but a `sent` without error ends the program with status 1.
pub data SendOutcome : Type 0 where
  bad_send_args : SendArgs → SendOutcome
  open_failed : Error → SendOutcome
  sent : Bytes → Sent → SendOutcome

abbrev pub send_opened : Os → Bytes → Disk → List Bytes → Result Log → SendOutcome
send_opened os data_dir disk msgs (err e) = open_failed e
send_opened os data_dir disk msgs (ok l) =
    sent data_dir (append_each os (record { log = l; disk = disk }) msgs)

abbrev pub send_parsed : Os → (Bytes → Disk) → SendArgs → SendOutcome
send_parsed os disks (to_send data_dir name msgs) =
    send_opened os data_dir (disks data_dir) msgs (open_log os default_options (disks data_dir))
send_parsed os disks bad = bad_send_args bad

-- `disks` has the files below each data directory.
unfoldable pub cmd_send : Os → (Bytes → Disk) → List Bytes → SendOutcome
unfolding parse_send_args append_each open_log
cmd_send os disks args = send_parsed os disks (parse_send_args args false [] [])

-- ===== src/Cli.antt =====
-- cmd/nile/main.go: the `nile` command. Here main, which picks the command.
pub mod Int
pub mod Path
pub mod Args
pub mod Install
pub mod Send
pub mod Run
pub mod Serve
pub mod Status
pub mod Watch
mod Examples
use nile.Prelude.{Bytes, ascii, bytes_eq, if◌then◌else◌, List, [], ◌∷◌}

pub data Command : Type 0 where
  run_command send_command watch_command install_command status_command : List Bytes → Command
  usage : Command
  unknown_command : Bytes → Command

-- os.Args: the program's name, the command's and its arguments. The last two outcomes print the
-- usage and end the program with status 1.
unfoldable pub dispatch : List Bytes → Command
dispatch [] = usage
dispatch (program ∷ []) = usage
dispatch (program ∷ (command ∷ args)) =
    if bytes_eq command (ascii "run")
    then run_command args
    else if bytes_eq command (ascii "send")
    then send_command args
    else if bytes_eq command (ascii "watch")
    then watch_command args
    else if bytes_eq command (ascii "install")
    then install_command args
    else if bytes_eq command (ascii "status")
    then status_command args
    else unknown_command command

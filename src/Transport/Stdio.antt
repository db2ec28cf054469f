-- ===== src/Transport/Stdio.antt =====
-- pkg/transport/stdio.go: JSON-RPC over the standard streams of the neb's process.
pub mod Matching
use nile.Prelude.{
  ℕ, ◌-◌, ◌==◌, if◌then◌else◌, Bool, true, false, Option, none, some, List, [], ◌∷◌, ◌++◌,
}
use nile.Protocol.{Request, Response}
use nile.Transport.{Transport}

-- What the scanner meets on the neb's stdout: a line, as DecodeResponse reads it; no line for as long as the
-- timeout; an error of Read or a line above 1 MB, which ends the scanner. After the list stdout is closed.
pub data Scan : Type 0 where
  line : Option Response → Scan
  silence : Scan
  unreadable : Scan

-- `output` is what is still to come from the neb. `writable` is how many more writes its stdin takes; then the
-- pipe is broken. `sent` has the requests written, one line each.
pub record Stdio : Type 0 where
  pub sent : List Request
  pub writable : ℕ
  pub output : List Scan
  pub closed_flag : Bool
  pub broken : Bool
  pub timeout : Bool

-- NewStdio, with the neb's streams; `Timeout` is 0 until it is set.
unfoldable pub new_stdio : ℕ → List Scan → Stdio
new_stdio writable output = record {
  sent = [];
  writable = writable;
  output = output;
  closed_flag = false;
  broken = false;
  timeout = false;
}

pub data SendError : Type 0 where
  transport_closed transport_broken write_failed read_failed : SendError
  neb_closed_stdout response_timeout decode_failed : SendError

pub data Reply : Type 0 where
  reply : Response → Reply
  no_reply : SendError → Reply

-- DecodeResponse of a line.
abbrev pub decoded : Option Response → Reply
decoded none = no_reply decode_failed
decoded (some r) = reply r

-- readLine: with a timeout, a silence marks the transport as broken; without one it waits on.
unfoldable pub read_line : List Scan → Stdio → Reply × Stdio
read_line [] s = (no_reply neb_closed_stdout, record s { output = [] })
read_line (unreadable ∷ rest) s = (no_reply read_failed, record s { output = unreadable ∷ rest })
read_line (line r ∷ rest) s = (decoded r, record s { output = rest })
read_line (silence ∷ rest) s =
    let waited = read_line rest s in
    if s.timeout
    then (no_reply response_timeout, record s { output = rest; broken = true })
    else waited

-- (*Stdio).Send
unfoldable pub send_stdio : Request → Stdio → Reply × Stdio
unfolding read_line
send_stdio req s =
    if s.closed_flag
    then (no_reply transport_closed, s)
    else if s.broken
    then (no_reply transport_broken, s)
    else if s.writable == 0
    then (no_reply write_failed, s)
    else read_line s.output (record s { sent = s.sent ++ (req ∷ []); writable = s.writable - 1 })

-- (*Stdio).Close
unfoldable pub close_stdio : Stdio → Stdio
close_stdio s = record s { closed_flag = true }

abbrev pub response_of : Reply → Option Response
response_of (no_reply e) = none
response_of (reply r) = some r

abbrev pub stdio : Transport Stdio
stdio = record {
  send = λ req s. let r = send_stdio req s in (response_of r.0, r.1);
  close = close_stdio;
}

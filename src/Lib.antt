-- ===== src/Lib.antt =====
-- Nile is a runtime for message consumers ("nebs"). Each consumer ("copt") has a data directory with a
-- write-ahead log; `nile send` appends messages to it, and a manager process starts the neb and hands it the
-- messages one by one over JSON-RPC. This library models the log, the manager, the transport, the registry,
-- the commands of cmd/nile and the example neb.
--
-- Wal is pkg/wal. Wal.Record is record.go (encode_record is encodeRecord, decode_record is decodeRecord, with
-- CRC32 written out). Wal.Name and Wal.Segment are segment.go: file names, reading, appending, listing.
-- Wal.Cursor is cursor.go. Wal.Log has the state of wal.go, and its children the operations: Recovery (Open
-- and recover), Append (Append and rollSegment), Delivery (NextUnprocessed, MarkProcessed,
-- MarkPostProcessed), Refresh (refresh), Truncation (Truncate), DeadLetters (retention.go). Wal.Snapshot is
-- snapshot.go. Wal.Disk has the files and the system calls: an operation takes an Os, which says for each call
-- on a path whether it succeeds, and how many bytes a failing Write leaves behind. A Wal is a Log with the
-- files below its data directory; operations take one and return one. The mutex of a Log makes each operation
-- one step. Segments refer to files by name, so what other processes append is seen.
--
-- Wal.Stream is the abstract view: a log stands for a list of messages, cut into one part for each segment,
-- and `Holds w parts` says that segments, index and files are the ones of the parts. Its children
-- relate each operation to that view. Wal.Backend fills the record Store, the interface of pkg/store/store.go.
--
-- Lifecycle is pkg/lifecycle. Lifecycle.States is states.go. Lifecycle.Manager and Lifecycle.Pump are
-- manager.go: process_message is processMessage, do_retention is doRetention, pump, start, stop. They take
-- any Store and any Transport (pkg/transport/transport.go), each with a state of its own, so a neb may answer
-- anything. Protocol has the requests and answers of pkg/protocol/jsonrpc.go as values, Protocol.Envelope is
-- envelope.go. Base64 is base64.StdEncoding of Go's library, which encodes a payload, and by which the example decodes it. Lifecycle.Delivery
-- puts the pump, the log and a neb that accepts messages together, and Lifecycle.Started the whole of Start;
-- Counter is such a neb, the one of examples/counter-service/main.go.
--
-- Json is what the program uses of encoding/json: Json.Parser reads a text as a value, Json.Object puts a value
-- into a struct, and emit writes a value. Protocol.Text (Encode, DecodeResponse), Counter.Text (the service's
-- side) and Wal.Cursor.Text (cursor.json) are the texts. The other modules take the values: a request for its
-- text, and for a line of the neb what DecodeResponse makes of it; Counter.Text.Exchange and
-- Counter.Text.Reception relate the two for the example neb.
--
-- Transport.Stdio is pkg/transport/stdio.go (send_stdio is Send, read_line is readLine). What the scanner meets
-- on the neb's stdout is a list: lines, silences longer than the timeout, errors.
--
-- Cli is cmd/nile/main.go: dispatch is main; Cli.Args is parseRunArgs, Cli.Install cmdInstall with the text of
-- the unit file, Cli.Send cmdSend, Cli.Status cmdStatus, Cli.Watch cmdWatch; Cli.Run is cmdRun up to the
-- call of Start, and Cli.Serve the rest of it. Cli.Install.Unit is a
-- reader of unit files. Cli.Int, Filepath and Trim are the numbers, paths
-- and strings.TrimSpace of Go's library. What the operating system answers is a record of functions, and the files below each data directory are a
-- function of its path. systemd's way to split a command line is an argument, with its documented behaviour as
-- a hypothesis. Registry is pkg/registry, Sandbox is pkg/sandbox/landlock.go, and Telemetry is
-- pkg/otel/otel.go, where the results of the exporters and providers are arguments; Telemetry.Metrics is
-- metrics.go, with what each instrument has been given in the manager's state.
--
-- Bounds. Numbers are natural; uint64 and uint32 wrap where Go's do, and theorems that rely on no wrapping
-- say so. Reading a segment has fuel for one record more than its bytes, and each record takes eight bytes.
-- The retry loop is counted by MaxRetries. The pump has one round for each snapshot name in a list; a look at
-- stopCh takes one from a count, and finds the channel closed when it is 0, which stands for every
-- moment at which Stop may be called. Where both stopCh and a timer are ready Go may take either; the model
-- takes stopCh.
--
-- The parser of JSON has fuel for twice the characters and one more: each nested call is behind a character
-- that has been read.
--
-- Not modelled: logging and tracing, which only report; times; the exit of the neb's process. In JSON texts, bytes from 128 on are taken for parts of valid UTF-8 without U+2028 and U+2029,
-- and Go's limit of 10000 nested values is left out. Closing a file has no effect on the files and is left out.
-- Of processes that use one log, what they share is the files; their calls come one after the other. In Wal a file name stands
-- for its path. Data directories and the home directory are absolute paths.
pub mod Prelude
pub mod Wal
pub mod Store
pub mod Protocol
pub mod Transport
pub mod Base64
pub mod Filepath
pub mod Trim
pub mod Json
pub mod Lifecycle
pub mod Counter
pub mod Cli
pub mod Registry
pub mod Sandbox
pub mod Telemetry

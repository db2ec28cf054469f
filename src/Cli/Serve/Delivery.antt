-- ===== src/Cli/Serve/Delivery.antt =====
-- `nile send` and `nile run` of cmd/nile/main.go, with the messages that reach the neb.
use nile.Prelude.{
  ℕ, suc, ◌+◌, ◌≤◌, ◌≡◌, refl, ap, sym, subst, ◌∙◌, arith, Bytes, IsByte, IsU64, bytes_eq,
  bytes_eq_refl, if◌then◌else◌, Bool, true, false, Option, none, some, List, [], ◌∷◌, ◌++◌, length,
  take, drop, All,
}
use nile.Wal.Disk.{healthy, ok, CursorState, Disk}
use nile.Wal.Cursor.{load}
use nile.Wal.Log.{Wal, Options, total_size}
use nile.Wal.Segment.Reading.{encode_all, Fits}
use nile.Wal.Stream.{Parts, messages, count, segments_from, Holds}
use nile.Wal.Stream.Growth.{count-length}
use nile.Wal.Backend.{wal_store}
use nile.Protocol.{init, shutdown, init_params, no_params, new_request, Response, StatusResult}
use nile.Transport.{Transport}
use nile.Telemetry.{setup}
use nile.Lifecycle.States.{stopped}
use nile.Lifecycle.Manager.{Manager, answered, answer, rounds, retries_or_default, new}
use nile.Lifecycle.Pump.{stopped_by_request, start}
use nile.Lifecycle.Accepting.{Accepts, numbered}
use nile.Lifecycle.Started.{Boots, start_delivers}
use nile.Sandbox.{neb_env}
use nile.Cli.Args.{RunConfig, accepted, parse_run_args}
use nile.Cli.Send.{to_send, parse_send_args, SendOutcome, sent, cmd_send}
use nile.Cli.Send.Appending.{cmd_send-Holds}
use nile.Cli.Status.Reporting.{total_size-segments_from}
use nile.Cli.Status.{pid_file}
use nile.Cli.Run.{RunHost, limit, run_options, run_dir_names, sandbox_config, served, cmd_run}
use nile.Cli.Run.Startup.{cmd_run-Holds}
use nile.Cli.Serve.{RunEnd, returned, cleaned, end_run, serve_run, nile_run}

-- No step of `nile run` before Start fails.
pub record IsAble (host : RunHost) (c : RunConfig) (binary : Bytes) : Type 0 where
  pub path : Bytes
  pub found : host.look_path c.binary ≡ some path
  pub absolute : host.absolute path ≡ some binary
  pub dirs : All (λ d. host.makes_dir d ≡ true) (run_dir_names c)
  pub telemetry :
      (setup host.telemetry (record { open_files = []; global_providers = false })).0 ≡ none
  pub neb : host.exists binary ≡ true
  pub stdin : host.stdin_pipe ≡ true
  pub stdout : host.stdout_pipe ≡ true
  pub starts : host.starts ≡ true

-- The neb's answer to the init request, the first one of a run, and its state after it.
abbrev pub first_answer : {T : Type 0} → Transport T → T → RunConfig → Option Response × T
first_answer transport link c = transport.send (new_request 1 init (init_params c.name)) link

-- The neb answers init, and is ready then.
abbrev pub Inits : {T : Type 0} → Transport T → (T → Type 0) → T → RunConfig → Type 0
Inits transport Ready link c =
    (a : StatusResult) × (answer (first_answer transport link c).0 ≡ answered a)
    × Ready (first_answer transport link c).1

-- The limits of the arguments leave room for the messages, and a message is sent to the neb at least once.
abbrev pub HasRoom : RunConfig → List Bytes → Type 0
HasRoom c ms =
    (length ms ≤ limit c.max_messages)
    × (length (encode_all ms) ≤ limit c.max_bytes)
    × ((r : ℕ) × (rounds (retries_or_default c.max_retries) ≡ suc r))

new-Boots :
    {T : Type 0} (transport : Transport T) (Ready : T → Type 0) (link : T) (stop_in : ℕ)
    (c : RunConfig) (w : Wal) (parts : Parts)
    → Holds w parts
    → w.log.closed_flag ≡ false
    → w.log.opts ≡ run_options c
    → HasRoom c (messages parts)
    → All (All IsByte) (messages parts)
    → Inits transport Ready link c
    → Boots transport Ready parts (new c.name c.data_dir c.max_retries w link stop_in)
unfolding new
new-Boots transport Ready link stop_in c w parts h opened opts (few, light, tries) bytes
      (a, ans, ready) =
    record {
      holds = h;
      opened = opened;
      few =
          subst (λ (o : Options). count parts ≤ o.max_messages) (sym opts)
            (omega (arith, few, count-length parts));
      light =
          subst (λ (o : Options). total_size (segments_from 0 parts) ≤ o.max_bytes) (sym opts)
            (omega (arith, light, total_size-segments_from 0 parts));
      bytes = bytes;
      fresh = refl;
      tries = tries;
      answers = (a, ans);
      ready = ready;
      unfinished = refl;
    }

nile_run-served :
    {T : Type 0} (host : RunHost) (transport : Transport T) (link : T) (stop_in : ℕ)
    (paths : List Bytes) (disks : Bytes → Disk) (args : List Bytes) (c : RunConfig) (binary : Bytes)
    (w : Wal) (m : Manager Wal T) (left : Bool)
    → cmd_run healthy host link stop_in disks args ≡ (
      served
          (record { path = binary; env = neb_env (sandbox_config c binary) })
          (new c.name c.data_dir c.max_retries w link stop_in),
      left,
    )
    → start (wal_store healthy) transport paths (new c.name c.data_dir c.max_retries w link stop_in)
      ≡ (stopped_by_request, m)
    → nile_run healthy host transport link stop_in paths false disks args
      ≡ (returned stopped_by_request (cleaned transport m), false)
unfolding nile_run
nile_run-served host transport link stop_in paths disks args c binary w m left runs stops =
    ap (serve_run healthy transport paths false) runs ∙ ap (end_run transport false left) stops

-- What a run with `n` messages behind cursor `from` leaves.
abbrev pub Delivered :
    {T X : Type 0}
    → Transport T
    → (T → List X)
    → (ℕ → Bytes → X)
    → T
    → ℕ
    → ℕ
    → List Bytes
    → RunEnd T × Bool
    → Type 0
Delivered {T} transport seen entry link n from ms r =
    (m : Manager Wal T) × (t : T) × (id : ℕ) × (parts : Parts) × (r
      ≡ (returned stopped_by_request (cleaned transport m), false))
    × (m.state ≡ stopped)
    × (m.link ≡ (transport.send (new_request id shutdown no_params) t).1)
    × (seen t ≡ seen link ++ numbered entry from (take n (drop from ms)))
    × Holds m.backend parts
    × (messages parts ≡ ms)
    × (m.backend.log.cur.consumed ≡ from + n)

-- `nile run` on a healthy system where no step fails, on the files that a log left with a cursor that can be
-- read, with a neb that answers init and then accepts every message: when the signal comes after as many
-- looks as `paths` has names, the program stops by it, without a failure and without the file with the process
-- number. Behind init the neb has taken in that many messages, the next ones from the cursor on, each once, in
-- order and with its number, and its last request is the shutdown; the log holds all messages as before, with
-- the cursor past those. There are that many, and the limits of the arguments leave room for all.
pub nile_run_delivers :
    {T X : Type 0} (transport : Transport T) (Ready : T → Type 0) (seen : T → List X)
    (entry : ℕ → Bytes → X) (host : RunHost) (link : T) (paths : List Bytes) (last : Bytes)
    (disks : Bytes → Disk) (args : List Bytes) (c : RunConfig) (binary : Bytes) (w : Wal)
    (parts : Parts) (state : CursorState)
    → Accepts transport Ready seen entry
    → Inits transport Ready link c
    → parse_run_args args ≡ accepted c
    → IsAble host c binary
    → disks c.data_dir ≡ w.disk
    → Holds w parts
    → load healthy w.disk ≡ ok state
    → HasRoom c (messages parts)
    → All (All IsByte) (messages parts)
    → state.consumed + length paths ≤ length (messages parts)
    → Delivered transport seen entry
        (first_answer transport link c).1
        (length paths)
        state.consumed
        (messages parts)
        (nile_run healthy host transport link
          (length paths)
          (paths ++ (last ∷ []))
          false
          disks
          args)
unfolding new
nile_run_delivers transport Ready seen entry host link paths last disks args c binary w parts state
      neb inits parsed able on_disk h loaded room bytes left =
    let (l, runs, holds, cur, unclosed, opts) =
      cmd_run-Holds host link (length paths) disks args c able.path binary w parts state parsed
        able.found able.absolute able.dirs able.telemetry able.neb able.stdin able.stdout
        able.starts on_disk h loaded in
    let v : Wal = record { log = l; disk = w.disk } in
    let from : l.cur.consumed ≡ state.consumed = ap (λ (s : CursorState). s.consumed) cur in
    let boots =
      new-Boots transport Ready link (length paths) c v parts holds unclosed opts room bytes
        inits in
    let (m, t, id, stops, st, _, shut, took, held, _, consumed) =
      start_delivers transport Ready seen entry parts paths last
        (new c.name c.data_dir c.max_retries v link (length paths)) neb boots refl
        (omega (arith, from, left, count-length parts)) in
    (
      m,
      t,
      id,
      parts,
      nile_run-served host transport link (length paths) (paths ++ (last ∷ [])) disks args c binary
          v m (host.writes_pid (pid_file c.data_dir)) runs stops,
      st,
      shut,
      took
          ∙ ap
              (λ n.
                seen (first_answer transport link c).1
                ++ numbered entry n (take (length paths) (drop n (messages parts))))
              from,
      held,
      refl,
      consumed ∙ ap (λ n. n + length paths) from,
    )

-- The files below each data directory behind `nile send`.
abbrev pub files_after : SendOutcome → (Bytes → Disk) → Bytes → Disk
files_after (sent data_dir s) disks dir = if bytes_eq dir data_dir then s.wal.disk else disks dir
files_after _ disks dir = disks dir

-- `nile send` of messages and then `nile run` of the same data directory, on a healthy system where no step
-- fails, on the files of a log whose cursor can be read, and with a neb that answers init and then accepts
-- every message. When the signal comes after as many looks as `paths` has names, the program stops by it,
-- without a failure and without the file with the process number. Behind init the neb has taken in that many
-- messages, the next ones of the old messages followed by the sent ones, from the cursor on, each once, in
-- order and with its number, and its last request is the shutdown; the log holds the old messages and the sent
-- ones, with the cursor past those. There are that many, they are within the record limit and the offsets
-- below 2 ^ 64, and the limits of the arguments leave room for all.
pub send_run_delivers :
    {T X : Type 0} (transport : Transport T) (Ready : T → Type 0) (seen : T → List X)
    (entry : ℕ → Bytes → X) (host : RunHost) (link : T) (paths : List Bytes) (last : Bytes)
    (disks : Bytes → Disk) (send_args args : List Bytes) (c : RunConfig) (binary name : Bytes)
    (msgs : List Bytes) (w : Wal) (parts : Parts) (state : CursorState)
    → Accepts transport Ready seen entry
    → Inits transport Ready link c
    → parse_send_args send_args false [] [] ≡ to_send c.data_dir name msgs
    → parse_run_args args ≡ accepted c
    → IsAble host c binary
    → disks c.data_dir ≡ w.disk
    → Holds w parts
    → load healthy w.disk ≡ ok state
    → All Fits msgs
    → IsU64 (count parts + length msgs)
    → HasRoom c (messages parts ++ msgs)
    → All (All IsByte) (messages parts ++ msgs)
    → state.consumed + length paths ≤ length (messages parts ++ msgs)
    → Delivered transport seen entry
        (first_answer transport link c).1
        (length paths)
        state.consumed
        (messages parts ++ msgs)
        (nile_run healthy host transport link
          (length paths)
          (paths ++ (last ∷ []))
          false
          (files_after (cmd_send healthy disks send_args) disks)
          args)
send_run_delivers transport Ready seen entry host link paths last disks send_args args c binary name
      msgs w parts state neb inits to parsed able on_disk h loaded fits small room bytes left =
    let (v, parts', sends, held, ms, loads) =
      cmd_send-Holds disks send_args c.data_dir name msgs w parts state to on_disk h loaded fits
        small in
    let files : files_after (cmd_send healthy disks send_args) disks c.data_dir ≡ v.disk =
      ap (λ o. files_after o disks c.data_dir) sends
      ∙ ap (λ b. if b then v.disk else disks c.data_dir) (bytes_eq_refl c.data_dir) in
    subst
      (λ all.
        Delivered transport seen entry (first_answer transport link c).1 (length paths)
          state.consumed all
          (nile_run healthy host transport link (length paths) (paths ++ (last ∷ [])) false
            (files_after (cmd_send healthy disks send_args) disks) args))
      ms
      (nile_run_delivers transport Ready seen entry host link paths last
        (files_after (cmd_send healthy disks send_args) disks) args c binary v parts' state neb
        inits parsed able files held loads (subst (HasRoom c) (sym ms) room)
        (subst (All (All IsByte)) (sym ms) bytes)
        (subst (λ all. state.consumed + length paths ≤ length all) (sym ms) left))

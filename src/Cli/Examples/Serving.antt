-- ===== src/Cli/Examples/Serving.antt =====
-- `nile send` and `nile run` of cmd/nile/main.go with the neb of examples/counter-service
-- behind its JSON texts, at one copt.
use nile.Prelude.{
  ap, sym, subst, Option, ◌≡◌, refl, arith, false, ◌++◌, Bytes, ascii, true, List, [], ◌∷◌,
}
use nile.Wal.Disk.{healthy}
use nile.Wal.Cursor.{cursor_zero, load}
use nile.Wal.Record.{encode_record}
use nile.Lifecycle.Manager.{answer, rounds, retries_or_default}
use nile.Telemetry.{setup}
use nile.Protocol.{init, init_params, new_request, Response, parse_result}
use nile.Counter.{Service, counter_service, message_line, serve}
use nile.Counter.Text.{text_service}
use nile.Counter.Text.Exchange.{text_service-counter_service}
use nile.Counter.Text.Reception.{text_service-Accepts}
use nile.Cli.Send.{parse_send_args, cmd_send}
use nile.Cli.Path.{default_data_dir}
use nile.Cli.Serve.{nile_run}
use nile.Cli.Serve.Delivery.{
  IsAble, first_answer, Inits, HasRoom, Delivered, files_after, send_run_delivers,
}
use nile.Cli.Examples.Commands.{
  short_args, short_config, short_args-accepted, held, held-Holds, disks, two_parts, run_host,
}

abbrev fresh_service : Service
fresh_service = record { activity = []; exited = false }

able : IsAble (run_host true) short_config (ascii "/opt/counter")
unfolding setup
able = record {
  path = ascii "/opt/counter";
  found = refl;
  absolute = refl;
  dirs = (refl, (refl, (refl, (refl, tt))));
  telemetry = refl;
  neb = refl;
  stdin = refl;
  stdout = refl;
  starts = refl;
}

-- The service behind the JSON texts answers the text of the init request.
init_text :
    text_service.send (new_request 1 init (init_params (ascii "counter"))) fresh_service
    ≡ counter_service.send (new_request 1 init (init_params (ascii "counter"))) fresh_service
init_text =
    text_service-counter_service (new_request 1 init (init_params (ascii "counter"))) fresh_service
      (omega arith, omega arith, omega arith)

inits : Inits text_service (λ s. s.exited ≡ false) fresh_service short_config
unfolding serve parse_result
inits = (
  record { status = ascii "ok"; post_process = false },
  ap (λ (o : Option Response × Service). answer o.0) init_text,
  subst (λ (o : Option Response × Service). o.1.exited ≡ false) (sym init_text) refl,
)

abbrev all_messages : List Bytes
all_messages = ascii "a" ∷ ascii "bc" ∷ ascii "d" ∷ ascii "e" ∷ ascii "fg" ∷ []

room : HasRoom short_config all_messages
unfolding encode_record rounds retries_or_default
room = (omega arith, omega arith, (3, refl))

abbrev send_args : List Bytes
send_args = ascii "counter" ∷ ascii "e" ∷ ascii "fg" ∷ []

-- Four of the five messages are handled before the signal.
abbrev snapshot_names : List Bytes
snapshot_names = ascii "s" ∷ ascii "t" ∷ ascii "u" ∷ ascii "v" ∷ []

send_run_delivers_example :
    Delivered text_service
      (λ s. s.activity)
      message_line
      (first_answer text_service fresh_service short_config).1
      4
      0
      all_messages
      (nile_run healthy
        (run_host true)
        text_service
        fresh_service
        4
        (snapshot_names ++ (ascii "w" ∷ []))
        false
        (files_after (cmd_send healthy disks send_args) disks)
        short_args)
unfolding load parse_send_args default_data_dir
send_run_delivers_example =
    send_run_delivers text_service (λ s. s.exited ≡ false) (λ s. s.activity) message_line
      (run_host true) fresh_service snapshot_names (ascii "w") disks send_args short_args
      short_config (ascii "/opt/counter") (ascii "counter") (ascii "e" ∷ ascii "fg" ∷ []) held
      two_parts cursor_zero text_service-Accepts inits refl short_args-accepted able refl held-Holds
      refl (omega arith, (omega arith, tt)) (omega arith) room (omega arith) (omega arith)

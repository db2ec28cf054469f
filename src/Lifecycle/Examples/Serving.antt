-- ===== src/Lifecycle/Examples/Serving.antt =====
-- The theorems on the pump, the neb of examples/counter-service and the standard streams, at one log.
use nile.Prelude.{ℕ, ◌≡◌, ◌⊎◌, inr, refl, ascii, none, some, List, [], ◌∷◌, true, false, pos, All}
use nile.Protocol.{Request, Response, new_request, message, message_params}
use nile.Transport.Stdio.{line, silence, Stdio, stdio}
use nile.Transport.Stdio.Matching.{Answers, exchange, stdio-Answers}
use nile.Wal.Disk.{healthy, empty_disk}
use nile.Wal.Cursor.{cursor_zero}
use nile.Wal.Log.{Wal, default_options}
use nile.Wal.Log.Recovery.{fresh_log}
use nile.Wal.Stream.{Parts, holding}
use nile.Wal.Backend.{wal_store}
use nile.Lifecycle.States.{idle}
use nile.Lifecycle.Manager.{Manager, new, process_message}
use nile.Lifecycle.Unanswered.{broken_dead_letter}
use nile.Counter.{Service}

abbrev two_parts : Parts
two_parts = (ascii "a" ∷ ascii "bc" ∷ []) ∷ ((ascii "d" ∷ []) ∷ [])

abbrev held : Wal
held = holding (record { log = fresh_log default_options cursor_zero; disk = empty_disk }) two_parts

abbrev fresh_service : Service
fresh_service = record { activity = []; exited = false }

abbrev serving : Manager Wal Service
serving = record (new (ascii "counter") (ascii "data") (pos 2) held fresh_service 5) {
  state = idle;
}

abbrev ok_response : ℕ → Response
ok_response n = record {
  result = some (record { status = ascii "ok"; post_process = false });
  error = none;
  id = n;
}

-- The second answer comes after the timeout.
abbrev late : Stdio
late = record {
  sent = [];
  writable = 9;
  output = line (some (ok_response 1)) ∷ silence ∷ line (some (ok_response 2)) ∷ [];
  closed_flag = false;
  broken = false;
  timeout = true;
}

abbrev requests : List Request
requests =
    new_request 1 message (message_params 0 (ascii "YQ=="))
    ∷ new_request 2 message (message_params 1 (ascii "YmM="))
    ∷ new_request 3 message (message_params 2 (ascii "ZA=="))
    ∷ []

stdio-Answers_example : All Answers (exchange requests late)
stdio-Answers_example = stdio-Answers requests 1 late (refl, (refl, (refl, tt))) (refl, (refl, tt))

-- A transport that a timeout has broken.
abbrev given_up : Manager Wal Stdio
given_up =
    record (new (ascii "counter") (ascii "data") (pos 2) held (record late { broken = true }) 5) {
      state = idle;
    }

broken_dead_letter_example :
    let r = process_message (wal_store healthy) stdio 0 (ascii "a") given_up in
    (r.1.link ≡ record late { broken = true })
    × ((r.1.backend ≡ ((wal_store healthy).dead_letter 0 (ascii "a") held).1)
        ⊎ ((r.1.backend ≡ held) × (r.1.stop_in ≡ 0)))
unfolding new
broken_dead_letter_example =
    broken_dead_letter (wal_store healthy) 0 (ascii "a") given_up (inr refl) refl

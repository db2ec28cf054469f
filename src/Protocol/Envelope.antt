-- ===== src/Protocol/Envelope.antt =====
-- pkg/protocol/envelope.go: a message with its metadata.
use nile.Prelude.{
  Bytes, ascii, bytes_eq, ◌≡◌, refl, false, if◌then◌else◌, Option, none, some, List, [], ◌∷◌,
}

pub record Pair : Type 0 where
  pub key : Bytes
  pub value : Bytes

-- A map[string]string with the latest write of a key in front; `none` is a nil map.
pub record Envelope : Type 0 where
  pub id : Bytes
  pub sender : Bytes
  pub kind : Bytes
  pub payload : Bytes
  pub metadata : Option (List Pair)

-- A missing key reads as the empty string.
unfoldable pub value_at : Bytes → List Pair → Bytes
value_at key [] = []
value_at key (p ∷ ps) = if bytes_eq p.key key then p.value else value_at key ps

-- NewEnvelope; `now` is the time in the format of RFC 3339.
abbrev pub new_envelope : Bytes → Bytes → Bytes → Envelope
new_envelope now id payload = record {
  id = id;
  sender = [];
  kind = ascii "default";
  payload = payload;
  metadata = some (record { key = ascii "created_at"; value = now } ∷ []);
}

abbrev pub or_empty : Option (List Pair) → List Pair
or_empty none = []
or_empty (some ps) = ps

-- SetTraceID
unfoldable pub set_trace_id : Bytes → Envelope → Envelope
set_trace_id trace_id e = record e {
  metadata = some (record { key = ascii "trace_id"; value = trace_id } ∷ or_empty e.metadata);
}

-- TraceID
unfoldable pub trace_id : Envelope → Bytes
unfolding value_at
trace_id e = elim e.metadata [ none ↦ [] | some ps ↦ value_at (ascii "trace_id") ps ]

-- The metadata under a key, as a reader of the map finds it.
unfoldable pub metadata_at : Bytes → Envelope → Bytes
unfolding value_at
metadata_at key e = value_at key (or_empty e.metadata)

-- SetTraceID on any envelope, one without metadata included: TraceID then returns that identifier,
-- and the other keys of the metadata and the other fields are as they were.
trace_id-set_trace_id :
    (t : Bytes) (e : Envelope) (key : Bytes)
    → bytes_eq (ascii "trace_id") key ≡ false
    → (trace_id (set_trace_id t e) ≡ t)
      × (metadata_at key (set_trace_id t e) ≡ metadata_at key e)
      × (set_trace_id t e ≡ record e { metadata = (set_trace_id t e).metadata })
unfolding trace_id set_trace_id metadata_at
trace_id-set_trace_id t e key h = (refl, rw h refl, refl)

-- ===== src/Wal/Cursor/Text.antt =====
-- pkg/wal/cursor.go: the text of cursor.json.
pub mod Torn
use nile.Prelude.{
  ℕ, Bytes, ascii, if◌then◌else◌, true, Option, none, some, [], ◌∷◌, ◌≡◌, refl, ap, ◌∙◌, IsU64,
}
use nile.Wal.Name.{digits}
use nile.Wal.Disk.{CursorState, CursorFile, json, malformed}
use nile.Wal.Cursor.{cursor_zero}
use nile.Json.{Value, object, no_fields, field, emit}
use nile.Json.Numeral.{digits-IsNumeral}
use nile.Json.Pieces.{IsPrintable, ArePrintableFields}
use nile.Json.Object.{
  uint, Setter, is_for, fold, into_uint, into_fields, into_struct, fine_only, unmarshal,
}
use nile.Json.Written.{into_uint-digits, unmarshal-emit}

unfoldable pub state_value : CursorState → Value
unfolding digits
state_value s = object (
    field (ascii "consumed") (uint s.consumed)
      (field (ascii "post_processed") (uint s.post_processed) no_fields))

-- json.Marshal of a CursorState
unfoldable pub cursor_text : CursorState → Bytes
unfolding state_value emit
cursor_text s = emit (state_value s)

unfoldable pub set_state : Setter CursorState
unfolding is_for into_uint
set_state k v s =
    if is_for (ascii "consumed") k
    then (let (x, fine) = into_uint v s.consumed in (record s { consumed = x }, fine))
    else if is_for (ascii "post_processed") k
    then (let (x, fine) = into_uint v s.post_processed in (record s { post_processed = x }, fine))
    else (s, true)

abbrev pub file_or_malformed : Option CursorState → CursorFile
file_or_malformed none = malformed
file_or_malformed (some s) = json s

-- What Load takes a content of cursor.json for.
unfoldable pub cursor_file : Bytes → CursorFile
unfolding unmarshal set_state
cursor_file text = file_or_malformed (unmarshal set_state cursor_zero text)

state_value-Printable :
    (s : CursorState) → IsU64 s.consumed → IsU64 s.post_processed → IsPrintable (state_value s)
unfolding state_value IsPrintable
state_value-Printable s h k =
    (digits-IsNumeral s.consumed h, (digits-IsNumeral s.post_processed k, tt))

state_fields :
    (s : CursorState)
    → IsU64 s.consumed
    → IsU64 s.post_processed
    → into_struct set_state (state_value s) cursor_zero ≡ (s, true)
unfolding state_value into_struct into_fields set_state is_for fold
state_fields s h k =
    rw (into_uint-digits s.consumed 0 h, into_uint-digits s.post_processed 0 k) refl

-- The text that Save writes for a state whose two offsets have 64 bits is the text from which Load reads that state.
pub cursor_file-text :
    (s : CursorState)
    → IsU64 s.consumed
    → IsU64 s.post_processed
    → cursor_file (cursor_text s) ≡ json s
unfolding cursor_file cursor_text
cursor_file-text s h k = ap file_or_malformed (
    unmarshal-emit set_state cursor_zero (state_value s) (state_value-Printable s h k)
    ∙ ap fine_only (state_fields s h k))

-- ===== src/Wal/Examples/Texts.antt =====
-- The text of cursor.json, at one state.
use nile.Prelude.{◌≡◌, arith, take}
use nile.Wal.Disk.{CursorState, json, malformed}
use nile.Wal.Cursor.Text.{cursor_text, cursor_file, cursor_file-text}
use nile.Wal.Cursor.Text.Torn.{cursor_file-take}

abbrev some_state : CursorState
some_state = record { consumed = 1207; post_processed = 0 }

cursor_file-text_example : cursor_file (cursor_text some_state) ≡ json some_state
cursor_file-text_example = cursor_file-text some_state (omega arith) (omega arith)

-- {"consumed":120
cursor_file-take_example : cursor_file (take 15 (cursor_text some_state)) ≡ malformed
unfolding cursor_text
cursor_file-take_example = cursor_file-take some_state 15 (omega arith) (omega arith) (omega arith)

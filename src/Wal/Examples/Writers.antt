-- ===== src/Wal/Examples/Writers.antt =====
-- Two processes that append to one log of two segments.
use nile.Prelude.{◌≡◌, refl, arith, ascii, [], ◌∷◌, ◌++◌}
use nile.Wal.Disk.{healthy, ok, empty_disk}
use nile.Wal.Cursor.{cursor_zero}
use nile.Wal.Log.{Wal, default_options}
use nile.Wal.Log.Append.{append, must_roll}
use nile.Wal.Log.Recovery.{fresh_log}
use nile.Wal.Record.{encode_record}
use nile.Wal.Stream.{Parts, files_from, holding, messages}
use nile.Wal.Stream.Writers.{append_twice}

abbrev opened_parts : Parts
opened_parts = (ascii "a" ∷ ascii "bc" ∷ []) ∷ ((ascii "d" ∷ []) ∷ [])

abbrev writer : Wal
writer =
    holding (record { log = fresh_log default_options cursor_zero; disk = empty_disk }) opened_parts

-- Both are told that their message is number 3.
append_twice_example :
    let a = append healthy (ascii "e") writer in
    let b = append healthy (ascii "f") (record { log = writer.log; disk = a.1.disk }) in
    (a.0 ≡ ok 3)
    × (b.0 ≡ ok 3)
    × ((parts : Parts) × (b.1.disk.stream ≡ files_from 0 parts)
        × (messages parts ≡ messages opened_parts ++ (ascii "e" ∷ (ascii "f" ∷ []))))
append_twice_example =
    append_twice writer (ascii "e") (ascii "f") (ascii "a" ∷ ascii "bc" ∷ [])
      ((ascii "d" ∷ []) ∷ [])
      (record {
        state = refl;
        clean = record {
          filled = (omega arith, tt);
          fit = ((omega arith, (omega arith, tt)), ((omega arith, tt), tt));
          small = omega arith;
        };
      })
      refl (unfold must_roll encode_record in refl) (omega arith) (omega arith)

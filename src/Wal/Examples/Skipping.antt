-- ===== src/Wal/Examples/Skipping.antt =====
-- Two writers and a consumer that polls too late, at one log.
use nile.Prelude.{◌≡◌, refl, arith, get_elem?, ◌+◌, length, Bytes, ascii, List, some, [], ◌∷◌}
use nile.Wal.Disk.{healthy, ok, empty_disk}
use nile.Wal.Log.{Wal, default_options}
use nile.Wal.Log.Recovery.{fresh_log}
use nile.Wal.Log.Delivery.{next_unprocessed}
use nile.Wal.Stream.{Parts, holding, messages}
use nile.Wal.Stream.Skipping.{next_unprocessed_skips}

abbrev seen : List Bytes
seen = ascii "a" ∷ ascii "b" ∷ []

abbrev consumer : Wal
consumer =
    holding
      (record {
        log = fresh_log default_options (record { consumed = 2; post_processed = 0 });
        disk = empty_disk;
      })
      (seen ∷ [])

abbrev later : Parts
later = (ascii "a" ∷ ascii "b" ∷ ascii "c" ∷ []) ∷ ((ascii "d" ∷ ascii "e" ∷ []) ∷ [])

-- "d" is delivered as message 2, which is "c".
next_unprocessed_skips_example :
    let r = next_unprocessed healthy (record consumer { disk = (holding consumer later).disk }) in
    (r.0 ≡ ok (2, ascii "d"))
    × (get_elem? (messages later) 2 ≡ some (ascii "c"))
    × (length r.1.log.index + 1 ≡ r.1.log.next_idx)
next_unprocessed_skips_example =
    next_unprocessed_skips consumer seen (ascii "c" ∷ []) (ascii "d") (ascii "e" ∷ [])
      (record {
        state = refl;
        clean = record {
          filled = tt;
          fit = ((omega arith, (omega arith, tt)), tt);
          small = omega arith;
        };
      })
      refl refl (omega arith)
      (record {
        filled = (omega arith, tt);
        fit = (
          (omega arith, (omega arith, (omega arith, tt))),
          ((omega arith, (omega arith, tt)), tt),
        );
        small = omega arith;
      })

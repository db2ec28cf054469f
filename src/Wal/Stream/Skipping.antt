-- ===== src/Wal/Stream/Skipping.antt =====
-- refresh and NextUnprocessed of pkg/wal/wal.go after another process has filled the last segment and begun a new one.
use nile.Prelude.{
  get_elem?, get_elem?-append_left, get_elem?-append_right, ℕ, ◌+◌, ◌<◌, ◌≡◌, refl, sym, ap, ◌∙◌,
  arith, Bytes, length, some, none, List, [], ◌∷◌, ◌++◌, true, false, length-append, if◌then◌else◌,
  if_cases,
}
use nile.Wal.Name.{segment_name}
use nile.Wal.Disk.{healthy, Disk, ok, err}
use nile.Wal.Segment.Reading.{encode_all, whole}
use nile.Wal.Log.{Log, Wal, entries_from, raise_next}
use nile.Wal.Log.Recovery.{add_segment}
use nile.Wal.Log.Refresh.{
  known, stat_size, file_size, add_reread, add_discovered, refresh_one, refresh_last, refresh_new,
  refresh, last_segment, then_log, refresh_listed,
}
use nile.Wal.Log.Delivery.{next_unprocessed, after_refresh, read_message, from_entry, pick_record}
use nile.Wal.Record.{no_messages}
use nile.Wal.Stream.{
  Parts, entry, segment_of, files_from, bases_from, holding, IsClean, Holds, messages,
}
use nile.Wal.Stream.Delivery.{next_open, length-entries_from}
use nile.Wal.Stream.Finding.{Finds, Finds-files_from, read_all-part, list_segments-holding}
use nile.Wal.Stream.Refreshing.{add_records_none}

-- The log has seen the one segment with `ps`. By now the files have `xs` behind these in that segment, and `y`
-- and `ys` in a new one.
module _ (w : Wal) (ps xs : List Bytes) (y : Bytes) (ys : List Bytes) (some_missed : 0 < length xs)
    (clean : IsClean ((ps ++ xs) ∷ ((y ∷ ys) ∷ []))) where
  abbrev parts : Parts
  parts = (ps ++ xs) ∷ ((y ∷ ys) ∷ [])

  abbrev old : Log
  old = (holding w (ps ∷ [])).log

  abbrev disk : Disk
  disk = (holding w parts).disk

  abbrev base : ℕ
  base = 0 + length (ps ++ xs)

  -- The log after refresh.
  abbrev short : Log
  short = record old {
    segments = segment_of 0 ps ∷ (segment_of base (y ∷ ys) ∷ []);
    index = old.index ++ entries_from 1 0 (length (y ∷ ys));
    next_idx = base + length (y ∷ ys);
  }

  finds : Finds (files_from 0 parts) 0 parts
  finds = Finds-files_from 0 parts clean.filled (omega (arith, clean.small))

  size_eq : stat_size healthy disk (segment_name base) 0 ≡ length (encode_all (y ∷ ys))
  unfolding stat_size
  size_eq = ap (λ f. file_size f 0) (finds.1.0)

  unseen : known base old.segments ≡ false
  unfolding known
  unseen = ground (arith, length-append ps xs)

  next_eq : raise_next base (length (y ∷ ys)) (length ps + 0) ≡ base + length (y ∷ ys)
  unfolding raise_next
  next_eq = ground (arith, clean.small, length-append ps xs)

  refresh_one-new : refresh_one healthy disk old.segments base old ≡ (none, short)
  unfolding refresh_one
  refresh_one-new =
      if_cases (λ r. r ≡ (none, short)) (known base old.segments)
        (λ e. absurd (ground (arith, unseen, e)))
        (λ _.
          ap (add_discovered healthy disk base (segment_name base) old)
            (read_all-part disk base (y ∷ ys) finds.1.0 clean.fit.1.0)
          ∙ added)
    where
      added :
          add_discovered healthy disk base (segment_name base) old (whole (y ∷ ys)) ≡ (none, short)
      added =
          unfold add_segment in
          λ i. (
            none,
            record old {
              segments =
                  segment_of 0 ps
                  ∷ (record { path = segment_name base; base_index = base; size = size_eq i } ∷ []);
              index = old.index ++ entries_from 1 0 (length (y ∷ ys));
              next_idx = next_eq i;
            },
          )

  refresh_last-short : refresh_last healthy disk short ≡ (none, short)
  unfolding refresh_last last_segment
  refresh_last-short =
      ap (add_reread healthy disk (segment_of base (y ∷ ys)) short)
        (read_all-part disk base (y ∷ ys) finds.1.0 (clean.fit.1.0))
      ∙ ap (λ l. (none, l))
          (add_records_none disk (segment_of base (y ∷ ys)) (length (y ∷ ys)) short
            (omega (arith, clean.small)))

  refresh-short : refresh healthy disk old ≡ (none, short)
  unfolding refresh
  refresh-short =
      ap (refresh_listed healthy disk old) (list_segments-holding disk parts refl clean.small)
      ∙ ap (λ r. then_log r (refresh_last healthy disk)) all_new
      ∙ refresh_last-short
    where
      all_new : refresh_new healthy disk old.segments (bases_from 0 parts) old ≡ (none, short)
      all_new =
          unfold refresh_new refresh_one known in
          ap (λ r. then_log r (λ l. (none, l))) refresh_one-new

  index_length : length old.index ≡ length ps
  index_length =
      omega (
        arith,
        length-append (entries_from 0 0 (length ps)) [],
        length-entries_from 0 0 (length ps),
      )

  entry_eq : get_elem? short.index (length ps) ≡ some (entry 1 0)
  unfolding entries_from
  entry_eq =
      get_elem?-append_right old.index (entries_from 1 0 (length (y ∷ ys))) (length ps)
        (omega (arith, index_length))
      ∙ ap (get_elem? (entries_from 1 0 (length (y ∷ ys)))) {y = 0} (omega (arith, index_length))

  read_message-short : read_message healthy disk short (length ps) ≡ ok (length ps, y)
  unfolding read_message
  read_message-short =
      ap (from_entry healthy disk short (length ps)) entry_eq
      ∙ ap (pick_record (length ps) 0) (read_all-part disk base (y ∷ ys) finds.1.0 clean.fit.1.0)

  next_unprocessed-short :
      w.log.closed_flag ≡ false
      → w.log.cur.consumed ≡ length ps
      → next_unprocessed healthy (record { log = old; disk = disk })
        ≡ (ok (length ps, y), record { log = short; disk = disk })
  next_unprocessed-short opened caught_up =
      next_open (record { log = old; disk = disk }) {caught_up = true} opened
        (ground (arith, caught_up))
      ∙ ap (after_refresh healthy (record { log = old; disk = disk }) w.log.cur.consumed)
          refresh-short
      ∙ ap
          (λ b. if b then (err no_messages, record { log = short; disk = disk }) else (
            read_message healthy disk short w.log.cur.consumed,
            record { log = short; disk = disk },
          ))
          {y = false} (ground (arith, caught_up, length-append ps xs, some_missed))
      ∙ ap (λ r. (r, record { log = short; disk = disk }))
          (ap (read_message healthy disk short) caught_up ∙ read_message-short)

  short_index : length short.index + length xs ≡ short.next_idx
  short_index = omega (
    arith,
    index_length,
    length-append old.index (entries_from 1 0 (length (y ∷ ys))),
    length-entries_from 1 0 (length (y ∷ ys)),
    length-append ps xs,
  )

  first_missed : get_elem? (messages parts) (length ps) ≡ get_elem? xs 0
  first_missed =
      get_elem?-append_left (ps ++ xs) (messages ((y ∷ ys) ∷ [])) (length ps)
        (omega (arith, length-append ps xs, some_missed))
      ∙ get_elem?-append_right ps xs (length ps) (omega arith)
      ∙ ap (get_elem? xs) {y = 0} (omega arith)

-- A consumer has handled all messages of a log of one segment. Before it looks again, other processes append
-- some more messages to that segment and then others to a new one, all within the record limit and with
-- offsets below 2 ^ 64. NextUnprocessed on a healthy system then returns the first message of the new
-- segment under the number of the first of the messages in between, and leaves the index shorter than the
-- next index by as many messages as there were in between.
pub next_unprocessed_skips :
    (w : Wal) (ps xs : List Bytes) (y : Bytes) (ys : List Bytes)
    → Holds w (ps ∷ [])
    → w.log.closed_flag ≡ false
    → w.log.cur.consumed ≡ length ps
    → 0 < length xs
    → IsClean ((ps ++ xs) ∷ ((y ∷ ys) ∷ []))
    → let later = (ps ++ xs) ∷ ((y ∷ ys) ∷ []) in
      let r = next_unprocessed healthy (record w { disk = (holding w later).disk }) in
      (r.0 ≡ ok (length ps, y))
      × (get_elem? (messages later) (length ps) ≡ get_elem? xs 0)
      × (length r.1.log.index + length xs ≡ r.1.log.next_idx)
next_unprocessed_skips w ps xs y ys h opened caught_up some_missed clean =
    let later = (ps ++ xs) ∷ ((y ∷ ys) ∷ []) in
    let e =
      ap
        (λ (v : Wal).
          next_unprocessed healthy (record { log = v.log; disk = (holding w later).disk }))
        h.state
      ∙ next_unprocessed-short w ps xs y ys some_missed clean opened caught_up in
    (
      ap (λ r. r.0) e,
      first_missed w ps xs y ys some_missed clean,
      ap (λ r. length r.1.log.index + length xs) e
          ∙ short_index w ps xs y ys some_missed clean
          ∙ sym (ap (λ r. r.1.log.next_idx) e),
    )

-- ===== src/Wal/Stream/Polling.antt =====
-- refresh and NextUnprocessed of pkg/wal/wal.go after another process has appended to the last segment.
use nile.Prelude.{
  get_elem?, get_elem?-append_right, ℕ, suc, ◌+◌, ◌-◌, ◌≡◌, refl, sym, ap, ◌∙◌, arith, Bytes,
  length, All, some, none, List, [], ◌∷◌, ◌++◌, true, false, sub64, u64, IsU64, length-append,
  if◌then◌else◌,
}
use nile.Wal.Name.{segment_name}
use nile.Wal.Disk.{healthy, File, find_file, ok, err}
use nile.Wal.Segment.Reading.{Fits, encode_all}
use nile.Wal.Log.{Log, Wal, entries_from}
use nile.Wal.Log.Refresh.{
  resize_last, stat_size, file_size, add_records, add_reread, refresh_last, refresh_new, refresh,
  then_log, reread_last, refresh_listed,
}
use nile.Wal.Stream.{
  Parts, count, entry, segment_of, file_of, segments_from, files_from, bases_from, index_from,
  holding, IsClean, Holds, messages,
}
use nile.Wal.Stream.Layout.{
  last_base, last_part, add_last, last_base_bound, count-last, index_from-last, messages-last,
}
use nile.Wal.Log.Append.{append_active}
use nile.Wal.Log.Delivery.{next_unprocessed, after_refresh, read_message}
use nile.Wal.Stream.Delivery.{next_open, read_message-holding}
use nile.Wal.Record.{no_messages}
use nile.Wal.Stream.Growth.{count-length, IsClean-last}
use nile.Wal.Stream.Append.{append_active-holding, active_of-last, length-segments_from}
use nile.Wal.Stream.Finding.{Finds, Finds-files_from, read_all-part, list_segments-holding}
use nile.Wal.Stream.Refreshing.{refresh_new-known, last_segment-segments_from, AllKnown-bases_from}

find_last :
    (files : List File) (b : ℕ) (p : Bytes) (ps : List Bytes) (rest : Parts)
    → Finds files b (add_last p ps rest)
    → find_file (segment_name (last_base b ps rest)) files
      ≡ some (file_of (last_base b ps rest) (last_part ps rest ++ (p ∷ [])))
find_last files b p ps [] h = h.0
find_last files b p ps (q ∷ r) h = find_last files (b + length ps) p q r h.1

fit_last :
    (p : Bytes) (ps : List Bytes) (rest : Parts)
    → All (All Fits) (add_last p ps rest)
    → All Fits (last_part ps rest ++ (p ∷ []))
fit_last p ps [] h = h.0
fit_last p ps (q ∷ r) h = fit_last p q r h.1

bases_from-last :
    (b : ℕ) (p : Bytes) (ps : List Bytes) (rest : Parts)
    → bases_from b (add_last p ps rest) ≡ bases_from b (ps ∷ rest)
bases_from-last b p ps [] = refl
bases_from-last b p ps (q ∷ r) = ap (λ t. b ∷ t) (bases_from-last (b + length ps) p q r)

resize_last-segments_from :
    (b : ℕ) (p : Bytes) (ps : List Bytes) (rest : Parts)
    → resize_last
        (length (encode_all (last_part ps rest ++ (p ∷ []))))
        (segments_from b (ps ∷ rest))
      ≡ segments_from b (add_last p ps rest)
unfolding resize_last
resize_last-segments_from b p ps [] = refl
resize_last-segments_from b p ps (q ∷ r) =
    ap (λ t. segment_of b ps ∷ t) (resize_last-segments_from (b + length ps) p q r)

-- The log that has seen the files of `w`, and the files after `p` was appended.
module _ (w : Wal) (p : Bytes) (ps : List Bytes) (rest : Parts)
    (clean : IsClean (add_last p ps rest)) where
  abbrev old : Log
  old = (holding w (ps ∷ rest)).log

  abbrev grown : Wal
  grown = holding w (add_last p ps rest)

  abbrev base : ℕ
  base = last_base 0 ps rest

  abbrev whole_part : List Bytes
  whole_part = last_part ps rest ++ (p ∷ [])

  found : find_file (segment_name base) grown.disk.stream ≡ some (file_of base whole_part)
  found =
      find_last (files_from 0 (add_last p ps rest)) 0 p ps rest
        (Finds-files_from 0 (add_last p ps rest) clean.filled (omega (arith, clean.small)))

  small : suc (count (ps ∷ rest)) ≡ count (add_last p ps rest)
  small = sym (count-last p ps rest)

  known_eq : sub64 (count (ps ∷ rest)) base ≡ length (last_part ps rest)
  known_eq = omega (arith, last_base_bound 0 ps rest, small, clean.small)

  size_eq :
      stat_size healthy grown.disk (segment_name base) (segment_of base (last_part ps rest)).size
      ≡ length (encode_all whole_part)
  unfolding stat_size
  size_eq = ap (λ f. file_size f (segment_of base (last_part ps rest)).size) found

  index_eq :
      old.index
        ++ entries_from
            (length old.segments - 1)
            (sub64 (count (ps ∷ rest)) base)
            (length whole_part - sub64 (count (ps ∷ rest)) base)
      ≡ index_from 0 (add_last p ps rest)
  unfolding entries_from
  index_eq =
      ap (λ (n : ℕ). old.index ++ entries_from (length old.segments - 1) n (length whole_part - n))
        known_eq
      ∙ ap
          (λ (n : ℕ).
            old.index ++ entries_from (length old.segments - 1) (length (last_part ps rest)) n)
          {y = 1} (omega (arith, length-append (last_part ps rest) (p ∷ [])))
      ∙ ap (λ (k : ℕ). old.index ++ (entry k (length (last_part ps rest)) ∷ []))
          (omega (arith, length-segments_from 0 (ps ∷ rest)))
      ∙ sym (index_from-last 0 p ps rest)

  add_records-grown :
      add_records healthy grown.disk (segment_of base (last_part ps rest)) (length whole_part) old
      ≡ grown.log
  unfolding add_records
  add_records-grown =
      ap (λ b. if b then added else old) {y = true}
        (ground (arith, known_eq, length-append (last_part ps rest) (p ∷ [])))
      ∙ λ i. record (w.log) {
        segments =
            (ap (λ (n : ℕ). resize_last n old.segments) size_eq
                ∙ resize_last-segments_from 0 p ps rest)
              i;
        active = sym (active_of-last p ps rest) i;
        next_idx = next_eq i;
        index = index_eq i;
      }
    where
      added : Log
      added = record old {
        index =
            old.index
            ++ entries_from (length old.segments - 1) (sub64 (count (ps ∷ rest)) base)
                (length whole_part - sub64 (count (ps ∷ rest)) base);
        next_idx = u64 (base + length whole_part);
        segments =
            resize_last
              (stat_size healthy grown.disk (segment_name base)
                (segment_of base (last_part ps rest)).size)
              old.segments;
      }

      next_eq : u64 (base + length whole_part) ≡ count (add_last p ps rest)
      next_eq = omega (
        arith,
        length-append (last_part ps rest) (p ∷ []),
        last_base_bound 0 ps rest,
        small,
        clean.small,
      )

  pub refresh-grown : refresh healthy grown.disk old ≡ (none, grown.log)
  unfolding refresh refresh_last
  refresh-grown =
      ap (refresh_listed healthy grown.disk old)
        (list_segments-holding grown.disk (add_last p ps rest) refl clean.small)
      ∙ ap
          (λ bs.
            then_log (refresh_new healthy grown.disk old.segments bs old)
              (refresh_last healthy grown.disk))
          (bases_from-last 0 p ps rest)
      ∙ ap (λ r. then_log r (refresh_last healthy grown.disk))
          (refresh_new-known grown.disk (segments_from 0 (ps ∷ rest)) (bases_from 0 (ps ∷ rest)) old
            (AllKnown-bases_from 0 (ps ∷ rest)))
      ∙ ap (reread_last healthy grown.disk old) (last_segment-segments_from 0 ps rest)
      ∙ ap (add_reread healthy grown.disk (segment_of base (last_part ps rest)) old)
          (read_all-part grown.disk base whole_part found (fit_last p ps rest clean.fit))
      ∙ ap (λ l. (none, l)) add_records-grown

  -- The log that has caught up, over the files that have grown.
  abbrev behind : Wal
  behind = record { log = old; disk = grown.disk }

  last_message : get_elem? (messages (add_last p ps rest)) (count (ps ∷ rest)) ≡ some p
  last_message =
      ap (λ ms. get_elem? ms (count (ps ∷ rest))) (messages-last p ps rest)
      ∙ get_elem?-append_right (messages (ps ∷ rest)) (p ∷ []) (count (ps ∷ rest))
          (omega (arith, count-length (ps ∷ rest)))
      ∙ ap (get_elem? (p ∷ [])) {y = 0} (omega (arith, count-length (ps ∷ rest)))

  next_unprocessed-behind :
      w.log.closed_flag ≡ false
      → w.log.cur.consumed ≡ count (ps ∷ rest)
      → next_unprocessed healthy behind ≡ (ok (count (ps ∷ rest), p), grown)
  next_unprocessed-behind opened caught_up =
      next_open behind {caught_up = true} opened (ground (arith, caught_up))
      ∙ ap (after_refresh healthy behind w.log.cur.consumed) refresh-grown
      ∙ ap
          (λ b.
            if b
            then (err no_messages, grown)
            else (read_message healthy grown.disk grown.log w.log.cur.consumed, grown))
          {y = false} (ground (arith, caught_up, small))
      ∙ ap (λ r. (r, grown))
          (ap (read_message healthy grown.disk grown.log) caught_up
            ∙ read_message-holding w (add_last p ps rest) (count (ps ∷ rest)) p clean last_message)

-- A consumer that has caught up is given the message that another process has appended to the last segment:
-- NextUnprocessed on a healthy system finds it with its number, and the log in memory then holds it too. The
-- message is within the record limit, and the offsets are below 2 ^ 64.
pub next_unprocessed_sees :
    (w : Wal) (p : Bytes) (ps : List Bytes) (rest : Parts)
    → Holds w (ps ∷ rest)
    → w.log.closed_flag ≡ false
    → w.log.cur.consumed ≡ count (ps ∷ rest)
    → Fits p
    → IsU64 (suc (count (ps ∷ rest)))
    → next_unprocessed healthy (record w { disk = (append_active healthy w p).1.disk })
      ≡ (ok (count (ps ∷ rest), p), holding w (add_last p ps rest))
next_unprocessed_sees w p ps rest h opened caught_up fits small =
    ap (next_unprocessed healthy) (λ i. record { log = (h.state i).log; disk = disk_eq i })
    ∙ next_unprocessed-behind w p ps rest (IsClean-last p ps rest fits small h.clean) opened
        caught_up
  where
    disk_eq : (append_active healthy w p).1.disk ≡ (holding w (add_last p ps rest)).disk
    disk_eq =
        ap (λ v. (append_active healthy v p).1.disk) h.state
        ∙ ap (λ r. r.1.disk) (append_active-holding w p ps rest h.clean.filled small)

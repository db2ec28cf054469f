-- ===== src/Wal/Stream/Delivery.antt =====
-- NextUnprocessed of pkg/wal/wal.go on a log that holds some parts.
use nile.Prelude.{
  ℕ, zero, suc, ◌+◌, ◌-◌, ◌<◌, ◌≤◌, ◌≡◌, refl, sym, ap, ◌∙◌, arith, Bytes, length, All, get_elem?,
  get_elem?-append_left, get_elem?-append_right, Option, none, some, List, [], ◌∷◌, ltb, false, leb,
  Bool-cases, inl, inr, Bool, if◌then◌else◌,
}
use nile.Wal.Record.{no_messages, closed}
use nile.Wal.Disk.{Result, ok, err, healthy, Disk}
use nile.Wal.Segment.{Segment, read_all}
use nile.Wal.Segment.Reading.{Fits, whole}
use nile.Wal.Log.{IndexEntry, Wal, entries_from}
use nile.Wal.Log.Refresh.{refresh}
use nile.Wal.Log.Delivery.{
  pick_found, pick_record, from_segment, from_entry, read_message, after_refresh, next_unprocessed,
}
use nile.Wal.Stream.{
  Parts, messages, count, segment_of, segments_from, index_from, entry, holding, IsClean, Holds,
}
use nile.Wal.Stream.Finding.{Finds, Finds-files_from, read_all-part}
use nile.Wal.Stream.Refreshing.{refresh-holding}
use nile.Wal.Stream.Growth.{count-length}

pub length-entries_from : (k i n : ℕ) → length (entries_from k i n) ≡ n
unfolding entries_from
length-entries_from k i zero = refl
length-entries_from k i (suc n) = ap suc (length-entries_from k (i + 1) n)

entries_from_lem : (k i n m : ℕ) → n < m → get_elem? (entries_from k i m) n ≡ some (entry k (i + n))
unfolding entries_from
entries_from_lem k i n zero h = absurd (omega arith)
entries_from_lem k i zero (suc m) h = ap (λ (j : ℕ). some (entry k j)) (omega arith)
entries_from_lem k i (suc n) (suc m) h =
    entries_from_lem k (i + 1) n m (omega arith) ∙ ap (λ (j : ℕ). some (entry k j)) (omega arith)

pub get_elem?-some_lt :
    (ps : List Bytes) (n : ℕ) {p : Bytes} → get_elem? ps n ≡ some p → n < length ps
get_elem?-some_lt [] n e = cc
get_elem?-some_lt (q ∷ ps) zero e = omega arith
get_elem?-some_lt (q ∷ ps) (suc n) e = omega (arith, get_elem?-some_lt ps n e)

-- The index leads from a message's number to its segment, and to its place there.
abbrev Located : Disk → ℕ → ℕ → Parts → ℕ → Bytes → Type 0
Located disk k b parts n p =
    (e : IndexEntry) × (get_elem? (index_from k parts) n ≡ some e)
    × (i : ℕ) × (e.seg_idx ≡ k + i)
    × (seg : Segment) × (get_elem? (segments_from b parts) i ≡ some seg)
    × (qs : List Bytes) × (read_all healthy disk seg.path ≡ whole qs)
    × (get_elem? qs e.record_idx ≡ some p)

locate :
    (disk : Disk) (k b : ℕ) (parts : Parts) (n : ℕ) (p : Bytes)
    → Finds disk.stream b parts
    → All (All Fits) parts
    → get_elem? (messages parts) n ≡ some p
    → Located disk k b parts n p
locate disk k b [] n p f fit e = absurd (cc)
locate disk k b (ps ∷ rest) n p f fit e = elim (Bool-cases (ltb n (length ps))) [
  | inl here ↦
      let lt : n < length ps = ground (arith, here) in
      (
        entry k n,
        get_elem?-append_left (entries_from k 0 (length ps)) (index_from (suc k) rest) n
              (omega (arith, length-entries_from k 0 (length ps)))
            ∙ entries_from_lem k 0 n (length ps) lt
            ∙ ap (λ (j : ℕ). some (entry k j)) (omega arith),
        0,
        omega arith,
        segment_of b ps,
        refl,
        ps,
        read_all-part disk b ps f.0 fit.0,
        sym (get_elem?-append_left ps (messages rest) n lt) ∙ e,
      )
  | inr there ↦
      let ge : length ps ≤ n = ground (arith, there) in
      let (x, ix, i, s, seg, sx, qs, r, q) =
        locate disk (suc k) (b + length ps) rest (n - length ps) p f.1 fit.1
          (sym (get_elem?-append_right ps (messages rest) n ge) ∙ e) in
      (
        x,
        get_elem?-append_right (entries_from k 0 (length ps)) (index_from (suc k) rest) n
              (omega (arith, length-entries_from k 0 (length ps)))
            ∙ ap (λ (m : ℕ). get_elem? (index_from (suc k) rest) (n - m))
                (length-entries_from k 0 (length ps))
            ∙ ix,
        suc i,
        omega arith,
        seg,
        sx,
        qs,
        r,
        q,
      )
]

-- Reading by the index gives the message of that number.
pub read_message-holding :
    (w : Wal) (parts : Parts) (n : ℕ) (p : Bytes)
    → IsClean parts
    → get_elem? (messages parts) n ≡ some p
    → read_message healthy (holding w parts).disk (holding w parts).log n ≡ ok (n, p)
unfolding read_message
read_message-holding w parts n p c e =
    let disk = (holding w parts).disk in
    let l = (holding w parts).log in
    let (x, ix, i, s, seg, sx, qs, r, q) =
      locate disk 0 0 parts n p (Finds-files_from 0 parts c.filled (omega (arith, c.small))) c.fit
        e in
    ap (from_entry healthy disk l n) ix
    ∙ ap (λ (j : ℕ). from_segment healthy disk n x.record_idx (get_elem? (segments_from 0 parts) j))
        (omega arith)
    ∙ ap (from_segment healthy disk n x.record_idx) sx
    ∙ ap (pick_record n x.record_idx) r
    ∙ ap (pick_found n) q

-- The message of a number, as NextUnprocessed reports it.
abbrev pub message_at : ℕ → Option Bytes → Result (ℕ × Bytes)
message_at n none = err no_messages
message_at n (some p) = ok (n, p)

get_elem?-none : (ps : List Bytes) (n : ℕ) → length ps ≤ n → get_elem? ps n ≡ none
get_elem?-none [] n h = refl
get_elem?-none (q ∷ ps) zero h = absurd (omega arith)
get_elem?-none (q ∷ ps) (suc n) h = get_elem?-none ps n (omega arith)

pub get_elem?-lt :
    (ps : List Bytes) (n : ℕ) → n < length ps → (p : Bytes) × (get_elem? ps n ≡ some p)
get_elem?-lt [] n h = absurd (omega arith)
get_elem?-lt (q ∷ ps) zero h = (q, refl)
get_elem?-lt (q ∷ ps) (suc n) h = get_elem?-lt ps n (omega arith)

pub next_open :
    (w : Wal) {caught_up : Bool}
    → w.log.closed_flag ≡ false
    → leb w.log.next_idx w.log.cur.consumed ≡ caught_up
    → next_unprocessed healthy w ≡ (
        if caught_up
        then after_refresh healthy w w.log.cur.consumed (refresh healthy w.disk w.log)
        else (read_message healthy w.disk w.log w.log.cur.consumed, w))
unfolding next_unprocessed
next_open w opened e =
    ap
      (λ b.
        if b
        then (err closed, w)
        else if leb w.log.next_idx w.log.cur.consumed
        then after_refresh healthy w w.log.cur.consumed (refresh healthy w.disk w.log)
        else (read_message healthy w.disk w.log w.log.cur.consumed, w))
      opened
    ∙ ap
        (λ b.
          if b
          then after_refresh healthy w w.log.cur.consumed (refresh healthy w.disk w.log)
          else (read_message healthy w.disk w.log w.log.cur.consumed, w))
        e

next_unprocessed-holding :
    (w : Wal) (parts : Parts)
    → IsClean parts
    → w.log.closed_flag ≡ false
    → next_unprocessed healthy (holding w parts) ≡ (
      message_at w.log.cur.consumed (get_elem? (messages parts) w.log.cur.consumed),
      holding w parts,
    )
next_unprocessed-holding w parts c opened =
    elim (Bool-cases (leb (count parts) w.log.cur.consumed)) [
      | inl e ↦
          next_open (holding w parts) opened e
          ∙ ap (after_refresh healthy (holding w parts) w.log.cur.consumed)
              (refresh-holding w parts c)
          ∙ ap
              (λ b. if b then (err no_messages, holding w parts) else (
                read_message healthy (holding w parts).disk (holding w parts).log
                    w.log.cur.consumed,
                holding w parts,
              ))
              e
          ∙ ap (λ o. (message_at w.log.cur.consumed o, holding w parts))
              (sym (
                get_elem?-none (messages parts) w.log.cur.consumed
                  (ground (arith, e, count-length parts))))
      | inr e ↦
          let (p, q) =
            get_elem?-lt (messages parts) w.log.cur.consumed
              (ground (arith, e, count-length parts)) in
          next_open (holding w parts) opened e
          ∙ ap (λ r. (r, holding w parts))
              (read_message-holding w parts w.log.cur.consumed p c q
                ∙ ap (message_at w.log.cur.consumed) (sym q))
    ]

-- NextUnprocessed on a healthy system returns the message whose number is the cursor, with that number, or
-- that there is none when the cursor has reached the end; it changes nothing.
pub next_unprocessed-Holds :
    (w : Wal) (parts : Parts)
    → Holds w parts
    → w.log.closed_flag ≡ false
    → next_unprocessed healthy w
      ≡ (message_at w.log.cur.consumed (get_elem? (messages parts) w.log.cur.consumed), w)
next_unprocessed-Holds w parts h opened =
    ap (next_unprocessed healthy) h.state
    ∙ next_unprocessed-holding w parts h.clean opened
    ∙ ap (λ v. (message_at w.log.cur.consumed (get_elem? (messages parts) w.log.cur.consumed), v))
        (sym h.state)

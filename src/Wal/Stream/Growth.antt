-- ===== src/Wal/Stream/Growth.antt =====
-- Append of pkg/wal/wal.go, with the roll when one is due.
use nile.Prelude.{
  ℕ, suc, ◌<◌, ◌≤◌, ◌≡◌, refl, sym, ap, ◌∙◌, arith, Bytes, IsU64, length, All, List, [], ◌∷◌, ◌++◌,
  length-append, true, false, leb, Bool, Bool-cases, inl, inr, if◌then◌else◌,
}
use nile.Wal.Record.{closed}
use nile.Wal.Disk.{Result, ok, err, Os, healthy}
use nile.Wal.Segment.Reading.{encode_all, Fits}
use nile.Wal.Log.{Wal}
use nile.Wal.Log.Append.{
  must_roll, roll_segment, append_active, append_rolled, append, full_segment,
}
use nile.Wal.Stream.{Parts, messages, count, holding, Filled, IsClean, Holds}
use nile.Wal.Stream.Layout.{last_part, add_last, last_segment_lem, count-last, messages-last}
use nile.Wal.Stream.Append.{append_active-holding}
use nile.Wal.Stream.Roll.{
  Full, Full-last, roll_segment-holding, IsClean-roll, messages-roll, count-roll,
}

pub count-length : (parts : Parts) → count parts ≡ length (messages parts)
count-length [] = refl
count-length (ps ∷ rest) = omega (arith, count-length rest, length-append ps (messages rest))

-- A segment that has reached a positive limit holds a record.
must_roll-Full :
    (w : Wal) (parts : Parts)
    → Filled parts
    → 0 < w.log.opts.segment_size
    → must_roll (holding w parts).log ≡ true
    → Full parts
unfolding must_roll
must_roll-Full w [] h pos e = tt
must_roll-Full w (ps ∷ rest) h pos e =
    Full-last ps rest h (nonempty (last_part ps rest) (omega (arith, size)))
  where
    nonempty : (qs : List Bytes) → 0 < length (encode_all qs) → 0 < length qs
    nonempty [] k = absurd (omega arith)
    nonempty (q ∷ qs) k = omega arith

    reached : leb w.log.opts.segment_size (length (encode_all (last_part ps rest))) ≡ true
    reached = sym (ap (full_segment w.log.opts.segment_size) (last_segment_lem 0 ps rest)) ∙ e

    size : w.log.opts.segment_size ≤ length (encode_all (last_part ps rest))
    size = ground (arith, reached)

must_roll-nil : (w : Wal) → must_roll (holding w []).log ≡ true
unfolding must_roll
must_roll-nil w = refl

Filled-last :
    (p : Bytes) (ps : List Bytes) (rest : Parts) → Filled (ps ∷ rest) → Filled (add_last p ps rest)
Filled-last p ps [] h = tt
Filled-last p ps (q ∷ []) h = (h.0, tt)
Filled-last p ps (q ∷ (r ∷ s)) h = (h.0, Filled-last p q (r ∷ s) h.1)

fit-last :
    (p : Bytes) (ps : List Bytes) (rest : Parts)
    → Fits p
    → All (All Fits) (ps ∷ rest)
    → All (All Fits) (add_last p ps rest)
fit-last p ps [] f h = (go ps h.0, tt)
  where
    go : (qs : List Bytes) → All Fits qs → All Fits (qs ++ (p ∷ []))
    go [] k = (f, tt)
    go (q ∷ qs) k = (k.0, go qs k.1)
fit-last p ps (q ∷ r) f h = (h.0, fit-last p q r f h.1)

pub IsClean-last :
    (p : Bytes) (ps : List Bytes) (rest : Parts)
    → Fits p
    → IsU64 (suc (count (ps ∷ rest)))
    → IsClean (ps ∷ rest)
    → IsClean (add_last p ps rest)
IsClean-last p ps rest f small c = record {
  filled = Filled-last p ps rest c.filled;
  fit = fit-last p ps rest f c.fit;
  small = omega (arith, count-last p ps rest);
}

-- What a log that holds `parts` does with one more message.
abbrev Grows : Wal → Bytes → Parts → Result ℕ × Wal → Type 0
Grows w p parts r =
    (parts' : Parts) × (r ≡ (ok (count parts), holding w parts'))
    × IsClean parts'
    × (messages parts' ≡ messages parts ++ (p ∷ []))

append_active-Grows :
    (w : Wal) (p : Bytes) (ps : List Bytes) (rest : Parts)
    → IsClean (ps ∷ rest)
    → Fits p
    → IsU64 (suc (count (ps ∷ rest)))
    → Grows w p (ps ∷ rest) (append_active healthy (holding w (ps ∷ rest)) p)
append_active-Grows w p ps rest c f small = (
  add_last p ps rest,
  append_active-holding w p ps rest c.filled small,
  IsClean-last p ps rest f small c,
  messages-last p ps rest,
)

rolled-Grows :
    (w : Wal) (p : Bytes) (parts : Parts)
    → IsClean parts
    → Full parts
    → Fits p
    → IsU64 (suc (count parts))
    → Grows w p parts (append_rolled healthy p (roll_segment healthy (holding w parts)))
rolled-Grows w p parts c h f small =
    let e = ap (append_rolled healthy p) (roll_segment-holding w parts h (omega arith)) in
    let (parts', r, c', m) = go parts (IsClean-roll parts c h) (omega (arith, count-roll parts)) in
    (
      parts',
      e ∙ r ∙ ap (λ (n : ℕ). (ok n, holding w parts')) (sym (count-roll parts)),
      c',
      m ∙ ap (λ t. t ++ (p ∷ [])) (messages-roll parts),
    )
  where
    go :
        (qs : Parts)
        → IsClean (qs ++ ([] ∷ []))
        → IsU64 (suc (count (qs ++ ([] ∷ []))))
        → Grows w p (qs ++ ([] ∷ [])) (append_active healthy (holding w (qs ++ ([] ∷ []))) p)
    go [] k s = append_active-Grows w p [] [] k f s
    go (ps ∷ rest) k s = append_active-Grows w p ps (rest ++ ([] ∷ [])) k f s

pub append_open :
    (os : Os) (w : Wal) (p : Bytes) {roll : Bool}
    → w.log.closed_flag ≡ false
    → must_roll w.log ≡ roll
    → append os p w
      ≡ (if roll then append_rolled os p (roll_segment os w) else append_active os w p)
unfolding append
append_open os w p opened e =
    ap
      (λ b.
        if b
        then (err closed, w)
        else if must_roll w.log
        then append_rolled os p (roll_segment os w)
        else append_active os w p)
      opened
    ∙ ap (λ b. if b then append_rolled os p (roll_segment os w) else append_active os w p) e

append-Grows :
    (w : Wal) (p : Bytes) (parts : Parts)
    → w.log.closed_flag ≡ false
    → 0 < w.log.opts.segment_size
    → IsClean parts
    → Fits p
    → IsU64 (suc (count parts))
    → Grows w p parts (append healthy p (holding w parts))
append-Grows w p parts opened pos c f small = elim (Bool-cases (must_roll (holding w parts).log)) [
  | inl e ↦
      via (append_open healthy (holding w parts) p opened e)
        (rolled-Grows w p parts c (must_roll-Full w parts c.filled pos e) f small)
  | inr e ↦ via (append_open healthy (holding w parts) p opened e) (stay parts c small e)
]
  where
    via : {r s : Result ℕ × Wal} → r ≡ s → Grows w p parts s → Grows w p parts r
    via e (parts', r, c', m) = (parts', e ∙ r, c', m)

    stay :
        (qs : Parts)
        → IsClean qs
        → IsU64 (suc (count qs))
        → must_roll (holding w qs).log ≡ false
        → Grows w p qs (append_active healthy (holding w qs) p)
    stay [] k s e = cc (must_roll-nil w, e)
    stay (ps ∷ rest) k s e = append_active-Grows w p ps rest k f s

-- Append on a healthy system returns the number of messages so far as the offset, and the log then
-- holds the same messages with the new one behind them, in memory and on disk; the cursor, the
-- options and the other files stay. The log is open, its segment size is positive, the payload
-- within the record limit, and the offsets below 2 ^ 64.
pub append-Holds :
    (w : Wal) (p : Bytes) (parts : Parts)
    → Holds w parts
    → w.log.closed_flag ≡ false
    → 0 < w.log.opts.segment_size
    → Fits p
    → IsU64 (suc (count parts))
    → (parts' : Parts) × (append healthy p w ≡ (ok (length (messages parts)), holding w parts'))
      × Holds (holding w parts') parts'
      × (messages parts' ≡ messages parts ++ (p ∷ []))
append-Holds w p parts h opened pos f small =
    let (parts', r, c, m) = append-Grows w p parts opened pos h.clean f small in
    (
      parts',
      ap (append healthy p) h.state
          ∙ r
          ∙ ap (λ (n : ℕ). (ok n, holding w parts')) (count-length parts),
      record { state = refl; clean = c },
      m,
    )

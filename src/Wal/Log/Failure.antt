-- ===== src/Wal/Log/Failure.antt =====
-- Append of pkg/wal/wal.go when it returns an error.
use nile.Prelude.{
  ℕ, ◌≡◌, refl, ◌∙◌, arith, Bytes, Option, none, some, false, true, Bool, if◌then◌else◌,
}
use nile.Wal.Record.{Error, closed}
use nile.Wal.Disk.{Result, ok, err, Os, Disk}
use nile.Wal.Segment
use nile.Wal.Segment.{Segment, create_segment}
use nile.Wal.Log.{Wal}
use nile.Wal.Log.Append.{
  append, appended, append_to, append_active, append_rolled, roll_segment, rolled, active_segment,
  must_roll,
}

-- The files that Append has nothing to do with.
abbrev SameFiles : Disk → Disk → Type 0
SameFiles d d' = (d'.cursor ≡ d.cursor) × (d'.dead ≡ d.dead) × (d'.snapshots ≡ d.snapshots)

abbrev pub Untouched : Wal → Wal → Type 0
Untouched w w' =
    (w'.log.next_idx ≡ w.log.next_idx)
    × (w'.log.index ≡ w.log.index)
    × (w'.log.cur ≡ w.log.cur)
    × (w'.disk.cursor ≡ w.disk.cursor)
    × (w'.disk.dead ≡ w.disk.dead)
    × (w'.disk.snapshots ≡ w.disk.snapshots)

create_segment-SameFiles : (os : Os) (d : Disk) (b : ℕ) → SameFiles d (create_segment os d b).1
unfolding create_segment
create_segment-SameFiles os d b = ground arith

append-SameFiles :
    (os : Os) (d : Disk) (seg : Segment) (p : Bytes) → SameFiles d (Segment.append os d seg p).1
unfolding Segment.append
append-SameFiles os d seg p = ground arith

-- A step that returns an error leaves the log untouched.
abbrev Safe : Wal → Result ℕ × Wal → Type 0
Safe w r = (e : Error) → r.0 ≡ err e → Untouched w r.1

appended-Safe :
    (w₀ w : Wal) (a : ℕ) (seg : Segment) (r : Result Segment × Disk)
    → Untouched w₀ w
    → SameFiles w.disk r.1
    → Safe w₀ (appended w a seg r)
appended-Safe w₀ w a seg (err x, d) (n, i, c, k, l, s) (k', l', s') e h =
    (n, i, c, k' ∙ k, l' ∙ l, s' ∙ s)
appended-Safe w₀ w a seg (ok s, d) u f e h = absurd (cc)

append_to-Safe :
    (os : Os) (w₀ w : Wal) (p : Bytes) (o : Option (ℕ × Segment))
    → Untouched w₀ w
    → Safe w₀ (append_to os w p o)
unfolding append_to
append_to-Safe os w₀ w p none u e h = u
append_to-Safe os w₀ w p (some (a, seg)) u e h =
    appended-Safe w₀ w a seg (Segment.append os w.disk seg p) u (append-SameFiles os w.disk seg p) e
      h

rolled-Untouched :
    (w : Wal) (r : Result Segment × Disk) → SameFiles w.disk r.1 → Untouched w (rolled w r).1
rolled-Untouched w (err e, d) (k, l, s) = (refl, refl, refl, k, l, s)
rolled-Untouched w (ok seg, d) (k, l, s) = (refl, refl, refl, k, l, s)

append_rolled-Safe :
    (os : Os) (p : Bytes) (w : Wal) (r : Option Error × Wal)
    → Untouched w r.1
    → Safe w (append_rolled os p r)
unfolding append_active
append_rolled-Safe os p w (some x, v) u e h = u
append_rolled-Safe os p w (none, v) u e h = append_to-Safe os w v p (active_segment v.log) u e h

if-Safe :
    (w : Wal) (b : Bool) (r s : Result ℕ × Wal) → Safe w r → Safe w s → Safe w (if b then r else s)
if-Safe w true r s h k = h
if-Safe w false r s h k = k

-- Append that returns an error, whatever system call has failed, has given out no number: the next index, the
-- index and the cursor in memory stay, and so do cursor.json, the dead letters and the snapshots.
pub append_failed :
    (os : Os) (p : Bytes) (w : Wal) (e : Error)
    → (append os p w).0 ≡ err e
    → Untouched w (append os p w).1
unfolding append roll_segment append_active
append_failed os p w =
    if-Safe w w.log.closed_flag (err closed, w) _ (λ e h. same)
      (if-Safe w (must_roll w.log) (append_rolled os p (roll_segment os w)) (append_active os w p)
        (append_rolled-Safe os p w (roll_segment os w) (
          rolled-Untouched w (create_segment os w.disk w.log.next_idx)
            (create_segment-SameFiles os w.disk w.log.next_idx)))
        (append_to-Safe os w w p (active_segment w.log) same))
  where
    same : Untouched w w
    same = (refl, refl, refl, refl, refl, refl)

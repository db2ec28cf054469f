-- ===== src/Wal/Stream/Writers.antt =====
-- Append of pkg/wal/wal.go in two processes that have opened the same log.
use nile.Prelude.{
  ℕ, ◌+◌, ◌≡◌, refl, sym, ap, subst, ◌∙◌, arith, Bytes, IsU64, length, false, List, [], ◌∷◌, ◌++◌,
  append_assoc,
}
use nile.Wal.Record.{encode_record}
use nile.Wal.Name.{segment_name}
use nile.Wal.Disk.{Result, ok, healthy, append_file}
use nile.Wal.Segment
use nile.Wal.Segment.Reading.{Fits}
use nile.Wal.Log.{Wal}
use nile.Wal.Log.Append.{append, append_active, append_to, must_roll}
use nile.Wal.Stream.{Parts, count, messages, files_from, holding, IsClean, Holds}
use nile.Wal.Stream.Layout.{last_base, add_last, append_file-last, messages-last}
use nile.Wal.Stream.Append.{active_segment-holding, append_active-holding}
use nile.Wal.Stream.Growth.{IsClean-last, count-length}

-- The same parts as a first one and the others, after one more message.
record Regrown (q : Bytes) (b : ℕ) (ps : List Bytes) (rest : Parts) : Type 0 where
  first : List Bytes
  others : Parts
  same : add_last q ps rest ≡ first ∷ others
  base : last_base b first others ≡ last_base b ps rest

regrown : (q : Bytes) (b : ℕ) (ps : List Bytes) (rest : Parts) → Regrown q b ps rest
regrown q b ps [] = record { first = ps ++ (q ∷ []); others = []; same = refl; base = refl }
regrown q b ps (s ∷ t) =
    let r = regrown q (b + length ps) s t in
    record {
      first = ps;
      others = r.first ∷ r.others;
      same = ap (λ u. ps ∷ u) r.same;
      base = r.base;
    }

append_opened :
    (w : Wal) (p : Bytes)
    → w.log.closed_flag ≡ false
    → must_roll w.log ≡ false
    → append healthy p w ≡ append_active healthy w p
unfolding append
append_opened w p opened room = rw (opened, append, room) refl

module _ (w : Wal) (q p : Bytes) (ps : List Bytes) (rest : Parts) (clean : IsClean (ps ∷ rest))
    (fits : Fits q) (small : IsU64 (count (ps ∷ rest) + 2)) where
  abbrev grown : Parts
  grown = add_last q ps rest

  -- The log of the second writer, over the files as the first one has left them.
  abbrev behind : Wal
  behind = record { log = (holding w (ps ∷ rest)).log; disk = (holding w grown).disk }

  again : Regrown q 0 ps rest
  again = regrown q 0 ps rest

  abbrev both : Parts
  both = add_last p again.first again.others

  messages-both : messages both ≡ messages (ps ∷ rest) ++ (q ∷ (p ∷ []))
  messages-both =
      messages-last p again.first again.others
      ∙ ap (λ (u : Parts). messages u ++ (p ∷ [])) (sym again.same)
      ∙ ap (λ t. t ++ (p ∷ [])) (messages-last q ps rest)
      ∙ append_assoc (messages (ps ∷ rest)) (q ∷ []) (p ∷ [])

  again-IsClean : IsClean (again.first ∷ again.others)
  again-IsClean =
      subst IsClean again.same (IsClean-last q ps rest fits (omega (arith, small)) clean)

  stream_eq :
      append_file (segment_name (last_base 0 ps rest)) (encode_record p) (files_from 0 grown)
      ≡ files_from 0 both
  stream_eq =
      ap (λ n. append_file (segment_name n) (encode_record p) (files_from 0 grown)) (sym again.base)
      ∙ ap
          (λ u.
            append_file (segment_name (last_base 0 again.first again.others)) (encode_record p)
              (files_from 0 u))
          again.same
      ∙ append_file-last 0 p again.first again.others again-IsClean.filled
          (omega (arith, again-IsClean.small))

  append_active-behind :
      let r = append_active healthy behind p in
      (r.0 ≡ ok (count (ps ∷ rest))) × (r.1.disk.stream ≡ files_from 0 both)
  unfolding append_active append_to Segment.append
  append_active-behind =
      let e = ap (append_to healthy behind p) (active_segment-holding w ps rest) in
      (
        ap (λ (r : Result ℕ × Wal). r.0) e,
        ap (λ (r : Result ℕ × Wal). r.1.disk.stream) e ∙ stream_eq,
      )

-- Two processes have opened the same log, and neither begins a new segment; first one appends a message, then
-- the other one. On a healthy system both calls of Append return the same offset, the number of messages at the
-- beginning. No message is lost: the files are then those of the old messages with both behind
-- them, in the order of the calls. The log is open, the first message within the record limit, and the offsets
-- are below 2 ^ 64.
pub append_twice :
    (w : Wal) (q p : Bytes) (ps : List Bytes) (rest : Parts)
    → Holds w (ps ∷ rest)
    → w.log.closed_flag ≡ false
    → must_roll w.log ≡ false
    → Fits q
    → IsU64 (count (ps ∷ rest) + 2)
    → let a = append healthy q w in
      let b = append healthy p (record { log = w.log; disk = a.1.disk }) in
      (a.0 ≡ ok (length (messages (ps ∷ rest))))
      × (b.0 ≡ ok (length (messages (ps ∷ rest))))
      × ((parts : Parts) × (b.1.disk.stream ≡ files_from 0 parts)
          × (messages parts ≡ messages (ps ∷ rest) ++ (q ∷ (p ∷ []))))
append_twice w q p ps rest h opened room fits small =
    let n = count-length (ps ∷ rest) in
    let first : append healthy q w ≡ (ok (count (ps ∷ rest)), holding w (add_last q ps rest)) =
      append_opened w q opened room
      ∙ ap (λ (v : Wal). append_active healthy v q) h.state
      ∙ append_active-holding w q ps rest h.clean.filled (omega (arith, small)) in
    let second : append healthy p (record { log = w.log; disk = (append healthy q w).1.disk })
        ≡ append_active healthy (behind w q p ps rest h.clean fits small) p =
      append_opened (record { log = w.log; disk = (append healthy q w).1.disk }) p opened room
      ∙ (λ i.
          append_active healthy (record { log = (h.state i).log; disk = (first i).1.disk }) p) in
    let (offset, stream) = append_active-behind w q p ps rest h.clean fits small in
    (
      ap (λ (r : Result ℕ × Wal). r.0) first ∙ ap ok n,
      ap (λ (r : Result ℕ × Wal). r.0) second ∙ offset ∙ ap ok n,
      (
        both w q p ps rest h.clean fits small,
        ap (λ (r : Result ℕ × Wal). r.1.disk.stream) second ∙ stream,
        messages-both w q p ps rest h.clean fits small,
      ),
    )

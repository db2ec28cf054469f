-- ===== src/Wal/Stream/Recovery.antt =====
-- Open of pkg/wal/wal.go on files that hold some parts.
use nile.Prelude.{
  ℕ, suc, ◌+◌, ◌≡◌, refl, sym, ap, subst, ◌∙◌, arith, Bytes, IsU64, length, All, some, List, [],
  ◌∷◌, ◌++◌, length-append, append_assoc, append-nil, false,
}
use nile.Wal.Name.{segment_name}
use nile.Wal.Disk.{ok, healthy, Disk, CursorState}
use nile.Wal.Segment.Reading.{Fits}
use nile.Wal.Cursor.{load}
use nile.Wal.Log.{Options, Log, Wal, entries_from, raise_next}
use nile.Wal.Log.Recovery.{
  add_segment, reopen, add_read, recover_opened, recover_one, then_ok, recover_loop,
  recover_indices, recover, fresh_log, recover_loaded, open_log,
}
use nile.Wal.Stream.{
  Parts, count, segment_of, segments_from, files_from, bases_from, index_from, holding, IsClean,
  Holds,
}
use nile.Wal.Stream.Finding.{
  Finds, Finds-files_from, read_all-part, open_segment-part, list_segments-holding,
}

pub raise_next-lem : (b n : ℕ) → IsU64 (b + n) → raise_next b n b ≡ b + n
unfolding raise_next
raise_next-lem b n small = ground arith

recover_one-part :
    (disk : Disk) (more : List ℕ) (b : ℕ) (ps : List Bytes) (l : Log)
    → Finds disk.stream b (ps ∷ [])
    → All Fits ps
    → recover_one healthy disk more b l
      ≡ reopen healthy more
          (segment_name b)
          (length l.segments)
          (add_segment l (segment_of b ps) (length ps))
unfolding recover_one
recover_one-part disk more b ps l h fit =
    ap (recover_opened healthy disk more l) (open_segment-part disk b ps h.0)
    ∙ ap (add_read healthy more l (segment_of b ps)) (read_all-part disk b ps h.0 fit)

-- `l`, which ends before message `b`, with the segments of the parts behind its own.
abbrev extended : Log → ℕ → List Bytes → Parts → Log
extended l b ps rest = record l {
  segments = l.segments ++ segments_from b (ps ∷ rest);
  index = l.index ++ index_from (length l.segments) (ps ∷ rest);
  next_idx = b + count (ps ∷ rest);
  active = some (length l.segments + length rest);
}

add_segment-part :
    (l : Log) (b : ℕ) (ps : List Bytes)
    → l.next_idx ≡ b
    → IsU64 (b + length ps)
    → add_segment l (segment_of b ps) (length ps) ≡ record l {
      segments = l.segments ++ (segment_of b ps ∷ []);
      index = l.index ++ entries_from (length l.segments) 0 (length ps);
      next_idx = b + length ps;
    }
unfolding add_segment
add_segment-part l b ps e small = λ i. record l {
  segments = l.segments ++ (segment_of b ps ∷ []);
  index = l.index ++ entries_from (length l.segments) 0 (length ps);
  next_idx = (ap (raise_next b (length ps)) e ∙ raise_next-lem b (length ps) small) i;
}

recover_loop-parts :
    (disk : Disk) (b : ℕ) (ps : List Bytes) (rest : Parts) (l : Log)
    → Finds disk.stream b (ps ∷ rest)
    → All (All Fits) (ps ∷ rest)
    → l.next_idx ≡ b
    → IsU64 (b + count (ps ∷ rest))
    → recover_loop healthy disk (bases_from b (ps ∷ rest)) l ≡ ok (extended l b ps rest)
unfolding recover_loop
recover_loop-parts disk b ps [] l h fit e small =
    ap (λ r. then_ok r (λ l'. ok l'))
      (recover_one-part disk [] b ps l h fit.0
        ∙ ap (reopen healthy [] (segment_name b) (length l.segments))
            (add_segment-part l b ps e (omega arith)))
    ∙ λ i. ok (record l {
      segments = l.segments ++ (segment_of b ps ∷ []);
      index = l.index ++ sym (append-nil (entries_from (length l.segments) 0 (length ps))) i;
      next_idx = next_eq i;
      active = active_eq i;
    })
  where
    next_eq : b + length ps ≡ b + count (ps ∷ [])
    next_eq = omega arith

    active_eq : some (length l.segments) ≡ some (length l.segments + 0)
    active_eq = ap some (omega arith)
recover_loop-parts disk b ps (q ∷ r) l h fit e small =
    ap (λ x. then_ok x (recover_loop healthy disk (bases_from (b + length ps) (q ∷ r))))
      (recover_one-part disk (bases_from (b + length ps) (q ∷ r)) b ps l (h.0, tt) fit.0
        ∙ ap ok (add_segment-part l b ps e (omega arith)))
    ∙ recover_loop-parts disk (b + length ps) q r l' h.1 fit.1 refl (omega arith)
    ∙ λ i. ok (record l {
      segments =
          append_assoc l.segments (segment_of b ps ∷ []) (segments_from (b + length ps) (q ∷ r)) i;
      index = index_eq i;
      next_idx = next_eq i;
      active = active_eq i;
    })
  where
    l' : Log
    l' = record l {
      segments = l.segments ++ (segment_of b ps ∷ []);
      index = l.index ++ entries_from (length l.segments) 0 (length ps);
      next_idx = b + length ps;
    }

    one_more : length l'.segments ≡ suc (length l.segments)
    one_more = omega (arith, length-append l.segments (segment_of b ps ∷ []))

    next_eq : b + length ps + count (q ∷ r) ≡ b + count (ps ∷ (q ∷ r))
    next_eq = omega arith

    active_eq : some (length l'.segments + length r) ≡ some (length l.segments + length (q ∷ r))
    active_eq = ap some (omega (arith, one_more))

    index_eq :
        (l.index ++ entries_from (length l.segments) 0 (length ps))
          ++ index_from (length l'.segments) (q ∷ r)
        ≡ l.index ++ index_from (length l.segments) (ps ∷ (q ∷ r))
    index_eq =
        append_assoc l.index (entries_from (length l.segments) 0 (length ps))
          (index_from (length l'.segments) (q ∷ r))
        ∙ ap
            (λ (n : ℕ).
              l.index ++ (entries_from (length l.segments) 0 (length ps) ++ index_from n (q ∷ r)))
            one_more

recover-holding :
    (disk : Disk) (opts : Options) (state : CursorState) (parts : Parts)
    → disk.stream ≡ files_from 0 parts
    → IsClean parts
    → recover healthy disk (fresh_log opts state)
      ≡ ok (holding (record { log = fresh_log opts state; disk = disk }) parts).log
unfolding recover
recover-holding disk opts state [] e c =
    ap (recover_indices healthy disk (fresh_log opts state))
      (list_segments-holding disk [] e c.small)
recover-holding disk opts state (ps ∷ rest) e c =
    ap (recover_indices healthy disk (fresh_log opts state))
      (list_segments-holding disk (ps ∷ rest) e c.small)
    ∙ recover_loop-parts disk 0 ps rest (fresh_log opts state) finds c.fit refl
        (omega (arith, c.small))
    ∙ λ i. ok (record (fresh_log opts state) {
      segments = segments_from 0 (ps ∷ rest);
      index = index_from 0 (ps ∷ rest);
      next_idx = next_eq i;
      active = active_eq i;
    })
  where
    finds : Finds disk.stream 0 (ps ∷ rest)
    finds =
        subst (λ files. Finds files 0 (ps ∷ rest)) (sym e)
          (Finds-files_from 0 (ps ∷ rest) c.filled (omega (arith, c.small)))

    next_eq : 0 + count (ps ∷ rest) ≡ count (ps ∷ rest)
    next_eq = omega arith

    active_eq : some (0 + length rest) ≡ some (length rest)
    active_eq = ap some (omega arith)

-- Open on a healthy system, on the files that a log `w` left and with the cursor that is on disk: the
-- log that it returns is open and holds the same messages at the same numbers, with that cursor.
pub open_log-Holds :
    (w : Wal) (parts : Parts) (opts : Options) (state : CursorState)
    → Holds w parts
    → load healthy w.disk ≡ ok state
    → (l : Log) × (open_log healthy opts w.disk ≡ ok l)
      × Holds (record { log = l; disk = w.disk }) parts
      × (l.cur ≡ state)
      × (l.closed_flag ≡ false)
      × (l.opts ≡ opts)
unfolding open_log
open_log-Holds w parts opts state h loaded = (
  (holding v parts).log,
  ap (recover_loaded healthy opts w.disk) loaded
      ∙ recover-holding w.disk opts state parts stream_eq h.clean,
  record {
    state = λ i. record {
      log = (holding v parts).log;
      disk = record (w.disk) { stream = stream_eq i };
    };
    clean = h.clean;
  },
  refl,
  refl,
  refl,
)
  where
    v : Wal
    v = record { log = fresh_log opts state; disk = w.disk }

    stream_eq : w.disk.stream ≡ files_from 0 parts
    stream_eq = ap (λ (x : Wal). x.disk.stream) h.state

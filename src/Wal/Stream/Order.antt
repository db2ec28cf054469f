-- ===== src/Wal/Stream/Order.antt =====
-- A consumer of the store of pkg/store: take the next message, mark it processed, again and again.
use nile.Prelude.{
  ℕ, zero, suc, ◌<◌, ◌≡◌, refl, sym, ap, ◌∙◌, arith, Bytes, take, drop, get_elem?, Option, none,
  some, List, [], ◌∷◌, false,
}
use nile.Wal.Record.{Error}
use nile.Wal.Disk.{Result, ok, err, healthy, CursorState}
use nile.Wal.Log.{Wal}
use nile.Wal.Log.Delivery.{consume, next_unprocessed, mark_processed}
use nile.Wal.Stream.{Parts, messages, Holds}
use nile.Wal.Stream.Delivery.{message_at, get_elem?-some_lt, next_unprocessed-Holds}
use nile.Wal.Stream.Cursor.{mark_processed-Holds}
use nile.Wal.Stream.Growth.{count-length}

abbrev marked : ℕ → Bytes → (Wal → List Bytes) → Option Error × Wal → List Bytes
marked offset p more (some e, w) = p ∷ []
marked offset p more (none, w) = p ∷ more w

abbrev taken : (Wal → List Bytes) → Result (ℕ × Bytes) × Wal → List Bytes
taken more (err e, w) = []
taken more (ok (offset, p), w) = marked offset p more (mark_processed healthy offset w)

-- The payloads of at most `n` rounds.
pub deliver : ℕ → Wal → List Bytes
deliver zero w = []
deliver (suc n) w = taken (deliver n) (next_unprocessed healthy w)

pub drop_step :
    (n k : ℕ) (ps : List Bytes)
    → take (suc n) (drop k ps)
      ≡ (elim (get_elem? ps k) [ none ↦ [] | some p ↦ p ∷ take n (drop (suc k) ps) ])
drop_step n zero [] = refl
drop_step n zero (p ∷ ps) = refl
drop_step n (suc k) [] = refl
drop_step n (suc k) (p ∷ ps) = drop_step n k ps

pub one_past :
    (cur : CursorState)
    → suc cur.consumed < 18446744073709551616
    → (consume cur.consumed cur).consumed ≡ suc cur.consumed
unfolding consume
one_past cur h = ground arith

-- On a healthy system, from an open log that holds some messages, a consumer is given exactly those from the
-- cursor on, each once and in order, as many as there are rounds.
pub deliver_in_order :
    (n : ℕ) (w : Wal) (parts : Parts)
    → Holds w parts
    → w.log.closed_flag ≡ false
    → deliver n w ≡ take n (drop w.log.cur.consumed (messages parts))
unfolding deliver
deliver_in_order zero w parts h opened = refl
deliver_in_order (suc n) w parts h opened =
    ap (taken (deliver n)) (next_unprocessed-Holds w parts h opened)
    ∙ go (get_elem? (messages parts) w.log.cur.consumed) refl (λ w'. deliver_in_order n w' parts)
    ∙ sym (drop_step n w.log.cur.consumed (messages parts))
  where
    go :
        (o : Option Bytes)
        → get_elem? (messages parts) w.log.cur.consumed ≡ o
        → ((w' : Wal)
            → Holds w' parts
            → w'.log.closed_flag ≡ false
            → deliver n w' ≡ take n (drop w'.log.cur.consumed (messages parts)))
        → taken (deliver n) (message_at w.log.cur.consumed o, w) ≡ (elim o [
          | none ↦ []
          | some p ↦ p ∷ take n (drop (suc w.log.cur.consumed) (messages parts))
        ])
    go none e ih = refl
    go (some p) e ih =
        let (w', m, h', cur, loaded, opened', kept) =
          mark_processed-Holds w parts w.log.cur.consumed h opened in
        ap (marked w.log.cur.consumed p (deliver n)) m
        ∙ ap (λ t. p ∷ t)
            (ih w' h' opened'
              ∙ ap (λ (k : ℕ). take n (drop k (messages parts)))
                  (ap (λ (c : CursorState). c.consumed) cur
                    ∙ one_past w.log.cur (
                        omega (
                          arith,
                          get_elem?-some_lt (messages parts) w.log.cur.consumed e,
                          count-length parts,
                          h.clean.small,
                        ))))

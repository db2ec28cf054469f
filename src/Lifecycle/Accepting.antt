-- ===== src/Lifecycle/Accepting.antt =====
-- A neb that accepts every message of pkg/lifecycle/manager.go, and the lists of messages it is given.
use nile.Prelude.{
  ℕ, zero, suc, ◌≤◌, ◌≡◌, ap, subst, arith, Bytes, IsByte, IsU64, false, some, List, [], ◌∷◌, ◌++◌,
  take, drop, get_elem?, All,
}
use nile.Wal.Log.{Log, retention_exceeded, total_size}
use nile.Protocol.{message, message_params, new_request, StatusResult}
use nile.Base64.{encode_base64}
use nile.Transport.{Transport}
use nile.Lifecycle.Manager.{answered, answer}

-- A neb that, once ready, accepts every message whose payload is bytes, with numbers of 64 bits, and stays so; `seen` is what it has
-- taken in, an `entry` for each message with its offset.
pub record Accepts {T X : Type 0} (transport : Transport T) (Ready : T → Type 0) (seen : T → List X)
    (entry : ℕ → Bytes → X) : Type 0 where
  pub accepts :
      (id offset : ℕ) (p : Bytes) (t : T)
      → IsU64 id
      → IsU64 offset
      → All IsByte p
      → Ready t
      → let r =
          transport.send (new_request id message (message_params offset (encode_base64 p))) t in
        (a : StatusResult) × (answer r.0 ≡ answered a)
        × (a.post_process ≡ false)
        × Ready r.1
        × (seen r.1 ≡ seen t ++ (entry offset p ∷ []))

-- The messages `ps` with their numbers from `k` on.
abbrev pub numbered : {X : Type 0} → (ℕ → Bytes → X) → ℕ → List Bytes → List X
numbered entry k [] = []
numbered entry k (p ∷ ps) = entry k p ∷ numbered entry (suc k) ps

pub All-get_elem? :
    (ps : List Bytes) (n : ℕ) {p : Bytes}
    → All (All IsByte) ps
    → get_elem? ps n ≡ some p
    → All IsByte p
All-get_elem? [] n h e = cc
All-get_elem? (q ∷ ps) zero {p} h e = subst (All IsByte) (ground arith) h.0
All-get_elem? (q ∷ ps) (suc n) h e = All-get_elem? ps n h.1 e

pub take-drop-some :
    (n k : ℕ) (ps : List Bytes) {p : Bytes}
    → get_elem? ps k ≡ some p
    → take (suc n) (drop k ps) ≡ p ∷ take n (drop (suc k) ps)
take-drop-some n k [] e = cc
take-drop-some n zero (q ∷ ps) e = ap (λ t. t ∷ take n ps) (ground arith)
take-drop-some n (suc k) (q ∷ ps) e = take-drop-some n k ps e

pub within_limits :
    (l : Log)
    → l.cur.consumed ≤ l.opts.max_messages
    → total_size l.segments ≤ l.opts.max_bytes
    → retention_exceeded l ≡ false
unfolding retention_exceeded
within_limits l h k = ground arith

-- ===== src/Transport/Stdio/Matching.antt =====
-- Requests and responses of pkg/transport/stdio.go, matched by their order alone.
use nile.Prelude.{
  ℕ, suc, ◌≡◌, ◌⊎◌, inl, inr, refl, arith, true, false, if_cases, sym, ◌∙◌, ◌==◌, none, some, List,
  [], ◌∷◌, All,
}
use nile.Protocol.{Request}
use nile.Transport.Stdio.{
  Scan, line, silence, unreadable, Stdio, Reply, reply, no_reply, read_line, send_stdio,
}

-- The lines to come answer the requests `k`, `k + 1` and so on, each with its id.
abbrev pub InStep : ℕ → List Scan → Type 0
InStep k [] = Unit {0}
InStep k (unreadable ∷ rest) = Unit {0}
InStep k (silence ∷ rest) = InStep k rest
InStep k (line none ∷ rest) = InStep (suc k) rest
InStep k (line (some r) ∷ rest) = (r.id ≡ k) × InStep (suc k) rest

-- No later Send reaches the neb.
abbrev pub IsDead : Stdio → Type 0
IsDead s = (s.closed_flag ≡ true) ⊎ (s.broken ≡ true) ⊎ (s.writable ≡ 0)

abbrev pub Matches : ℕ → Reply → Type 0
Matches k (reply r) = r.id ≡ k
Matches k (no_reply e) = Unit {0}

abbrev Kept : ℕ → Reply × Stdio → Type 0
Kept k r = Matches k r.0 × (InStep (suc k) r.1.output ⊎ IsDead r.1)

read_line-Kept : (k : ℕ) (out : List Scan) (s : Stdio) → InStep k out → Kept k (read_line out s)
unfolding read_line
read_line-Kept k [] s h = (tt, inl tt)
read_line-Kept k (unreadable ∷ rest) s h = (tt, inl tt)
read_line-Kept k (line none ∷ rest) s h = (tt, inl h)
read_line-Kept k (line (some r) ∷ rest) s h = (h.0, inl h.1)
read_line-Kept k (silence ∷ rest) s h =
    if_cases (Kept k) s.timeout (λ e. (tt, inr (inr (inl refl)))) (λ e. read_line-Kept k rest s h)

-- One Send, in step or dead.
send_stdio-Kept :
    (req : Request) (k : ℕ) (s : Stdio) → InStep k s.output ⊎ IsDead s → Kept k (send_stdio req s)
unfolding send_stdio
send_stdio-Kept req k s h =
    if_cases (Kept k) s.closed_flag (λ e. (tt, inr (inl e)))
      (λ open_eq.
        if_cases (Kept k) s.broken (λ e. (tt, inr (inr (inl e))))
          (λ whole_eq.
            if_cases (Kept k) (s.writable == 0) (λ e. (tt, inr (inr (inr (ground arith)))))
              (λ room. read_line-Kept k s.output _ (in_step h open_eq whole_eq room))))
  where
    in_step :
        InStep k s.output ⊎ IsDead s
        → s.closed_flag ≡ false
        → s.broken ≡ false
        → (s.writable == 0) ≡ false
        → InStep k s.output
    in_step (inl i) a b c = i
    in_step (inr (inl x)) a b c = cc
    in_step (inr (inr (inl x))) a b c = cc
    in_step (inr (inr (inr x))) a b c = absurd (ground arith)

-- A sequence of Sends, and what each returned.
pub exchange : List Request → Stdio → List (Request × Reply)
exchange [] s = []
exchange (req ∷ reqs) s = let r = send_stdio req s in (req, r.0) ∷ exchange reqs r.1

abbrev pub Numbered : ℕ → List Request → Type 0
Numbered k [] = Unit {0}
Numbered k (req ∷ reqs) = (req.id ≡ k) × Numbered (suc k) reqs

-- A response is the one to the request.
abbrev pub Answers : Request × Reply → Type 0
Answers (req, reply r) = r.id ≡ req.id
Answers (req, no_reply e) = Unit {0}

Matches-Answers : (k : ℕ) (req : Request) (r : Reply) → req.id ≡ k → Matches k r → Answers (req, r)
Matches-Answers k req (reply r) h m = m ∙ sym h
Matches-Answers k req (no_reply e) h m = tt

exchange-Answers :
    (reqs : List Request) (k : ℕ) (s : Stdio)
    → Numbered k reqs
    → InStep k s.output ⊎ IsDead s
    → All Answers (exchange reqs s)
unfolding exchange
exchange-Answers [] k s n h = tt
exchange-Answers (req ∷ reqs) k s n h =
    let kept = send_stdio-Kept req k s h in
    (
      Matches-Answers k req (send_stdio req s).0 n.0 kept.0,
      exchange-Answers reqs (suc k) (send_stdio req s).1 n.1 kept.1,
    )

-- Send does not look at the id of a response. Still no request is ever given the response to another one, whatever
-- timeouts, read errors and undecodable lines come between: if the requests are numbered one by one from `k`,
-- and the neb's lines answer them in that order with their ids, each late or in time.
pub stdio-Answers :
    (reqs : List Request) (k : ℕ) (s : Stdio)
    → Numbered k reqs
    → InStep k s.output
    → All Answers (exchange reqs s)
stdio-Answers reqs k s n h = exchange-Answers reqs k s n (inl h)

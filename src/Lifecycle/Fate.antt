-- ===== src/Lifecycle/Fate.antt =====
-- What can become of a message in processMessage of pkg/lifecycle/manager.go.
use nile.Prelude.{ℕ, true, ◌<◌, ◌≤◌, ◌≡◌, refl, arith, Bytes, Option, none, some}
use nile.Protocol.{StatusResult, Response, message, message_params, new_request, parse_result}
use nile.Base64.{encode_base64}
use nile.Store.{Store}
use nile.Transport.{Transport}
use nile.Lifecycle.States.{State}
use nile.Lifecycle.Manager.{answer, answered, Manager, transition, try_transition}

module _ {S T : Type 0} (to : State) (m : Manager S T) where
  pub backend-try_transition : (try_transition to m).backend ≡ m.backend
  unfolding try_transition transition
  backend-try_transition = ground arith

  pub link-try_transition : (try_transition to m).link ≡ m.link
  unfolding try_transition transition
  link-try_transition = ground arith

  pub stop_in-try_transition : (try_transition to m).stop_in ≡ m.stop_in
  unfolding try_transition transition
  stop_in-try_transition = ground arith

  pub req_id-try_transition : (try_transition to m).req_id ≡ m.req_id
  unfolding try_transition transition
  req_id-try_transition = ground arith

-- The last thing on the link was a request with the message, which the neb answered with a result.
abbrev pub Replied : {T : Type 0} → Transport T → ℕ → Bytes → StatusResult → T → Type 0
Replied {T} transport offset p s link =
    (before : T) × (id : ℕ) × (response : Response) × (transport.send
        (new_request id message (message_params offset (encode_base64 p))) before
      ≡ (some response, link))
    × (response.error ≡ none)
    × (response.result ≡ some s)

pub answer-answered :
    (o : Option Response) (s : StatusResult)
    → answer o ≡ answered s
    → (response : Response) × (o ≡ some response)
      × (response.error ≡ none)
      × (response.result ≡ some s)
unfolding parse_result
answer-answered none s h = absurd (cc)
answer-answered (some response) s h = (response, refl, ground arith, ground arith)

-- What became of the message, by the store and the link after `used` of at most `n` requests and by the looks
-- that are left until Stop is seen: the store is as it was, since a look that found Stop ended the retries; or
-- the message is marked processed after the neb's answer to it, and perhaps post-processed if the answer asks
-- for that; or it is a dead letter after all requests.
pub data Fate {S T : Type 0} (store : Store S) (transport : Transport T) (offset : ℕ) (p : Bytes)
    (s : S) (n used : ℕ) (s' : S) (link : T) (looks : ℕ) : Type 0 where
  kept : s' ≡ s → used < n → looks ≡ 0 → Fate store transport offset p s n used s' link looks
  consumed :
      (result : StatusResult)
      → Replied transport offset p result link
      → s' ≡ (store.mark_processed offset s).1
      → 0 < used
      → used ≤ n
      → Fate store transport offset p s n used s' link looks
  post_consumed :
      (result : StatusResult)
      → Replied transport offset p result link
      → result.post_process ≡ true
      → s' ≡ (store.mark_post_processed offset (store.mark_processed offset s).1).1
      → 0 < used
      → used ≤ n
      → Fate store transport offset p s n used s' link looks
  dead :
      s' ≡ (store.dead_letter offset p s).1
      → used ≡ n
      → Fate store transport offset p s n used s' link looks

-- ===== src/LeaderFollower/Replicator/Sends.antt =====
-- What a single `_send` of leader_follower/leader.py comes to.
use kv_replication_lab.Prelude.{ℕ, ◌≡◌, refl, ◌↔◌, ◌⊎◌, inl, inr, Bool, true, false, arith}
use kv_replication_lab.Common.Waiting.{returned, raised}
use kv_replication_lab.Common.Server.{ReplicateResponse}
use kv_replication_lab.Common.Replies.{Reply, unreadable, valid, http_error, other_error, response}
use kv_replication_lab.LeaderFollower.Replicator.{send}

module _ (is_success : ℕ → Bool) where
  -- A send counts as an acknowledgment exactly when the client was open, a response with a
  -- successful status came back, and its body is a well-formed `ReplicateResponse`, whether the
  -- follower applied the write or not.
  pub send_acks_iff :
      (is_closed : Bool) (reply : Reply ReplicateResponse)
      → (send is_success is_closed reply ≡ returned true) ↔ (
          (is_closed ≡ false)
          × ((status : ℕ) × (parsed : ReplicateResponse) × (reply ≡ response status (valid parsed))
              × (is_success status ≡ true)))
  unfolding send
  send_acks_iff true reply = (λ h. absurd (ground arith), λ h. absurd (ground arith))
  send_acks_iff false http_error = (λ h. absurd (ground arith), λ h. absurd (ground arith))
  send_acks_iff false other_error = (λ h. absurd (ground arith), λ h. absurd (ground arith))
  send_acks_iff false (response status (valid parsed)) =
      (λ h. (refl, (status, parsed, refl, ground arith)), λ h. ground arith)
  send_acks_iff false (response status body) =
      (λ h. absurd (ground arith), λ h. absurd (ground arith))

  -- A send raises exactly when the client was open and either the request raised something that is
  -- no `httpx.HTTPError`, or a successful response has a body whose reading raises something that
  -- is no `JSONDecodeError`: only then can the leader's handler fail with an exception.
  pub send_raises_iff :
      (is_closed : Bool) (reply : Reply ReplicateResponse)
      → (send is_success is_closed reply ≡ raised) ↔ (
          (is_closed ≡ false)
          × ((reply ≡ other_error)
              ⊎ ((status : ℕ) × (reply ≡ response status unreadable) × (is_success status ≡ true))))
  unfolding send
  send_raises_iff true reply = (λ h. absurd (ground arith), λ h. absurd (ground arith))
  send_raises_iff false http_error = (λ h. absurd (ground arith), λ h. absurd (ground arith))
  send_raises_iff false other_error = (λ h. (refl, inl refl), λ h. refl)
  send_raises_iff false (response status unreadable) =
      (λ h. (refl, inr (status, refl, ground arith)), λ h. ground arith)
  send_raises_iff false (response status body) =
      (λ h. absurd (ground arith), λ h. absurd (ground arith))

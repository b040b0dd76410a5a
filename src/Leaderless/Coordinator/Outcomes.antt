-- ===== src/Leaderless/Coordinator/Outcomes.antt =====
-- Which answers of a peer count (`_replicate_outcome` and `_read_outcome` of leaderless/node.py).
use kv_replication_lab.Prelude.{ℕ, ◌≡◌, refl, ◌↔◌, Bool, true, none, arith}
use kv_replication_lab.Common.Waiting.{returned}
use kv_replication_lab.Common.Replies.{
  Body, unreadable, not_json, invalid, valid, Reply, http_error, other_error, response,
}
use kv_replication_lab.Common.Server.{KvResponse, ReplicateResponse}
use kv_replication_lab.Leaderless.Coordinator.{replicate_outcome, after_get}

module _ (is_success : ℕ → Bool) where
  -- A peer's answer to a write counts exactly when it is a success with a body of the right shape,
  -- whether or not the peer applied the write.
  pub replicate_outcome_iff :
      (reply : Reply ReplicateResponse)
      → (replicate_outcome is_success reply ≡ returned (true, tt)) ↔ (
          (status : ℕ) × (parsed : ReplicateResponse) × (reply ≡ response status (valid parsed))
          × (is_success status ≡ true))
  unfolding replicate_outcome
  replicate_outcome_iff reply = (counted reply, λ (s, p, e, q). rw (e, replicate_outcome, q) refl)
    where
      counted :
          (r : Reply ReplicateResponse)
          → replicate_outcome is_success r ≡ returned (true, tt)
          → (status : ℕ) × (parsed : ReplicateResponse) × (r ≡ response status (valid parsed))
            × (is_success status ≡ true)
      counted http_error h = absurd (ground arith)
      counted other_error h = absurd (ground arith)
      counted (response status unreadable) h = absurd (ground arith)
      counted (response status not_json) h = absurd (ground arith)
      counted (response status invalid) h = absurd (ground arith)
      counted (response status (valid parsed)) h = (status, parsed, refl, ground arith)

module _ {V : Type 0} where
  -- A peer's answer to a read counts as the absence of the key exactly when it is a 404.
  pub read_outcome_absent :
      (reply : Reply (KvResponse V))
      → (after_get reply ≡ returned (true, none))
        ↔ ((body : Body (KvResponse V)) × (reply ≡ response 404 body))
  unfolding after_get
  read_outcome_absent reply = (absent reply, λ (b, e). rw (e, after_get) refl)
    where
      absent :
          (r : Reply (KvResponse V))
          → after_get r ≡ returned (true, none)
          → (body : Body (KvResponse V)) × (r ≡ response 404 body)
      absent http_error h = absurd (ground arith)
      absent other_error h = absurd (ground arith)
      absent (response status unreadable) h = (unreadable, ground arith)
      absent (response status not_json) h = (not_json, ground arith)
      absent (response status invalid) h = (invalid, ground arith)
      absent (response status (valid parsed)) h = (valid parsed, ground arith)

-- ===== src/LeaderFollower/Leader/Writes.antt =====
-- What a client's write at the leader (`put_key_leader` of leader_follower/leader.py) comes to.
use kv_replication_lab.Prelude.{
  ℕ, suc, ◌+◌, ◌≤◌, ◌<◌, ◌≡◌, refl, sym, ap, ◌∙◌, ◌⊎◌, inl, inr, String, Bool, true, Option, some,
  List, [], ◌∷◌, ◌++◌, length, All, arith, some_inj, length-map,
}
use kv_replication_lab.Prelude.Int.{pos_part}
use kv_replication_lab.Common.Waiting.{Schedule, Outcome, returned, pending_after}
use kv_replication_lab.Common.Storage
use kv_replication_lab.Common.Config.{is_over}
use kv_replication_lab.Common.Server.{
  ReplicateRequest, HttpResult, ok, http_exception, PutRequest, PutResponse,
}
use kv_replication_lab.LeaderFollower.Config.{Follower}
use kv_replication_lab.LeaderFollower.Replicator.{
  Task, Replicated, acks, failed, fan_out, hand_over, ack_loop, replicate,
}
use kv_replication_lab.LeaderFollower.Replicator.Acks.{
  is_ack, All-acks, total_acks, TimedOut, ack_loop-Ended, ack_loop_total,
}
use kv_replication_lab.LeaderFollower.Leader.{LeaderState, answer, put_key_leader}

module _ {ℓ} {V : Type ℓ} (node_id : String) (now : ℕ)
    (results : ReplicateRequest V → Follower → Outcome Bool) (s : Schedule Task)
    (state : LeaderState V) (key : String) (body : PutRequest V) where
  -- What the followers are sent.
  abbrev pub payload : ReplicateRequest V
  payload = record { key = key; value = body.value; timestamp = now; node_id = node_id }

  abbrev pub tasks : List Task
  tasks = fan_out (results payload) state.replicator.config.followers

  abbrev pub required : ℕ
  required = pos_part state.replicator.config.ack_required

  abbrev pub is_late : ℕ → Bool
  is_late = is_over state.replicator.config.timeout_seconds (s.now 0)

  abbrev loop : Option Replicated
  loop = ack_loop s is_late required (suc (length tasks)) 1 tasks 0

  loop_total : (r : Replicated) × (loop ≡ some r)
  loop_total = ack_loop_total s is_late required (suc (length tasks)) 1 tasks 0 (omega arith)

  abbrev after : Replicated → LeaderState V × Outcome (HttpResult PutResponse)
  after r =
      let put = Storage.put state.storage key body.value now node_id in
      let moved = hand_over state.replicator r in
      (record { storage = put.0; replicator = moved.0 }, answer required put.1 now moved.1)

  run_lem :
      (r : Replicated)
      → loop ≡ some r
      → put_key_leader node_id now results s state key body ≡ some (after r)
  unfolding put_key_leader replicate
  run_lem r e = rw e

  -- The handler ends, whatever the followers do and whenever; and whatever it answers, the leader's
  -- own store has taken the write.
  pub put_key_leader_total :
      (end : LeaderState V × Outcome (HttpResult PutResponse)) × (put_key_leader node_id now results
          s state key body
        ≡ some end)
      × (end.0.storage ≡ (Storage.put state.storage key body.value now node_id).0)
  put_key_leader_total = let (r, e) = loop_total in (after r, run_lem r e, kept r)
    where
      kept :
          (r : Replicated)
          → (after r).0.storage ≡ (Storage.put state.storage key body.value now node_id).0
      kept r = refl

  end_of_loop :
      (e : LeaderState V × Outcome (HttpResult PutResponse))
      → put_key_leader node_id now results s state key body ≡ some e
      → (r : Replicated) × (loop ≡ some r) × (after r ≡ e)
  end_of_loop e h = let (r, q) = loop_total in (r, q, some_inj (after r) e (sym (run_lem r q) ∙ h))

  -- A 200 means that at least `ack_required` followers acknowledged the request that they were sent,
  -- with the write's key and value and the leader's id; the response has the timestamp of that request
  -- and tells whether the leader's own store applied the write under the same timestamp.
  pub put_key_leader_ok :
      (st : LeaderState V) (response : PutResponse)
      → put_key_leader node_id now results s state key body ≡ some (st, returned (ok response))
      → (required ≤ total_acks tasks)
        × (response.applied ≡ (Storage.put state.storage key body.value now node_id).1)
        × (response.timestamp ≡ payload.timestamp)
  put_key_leader_ok st response h =
      let (r, q, e) = end_of_loop (st, returned (ok response)) h in go r q (ap (λ p. p.1) e)
    where
      go :
          (r : Replicated)
          → loop ≡ some r
          → (after r).1 ≡ returned (ok response)
          → (required ≤ total_acks tasks)
            × (response.applied ≡ (Storage.put state.storage key body.value now node_id).1)
            × (response.timestamp ≡ payload.timestamp)
      go failed q e = ground arith
      go (acks n rest) q e =
          let c =
            (ack_loop-Ended s is_late required (suc (length tasks)) 1 tasks rest 0 n q).counted in
          (ground arith, ground arith, ground arith)

  -- With every follower required, a 200 means that every one of them acknowledged the write.
  pub put_key_leader_synchronous :
      (st : LeaderState V) (response : PutResponse)
      → required ≡ length state.replicator.config.followers
      → put_key_leader node_id now results s state key body ≡ some (st, returned (ok response))
      → All (λ f. results payload f ≡ returned true) state.replicator.config.followers
  put_key_leader_synchronous st response full h = every_follower state.replicator.config.followers (
      All-acks tasks (
        omega (
          arith,
          (put_key_leader_ok st response h).0,
          length-map {B = Task} (λ f. record { follower = f; result = results payload f })
              state.replicator.config.followers,
        )))
    where
      every_follower :
          (fs : List Follower)
          → All (λ t. is_ack t ≡ true) (fan_out (results payload) fs)
          → All (λ f. results payload f ≡ returned true) fs
      every_follower [] a = tt
      every_follower (f ∷ fs) a = (ground arith, every_follower fs a.1)

  -- The only error status is 503, and it means that fewer than `ack_required` acknowledgments were
  -- counted. The tasks added to the background are those that no round of waiting has reported
  -- finished, and they include every acknowledgment that was not counted. Either there are none, or in
  -- the round after the last that reported any the time was up: the clock was past the deadline, or the
  -- wait reported none of them.
  pub put_key_leader_503 :
      (st : LeaderState V) (code : ℕ)
      → put_key_leader node_id now results s state key body
        ≡ some (st, returned (http_exception code))
      → (code ≡ 503)
        × ((n : ℕ) × (rest : List Task) × (n < required)
            × (n + total_acks rest ≡ total_acks tasks)
            × (st.replicator.background ≡ state.replicator.background ++ rest)
            × ((d : ℕ) × (rest ≡ pending_after s 1 d tasks)
                × ((rest ≡ []) ⊎ TimedOut s is_late required (1 + d) rest)))
  put_key_leader_503 st code h =
      let (r, q, e) = end_of_loop (st, returned (http_exception code)) h in
      go r q (ap (λ p. p.1) e) (ap (λ p. p.0.replicator.background) e)
    where
      pending_or_late :
          (n : ℕ) (rest : List Task) (i : ℕ)
          → n < required
          → (required ≤ n) ⊎ (rest ≡ []) ⊎ TimedOut s is_late required i rest
          → (rest ≡ []) ⊎ TimedOut s is_late required i rest
      pending_or_late n rest i lt (inl w) = absurd (omega arith)
      pending_or_late n rest i lt (inr (inl w)) = inl w
      pending_or_late n rest i lt (inr (inr w)) = inr w

      go :
          (r : Replicated)
          → loop ≡ some r
          → (after r).1 ≡ returned (http_exception code)
          → (after r).0.replicator.background ≡ st.replicator.background
          → (code ≡ 503)
            × ((n : ℕ) × (rest : List Task) × (n < required)
                × (n + total_acks rest ≡ total_acks tasks)
                × (st.replicator.background ≡ state.replicator.background ++ rest)
                × ((d : ℕ) × (rest ≡ pending_after s 1 d tasks)
                    × ((rest ≡ []) ⊎ TimedOut s is_late required (1 + d) rest)))
      go failed q e b = absurd (ground arith)
      go (acks n rest) q e b =
          let ended = ack_loop-Ended s is_late required (suc (length tasks)) 1 tasks rest 0 n q in
          let few : n < required = ground arith in
          (
            ground arith,
            (
              n,
              rest,
              few,
              omega (arith, ended.counted),
              sym b,
              (ended.rounds, ended.left, pending_or_late n rest (1 + ended.rounds) few ended.why),
            ),
          )

-- ===== src/Leaderless/Node/Refusals.antt =====
-- The error answers of a leaderless node (leaderless/node.py).
use kv_replication_lab.Prelude.{
  ℕ, ◌+◌, ◌-◌, ◌≤◌, ◌<◌, ◌≡◌, sym, ap, ◌⊎◌, inl, inr, String, Bool, ◌&&◌, Option, none, some, List,
  [], ◌++◌, length, arith, Bool-cases,
}
use kv_replication_lab.Prelude.Int.{ℤ, pos, pos_part, leb_ℤ, ◌≤ℤ◌}
use kv_replication_lab.Common.Config.{get_default, is_over}
use kv_replication_lab.Prelude.Chars.{Text}
use kv_replication_lab.Common.Replies.{Reply}
use kv_replication_lab.Common.Models.{VersionedValue}
use kv_replication_lab.Common.Waiting.{Schedule, Outcome, returned, pending_after}
use kv_replication_lab.Common.Server.{http_exception, KvResponse, ReplicateRequest, PutRequest}
use kv_replication_lab.Leaderless.Config.{Node, ClusterConfig}
use kv_replication_lab.Leaderless.Coordinator.{Task, Gathered, gathered, failed, gather}
use kv_replication_lab.Leaderless.Coordinator.Tasks.{total_counts}
use kv_replication_lab.Leaderless.Coordinator.Gather.{TimedOut, gather-Ended}
use kv_replication_lab.Leaderless.Node.{
  NodeState, validate_quorum_param, coordinate_write, coordinate_read, put_key_coordinator,
  get_key_coordinator,
}
use kv_replication_lab.Leaderless.Node.Writes.{tasks, end_of_gather, after}

-- A quorum size that the cluster has nodes for.
abbrev pub InRange : ℤ → ClusterConfig → Type 0
InRange q config = (pos 1 ≤ℤ q) × (q ≤ℤ pos (length config.nodes))

validate_refuses :
    (q : ℤ) (config : ClusterConfig)
    → ¬ InRange q config
    → validate_quorum_param q (length config.nodes) ≡ some 422
unfolding validate_quorum_param
validate_refuses q config h =
    elim (Bool-cases (leb_ℤ (pos 1) q && leb_ℤ q (pos (length config.nodes)))) [
      | inl e ↦ absurd (h (ground arith, ground arith))
      | inr e ↦ rw e
    ]

validate_accepts :
    (q : ℤ) (config : ClusterConfig)
    → InRange q config
    → validate_quorum_param q (length config.nodes) ≡ none
unfolding validate_quorum_param
validate_accepts q config h = ground arith

module _ {V : Type 0} (node_id : String) (now : ℕ) (config : ClusterConfig)
    (results : ReplicateRequest V → Node → Outcome (Bool × Unit {0}))
    (s : Schedule (Task (Unit {0}))) (state : NodeState V) (key : String) (body : PutRequest V)
    (w : Option ℤ) where
  -- A write whose quorum, the request's or else the config's, is not between one and the number of
  -- nodes is answered with a 422, and nothing is stored, sent or kept.
  pub put_refused :
      ¬ InRange (get_default w config.default_w) config
      → put_key_coordinator node_id now config results s state key body w
        ≡ some (state, returned (http_exception 422))
  unfolding put_key_coordinator
  put_refused h =
      rw (validate_refuses (get_default w config.default_w) config h, put_key_coordinator)

  -- A quorum in range is the one that the write then waits for.
  pub put_accepted :
      InRange (get_default w config.default_w) config
      → put_key_coordinator node_id now config results s state key body w
        ≡ coordinate_write node_id now
            (pos_part (get_default w config.default_w))
            results
            s
            state
            key
            body
  unfolding put_key_coordinator
  put_accepted h =
      rw (validate_accepts (get_default w config.default_w) config h, put_key_coordinator)

module _ {V : Type 0} (sample : List Node → ℕ → List Node) (config : ClusterConfig)
    (get : Node → Text → Reply (KvResponse V)) (s : Schedule (Task (Option (VersionedValue V))))
    (state : NodeState V) (key : String) (r : Option ℤ) where
  -- A read whose quorum, the request's or else the config's, is not between one and the number of
  -- nodes is answered with a 422, and nothing is sent or kept.
  pub get_refused :
      ¬ InRange (get_default r config.default_r) config
      → get_key_coordinator sample config get s state key r
        ≡ some (state, returned (http_exception 422))
  unfolding get_key_coordinator
  get_refused h =
      rw (validate_refuses (get_default r config.default_r) config h, get_key_coordinator)

  pub get_accepted :
      InRange (get_default r config.default_r) config
      → get_key_coordinator sample config get s state key r
        ≡ coordinate_read sample (pos_part (get_default r config.default_r)) get s state key
  unfolding get_key_coordinator
  get_accepted h =
      rw (validate_accepts (get_default r config.default_r) config h, get_key_coordinator)

module _ {V : Type 0} (node_id : String) (now w_required : ℕ)
    (results : ReplicateRequest V → Node → Outcome (Bool × Unit {0}))
    (s : Schedule (Task (Unit {0}))) (state : NodeState V) (key : String)
    (body : PutRequest V) where
  abbrev pub sent : List (Task (Unit {0}))
  sent = tasks node_id now w_required results s state key body

  -- The time was up in a round: the clock was past the deadline, or the wait reported no task.
  abbrev pub Late : ℕ → List (Task (Unit {0})) → Type 0
  Late = TimedOut s (is_over state.coordinator.timeout (s.now 0)) (w_required - 1)

  -- A write that waits for its quorum is refused only with a 503, and then fewer nodes than
  -- required, the coordinator counted, have acknowledged it. The tasks added to the background are
  -- those that no round of waiting has reported finished, and they include every acknowledgment that
  -- was not counted. Either there are none, or in the round after the last that reported any the time
  -- was up: the clock was past the deadline, or the wait reported none of them.
  pub coordinate_write_503 :
      (st : NodeState V) (code : ℕ)
      → coordinate_write node_id now w_required results s state key body
        ≡ some (st, returned (http_exception code))
      → (code ≡ 503)
        × ((n : ℕ) × (rest : List (Task (Unit {0}))) × (1 + n < w_required)
            × (n + total_counts rest ≡ total_counts sent)
            × (st.coordinator.background_writes ≡ state.coordinator.background_writes ++ rest)
            × ((d : ℕ) × (rest ≡ pending_after s 1 d sent) × ((rest ≡ []) ⊎ Late (1 + d) rest)))
  coordinate_write_503 st code h =
      let (r, q, e) =
        end_of_gather node_id now w_required results s state key body
          (st, returned (http_exception code)) h in
      go r q (ap (λ p. p.1) e) (ap (λ p. p.0.coordinator.background_writes) e)
    where
      ended_or_late :
          (n : ℕ) (rest : List (Task (Unit {0}))) (i : ℕ)
          → 1 + n < w_required
          → (w_required - 1 ≤ n) ⊎ (rest ≡ []) ⊎ Late i rest
          → (rest ≡ []) ⊎ Late i rest
      ended_or_late n rest i lt (inl e) = absurd (omega arith)
      ended_or_late n rest i lt (inr (inl e)) = inl e
      ended_or_late n rest i lt (inr (inr e)) = inr e

      go :
          (r : Gathered (Unit {0}))
          → gather state.coordinator.timeout (w_required - 1) s sent ≡ some r
          → (after node_id now w_required results s state key body r).1
            ≡ returned (http_exception code)
          → (after node_id now w_required results s state key body
              r).0.coordinator.background_writes
            ≡ st.coordinator.background_writes
          → (code ≡ 503)
            × ((n : ℕ) × (rest : List (Task (Unit {0}))) × (1 + n < w_required)
                × (n + total_counts rest ≡ total_counts sent)
                × (st.coordinator.background_writes ≡ state.coordinator.background_writes ++ rest)
                × ((d : ℕ) × (rest ≡ pending_after s 1 d sent) × ((rest ≡ []) ⊎ Late (1 + d) rest)))
      go (failed rest) q e b = absurd (ground arith)
      go (gathered new rest) q e b =
          let ended = gather-Ended state.coordinator.timeout (w_required - 1) s sent new rest q in
          let few : 1 + length new < w_required = ground arith in
          (
            ground arith,
            (
              length new,
              rest,
              few,
              omega (arith, ended.counted),
              sym b,
              (
                ended.rounds,
                ended.left,
                ended_or_late (length new) rest (1 + ended.rounds) few ended.why,
              ),
            ),
          )

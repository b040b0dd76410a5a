-- ===== src/LeaderFollower/Leader.antt =====
-- The leader's app of leader_follower/leader.py: `put_key_leader` and the routes of `build_app`.
-- The follower's app, leader_follower/follower.py, is that of common/server.py unchanged.
pub mod Writes
pub mod Consistency
pub mod Dispatch
use mathlib.Core.Option
use kv_replication_lab.Prelude.{ℕ, String, Bool, Option, List, [], ◌∷◌, ◌++◌, ltb, if◌then◌else◌}
use kv_replication_lab.Prelude.Int.{pos_part}
use kv_replication_lab.Common.Waiting.{Schedule, Outcome, returned, raised}
use kv_replication_lab.Common.Storage
use kv_replication_lab.Common.Storage.{KvStore}
use kv_replication_lab.Common.Server.{
  HttpResult, ok, http_exception, PutRequest, PutResponse, ReplicateRequest, Route, Endpoint,
  http_put, route, put_key_leader_ep, create_app, replace_route,
}
use kv_replication_lab.LeaderFollower.Config.{Follower}
use kv_replication_lab.LeaderFollower.Replicator.{Task, Replicator, replicate}

-- The answer from the count of acknowledgments; an exception of `replicate` leaves the handler.
abbrev pub answer :
    (ack_required : ℕ) (local_applied : Bool) (timestamp : ℕ)
    → Outcome ℕ
    → Outcome (HttpResult PutResponse)
answer ack_required local_applied timestamp raised = raised
answer ack_required local_applied timestamp (returned acked) = returned (
    if ltb acked ack_required
    then http_exception 503
    else ok (record { applied = local_applied; timestamp = timestamp }))

pub record LeaderState {ℓ} (V : Type ℓ) : Type ℓ where
  pub storage : KvStore V
  pub replicator : Replicator

-- `results` is what the send of a payload to each follower comes to, `s` when; `none` is a loop out of fuel.
unfoldable pub put_key_leader {ℓ} :
    {V : Type ℓ} (node_id : String) (now : ℕ)
    → (ReplicateRequest V → Follower → Outcome Bool)
    → Schedule Task
    → LeaderState V
    → String
    → PutRequest V
    → Option (LeaderState V × Outcome (HttpResult PutResponse))
put_key_leader node_id now results s state key body =
    let (storage, local_applied) = Storage.put state.storage key body.value now node_id in
    Option.map
      (λ r. (
        record { storage = storage; replicator = r.0 },
        answer (pos_part state.replicator.config.ack_required) local_applied now r.1,
      ))
      (replicate state.replicator key body.value now node_id results s)

-- The routes of `build_app`.
unfoldable pub build_app : List Route → List Route
unfolding replace_route create_app
build_app builtin =
    replace_route (create_app builtin) "/kv/{key}" (http_put ∷ [])
    ++ route http_put "/kv/{key}" put_key_leader_ep ∷ []

-- The routes of a follower.
unfoldable pub build_follower_app : List Route → List Route
unfolding create_app
build_follower_app builtin = create_app builtin

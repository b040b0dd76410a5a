-- ===== src/MessageQueue/Follower.antt =====
-- message_queue/follower.py: a follower applies the messages that its consumer delivers, commits
-- their offsets one by one, and reports its lag.
--
-- The bytes of a message are read by `model_validate_json`, a parameter, which gives a request or
-- raises a `ValidationError`. The committed offsets are kept by the broker, under the follower's
-- own consumer group: they outlive the process, its store does not.
pub mod Run
pub mod Lag
pub mod Convergence
pub mod Consistency
pub mod Process
use kv_replication_lab.Prelude.{
  ℕ, zero, suc, ◌+◌, ◌-◌, String, Bool, true, false, not, Option, none, some, List, [], ◌∷◌, ◌++◌,
  map, nat_eq, leb, is_empty, if◌then◌else◌,
}
use kv_replication_lab.Prelude.Int.{ℤ, pos, ◌+ℤ◌, ◌-ℤ◌}
use kv_replication_lab.Common.Waiting.{Outcome, returned, raised}
use kv_replication_lab.Common.Storage
use kv_replication_lab.Common.Storage.{KvStore}
use kv_replication_lab.Common.Server.{
  HttpResult, ok, http_exception, ReplicateRequest, Route, route, http_get, get_lag_ep, create_app,
}

pub record PartitionLag : Type 0 where
  pub partition : ℕ
  pub end_offset : ℕ
  pub committed_offset : Option ℕ
  pub lag : ℤ

pub record LagResponse : Type 0 where
  pub node_id : String
  pub total_lag : ℤ
  pub partitions : List PartitionLag

-- `committed or 0`
abbrev pub or_zero : Option ℕ → ℕ
or_zero none = 0
or_zero (some n) = n

-- `sorted(partitions, key=...)`
abbrev insert_partition : ℕ → List ℕ → List ℕ
insert_partition p [] = p ∷ []
insert_partition p (q ∷ qs) =
    let rest = insert_partition p qs in if leb p q then p ∷ q ∷ qs else q ∷ rest

unfoldable pub sorted : List ℕ → List ℕ
sorted [] = []
sorted (p ∷ ps) = insert_partition p (sorted ps)

abbrev pub partition_lag : (end_offsets : ℕ → ℕ) (committed : ℕ → Option ℕ) → ℕ → PartitionLag
partition_lag end_offsets committed tp = record {
  partition = tp;
  end_offset = end_offsets tp;
  committed_offset = committed tp;
  lag = pos (end_offsets tp) -ℤ pos (or_zero (committed tp));
}

-- `_compute_lag`, for the partitions of the consumer's assignment
unfoldable pub compute_lag :
    (end_offsets : ℕ → ℕ) (committed : ℕ → Option ℕ) (assignment : List ℕ) → List PartitionLag
compute_lag end_offsets committed assignment =
    if is_empty assignment
    then []
    else map (partition_lag end_offsets committed) (sorted assignment)

abbrev pub sum_lag : List PartitionLag → ℤ
sum_lag [] = pos 0
sum_lag (p ∷ ps) = p.lag +ℤ sum_lag ps

-- What `state["consumer"]` can be asked for, once it is there.
pub record Consumer : Type 0 where
  pub assignment : List ℕ
  pub end_offsets : ℕ → ℕ
  pub committed : ℕ → Option ℕ

-- `get_lag`
unfoldable pub get_lag : (node_id : String) → Option Consumer → HttpResult LagResponse
get_lag node_id none = http_exception 503
get_lag node_id (some consumer) =
    let partitions = compute_lag consumer.end_offsets consumer.committed consumer.assignment in
    ok (record { node_id = node_id; total_lag = sum_lag partitions; partitions = partitions })

pub record Message (Bytes : Type 0) : Type 0 where
  pub partition : ℕ
  pub offset : ℕ
  pub value : Bytes

pub record FollowerState (V : Type 0) : Type 0 where
  pub storage : KvStore V
  pub committed : ℕ → Option ℕ

-- `consumer.commit({tp: message.offset + 1})`
abbrev pub commit : (ℕ → Option ℕ) → (tp next : ℕ) → ℕ → Option ℕ
commit committed tp next q = if nat_eq q tp then some next else committed q

-- `build_app` of the follower: the routes of common/server.py and the lag
unfoldable pub build_app : List Route → List Route
build_app builtin = create_app builtin ++ (route http_get "/internal/lag" get_lag_ep ∷ [])

module _ {V Bytes : Type 0} (model_validate_json : Bytes → Option (ReplicateRequest V)) where
  abbrev put_parsed :
      KvStore V → Option (ReplicateRequest V) → KvStore V × Option (ReplicateRequest V × Bool)
  put_parsed storage none = (storage, none)
  put_parsed storage (some parsed) =
      let (storage', applied) =
        Storage.put storage parsed.key parsed.value parsed.timestamp parsed.node_id in
      (storage', some (parsed, applied))

  -- `_apply_message`
  unfoldable pub apply_message : Bytes → KvStore V → KvStore V × Option (ReplicateRequest V × Bool)
  apply_message raw storage = put_parsed storage (model_validate_json raw)

  -- `_consume_loop` over the messages that are delivered before it ends; a commit may raise, which
  -- ends the loop.
  unfoldable pub consume_loop :
      (commit_ok : Message Bytes → Bool)
      → List (Message Bytes)
      → FollowerState V
      → FollowerState V × Outcome (Unit {0})
  unfolding apply_message
  consume_loop commit_ok [] st = (st, returned tt)
  consume_loop commit_ok (m ∷ ms) st =
      let (storage, result) = apply_message m.value st.storage in
      let applied = record st { storage = storage } in
      let rest =
        consume_loop commit_ok ms
          (record applied { committed = commit st.committed m.partition (m.offset + 1) }) in
      if commit_ok m then rest else (applied, raised)

-- A new process of the same node: `build_app` makes an empty store, and the consumer group's
-- offsets are those that were committed.
unfoldable pub restart : {V : Type 0} → FollowerState V → FollowerState V
restart st = record { storage = Storage.empty; committed = st.committed }

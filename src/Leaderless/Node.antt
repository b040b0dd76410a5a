-- ===== src/Leaderless/Node.antt =====
-- The app of a leaderless node, `build_app` of leaderless/node.py: the coordinators' handlers and
-- the routes.
pub mod Writes
pub mod Newest
pub mod Reads
pub mod Refusals
use mathlib.Core.Option
use kv_replication_lab.Prelude.{
  ℕ, ◌+◌, ◌-◌, String, Bool, true, false, not, ◌&&◌, Option, none, some, List, [], ◌∷◌, ◌++◌,
  length, ltb, if◌then◌else◌,
}
use kv_replication_lab.Prelude.Int.{ℤ, pos, pos_part, leb_ℤ}
use kv_replication_lab.Prelude.Chars.{Text}
use kv_replication_lab.Common.Replies.{Reply}
use kv_replication_lab.Common.Models.{VersionedValue, is_newer_than}
use kv_replication_lab.Common.Waiting.{Schedule, Outcome, returned, raised}
use kv_replication_lab.Common.Storage
use kv_replication_lab.Common.Storage.{KvStore}
use kv_replication_lab.Common.Server.{
  HttpResult, ok, http_exception, PutRequest, PutResponse, KvResponse, ReplicateRequest,
  ReplicateResponse, entry_response, Route, route, http_get, http_put, http_post,
  put_key_coordinator_ep, get_key_coordinator_ep, internal_get_key_ep, delayed_replicate_ep,
  create_app, replace_route,
}
use kv_replication_lab.Leaderless.Config.{Node, ClusterConfig, peers_excluding}
use kv_replication_lab.Common.Config.{get_default}
use kv_replication_lab.Leaderless.Coordinator.{Task, Coordinator, replicate_write, read}

-- `_validate_quorum_param`: the status that it raises, if any
unfoldable pub validate_quorum_param : ℤ → ℕ → Option ℕ
validate_quorum_param value n =
    if not (leb_ℤ (pos 1) value && leb_ℤ value (pos n)) then some 422 else none

pub record NodeState (V : Type 0) : Type 0 where
  pub storage : KvStore V
  pub coordinator : Coordinator V

-- The state of a node that `build_app` has built.
unfoldable pub initial : {V : Type 0} → (own_port : ℕ) → ClusterConfig → NodeState V
initial own_port config = record {
  storage = Storage.empty;
  coordinator = record {
    peers = peers_excluding config own_port;
    timeout = config.timeout_seconds;
    background_writes = [];
    background_reads = [];
  };
}

abbrev pub write_answer :
    (w_required : ℕ) (local_applied : Bool) (timestamp : ℕ)
    → Outcome ℕ
    → Outcome (HttpResult PutResponse)
write_answer w_required local_applied timestamp raised = raised
write_answer w_required local_applied timestamp (returned peer_acked) =
    let total_acked = 1 + peer_acked in
    returned (
      if ltb total_acked w_required
      then http_exception 503
      else ok (record { applied = local_applied; timestamp = timestamp }))

module _ {V : Type 0} where
  -- The rest of `put_key_coordinator` once the quorum is known to be in range.
  unfoldable pub coordinate_write :
      (node_id : String) (now w_required : ℕ)
      → (ReplicateRequest V → Node → Outcome (Bool × Unit {0}))
      → Schedule (Task (Unit {0}))
      → NodeState V
      → String
      → PutRequest V
      → Option (NodeState V × Outcome (HttpResult PutResponse))
  coordinate_write node_id now w_required results s state key body =
      let (storage, local_applied) = Storage.put state.storage key body.value now node_id in
      let peers_needed = w_required - 1 in
      Option.map
        (λ r. (
          record { storage = storage; coordinator = r.0 },
          write_answer w_required local_applied now r.1,
        ))
        (replicate_write state.coordinator key body.value now node_id peers_needed results s)

  -- `results` is what the request with a payload to each peer comes to, `s` when; `none` is a loop out of fuel.
  unfoldable pub put_key_coordinator :
      (node_id : String) (now : ℕ)
      → ClusterConfig
      → (ReplicateRequest V → Node → Outcome (Bool × Unit {0}))
      → Schedule (Task (Unit {0}))
      → NodeState V
      → String
      → PutRequest V
      → (w : Option ℤ) → Option (NodeState V × Outcome (HttpResult PutResponse))
  put_key_coordinator node_id now config results s state key body w =
      let w_required = get_default w config.default_w in
      elim (validate_quorum_param w_required (length config.nodes)) [
        | some status ↦ some (state, returned (http_exception status))
        | none ↦ coordinate_write node_id now (pos_part w_required) results s state key body
      ]

  -- `[e for e in entries if e is not None]`
  unfoldable pub candidates : List (Option (VersionedValue V)) → List (VersionedValue V)
  candidates [] = []
  candidates (none ∷ es) = candidates es
  candidates (some e ∷ es) = e ∷ candidates es

  -- The loop over `candidates[1:]`.
  unfoldable pub newest : VersionedValue V → List (VersionedValue V) → VersionedValue V
  newest winner [] = winner
  newest winner (entry ∷ rest) = newest (if is_newer_than entry winner then entry else winner) rest

  abbrev pub winner_answer : String → List (VersionedValue V) → HttpResult (KvResponse V)
  winner_answer key [] = http_exception 404
  winner_answer key (e ∷ es) = ok (entry_response key (newest e es))

  abbrev pub read_answer :
      (r_required : ℕ)
      → String
      → Option (VersionedValue V)
      → Outcome (List (Option (VersionedValue V)))
      → Outcome (HttpResult (KvResponse V))
  read_answer r_required key local_entry raised = raised
  read_answer r_required key local_entry (returned peer_entries) =
      let total_responses = 1 + length peer_entries in
      returned (
        if ltb total_responses r_required
        then http_exception 503
        else winner_answer key (candidates (local_entry ∷ peer_entries)))

  -- The rest of `get_key_coordinator` once the quorum is known to be in range. `get` is what a request
  -- of a URL to each peer comes to.
  unfoldable pub coordinate_read :
      (sample : List Node → ℕ → List Node) (r_required : ℕ)
      → (get : Node → Text → Reply (KvResponse V)) → Schedule (Task (Option (VersionedValue V)))
      → NodeState V
      → String
      → Option (NodeState V × Outcome (HttpResult (KvResponse V)))
  coordinate_read sample r_required get s state key =
      let local_entry = Storage.get state.storage key in
      let peers_needed = r_required - 1 in
      Option.map
        (λ r. (record state { coordinator = r.0 }, read_answer r_required key local_entry r.1))
        (read sample state.coordinator key peers_needed get s)

  unfoldable pub get_key_coordinator :
      (sample : List Node → ℕ → List Node)
      → ClusterConfig
      → (get : Node → Text → Reply (KvResponse V)) → Schedule (Task (Option (VersionedValue V)))
      → NodeState V
      → String
      → (r : Option ℤ) → Option (NodeState V × Outcome (HttpResult (KvResponse V)))
  get_key_coordinator sample config get s state key r =
      let r_required = get_default r config.default_r in
      elim (validate_quorum_param r_required (length config.nodes)) [
        | some status ↦ some (state, returned (http_exception status))
        | none ↦ coordinate_read sample (pos_part r_required) get s state key
      ]

  abbrev found_or_404 : String → Option (VersionedValue V) → HttpResult (KvResponse V)
  found_or_404 key none = http_exception 404
  found_or_404 key (some entry) = ok (entry_response key entry)

  unfoldable pub internal_get_key : KvStore V → String → HttpResult (KvResponse V)
  internal_get_key storage key = found_or_404 key (Storage.get storage key)

  -- The handler under fault injection; `storage` is the store after the injected delay.
  unfoldable pub replicate_with_injected_delay :
      KvStore V → ReplicateRequest V → KvStore V × HttpResult ReplicateResponse
  replicate_with_injected_delay storage body =
      let (storage', applied) =
        Storage.put storage body.key body.value body.timestamp body.node_id in
      (storage', ok (record { applied = applied }))

abbrev coordinator_routes : List Route → List Route
coordinator_routes builtin =
    replace_route (create_app builtin) "/kv/{key}" (http_put ∷ http_get ∷ [])
    ++ (route http_put "/kv/{key}" put_key_coordinator_ep
        ∷ route http_get "/kv/{key}" get_key_coordinator_ep
        ∷ route http_get "/internal/kv/{key}" internal_get_key_ep
        ∷ [])

-- The routes of `build_app`; the delay is a count of some unit of time.
unfoldable pub build_app : (fault_inject_delay : ℕ) → List Route → List Route
unfolding replace_route create_app
build_app fault_inject_delay builtin =
    if ltb 0 fault_inject_delay
    then replace_route (coordinator_routes builtin) "/internal/replicate" (http_post ∷ [])
      ++ route http_post "/internal/replicate" delayed_replicate_ep ∷ []
    else coordinator_routes builtin

-- ===== src/Common/Server.antt =====
-- common/server.py: the HTTP surface that every node has, and the route table that the nodes of
-- the strategies change.
--
-- A handler is a function of the store; `time.time()` is an argument. What a handler raises is an
-- `http_exception` with the status; the text of the detail and the log lines are left out.
pub mod Routes
pub mod Laws
pub mod Later
use kv_replication_lab.Prelude.{
  ℕ, String, Bool, true, false, not, ◌&&◌, ◌||◌, Option, none, some, List, [], ◌∷◌, ◌++◌, keep,
  ◌==◌, if◌then◌else◌,
}
use kv_replication_lab.Common.Models.{VersionedValue}
use kv_replication_lab.Common.Storage
use kv_replication_lab.Common.Storage.{KvStore}

pub data HttpResult {ℓ} (A : Type ℓ) : Type ℓ where
  ok : A → HttpResult A
  http_exception : (status_code : ℕ) → HttpResult A

pub record PutRequest {ℓ} (V : Type ℓ) : Type ℓ where
  pub value : V

pub record PutResponse : Type 0 where
  pub applied : Bool
  pub timestamp : ℕ

pub record KvResponse {ℓ} (V : Type ℓ) : Type ℓ where
  pub key : String
  pub value : V
  pub timestamp : ℕ
  pub node_id : String

pub record DeleteResponse : Type 0 where
  pub deleted : Bool

pub record ReplicateRequest {ℓ} (V : Type ℓ) : Type ℓ where
  pub key : String
  pub value : V
  pub timestamp : ℕ
  pub node_id : String

pub record ReplicateResponse : Type 0 where
  pub applied : Bool

pub record HealthResponse : Type 0 where
  pub node_id : String
  pub key_count : ℕ

module _ {ℓ} {V : Type ℓ} where
  abbrev pub entry_response : String → VersionedValue V → KvResponse V
  entry_response key entry = record {
    key = key;
    value = entry.value;
    timestamp = entry.timestamp;
    node_id = entry.node_id;
  }

  abbrev found_or_404 : String → Option (VersionedValue V) → HttpResult (KvResponse V)
  found_or_404 key none = http_exception 404
  found_or_404 key (some entry) = ok (entry_response key entry)

  unfoldable pub get_key : KvStore V → String → HttpResult (KvResponse V)
  get_key storage key = found_or_404 key (Storage.get storage key)

  unfoldable pub put_key :
      (node_id : String) (now : ℕ)
      → KvStore V
      → String
      → PutRequest V
      → KvStore V × HttpResult PutResponse
  put_key node_id now storage key body =
      let (storage', applied) = Storage.put storage key body.value now node_id in
      (storage', ok (record { applied = applied; timestamp = now }))

  unfoldable pub delete_key : KvStore V → String → KvStore V × HttpResult DeleteResponse
  delete_key storage key =
      let (storage', deleted) = Storage.delete storage key in
      (storage', ok (record { deleted = deleted }))

  unfoldable pub replicate :
      KvStore V → ReplicateRequest V → KvStore V × HttpResult ReplicateResponse
  replicate storage body =
      let (storage', applied) =
        Storage.put storage body.key body.value body.timestamp body.node_id in
      (storage', ok (record { applied = applied }))

  unfoldable pub health : (node_id : String) → KvStore V → HttpResult HealthResponse
  health node_id storage = ok (record { node_id = node_id; key_count = Storage.key_count storage })

-- The methods of HTTP that the routes name.
pub data Method : Type 0 where
  http_get http_head http_put http_post http_delete : Method

abbrev pub method_eq : Method → Method → Bool
method_eq http_get http_get = true
method_eq http_head http_head = true
method_eq http_put http_put = true
method_eq http_post http_post = true
method_eq http_delete http_delete = true
method_eq _ _ = false

abbrev pub has_method : Method → List Method → Bool
has_method m [] = false
has_method m (n ∷ ns) = method_eq m n || has_method m ns

-- `set(methods) & wanted` is not empty
abbrev pub overlap : List Method → List Method → Bool
overlap [] wanted = false
overlap (m ∷ ms) wanted = has_method m wanted || overlap ms wanted

-- The handlers, of this module and of the node modules.
pub data Endpoint : Type 0 where
  get_key_ep put_key_ep delete_key_ep replicate_ep health_ep : Endpoint
  put_key_leader_ep : Endpoint
  put_key_coordinator_ep get_key_coordinator_ep internal_get_key_ep delayed_replicate_ep : Endpoint
  get_lag_ep : Endpoint
  builtin_ep : Endpoint

-- A route of `app.router.routes`: some have no `path` attribute.
pub record Route : Type 0 where
  pub path : Option String
  pub methods : List Method
  pub endpoint : Endpoint

abbrev pub route : Method → String → Endpoint → Route
route m p e = record { path = some p; methods = m ∷ []; endpoint = e }

abbrev pub path_is : Option String → String → Bool
path_is none p = false
path_is (some q) p = q == p

-- The route is dropped by `replace_route`.
abbrev pub is_replaced : String → List Method → Route → Bool
is_replaced p wanted r = path_is r.path p && overlap r.methods wanted

unfoldable pub replace_route : List Route → String → List Method → List Route
replace_route routes p wanted = keep (λ r. not (is_replaced p wanted r)) routes

-- The routes of `create_app`, behind those that FastAPI registers by itself.
unfoldable pub create_app : List Route → List Route
create_app builtin =
    builtin
    ++ (route http_get "/kv/{key}" get_key_ep
        ∷ route http_put "/kv/{key}" put_key_ep
        ∷ route http_delete "/kv/{key}" delete_key_ep
        ∷ route http_post "/internal/replicate" replicate_ep
        ∷ route http_get "/health" health_ep
        ∷ [])

-- ===== src/Common/Server/Later.antt =====
-- What the nodes answer (common/server.py) after a write has been put into their stores, or has
-- come by `/internal/replicate`, and other writes have followed.
use kv_replication_lab.Prelude.{◌≡◌, refl, sym, subst, String, false, Option, none, some, List}
use kv_replication_lab.Common.Models.{VersionedValue, is_newer_than}
use kv_replication_lab.Common.Storage
use kv_replication_lab.Common.Storage.{KvStore}
use kv_replication_lab.Common.Storage.Replay.{
  Write, apply_write, apply_all, AtLeast, apply_all-AtLeast, apply_write-AtLeast_self,
}
use kv_replication_lab.Common.Server
use kv_replication_lab.Common.Server.{HttpResult, ok, KvResponse, entry_response, get_key}

-- A store some `put`s later.
abbrev pub Later : {V : Type 0} → KvStore V → KvStore V → Type 0
Later {V} s t = (ws : List (Write V)) × (t ≡ apply_all s ws)

-- A read that is answered with a version that another is not newer than.
abbrev pub AnswersFrom :
    {V : Type 0} → VersionedValue V → String → HttpResult (KvResponse V) → Type 0
AnswersFrom {V} v key answer =
    (x : VersionedValue V) × (answer ≡ ok (entry_response key x)) × (is_newer_than v x ≡ false)

module _ {V : Type 0} where
  pub get-Later :
      (s t : KvStore V) (key : String) (v : VersionedValue V)
      → Later s t
      → AtLeast v (Storage.get s key)
      → AtLeast v (Storage.get t key)
  get-Later s t key v (ws, e) a =
      subst (λ x. AtLeast v (Storage.get x key)) (sym e) (apply_all-AtLeast s ws key v a)

  pub put-AtLeast :
      (s : KvStore V) (key : String) (v : VersionedValue V)
      → AtLeast v (Storage.get (Storage.put s key v.value v.timestamp v.node_id).0 key)
  unfolding apply_write
  put-AtLeast s key v = apply_write-AtLeast_self s key v

  pub replicate-AtLeast :
      (s : KvStore V) (key : String) (v : VersionedValue V)
      → AtLeast v (
          Storage.get
            (Server.replicate s (record {
              key = key;
              value = v.value;
              timestamp = v.timestamp;
              node_id = v.node_id;
            })).0
            key)
  unfolding Server.replicate
  replicate-AtLeast s key v = put-AtLeast s key v

  pub AtLeast-some :
      (v : VersionedValue V) (o : Option (VersionedValue V))
      → AtLeast v o
      → (u : VersionedValue V) × (o ≡ some u) × (is_newer_than v u ≡ false)
  AtLeast-some v none a = absurd a
  AtLeast-some v (some u) a = (u, refl, a)

  -- A store that holds a version or a newer one answers from it.
  pub get_key-AnswersFrom :
      (s : KvStore V) (key : String) (v : VersionedValue V)
      → AtLeast v (Storage.get s key)
      → AnswersFrom v key (get_key s key)
  unfolding get_key
  get_key-AnswersFrom s key v a =
      let (u, e, h) = AtLeast-some v (Storage.get s key) a in (u, rw e refl, h)

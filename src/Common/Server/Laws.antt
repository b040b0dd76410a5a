-- ===== src/Common/Server/Laws.antt =====
-- What the handlers of common/server.py do, one after the other.
use kv_replication_lab.Prelude.{
  ℕ, ◌≡◌, refl, ap, ◌∙◌, String, Bool, false, Option, none, some, arith, eq_refl, if◌then◌else◌,
}
use kv_replication_lab.Common.Models.{VersionedValue, is_newer_than}
use kv_replication_lab.Common.Models.Order.{not_newer_self, newer_asymm}
use kv_replication_lab.Common.Storage.{KvStore, is_stale, put, get}
use kv_replication_lab.Common.Storage.Laws.{version, winner, get-put}
use kv_replication_lab.Common.Server.{
  ok, PutRequest, ReplicateRequest, entry_response, get_key, put_key, replicate,
}

module _ {ℓ} {V : Type ℓ} where
  winner-stale :
      (i : VersionedValue V) (o : Option (VersionedValue V)) → is_newer_than i (winner i o) ≡ false
  winner-stale i none = not_newer_self i
  winner-stale i (some c) = ground (arith, not_newer_self i, newer_asymm i c)

  put_stale :
      (s : KvStore V) (k : String) (v : V) (ts : ℕ) (n : String) (c : VersionedValue V)
      → get s k ≡ some c
      → is_newer_than (version v ts n) c ≡ false
      → put s k v ts n ≡ (s, false)
  unfolding put get is_stale
  put_stale s k v ts n c e h = rw (e, h, is_stale) refl

  get-put_self :
      (s : KvStore V) (k : String) (v : V) (ts : ℕ) (n : String)
      → get (put s k v ts n).0 k ≡ some (winner (version v ts n) (get s k))
  get-put_self s k v ts n =
      get-put s k v ts n k
      ∙ ap (λ b. if b then some (winner (version v ts n) (get s k)) else get s k) (eq_refl k)

  -- A replicated write that is delivered again changes nothing, and is answered as not applied.
  pub replicate_again :
      (s : KvStore V) (body : ReplicateRequest V)
      → replicate (replicate s body).0 body
        ≡ ((replicate s body).0, ok (record { applied = false }))
  unfolding replicate
  replicate_again s body =
      ap (λ (r : KvStore V × Bool). (r.0, ok (record { applied = r.1 })))
        (put_stale (put s body.key body.value body.timestamp body.node_id).0 body.key body.value
          body.timestamp body.node_id
          (winner (version body.value body.timestamp body.node_id) (get s body.key))
          (get-put_self s body.key body.value body.timestamp body.node_id)
          (winner-stale _ (get s body.key)))

  -- A key that has been written is found: with the value and the stamp of the write, if that was
  -- answered as applied, else with what was there.
  pub get_key-put_key :
      (node_id : String) (now : ℕ) (s : KvStore V) (key : String) (body : PutRequest V)
      → get_key (put_key node_id now s key body).0 key
        ≡ ok (entry_response key (winner (version body.value now node_id) (get s key)))
  unfolding put_key get_key
  get_key-put_key node_id now s key body = rw (get-put_self s key body.value now node_id) refl

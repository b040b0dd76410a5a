-- ===== src/Common/Storage.antt =====
-- common/storage.py: the in-memory store with last-write-wins semantics.
--
-- Every method runs under the store's one lock, so a method is one atomic step: a function from
-- the store to the new store and the result.
pub mod Laws
pub mod Replay
use kv_replication_lab.Prelude.{
  ℕ, String, Bool, true, false, not, Option, none, some, [], length, Dict, lookup, insert, remove,
  has, if◌then◌else◌,
}
use kv_replication_lab.Common.Models.{VersionedValue, is_newer_than}

pub record KvStore {ℓ} (V : Type ℓ) : Type ℓ where
  pub data_ : Dict (VersionedValue V)

-- `KVStore()`
abbrev pub empty {ℓ} : {V : Type ℓ} → KvStore V
empty = record { data_ = [] }

module _ {ℓ} {V : Type ℓ} where
  unfoldable pub get : KvStore V → String → Option (VersionedValue V)
  get self key = lookup key self.data_

  -- `current is not None and not incoming.is_newer_than(current)`
  unfoldable pub is_stale : VersionedValue V → Option (VersionedValue V) → Bool
  is_stale incoming none = false
  is_stale incoming (some current) = not (is_newer_than incoming current)

  unfoldable pub put : KvStore V → String → V → ℕ → String → KvStore V × Bool
  put self key value timestamp node_id =
      let incoming : VersionedValue V = record {
        value = value;
        timestamp = timestamp;
        node_id = node_id;
      } in
      let current = lookup key self.data_ in
      if is_stale incoming current
      then (self, false)
      else (record { data_ = insert key incoming self.data_ }, true)

  unfoldable pub delete : KvStore V → String → KvStore V × Bool
  delete self key =
      if has key self.data_ then (record { data_ = remove key self.data_ }, true) else (self, false)

  unfoldable pub key_count : KvStore V → ℕ
  key_count self = length self.data_

-- ===== src/Common/Storage/Laws.antt =====
-- What the methods of `KVStore` (common/storage.py) do.
use kv_replication_lab.Prelude.{
  ℕ, ◌+◌, ◌-◌, ◌≡◌, String, Bool, true, Option, none, some, arith, keys, Distinct, lookup-insert,
  lookup-remove_ne, lookup-remove_self, length-insert, length-remove, insert-Distinct,
  remove-Distinct, is_some, is_some-lookup, eq_iff, ◌==◌, if◌then◌else◌,
}
use kv_replication_lab.Common.Models.{VersionedValue, is_newer_than}
use kv_replication_lab.Common.Storage.{KvStore, empty, get, put, delete, key_count, is_stale}

-- A dict holds each key once.
pub record IsWellFormed {ℓ} {V : Type ℓ} (s : KvStore V) : Type 0 where
  pub keys_once : Distinct (keys s.data_)

abbrev pub version {ℓ} : {V : Type ℓ} → V → ℕ → String → VersionedValue V
version value timestamp node_id = record { value = value; timestamp = timestamp; node_id = node_id }

-- What a key holds after a put, from what it held.
abbrev pub winner {ℓ} :
    {V : Type ℓ} → VersionedValue V → Option (VersionedValue V) → VersionedValue V
winner incoming none = incoming
winner incoming (some current) = if is_newer_than incoming current then incoming else current

-- The incoming version takes the key.
abbrev pub supersedes {ℓ} : {V : Type ℓ} → VersionedValue V → Option (VersionedValue V) → Bool
supersedes incoming none = true
supersedes incoming (some current) = is_newer_than incoming current

module _ {ℓ} {V : Type ℓ} (s : KvStore V) (k : String) (v : V) (ts : ℕ) (n : String) where
  pub get-put :
      (j : String)
      → get (put s k v ts n).0 j
        ≡ (if k == j then some (winner (version v ts n) (get s k)) else get s j)
  unfolding get put is_stale
  get-put j = ground (arith, lookup-insert k j (version v ts n) s.data_, eq_iff k j)

  -- A put reports that it was applied exactly when the key was absent or the incoming version is
  -- newer than the stored one; afterwards the key holds the winner of the two, every other key
  -- holds what it held, and the number of keys has grown by one exactly if the key was absent.
  pub put_lem :
      (j : String)
      → ((put s k v ts n).1 ≡ supersedes (version v ts n) (get s k))
        × (get (put s k v ts n).0 j
            ≡ (if k == j then some (winner (version v ts n) (get s k)) else get s j))
        × (key_count (put s k v ts n).0
            ≡ (if is_some (get s k) then key_count s else key_count s + 1))
  unfolding get put is_stale key_count
  put_lem j = (
    ground arith,
    get-put j,
    ground (arith, length-insert k (version v ts n) s.data_, is_some-lookup k s.data_),
  )

  pub put-IsWellFormed : IsWellFormed s → IsWellFormed (put s k v ts n).0
  unfolding put
  put-IsWellFormed h = ground (arith, insert-Distinct k (version v ts n) s.data_)

module _ {ℓ} {V : Type ℓ} (s : KvStore V) (k : String) (h : IsWellFormed s) where
  -- On a store that holds each key once, a delete reports whether the key was there; afterwards
  -- the key is absent, every other key holds what it held, and the number of keys has dropped by
  -- one exactly if the key was there.
  pub delete_lem :
      (j : String)
      → ((delete s k).1 ≡ is_some (get s k))
        × (get (delete s k).0 j ≡ (if k == j then none else get s j))
        × (key_count (delete s k).0 ≡ (if is_some (get s k) then key_count s - 1 else key_count s))
  unfolding get delete key_count
  delete_lem j = (
    ground (arith, is_some-lookup k s.data_),
    ground (
      arith,
      lookup-remove_ne k j s.data_,
      lookup-remove_self k s.data_ h.keys_once,
      is_some-lookup k s.data_,
      eq_iff k j,
    ),
    ground (arith, length-remove k s.data_, is_some-lookup k s.data_),
  )

  pub delete-IsWellFormed : IsWellFormed (delete s k).0
  unfolding delete
  delete-IsWellFormed = ground (arith, remove-Distinct k s.data_)

empty-IsWellFormed {ℓ} : {V : Type ℓ} → IsWellFormed (empty {V = V})
empty-IsWellFormed = record { keys_once = tt }

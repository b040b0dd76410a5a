-- ===== src/Common/Models/Order.antt =====
-- `VersionedValue.is_newer_than` of common/models.py as an order on versions.
use kv_replication_lab.Prelude.{
  ◌≡◌, true, false, ◌⊎◌, arith, str_gt_irrefl, str_gt_asymm, str_gt_trans, str_gt_total,
  not_str_gt_trans,
}
use kv_replication_lab.Common.Models.{VersionedValue, is_newer_than}

-- Two versions with one timestamp and one node id.
abbrev pub SameStamp {ℓ} : {V : Type ℓ} → VersionedValue V → VersionedValue V → Type 0
SameStamp a b = (a.timestamp ≡ b.timestamp) × (a.node_id ≡ b.node_id)

module _ {ℓ} {V : Type ℓ} (a b : VersionedValue V) where
  -- Exactly one of three holds: the first version is the newer one, the second is, or both carry
  -- the same timestamp and node id, and then neither is newer.
  pub is_newer_than_trichotomy :
      ((is_newer_than a b ≡ true) × (is_newer_than b a ≡ false))
      ⊎ ((is_newer_than a b ≡ false) × (is_newer_than b a ≡ true))
      ⊎ (SameStamp a b × (is_newer_than a b ≡ false) × (is_newer_than b a ≡ false))
  unfolding is_newer_than
  is_newer_than_trichotomy = ground (
    arith,
    str_gt_asymm a.node_id b.node_id,
    str_gt_asymm b.node_id a.node_id,
    str_gt_total a.node_id b.node_id,
  )

module _ {ℓ} {V : Type ℓ} (a b c : VersionedValue V) where
  -- The newer version of a newer version is newer.
  pub is_newer_than_trans :
      is_newer_than a b ≡ true → is_newer_than b c ≡ true → is_newer_than a c ≡ true
  unfolding is_newer_than
  is_newer_than_trans p q = ground (arith, str_gt_trans a.node_id b.node_id c.node_id)

  pub not_newer_trans :
      is_newer_than a b ≡ false → is_newer_than b c ≡ false → is_newer_than a c ≡ false
  unfolding is_newer_than
  not_newer_trans p q = ground (arith, not_str_gt_trans a.node_id b.node_id c.node_id)

module _ {ℓ} {V : Type ℓ} (a b : VersionedValue V) where
  pub newer_asymm : is_newer_than a b ≡ true → is_newer_than b a ≡ false
  newer_asymm p = ground (arith, is_newer_than_trichotomy a b)

  pub SameStamp-of_not_newer : is_newer_than a b ≡ false → is_newer_than b a ≡ false → SameStamp a b
  SameStamp-of_not_newer p q = ground (arith, is_newer_than_trichotomy a b)

pub not_newer_self {ℓ} : {V : Type ℓ} (a : VersionedValue V) → is_newer_than a a ≡ false
unfolding is_newer_than
not_newer_self a = ground (arith, str_gt_irrefl a.node_id)

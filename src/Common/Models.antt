-- ===== src/Common/Models.antt =====
-- common/models.py: a stored value with the stamp that decides between concurrent writes.
--
-- `timestamp` is a `time.time()` reading, a finite double that is not negative. The code only
-- compares timestamps, and such doubles are ordered as the natural numbers of their bit patterns:
-- a timestamp is a natural number.
pub mod Order
use kv_replication_lab.Prelude.{ℕ, String, Bool, not, ltb, nat_eq, str_gt, if◌then◌else◌}

pub record VersionedValue {ℓ} (V : Type ℓ) : Type ℓ where
  pub value : V
  pub timestamp : ℕ
  pub node_id : String

unfoldable pub is_newer_than {ℓ} : {V : Type ℓ} → VersionedValue V → VersionedValue V → Bool
is_newer_than self other =
    if not (nat_eq self.timestamp other.timestamp)
    then ltb other.timestamp self.timestamp
    else str_gt self.node_id other.node_id

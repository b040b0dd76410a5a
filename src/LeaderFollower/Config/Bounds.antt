-- ===== src/LeaderFollower/Config/Bounds.antt =====
-- What a `ClusterConfig` of leader_follower/leader.py satisfies once it has been built.
use kv_replication_lab.Prelude.{◌≡◌, refl, Option, none, some, length, arith}
use kv_replication_lab.Prelude.Int.{ℤ, pos, ◌≤ℤ◌}
use kv_replication_lab.Common.Config.{
  Seconds, Checked, ok, value_error, key_error, require_positive, ◌>>=◌,
}
use kv_replication_lab.Common.Config.Checks.{IsPositiveOrNan}
use kv_replication_lab.LeaderFollower.Config.{
  RawConfig, ClusterConfig, validate_ack_required, from_dict, with_ack_required, resolve_config,
}

pub record IsValid (c : ClusterConfig) : Type 0 where
  pub not_negative : pos 0 ≤ℤ c.ack_required
  pub within : c.ack_required ≤ℤ pos (length c.followers)
  pub positive_or_nan : IsPositiveOrNan c.timeout_seconds

from_dict-IsValid :
    (d : Seconds) (raw : RawConfig) (c : ClusterConfig) → from_dict d raw ≡ ok c → IsValid c
unfolding from_dict validate_ack_required require_positive
from_dict-IsValid d raw c h = ground arith

with_ack_required-IsValid :
    (self c : ClusterConfig) (n : ℤ) → IsValid self → with_ack_required self n ≡ ok c → IsValid c
unfolding with_ack_required validate_ack_required
with_ack_required-IsValid self c n v h = ground arith

-- A config that is accepted, with or without an override from the command line, requires between
-- none and all of its followers to acknowledge, and has a positive timeout or NaN.
pub accepted_config-IsValid :
    (d : Seconds) (raw : RawConfig) (override : Option ℤ) (c : ClusterConfig)
    → resolve_config d raw override ≡ ok c
    → IsValid c
unfolding resolve_config
accepted_config-IsValid d raw none c h = from_dict-IsValid d raw c h
accepted_config-IsValid d raw (some n) c h = go (from_dict d raw) refl h
  where
    go :
        (r : Checked ClusterConfig)
        → from_dict d raw ≡ r
        → (r >>= λ config. with_ack_required config n) ≡ ok c
        → IsValid c
    go (ok config) e q = with_ack_required-IsValid config c n (from_dict-IsValid d raw config e) q
    go value_error e q = absurd (ground arith)
    go key_error e q = absurd (ground arith)

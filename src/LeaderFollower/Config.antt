-- ===== src/LeaderFollower/Config.antt =====
-- `ClusterConfig` of leader_follower/leader.py.
--
-- `raw` is the mapping read from the YAML file, with the keys that may be missing as options; the
-- values are those that `int()` and `float()` give.
pub mod Bounds
use kv_replication_lab.Prelude.{ℕ, String, Option, none, some, List, [], ◌∷◌, length}
use kv_replication_lab.Prelude.Int.{ℤ, pos}
use kv_replication_lab.Common.Config.{
  Seconds, Checked, ok, get_default, get_item, require_positive, require_in_range, ◌>>=◌, ◌>>◌,
}

pub record Follower : Type 0 where
  pub host : String
  pub port : ℕ

pub record RawFollower : Type 0 where
  pub host : Option String
  pub port : Option ℕ

pub record RawConfig : Type 0 where
  pub followers : Option (List RawFollower)
  pub ack_required : Option ℤ
  pub timeout_seconds : Option Seconds

pub record ClusterConfig : Type 0 where
  pub followers : List Follower
  pub ack_required : ℤ
  pub timeout_seconds : Seconds

unfoldable pub parse_followers : List RawFollower → Checked (List Follower)
parse_followers [] = ok []
parse_followers (f ∷ fs) =
    let rest = parse_followers fs in
    do
      host ← get_item f.host
      port ← get_item f.port
      followers ← rest
      ok (record { host = host; port = port } ∷ followers)

unfoldable pub validate_ack_required : ℤ → List Follower → Checked (Unit {0})
unfolding require_in_range
validate_ack_required ack_required followers =
    require_in_range ack_required (pos 0) (pos (length followers))

-- `default_timeout` is 2.0 seconds in the unit of the timeouts.
unfoldable pub from_dict : (default_timeout : Seconds) → RawConfig → Checked ClusterConfig
from_dict default_timeout raw = do
  followers ← parse_followers (get_default raw.followers [])
  let ack_required = get_default raw.ack_required (pos 0)
  let timeout_seconds = get_default raw.timeout_seconds default_timeout
  validate_ack_required ack_required followers
  require_positive timeout_seconds
  ok (record {
    followers = followers;
    ack_required = ack_required;
    timeout_seconds = timeout_seconds;
  })

unfoldable pub with_ack_required : ClusterConfig → ℤ → Checked ClusterConfig
with_ack_required self ack_required = do
  validate_ack_required ack_required self.followers
  ok (record self { ack_required = ack_required })

-- `_resolve_config`, from what the config file and the command line hold
unfoldable pub resolve_config :
    (default_timeout : Seconds) → RawConfig → Option ℤ → Checked ClusterConfig
resolve_config default_timeout raw none = from_dict default_timeout raw
resolve_config default_timeout raw (some ack_required) = do
  config ← from_dict default_timeout raw
  with_ack_required config ack_required

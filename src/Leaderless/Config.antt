-- ===== src/Leaderless/Config.antt =====
-- `ClusterConfig` of leaderless/node.py. The raw mapping is read as in LeaderFollower/Config.antt.
pub mod Bounds
use kv_replication_lab.Prelude.{
  ℕ, suc, String, Bool, not, Option, none, some, List, [], ◌∷◌, ◌++◌, length, keep, nat_eq,
}
use kv_replication_lab.Prelude.Chars.{Text, codes, decimal}
use kv_replication_lab.Prelude.Int.{ℤ, pos}
use kv_replication_lab.Common.Config.{
  Seconds, Checked, ok, get_default, get_item, require_positive, require_in_range, ◌>>=◌, ◌>>◌,
}

pub record Node : Type 0 where
  pub host : String
  pub port : ℕ

-- `Node.internal_read_url`: the key stands in the URL as it is
unfoldable pub internal_read_url : Node → (key : String) → Text
internal_read_url self key =
    codes "http://"
    ++ (codes self.host
        ++ (codes ":" ++ (decimal self.port ++ (codes "/internal/kv/" ++ codes key))))

pub record RawNode : Type 0 where
  pub host : Option String
  pub port : Option ℕ

pub record RawConfig : Type 0 where
  pub nodes : Option (List RawNode)
  pub default_w : Option ℤ
  pub default_r : Option ℤ
  pub timeout_seconds : Option Seconds

pub record ClusterConfig : Type 0 where
  pub nodes : List Node
  pub default_w : ℤ
  pub default_r : ℤ
  pub timeout_seconds : Seconds

unfoldable pub parse_nodes : List RawNode → Checked (List Node)
parse_nodes [] = ok []
parse_nodes (n ∷ ns) =
    let rest = parse_nodes ns in
    do
      host ← get_item n.host
      port ← get_item n.port
      nodes ← rest
      ok (record { host = host; port = port } ∷ nodes)

unfoldable pub validate_quorum : ℤ → List Node → Checked (Unit {0})
unfolding require_in_range
validate_quorum value nodes = require_in_range value (pos 1) (pos (length nodes))

unfoldable pub from_dict : (default_timeout : Seconds) → RawConfig → Checked ClusterConfig
from_dict default_timeout raw = do
  nodes ← parse_nodes (get_default raw.nodes [])
  let default_w = get_default raw.default_w (pos 1)
  let default_r = get_default raw.default_r (pos 1)
  let timeout_seconds = get_default raw.timeout_seconds default_timeout
  validate_quorum default_w nodes
  validate_quorum default_r nodes
  require_positive timeout_seconds
  ok (record {
    nodes = nodes;
    default_w = default_w;
    default_r = default_r;
    timeout_seconds = timeout_seconds;
  })

unfoldable pub with_default_w : ClusterConfig → ℤ → Checked ClusterConfig
with_default_w self default_w = do
  validate_quorum default_w self.nodes
  ok (record self { default_w = default_w })

unfoldable pub with_default_r : ClusterConfig → ℤ → Checked ClusterConfig
with_default_r self default_r = do
  validate_quorum default_r self.nodes
  ok (record self { default_r = default_r })

abbrev pub override :
    (ClusterConfig → ℤ → Checked ClusterConfig) → Option ℤ → ClusterConfig → Checked ClusterConfig
override with_value none config = ok config
override with_value (some value) config = with_value config value

-- `_resolve_config`, with the two options of the command line
unfoldable pub resolve_config :
    (default_timeout : Seconds) → RawConfig → (w r : Option ℤ) → Checked ClusterConfig
resolve_config default_timeout raw w r = do
  config ← from_dict default_timeout raw
  config_w ← override with_default_w w config
  override with_default_r r config_w

unfoldable pub peers_excluding : ClusterConfig → ℕ → List Node
peers_excluding self own_port = keep (λ node. not (nat_eq node.port own_port)) self.nodes

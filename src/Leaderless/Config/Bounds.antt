-- ===== src/Leaderless/Config/Bounds.antt =====
-- What a `ClusterConfig` of leaderless/node.py satisfies, and who the peers of a node are.
use kv_replication_lab.Prelude.{
  ℕ, ◌+◌, ◌≡◌, refl, subst, sym, inl, inr, not, Option, none, some, List, [], ◌∷◌, length, keep, In,
  Distinct, arith, nat_eq,
}
use kv_replication_lab.Prelude.Int.{ℤ, pos, ◌≤ℤ◌}
use kv_replication_lab.Common.Config.{
  Seconds, Checked, ok, value_error, key_error, require_positive, ◌>>=◌,
}
use kv_replication_lab.Common.Config.Checks.{IsPositiveOrNan}
use kv_replication_lab.Leaderless.Config.{
  Node, RawConfig, ClusterConfig, validate_quorum, from_dict, with_default_w, with_default_r,
  override, resolve_config, peers_excluding,
}

pub record IsValid (c : ClusterConfig) : Type 0 where
  pub w_positive : pos 1 ≤ℤ c.default_w
  pub w_within : c.default_w ≤ℤ pos (length c.nodes)
  pub r_positive : pos 1 ≤ℤ c.default_r
  pub r_within : c.default_r ≤ℤ pos (length c.nodes)
  pub positive_or_nan : IsPositiveOrNan c.timeout_seconds

from_dict-IsValid :
    (d : Seconds) (raw : RawConfig) (c : ClusterConfig) → from_dict d raw ≡ ok c → IsValid c
unfolding from_dict validate_quorum require_positive
from_dict-IsValid d raw c h = ground arith

with_default_w-IsValid :
    (self c : ClusterConfig) (n : ℤ) → IsValid self → with_default_w self n ≡ ok c → IsValid c
unfolding with_default_w validate_quorum
with_default_w-IsValid self c n v h = ground arith

with_default_r-IsValid :
    (self c : ClusterConfig) (n : ℤ) → IsValid self → with_default_r self n ≡ ok c → IsValid c
unfolding with_default_r validate_quorum
with_default_r-IsValid self c n v h = ground arith

override_w-IsValid :
    (o : Option ℤ) (self c : ClusterConfig)
    → IsValid self
    → override with_default_w o self ≡ ok c
    → IsValid c
override_w-IsValid none self c v h = ground arith
override_w-IsValid (some n) self c v h = with_default_w-IsValid self c n v h

override_r-IsValid :
    (o : Option ℤ) (self c : ClusterConfig)
    → IsValid self
    → override with_default_r o self ≡ ok c
    → IsValid c
override_r-IsValid none self c v h = ground arith
override_r-IsValid (some n) self c v h = with_default_r-IsValid self c n v h

bind-ok :
    (m : Checked ClusterConfig) (f : ClusterConfig → Checked ClusterConfig) (c : ClusterConfig)
    → (m >>= f) ≡ ok c
    → (a : ClusterConfig) × (m ≡ ok a) × (f a ≡ ok c)
bind-ok (ok a) f c h = (a, refl, h)
bind-ok value_error f c h = absurd (ground arith)
bind-ok key_error f c h = absurd (ground arith)

-- A config that is accepted, with or without overrides from the command line, has default quorums
-- between one and the number of its nodes, and a timeout that is positive or NaN.
pub resolve_config-IsValid :
    (d : Seconds) (raw : RawConfig) (w r : Option ℤ) (c : ClusterConfig)
    → resolve_config d raw w r ≡ ok c
    → IsValid c
unfolding resolve_config
resolve_config-IsValid d raw w r c h =
    let (a, e, q) = bind-ok (from_dict d raw) _ c h in
    let (b, e', q') = bind-ok (override with_default_w w a) (override with_default_r r) c q in
    override_r-IsValid r b c (override_w-IsValid w a b (from_dict-IsValid d raw a e) e') q'

-- The ports of some nodes.
abbrev pub ports : List Node → List ℕ
ports [] = []
ports (n ∷ ns) = n.port ∷ ports ns

abbrev others : ℕ → List Node → List Node
others p = keep (λ node. not (nat_eq node.port p))

others_absent : (p : ℕ) (ns : List Node) → ¬ In p (ports ns) → others p ns ≡ ns
others_absent p [] h = refl
others_absent p (n ∷ ns) h =
    let ne : ¬ (p ≡ n.port) = λ e. h (inl e) in ground (arith, others_absent p ns (λ m. h (inr m)))

length-others :
    (p : ℕ) (ns : List Node)
    → Distinct (ports ns)
    → In p (ports ns)
    → length (others p ns) + 1 ≡ length ns
length-others p [] d m = absurd m
length-others p (n ∷ ns) d (inl e) =
    ground (arith, others_absent p ns (subst (λ x. ¬ In x (ports ns)) (sym e) d.0))
length-others p (n ∷ ns) d (inr m) =
    let ne : ¬ (n.port ≡ p) = λ e. d.0 (subst (λ x. In x (ports ns)) (sym e) m) in
    ground (arith, length-others p ns d.1 m)

-- A node that the config lists, with ports that are all different, has one peer less than there
-- are nodes.
pub length-peers_excluding :
    (c : ClusterConfig) (own_port : ℕ)
    → Distinct (ports c.nodes)
    → In own_port (ports c.nodes)
    → length (peers_excluding c own_port) + 1 ≡ length c.nodes
unfolding peers_excluding
length-peers_excluding c own_port d m = length-others own_port c.nodes d m

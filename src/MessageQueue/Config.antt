-- ===== src/MessageQueue/Config.antt =====
-- `MQConfig` of message_queue/config.py. The raw mapping holds the values after `str(...)` and
-- `int(...)`; `none` is a key that is missing.
use kv_replication_lab.Prelude.{◌≡◌, refl, String, false, not, Option, arith, ◌==◌, if◌then◌else◌}
use kv_replication_lab.Prelude.Int.{ℤ, pos, leb_ℤ, ◌≤ℤ◌}
use kv_replication_lab.Common.Config.{
  Checked, ok, value_error, key_error, get_default, require_nonempty_str, ◌>>=◌, strip,
}

pub record RawConfig : Type 0 where
  pub bootstrap_servers : Option String
  pub topic : Option String
  pub num_partitions : Option ℤ
  pub consumer_group_prefix : Option String

pub record MqConfig : Type 0 where
  pub bootstrap_servers : String
  pub topic : String
  pub num_partitions : ℤ
  pub consumer_group_prefix : String

abbrev with_partitions :
    (bootstrap_servers topic consumer_group_prefix : String) → ℤ → Checked MqConfig
with_partitions bootstrap_servers topic consumer_group_prefix num_partitions =
    if not (leb_ℤ (pos 1) num_partitions)
    then value_error
    else ok (record {
      bootstrap_servers = bootstrap_servers;
      topic = topic;
      num_partitions = num_partitions;
      consumer_group_prefix = consumer_group_prefix;
    })

unfoldable pub from_dict : RawConfig → Checked MqConfig
from_dict raw = do
  bootstrap_servers ← require_nonempty_str (get_default raw.bootstrap_servers "")
  topic ← require_nonempty_str (get_default raw.topic "")
  consumer_group_prefix ← require_nonempty_str (get_default raw.consumer_group_prefix "")
  with_partitions bootstrap_servers topic consumer_group_prefix
      (get_default raw.num_partitions (pos 0))

non_empty : (s t : String) → require_nonempty_str s ≡ ok t → (t ≡ strip s) × ((t == "") ≡ false)
unfolding require_nonempty_str
non_empty s t h = ground arith

-- A config that is accepted has at least one partition, and its topic is the given one without
-- blanks at its ends, and not empty.
pub from_dict_lem :
    (raw : RawConfig) (c : MqConfig)
    → from_dict raw ≡ ok c
    → (pos 1 ≤ℤ c.num_partitions)
      × (c.topic ≡ strip (get_default raw.topic ""))
      × ((c.topic == "") ≡ false)
unfolding from_dict
from_dict_lem raw c h = checked _ _ _ refl refl refl h
  where
    checked :
        (b t p : Checked String)
        → require_nonempty_str (get_default raw.bootstrap_servers "") ≡ b
        → require_nonempty_str (get_default raw.topic "") ≡ t
        → require_nonempty_str (get_default raw.consumer_group_prefix "") ≡ p
        → (b >>= λ b'. t >>= λ t'.
            p >>= λ p'. with_partitions b' t' p' (get_default raw.num_partitions (pos 0)))
          ≡ ok c
        → (pos 1 ≤ℤ c.num_partitions)
          × (c.topic ≡ strip (get_default raw.topic ""))
          × ((c.topic == "") ≡ false)
    checked value_error t p eb et ep h = absurd (ground arith)
    checked key_error t p eb et ep h = absurd (ground arith)
    checked (ok b) value_error p eb et ep h = absurd (ground arith)
    checked (ok b) key_error p eb et ep h = absurd (ground arith)
    checked (ok b) (ok t) value_error eb et ep h = absurd (ground arith)
    checked (ok b) (ok t) key_error eb et ep h = absurd (ground arith)
    checked (ok b) (ok t) (ok p) eb et ep h =
        let (stripped, filled) = non_empty (get_default raw.topic "") t et in
        (ground arith, ground arith, ground arith)

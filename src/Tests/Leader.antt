-- ===== src/Tests/Leader.antt =====
-- Examples for leader_follower/.
use kv_replication_lab.Prelude.{
  ℕ, ◌+◌, ◌≤◌, ◌<◌, ◌≡◌, refl, ◌⊎◌, inl, inr, ◌↔◌, String, Bool, true, false, none, some, List, [],
  ◌∷◌, ◌++◌, All, length,
}
use kv_replication_lab.Prelude.Int.{pos}
use kv_replication_lab.Common.Waiting.{Schedule, Outcome, returned, pending_after}
use kv_replication_lab.Common.Storage
use kv_replication_lab.Common.Storage.{KvStore}
use kv_replication_lab.Common.Server
use kv_replication_lab.Common.Server.Later.{AnswersFrom}
use kv_replication_lab.Common.Server.{
  get_key, HttpResult, ok, http_exception, PutRequest, PutResponse, ReplicateRequest,
}
use kv_replication_lab.Common.Config.{Checked, finite, is_over}
use kv_replication_lab.LeaderFollower.Config.{
  Follower, RawConfig, ClusterConfig, resolve_config, from_dict, with_ack_required, parse_followers,
  validate_ack_required,
}
use kv_replication_lab.LeaderFollower.Replicator.{Task, Replicator, replicate}
use kv_replication_lab.LeaderFollower.Replicator.Acks.{total_acks, TimedOut}
use kv_replication_lab.LeaderFollower.Leader.{LeaderState, put_key_leader}
use kv_replication_lab.LeaderFollower.Leader.Consistency.{read_after_synchronous_write}
use kv_replication_lab.LeaderFollower.Leader.Writes.{
  tasks, put_key_leader_total, put_key_leader_ok, put_key_leader_503,
}

abbrev the_follower : Follower
the_follower = record { host = "f"; port = 8001 }

abbrev one_follower : ClusterConfig
one_follower = record {
  followers = the_follower ∷ [];
  ack_required = pos 1;
  timeout_seconds = finite (pos 10);
}

abbrev leader : LeaderState ℕ
leader = record {
  storage = Storage.empty;
  replicator = record { config = one_follower; background = [] };
}

abbrev at_once : Schedule Task
at_once = record { now = λ i. i; finished = λ i t. true }

abbrev all_ack : ReplicateRequest ℕ → Follower → Outcome Bool
all_ack payload f = returned true

abbrev no_ack : ReplicateRequest ℕ → Follower → Outcome Bool
no_ack payload f = returned false

abbrev body : PutRequest ℕ
body = record { value = 7 }

abbrev leader_after : LeaderState ℕ
leader_after = record {
  storage = (Storage.put (Storage.empty {V = ℕ}) "k" 7 5 "l").0;
  replicator = record { config = one_follower; background = [] };
}

abbrev applied : PutResponse
applied = record { applied = true; timestamp = 5 }

abbrev unmet : ℕ
unmet = 503

acked :
    put_key_leader "l" 5 all_ack at_once leader "k" body
    ≡ some (leader_after, returned (ok applied))
unfolding put_key_leader replicate kv_replication_lab.LeaderFollower.Replicator.ack_loop
    kv_replication_lab.Common.Waiting.wait_done
    kv_replication_lab.LeaderFollower.Replicator.count_acks
    kv_replication_lab.Common.Waiting.wait_pending Storage.put Storage.is_stale
    kv_replication_lab.Prelude.lookup
acked = refl

not_acked :
    put_key_leader "l" 5 no_ack at_once leader "k" body
    ≡ some (leader_after, returned (http_exception unmet))
unfolding put_key_leader replicate kv_replication_lab.LeaderFollower.Replicator.ack_loop
    kv_replication_lab.Common.Waiting.wait_done
    kv_replication_lab.LeaderFollower.Replicator.count_acks
    kv_replication_lab.Common.Waiting.wait_pending
not_acked = refl

put_key_leader_total_example :
    (end : LeaderState ℕ × Outcome (HttpResult PutResponse)) × (put_key_leader "l" 5 no_ack at_once
        leader "k" body
      ≡ some end)
    × (end.0.storage ≡ (Storage.put (Storage.empty {V = ℕ}) "k" 7 5 "l").0)
put_key_leader_total_example = put_key_leader_total "l" 5 no_ack at_once leader "k" body

put_key_leader_ok_example :
    (1 ≤ total_acks (tasks "l" 5 all_ack at_once leader "k" body))
    × (true ≡ (Storage.put (Storage.empty {V = ℕ}) "k" 7 5 "l").1)
    × (applied.timestamp ≡ 5)
put_key_leader_ok_example =
    put_key_leader_ok "l" 5 all_ack at_once leader "k" body leader_after applied acked

-- The follower's store, as the write and nothing before it has made it.
abbrev follower_store : Follower → KvStore ℕ
follower_store f =
    (Server.replicate Storage.empty
      (record { key = "k"; value = 7; timestamp = 5; node_id = "l" })).0

read_after_synchronous_write_example :
    AnswersFrom
      (record { value = 7; timestamp = 5; node_id = "l" })
      "k"
      (get_key (follower_store the_follower) "k")
unfolding kv_replication_lab.Common.Storage.Replay.apply_all Server.replicate
read_after_synchronous_write_example =
    read_after_synchronous_write "l" 5 all_ack at_once leader leader_after "k" body applied
      follower_store (λ f h. (Storage.empty, ([], refl))) refl acked (follower_store the_follower)
      (inr (the_follower, inl refl, ([], refl)))

put_key_leader_503_example :
    (unmet ≡ 503)
    × ((n : ℕ) × (rest : List Task) × (n < 1)
        × (n + total_acks rest ≡ total_acks (tasks "l" 5 no_ack at_once leader "k" body))
        × (leader_after.replicator.background ≡ [] ++ rest)
        × ((d : ℕ) × (rest ≡ pending_after at_once 1 d (tasks "l" 5 no_ack at_once leader "k" body))
            × ((rest ≡ []) ⊎ TimedOut at_once (is_over (finite (pos 10)) 0) 1 (1 + d) rest)))
put_key_leader_503_example =
    put_key_leader_503 "l" 5 no_ack at_once leader "k" body leader_after unmet not_acked

abbrev raw : RawConfig
raw = record {
  followers = some (record { host = some "f"; port = some 8001 } ∷ []);
  ack_required = none;
  timeout_seconds = some (finite (pos 10));
}

accepted : resolve_config (finite (pos 2)) raw (some (pos 1)) ≡ Checked.ok one_follower
unfolding resolve_config from_dict with_ack_required parse_followers validate_ack_required
    kv_replication_lab.Common.Config.require_positive
accepted = refl

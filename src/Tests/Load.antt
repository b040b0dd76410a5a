-- ===== src/Tests/Load.antt =====
-- Examples for experiments/.
use kv_replication_lab.Prelude.Int.{ℤ, pos}
use kv_replication_lab.Prelude.{
  ℕ, ◌+◌, Bool, String, Option, map, nat_eq, ◌≡◌, refl, true, false, none, some, List, [], ◌∷◌, All,
  length, arith, ◌==◌, if◌then◌else◌,
}
use kv_replication_lab.Common.Waiting.{returned}
use kv_replication_lab.LeaderFollower.Config.{Follower}
use kv_replication_lab.Leaderless.Config.{Node}
use kv_replication_lab.LoadTest.LeaderFollower
use kv_replication_lab.LoadTest.Leaderless
use kv_replication_lab.LoadTest.Leaderless.{NodeRotation, ClusterShared}
use kv_replication_lab.LoadTest.Leaderless.Equivalence.{HasNodes, same_bookkeeping}
use kv_replication_lab.LoadTest.MessageQueue
use kv_replication_lab.LoadTest.MessageQueue.{LagMoment}
use kv_replication_lab.LoadTest.Plan.{Rng, RequestPlan}
use kv_replication_lab.LoadTest.Records.{SourceOfTruth, Stats, timeout_exception}
use kv_replication_lab.LoadTest.Runs.{
  run_leader_follower_load_test, run_mq_load_test, run_leaderless_load_test,
}
use kv_replication_lab.LoadTest.Runs.QueueReturns.{mq_run-Completes}
use kv_replication_lab.LoadTest.Runs.ClusterReturns.{leaderless_run-Completes}
use kv_replication_lab.LoadTest.Runs.Returns.{Completes, leader_follower_run-Completes}
use kv_replication_lab.LoadTest.Runs.Sums.{DrawsBelow}
use kv_replication_lab.LoadTest.Worker.{Shared, Moment, Answer, http_error, response}
use kv_replication_lab.LoadTest.Worker.Names.{unnamed}
use kv_replication_lab.LoadTest.Worker.Simulation.{with_moment, Agree}

abbrev five : List ℕ
five = 1 ∷ 2 ∷ 3 ∷ 4 ∷ 5 ∷ []

-- A generator that always draws the same.
abbrev constant : Rng (Unit {0})
constant = record {
  seeded = λ seed. tt;
  getrandbits = λ bits g. (4, g);
  below_fraction = λ g. (true, g);
  choice = λ keys g. ("k", g);
  randrange = λ n g. (0, g);
}

abbrev no_entries : SourceOfTruth
no_entries = record { entries = [] }

abbrev write_item : RequestPlan
write_item = record { is_read = false; key = "k"; read_target_index = none }

abbrev unreachable : {S : Type 0} → Moment S
unreachable = record {
  before = λ s. s;
  during = λ s. s;
  write_answer = http_error timeout_exception;
  read_answer = response 404 none;
  now = 9;
}

abbrev shared : Shared
shared = record { counter = 0; source_of_truth = no_entries }

abbrev one_failure : Stats
one_failure = record {
  total_requests = 1;
  total_reads = 0;
  total_writes = 1;
  comparable_reads = 0;
  stale_reads = 0;
  stale_events = [];
  failed_reads = 0;
  failed_writes = 1;
  failure_counts = (("write", "timeout"), 1) ∷ [];
  failure_events =
      record {
        operation = "write";
        failure_type = "timeout";
        key = "k";
        node_id = "l";
        status_code = none;
        timestamp = 9;
      }
      ∷ [];
}

-- A worker whose one write times out.
ran :
    LeaderFollower.run_worker [] (λ f. "f") "l" ((write_item, unreachable) ∷ []) shared
    ≡ (record { counter = 1; source_of_truth = no_entries }, returned one_failure)
unfolding LeaderFollower.run_worker kv_replication_lab.LoadTest.Worker.run_items
    LeaderFollower.do_write kv_replication_lab.LoadTest.Records.next_value
    kv_replication_lab.LoadTest.Records.record_failure
    kv_replication_lab.LoadTest.Records.classify_exception
ran = refl

abbrev two_nodes : List Node
two_nodes = record { host = "a"; port = 1 } ∷ record { host = "b"; port = 2 } ∷ []

abbrev one_follower : List Follower
one_follower = record { host = "a"; port = 1 } ∷ []

abbrev rotation : NodeRotation
rotation = record { nodes = two_nodes; index = 3 }

abbrev cluster : ClusterShared
cluster = record { common = shared; rotation = rotation }

abbrev two_followers : List Follower
two_followers = record { host = "a"; port = 1 } ∷ record { host = "b"; port = 2 } ∷ []

abbrev twins : List (RequestPlan × (Moment ClusterShared × Moment Shared))
twins = (write_item, (unreachable, unreachable)) ∷ []

same_bookkeeping_example :
    Agree {S = ClusterShared}
      (λ x. x.common)
      HasNodes
      unnamed
      (Leaderless.run_worker two_nodes
        (λ n. n.host)
        (map (with_moment (λ (p : Moment ClusterShared × Moment Shared). p.0)) twins)
        cluster)
      (LeaderFollower.run_worker two_followers
        (λ f. "f")
        "l"
        (map (with_moment (λ (p : Moment ClusterShared × Moment Shared). p.1)) twins)
        shared)
same_bookkeeping_example =
    same_bookkeeping two_nodes two_followers (λ n. n.host) (λ f. "f") "l" refl twins
      (
        record {
          before = λ s. refl;
          during = λ s. refl;
          kept_before = λ s. refl;
          kept_during = λ s. refl;
          write_answer = refl;
          read_answer = refl;
          now = refl;
        },
        tt,
      )
      cluster refl

abbrev is_ok : ℕ → Bool
is_ok status = nat_eq status 200

abbrev read_item : RequestPlan
read_item = record { is_read = true; key = "k"; read_target_index = some 0 }

abbrev written : Shared
written = record {
  counter = 1;
  source_of_truth = record { entries = ("k", record { value = 0; timestamp = 7 }) ∷ [] };
}

abbrev lagging : LagMoment
lagging = record {
  request = unreachable;
  during_lag = λ s. s;
  lag_answer = response 200 (some (pos 4));
}

abbrev one_stale : Stats
one_stale = record {
  total_requests = 1;
  total_reads = 1;
  total_writes = 0;
  comparable_reads = 1;
  stale_reads = 1;
  stale_events =
      record {
        key = "k";
        node_id = "f";
        node_id_field = "follower_node_id";
        expected_timestamp = 7;
        actual_timestamp = none;
        staleness_gap_ms = pos 2000;
        lag_at_stale_read = some (some (pos 4));
      }
      ∷ [];
  failed_reads = 0;
  failed_writes = 0;
  failure_counts = [];
  failure_events = [];
}

-- A read that finds nothing at a follower whose lag is 4.
lagged :
    MessageQueue.run_worker is_ok (9000 ∷ []) (λ port. "f") "p" ((read_item, lagging) ∷ []) written
    ≡ (written, returned one_stale)
unfolding MessageQueue.run_worker kv_replication_lab.LoadTest.Worker.run_items MessageQueue.do_read
    kv_replication_lab.LoadTest.Records.snapshot kv_replication_lab.Prelude.lookup
    MessageQueue.query_lag kv_replication_lab.LoadTest.Records.record_stale
    kv_replication_lab.Prelude.Int.◌-ℤ◌
lagged = refl

abbrev healthy : {A : Type 0} → A → Answer String
healthy node = response 200 (some "f")

constant-DrawsBelow : DrawsBelow constant
constant-DrawsBelow n h g = h

leader_follower_run-Completes_example : Completes 3 (
    run_leader_follower_load_test constant is_ok
      ("k" ∷ [])
      9
      one_follower
      healthy
      (response 200 (some "l"))
      (λ ids f. "f")
      (λ i. shared)
      (λ i j. record unreachable { read_answer = response 404 (some 0) })
      3
      2)
leader_follower_run-Completes_example =
    leader_follower_run-Completes constant constant-DrawsBelow is_ok ("k" ∷ []) 9 3 2 (omega arith)
      one_follower refl healthy (λ f. refl) (response 200 (some "l")) refl (λ ids f. "f")
      (λ i. shared) (λ i j. record unreachable { read_answer = response 404 (some 0) })
      (λ i j. (tt, tt))

abbrev answered : {S : Type 0} → Moment S
answered = record unreachable { read_answer = response 404 (some 0) }

abbrev sampled : LagMoment
sampled = record lagging { request = answered }

mq_run-Completes_example : Completes 3 (
    run_mq_load_test constant is_ok
      ("k" ∷ [])
      9
      (9000 ∷ 9001 ∷ [])
      healthy
      (response 200 (some "p"))
      (λ ids port. "f")
      (λ i. written)
      (λ i j. sampled)
      3
      2)
mq_run-Completes_example =
    mq_run-Completes constant constant-DrawsBelow is_ok ("k" ∷ []) 9 3 2 (omega arith)
      (9000 ∷ 9001 ∷ []) (omega arith) healthy (λ port. refl) (response 200 (some "p")) refl
      (λ ids port. "f") (λ i. written) (λ i j. sampled) (λ i j. ((tt, tt), tt))

leaderless_run-Completes_example : Completes 3 (
    run_leaderless_load_test constant is_ok
      ("k" ∷ [])
      9
      two_nodes
      healthy
      (λ ids n. "n")
      (λ i. cluster)
      (λ i j. answered)
      3
      2)
leaderless_run-Completes_example =
    leaderless_run-Completes constant constant-DrawsBelow is_ok ("k" ∷ []) 9 3 2 (omega arith)
      two_nodes refl healthy (λ n. refl) (λ ids n. "n") (λ i. cluster) (λ i j. answered) (λ i. refl)
      (λ i j. ((tt, tt), λ s h. h, λ s h. h))

-- ===== src/Tests/Smoke.antt =====
-- Examples for experiments/kafka_smoke_test.py.
use kv_replication_lab.Prelude.{
  ℕ, ◌+◌, String, ◌≡◌, ◌↔◌, refl, List, [], ◌∷◌, true, false, none, some, arith, nat_eq, ◌==◌,
  if◌then◌else◌,
}
use kv_replication_lab.Common.Waiting.{Outcome, returned}
use kv_replication_lab.SmokeTest.Broker.{
  topic, smoke_keys, messages_per_key, produce_messages, Surroundings, smoke_test,
}
use kv_replication_lab.SmokeTest.Routing.{IsRouted, check_partition_routing_iff}
use kv_replication_lab.SmokeTest.Polling.{Ticks}
use kv_replication_lab.SmokeTest.Consuming.{Ran, smoke_test_total}
use kv_replication_lab.SmokeTest.{Received, check_partition_routing, check_order_preserved}
use kv_replication_lab.SmokeTest.Order.{check_order_preserved_swap}

-- A message of one key.
abbrev message : (seq offset : ℕ) → Received
message seq offset = record { key = "alice"; seq = seq; partition = 0; offset = offset }

duplicate : check_order_preserved 2 (message 0 0 ∷ message 1 0 ∷ []) ≡ false
unfolding check_order_preserved kv_replication_lab.SmokeTest.sort_entries
    kv_replication_lab.SmokeTest.sorted_set
duplicate = refl

backwards : check_order_preserved 2 (message 1 1 ∷ message 0 0 ∷ []) ≡ true
unfolding check_order_preserved kv_replication_lab.SmokeTest.sort_entries
    kv_replication_lab.SmokeTest.sorted_set kv_replication_lab.SmokeTest.seqs_of
backwards = refl

check_order_preserved_swap_example :
    check_order_preserved 2 (message 1 1 ∷ message 0 0 ∷ [])
    ≡ check_order_preserved 2 (message 0 0 ∷ message 1 1 ∷ [])
check_order_preserved_swap_example =
    check_order_preserved_swap (message 1 1) (message 0 0) [] (λ same. omega arith) [] 2

abbrev split_key : List Received
split_key = message 0 0 ∷ record (message 1 0) { partition = 1 } ∷ []

not_routed : check_partition_routing split_key ≡ false
unfolding check_partition_routing kv_replication_lab.SmokeTest.partitions_of
    kv_replication_lab.SmokeTest.sorted_set
not_routed = refl

check_partition_routing_iff_example :
    (check_partition_routing split_key ≡ true) ↔ IsRouted split_key
check_partition_routing_iff_example = check_partition_routing_iff split_key

-- A broker with a partition for each first letter, whose offsets are the numbers of the messages.
abbrev partition_of : String → ℕ
partition_of key =
    if key == "alice" then 0 else (if key == "bob" then 1 else (if key == "carol" then 2 else 3))

abbrev send : String → ℕ → Outcome (ℕ × ℕ)
send key seq = returned (
  partition_of key,
  if key == "eve" then 10 + seq else (if key == "frank" then 20 + seq else seq),
)

-- What it hands out: in the first round nothing, then all that has been sent.
abbrev getmany : ℕ → Outcome (List Received)
getmany round =
    if nat_eq round 1 then returned [] else produce_messages send messages_per_key smoke_keys

abbrev broker : Surroundings
broker = record {
  recreation = record {
    existing = topic ∷ [];
    delete_errors = 0 ∷ [];
    listed = λ round. if nat_eq round 1 then topic ∷ [] else [];
    delete_clock = λ round. round;
    create_errors = 0 ∷ [];
    partitions = λ round. if nat_eq round 1 then none else some 4;
    ready_clock = λ round. round;
  };
  send = send;
  now = λ round. round;
  getmany = getmany;
}

passes : smoke_test 3 4 broker ≡ some (returned 0)
unfolding smoke_test kv_replication_lab.SmokeTest.sort_entries kv_replication_lab.SmokeTest.seqs_of
passes = refl

clock-Ticks : Ticks (λ round. round)
clock-Ticks i = omega arith

smoke_test_total_example : Ran 3 broker (smoke_test 3 4 broker)
smoke_test_total_example = smoke_test_total 3 broker clock-Ticks clock-Ticks clock-Ticks

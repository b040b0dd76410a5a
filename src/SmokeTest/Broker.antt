-- ===== src/SmokeTest/Broker.antt =====
-- What experiments/kafka_smoke_test.py asks of the broker: the topic is recreated, messages are
-- produced and consumed back, and `main` runs the two checks on them.
--
-- The answers of the broker and the readings of `time.monotonic()` are arguments, for each round of
-- a loop; a loop runs on fuel, and `none` means that the fuel ran out.
use kv_replication_lab.Prelude.{
  ℕ, zero, suc, ◌+◌, String, Bool, true, false, not, ◌&&◌, Option, none, some, List, [], ◌∷◌, ◌++◌,
  length, nat_eq, leb, ltb, ◌==◌, if◌then◌else◌,
}
use kv_replication_lab.Common.Waiting.{Outcome, returned, raised}
use kv_replication_lab.SmokeTest.{Received, check_partition_routing, check_order_preserved}

abbrev pub topic : String
topic = "kv-lab-kafka-smoke-test"

abbrev pub num_partitions : ℕ
num_partitions = 4

-- `KEYS`
abbrev pub smoke_keys : List String
smoke_keys = "alice" ∷ "bob" ∷ "carol" ∷ "dave" ∷ "eve" ∷ "frank" ∷ []

abbrev pub messages_per_key : ℕ
messages_per_key = 5

-- `_raise_on_topic_errors`: any code but 0 raises
unfoldable pub raise_on_error_codes : List ℕ → Outcome (Unit {0})
raise_on_error_codes [] = returned tt
raise_on_error_codes (code ∷ codes) =
    let rest = raise_on_error_codes codes in if nat_eq code 0 then rest else raised

-- `topic in topics`
abbrev pub is_listed : String → List String → Bool
is_listed x [] = false
is_listed x (t ∷ ts) = let later = is_listed x ts in if t == x then true else later

-- A loop that polls until something holds or a deadline has passed: from a round on
unfoldable pub poll_until :
    (fuel round deadline : ℕ) → (ℕ → Bool) → (now : ℕ → ℕ) → Option (Outcome (Unit {0}))
poll_until zero i deadline holds now = none
poll_until (suc f) i deadline holds now =
    let rest = poll_until f (i + 1) deadline holds now in
    if holds i then some (returned tt) else (if leb deadline (now i) then some raised else rest)

-- What the broker answers while the topic is recreated; each loop has a clock.
pub record Recreation : Type 0 where
  pub existing : List String
  pub delete_errors : List ℕ
  pub listed : ℕ → List String
  pub delete_clock : ℕ → ℕ
  pub create_errors : List ℕ
  pub partitions : ℕ → Option ℕ
  pub ready_clock : ℕ → ℕ

abbrev pub followed_by :
    Option (Outcome (Unit {0})) → Option (Outcome (Unit {0})) → Option (Outcome (Unit {0}))
followed_by none next = none
followed_by (some raised) next = some raised
followed_by (some (returned u)) next = next

-- `described and len(described[0]["partitions"]) == NUM_PARTITIONS`
abbrev pub has_all_partitions : Option ℕ → Bool
has_all_partitions none = false
has_all_partitions (some n) = nat_eq n num_partitions

-- `recreate_topic`
unfoldable pub recreate_topic : (timeout fuel : ℕ) → Recreation → Option (Outcome (Unit {0}))
unfolding raise_on_error_codes poll_until
recreate_topic timeout fuel r =
    let created = followed_by (some (raise_on_error_codes r.create_errors)) (
      poll_until fuel 1 (r.ready_clock 0 + timeout) (λ i. has_all_partitions (r.partitions i))
        r.ready_clock) in
    if is_listed topic r.existing
    then followed_by (some (raise_on_error_codes r.delete_errors)) (
        followed_by
          (poll_until fuel 1 (r.delete_clock 0 + timeout) (λ i. not (is_listed topic (r.listed i)))
            r.delete_clock)
          created)
    else created

-- What `send_and_wait` answers: the partition and the offset
abbrev pub sent_then :
    (key : String) (seq : ℕ) → Outcome (ℕ × ℕ) → Outcome (List Received) → Outcome (List Received)
sent_then key seq raised rest = raised
sent_then key seq (returned (partition, offset)) raised = raised
sent_then key seq (returned (partition, offset)) (returned rest) =
    returned (record { key = key; seq = seq; partition = partition; offset = offset } ∷ rest)

module _ (send : (key : String) (seq : ℕ) → Outcome (ℕ × ℕ)) where
  -- The inner loop of `produce_messages`, and then the rest of the outer one
  abbrev pub produce_keys :
      (seq : ℕ) → List String → Outcome (List Received) → Outcome (List Received)
  produce_keys seq [] next = next
  produce_keys seq (key ∷ keys) next = sent_then key seq (send key seq) (produce_keys seq keys next)

  abbrev pub produce_from : (first count : ℕ) → List String → Outcome (List Received)
  produce_from seq zero keys = returned []
  produce_from seq (suc n) keys = produce_keys seq keys (produce_from (seq + 1) n keys)

  -- `produce_messages`
  unfoldable pub produce_messages : (count : ℕ) → List String → Outcome (List Received)
  produce_messages count keys = produce_from 0 count keys

module _ (now : ℕ → ℕ) (deadline : ℕ) (getmany : ℕ → Outcome (List Received)) where
  abbrev pub received_more :
      List Received
      → Outcome (List Received)
      → (List Received → Option (Outcome (List Received)))
      → Option (Outcome (List Received))
  received_more received raised next = some raised
  received_more received (returned batch) next = next (received ++ batch)

  -- The `while` loop of `consume_messages`, from a round on
  unfoldable pub consume_loop :
      (fuel round expected : ℕ) → List Received → Option (Outcome (List Received))
  consume_loop zero i expected received = none
  consume_loop (suc f) i expected received =
      let more = received_more received (getmany i) (consume_loop f (i + 1) expected) in
      if ltb (length received) expected
      then (if leb deadline (now i) then some raised else more)
      else some (returned received)

-- `consume_messages`, whose clock of round 0 sets the deadline
unfoldable pub consume_messages :
    (timeout fuel expected : ℕ)
    → (now : ℕ → ℕ) → (getmany : ℕ → Outcome (List Received)) → Option (Outcome (List Received))
unfolding consume_loop
consume_messages timeout fuel expected now getmany =
    consume_loop now (now 0 + timeout) getmany fuel 1 expected []

-- What a run depends on.
pub record Surroundings : Type 0 where
  pub recreation : Recreation
  pub send : (key : String) (seq : ℕ) → Outcome (ℕ × ℕ)
  pub now : ℕ → ℕ
  pub getmany : ℕ → Outcome (List Received)

abbrev pub exit_code : Bool → ℕ
exit_code true = 0
exit_code false = 1

abbrev pub judged : List Received → Option (Outcome (List Received)) → Option (Outcome ℕ)
judged sent none = none
judged sent (some raised) = some raised
judged sent (some (returned received)) = some (
    returned
      (exit_code (check_partition_routing sent && check_order_preserved messages_per_key received)))

abbrev pub after_sending :
    (timeout fuel : ℕ) → Surroundings → Outcome (List Received) → Option (Outcome ℕ)
after_sending timeout fuel s raised = some raised
after_sending timeout fuel s (returned sent) =
    judged sent (consume_messages timeout fuel (length sent) s.now s.getmany)

abbrev pub after_topic :
    (timeout fuel : ℕ) → Surroundings → Option (Outcome (Unit {0})) → Option (Outcome ℕ)
after_topic timeout fuel s none = none
after_topic timeout fuel s (some raised) = some raised
after_topic timeout fuel s (some (returned u)) =
    after_sending timeout fuel s (produce_messages s.send messages_per_key smoke_keys)

-- `main`: the exit code, or an exception
unfoldable pub smoke_test : (timeout fuel : ℕ) → Surroundings → Option (Outcome ℕ)
unfolding recreate_topic produce_messages consume_messages check_partition_routing
    check_order_preserved
smoke_test timeout fuel s = after_topic timeout fuel s (recreate_topic timeout fuel s.recreation)

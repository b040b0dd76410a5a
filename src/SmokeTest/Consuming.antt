-- ===== src/SmokeTest/Consuming.antt =====
-- That a run of experiments/kafka_smoke_test.py ends, and what its success says.
use kv_replication_lab.Prelude.{
  ℕ, zero, suc, ◌+◌, ◌-◌, ◌≤◌, ◌<◌, ◌≡◌, refl, String, Bool, true, false, ◌&&◌, Option, none, some,
  List, [], ◌∷◌, ◌++◌, length, arith, leb, ltb, if_cases, map, ap,
}
use kv_replication_lab.Common.Waiting.{Outcome, returned, raised}
use kv_replication_lab.SmokeTest.{Received, check_order_preserved}
use kv_replication_lab.SmokeTest.Broker.{
  smoke_keys, messages_per_key, recreate_topic, sent_then, produce_keys, produce_from,
  produce_messages, received_more, consume_loop, consume_messages, Surroundings, exit_code, judged,
  after_sending, after_topic, smoke_test,
}
use kv_replication_lab.SmokeTest.Polling.{
  IsDecided, Ticks, early, recreate_topic-IsDecided, IsRecreated, recreate_topic-IsRecreated,
}
use kv_replication_lab.SmokeTest.Routing.{IsRouted, check_partition_routing_iff}

-- What consuming comes to: enough messages, or an exception.
abbrev pub Consumed : ℕ → Option (Outcome (List Received)) → Type 0
Consumed expected none = ⊥
Consumed expected (some raised) = Unit
Consumed expected (some (returned received)) = expected ≤ length received

consume_loop-Consumed :
    (now : ℕ → ℕ)
    → Ticks now
    → (getmany : ℕ → Outcome (List Received)) (deadline expected fuel i : ℕ)
      (received : List Received)
    → deadline + 1 - now i < fuel
    → Consumed expected (consume_loop now deadline getmany fuel i expected received)
unfolding consume_loop
consume_loop-Consumed now ticks getmany deadline expected zero i received lt =
    absurd (omega (arith, lt))
consume_loop-Consumed now ticks getmany deadline expected (suc f) i received lt =
    if_cases (Consumed expected) (ltb (length received) expected) _ _
      (λ few.
        if_cases (Consumed expected) (leb deadline (now i)) _ _ (λ late. tt)
          (λ in_time. with_batch (getmany i) (λ batch.
            consume_loop-Consumed now ticks getmany deadline expected f (i + 1) (received ++ batch)
              (omega (arith, lt, early deadline (now i) in_time, ticks i)))))
      (λ enough. ground (arith, enough))
  where
    with_batch :
        (o : Outcome (List Received))
        → ((batch : List Received)
            → Consumed expected
                (consume_loop now deadline getmany f (i + 1) expected (received ++ batch)))
        → Consumed expected (
            received_more now deadline getmany received o
              (consume_loop now deadline getmany f (i + 1) expected))
    with_batch raised next = tt
    with_batch (returned batch) next = next batch

-- The key and the number of a message.
abbrev pub named : Received → String × ℕ
named m = (m.key, m.seq)

-- These messages are sent, in this order, or there is an exception.
abbrev Sends : List (String × ℕ) → Outcome (List Received) → Type 0
Sends ps raised = Unit
Sends ps (returned sent) = map named sent ≡ ps

abbrev round_of : (seq : ℕ) → List String → List (String × ℕ)
round_of seq [] = []
round_of seq (key ∷ keys) = (key, seq) ∷ round_of seq keys

abbrev rounds_from : (seq count : ℕ) → List String → List (String × ℕ)
rounds_from seq zero keys = []
rounds_from seq (suc n) keys = round_of seq keys ++ rounds_from (seq + 1) n keys

module _ (send : (key : String) (seq : ℕ) → Outcome (ℕ × ℕ)) where
  produce_keys-Sends :
      (seq : ℕ) (ps : List (String × ℕ)) (keys : List String) (next : Outcome (List Received))
      → Sends ps next
      → Sends (round_of seq keys ++ ps) (produce_keys send seq keys next)
  produce_keys-Sends seq ps [] next h = h
  produce_keys-Sends seq ps (key ∷ keys) next h =
      one_more (send key seq) (produce_keys send seq keys next)
        (produce_keys-Sends seq ps keys next h)
    where
      one_more :
          (a : Outcome (ℕ × ℕ)) (o : Outcome (List Received))
          → Sends (round_of seq keys ++ ps) o
          → Sends ((key, seq) ∷ (round_of seq keys ++ ps)) (sent_then key seq a o)
      one_more raised o h = tt
      one_more (returned (p, q)) raised h = tt
      one_more (returned (p, q)) (returned sent) h = ap (◌∷◌ (key, seq)) h

  produce_from-Sends :
      (seq count : ℕ) (keys : List String)
      → Sends (rounds_from seq count keys) (produce_from send seq count keys)
  produce_from-Sends seq zero keys = refl
  produce_from-Sends seq (suc n) keys =
      produce_keys-Sends seq (rounds_from (seq + 1) n keys) keys _
        (produce_from-Sends (seq + 1) n keys)

-- One message for each of the six keys.
abbrev pub one_each : ℕ → List (String × ℕ)
one_each n = ("alice", n) ∷ ("bob", n) ∷ ("carol", n) ∷ ("dave", n) ∷ ("eve", n) ∷ ("frank", n) ∷ []

-- Five messages for each of the six keys, round by round.
abbrev pub all_messages : List (String × ℕ)
all_messages = one_each 0 ++ one_each 1 ++ one_each 2 ++ one_each 3 ++ one_each 4

all_sent :
    (send : (key : String) (seq : ℕ) → Outcome (ℕ × ℕ))
    → Sends all_messages (produce_messages send messages_per_key smoke_keys)
unfolding produce_messages
all_sent send = produce_from-Sends send 0 messages_per_key smoke_keys

module _ (timeout : ℕ) (s : Surroundings) where
  -- What a run comes to: an exception, or an exit code, and what 0 stands for.
  abbrev pub Ran : Option (Outcome ℕ) → Type 0
  Ran none = ⊥
  Ran (some raised) = Unit
  Ran (some (returned code)) =
      code ≡ 0
      → (sent received : List Received) × IsRecreated s.recreation
        × (produce_messages s.send messages_per_key smoke_keys ≡ returned sent)
        × (consume_messages timeout (suc timeout) (length sent) s.now s.getmany
            ≡ some (returned received))
        × (map named sent ≡ all_messages)
        × (length sent ≤ length received)
        × IsRouted sent
        × (check_order_preserved messages_per_key received ≡ true)

  judged-Ran :
      (sent : List Received)
      → IsRecreated s.recreation
      → produce_messages s.send messages_per_key smoke_keys ≡ returned sent
      → map named sent ≡ all_messages
      → (o : Option (Outcome (List Received)))
      → consume_messages timeout (suc timeout) (length sent) s.now s.getmany ≡ o
      → Consumed (length sent) o
      → Ran (judged sent o)
  judged-Ran sent made produced all none e h = elim h [ ]
  judged-Ran sent made produced all (some raised) e h = tt
  judged-Ran sent made produced all (some (returned received)) e h = λ zero_code.
      let both = passed _ zero_code in
      (
        sent,
        received,
        made,
        produced,
        e,
        all,
        h,
        (check_partition_routing_iff sent).0 (left _ _ both),
        right _ _ both,
      )
    where
      passed : (b : Bool) → exit_code b ≡ 0 → b ≡ true
      passed true h = refl
      passed false h = cc h

      left : (a b : Bool) → (a && b) ≡ true → a ≡ true
      left true b h = refl
      left false b h = h

      right : (a b : Bool) → (a && b) ≡ true → b ≡ true
      right true b h = h
      right false b h = cc h

  -- On clocks that advance in every round, the smoke test ends, in no more rounds of each loop than
  -- there are ticks in its timeout and one more. If its exit code is 0, then no step of recreating the
  -- topic has answered with an error; an old topic was seen to be gone, and the new one was seen to
  -- have four partitions. Five messages for each of the six keys have been sent, numbered from 0, round by
  -- round, and at least as many consumed; any two sent messages with the same key are in one
  -- partition, and the check of the order has succeeded on what was consumed.
  pub smoke_test_total :
      Ticks s.recreation.delete_clock
      → Ticks s.recreation.ready_clock
      → Ticks s.now
      → Ran (smoke_test timeout (suc timeout) s)
  unfolding smoke_test consume_messages
  smoke_test_total deleting getting_ready ticks =
      topic_then _ refl (recreate_topic-IsDecided timeout s.recreation deleting getting_ready)
    where
      sending :
          IsRecreated s.recreation
          → (o : Outcome (List Received)) → produce_messages s.send messages_per_key smoke_keys ≡ o
          → Sends all_messages o
          → Ran (after_sending timeout (suc timeout) s o)
      sending made raised e h = tt
      sending made (returned sent) e h = judged-Ran sent made e h _ refl (
          consume_loop-Consumed s.now ticks s.getmany (s.now 0 + timeout) (length sent)
            (suc timeout) 1 [] (omega (arith, ticks 0)))

      topic_then :
          (o : Option (Outcome (Unit {0})))
          → recreate_topic timeout (suc timeout) s.recreation ≡ o
          → IsDecided o
          → Ran (after_topic timeout (suc timeout) s o)
      topic_then none e h = elim h [ ]
      topic_then (some raised) e h = tt
      topic_then (some (returned tt)) e h =
          sending (recreate_topic-IsRecreated timeout (suc timeout) s.recreation e) _ refl
            (all_sent s.send)

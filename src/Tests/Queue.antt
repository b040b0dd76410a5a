-- ===== src/Tests/Queue.antt =====
-- Examples for message_queue/.
use kv_replication_lab.Prelude.{
  ℕ, zero, suc, ◌+◌, ◌≤◌, ◌≡◌, refl, sym, ap, ◌∙◌, String, Bool, true, false, Option, none, some,
  List, [], ◌∷◌, ◌++◌, get_elem?, In, arith, nat_eq, if◌then◌else◌,
}
use kv_replication_lab.Prelude.Int.{pos}
use kv_replication_lab.Common.Models.{VersionedValue}
use kv_replication_lab.Common.Waiting.{returned}
use kv_replication_lab.Common.Storage
use kv_replication_lab.Common.Server.{ok, http_exception, PutResponse, ReplicateRequest, get_key}
use kv_replication_lab.Common.Config.{Checked, strip}
use kv_replication_lab.MessageQueue.Config.{RawConfig, MqConfig, from_dict}
use kv_replication_lab.MessageQueue.Topics.{
  Ended, done, timeout_error, contains, ensure_topic_exists, reset_topic,
}
use kv_replication_lab.MessageQueue.Topics.Polling.{reset_topic_total}
use kv_replication_lab.MessageQueue.Producer.{Record, confirmed, put_key, put_key_ok}
use kv_replication_lab.MessageQueue.Follower.{
  Message, FollowerState, Consumer, LagResponse, or_zero, consume_loop, restart, get_lag,
}
use kv_replication_lab.MessageQueue.Follower.Process.{
  working, deliver_all, Shuts, deliver_all-consume_loop,
}
use kv_replication_lab.MessageQueue.Follower.Run.{write_of, Delivered}
use kv_replication_lab.MessageQueue.Follower.Lag.{behind, get_lag_total}
use kv_replication_lab.MessageQueue.Follower.Convergence.{
  fresh, CaughtUp, Published, CaughtUp-converge, restart_forgets,
}

abbrev request : ReplicateRequest ℕ
request = record { key = "k"; value = 7; timestamp = 5; node_id = "p" }

-- Messages that are the requests themselves.
abbrev parse : ReplicateRequest ℕ → Option (ReplicateRequest ℕ)
parse r = some r

abbrev logs : ℕ → List (ReplicateRequest ℕ)
logs p = if nat_eq p 0 then request ∷ [] else []

abbrev message : Message (ReplicateRequest ℕ)
message = record { partition = 0; offset = 0; value = request }

abbrev always : Message (ReplicateRequest ℕ) → Bool
always m = true

abbrev run : FollowerState ℕ
run = (consume_loop parse always (message ∷ []) fresh).0

delivered : Delivered logs (λ p. 0) (message ∷ [])
delivered = (refl, refl, tt)

run-CaughtUp : CaughtUp logs run
unfolding consume_loop
run-CaughtUp p = ground arith

only_request : (p i : ℕ) (r : ReplicateRequest ℕ) → get_elem? (logs p) i ≡ some r → r ≡ request
only_request p i r e = pick (nat_eq p 0) i e
  where
    pick : (b : Bool) (i : ℕ) → get_elem? (if b then request ∷ [] else []) i ≡ some r → r ≡ request
    pick true zero e = ground arith
    pick true (suc i) e = absurd (ground arith)
    pick false i e = absurd (ground arith)

Published-version :
    (k : String) (u : VersionedValue ℕ) → Published parse logs (k, u) → u ≡ (write_of request).1
Published-version k u (p, i, raw, r, e, q, w) =
    ap (λ x. x.1) w
    ∙ ap (λ x. (write_of x).1)
        (sym (ap (λ o. elim o [ none ↦ request | some x ↦ x ]) q) ∙ only_request p i raw e)

CaughtUp-converge_example :
    Storage.get run.storage "k"
    ≡ Storage.get (consume_loop parse always (message ∷ []) fresh).0.storage "k"
CaughtUp-converge_example =
    CaughtUp-converge parse logs always always (message ∷ []) (message ∷ [])
      (λ k u v pu pv same. Published-version k u pu ∙ sym (Published-version k v pv)) delivered
      delivered run-CaughtUp run-CaughtUp "k"

restart_forgets_example :
    (get_key (consume_loop parse always [] (restart run)).0.storage "k" ≡ http_exception 404)
    × ((restart run).committed ≡ run.committed)
restart_forgets_example = restart_forgets parse always run [] "k" (λ m r i e. absurd i)

abbrev consumer : Consumer
consumer = record { assignment = 0 ∷ []; end_offsets = λ p. 3; committed = λ p. some 1 }

get_lag_total_example :
    (r : LagResponse) × (get_lag "f" (some consumer) ≡ ok r)
    × (r.total_lag ≡ pos (behind (λ p. 3) (λ p. some 1) (0 ∷ [])))
    × (r.total_lag ≡ pos 0 → (p : ℕ) → In p (0 ∷ []) → 3 ≡ or_zero (some 1))
get_lag_total_example = get_lag_total "f" consumer (λ p. omega arith)

abbrev class_of : ℕ → String
class_of code = "NoError"

-- The topic is gone at the third listing.
abbrev listed : ℕ → List String
listed i = if nat_eq i 2 then [] else "t" ∷ []

reset_topic_total_example :
    (e : Ended) × (reset_topic class_of 5 6 "t" listed [] (λ i. i) [] [] ≡ some e)
    × (e ≡ done
        → ((k : ℕ) × (contains class_of "t" (listed k) ≡ false))
          × (ensure_topic_exists class_of "t" [] [] ≡ done))
    × (e ≡ timeout_error → (k : ℕ) × (contains class_of "t" (listed k) ≡ true) × (0 + 5 ≤ k))
reset_topic_total_example =
    reset_topic_total class_of "t" listed (λ i. i) (λ i. omega arith) 5 [] [] []

abbrev as_is : ReplicateRequest ℕ → ReplicateRequest ℕ
as_is r = r

abbrev published : Record (ReplicateRequest ℕ)
published = record { record_key = "k"; record_value = request }

abbrev answered : PutResponse
answered = record { applied = true; timestamp = 5 }

sent_message :
    put_key as_is "p" 5 confirmed [] "k" (record { value = 7 })
    ≡ (published ∷ [], returned (ok answered))
unfolding put_key
sent_message = refl

put_key_ok_example :
    (m : Record (ReplicateRequest ℕ)) × (published ∷ [] ≡ [] ++ (m ∷ []))
    × (m.record_key ≡ "k")
    × (parse m.record_value ≡ some request)
put_key_ok_example =
    put_key_ok as_is parse (λ r. refl) "p" 5 confirmed [] "k" (record { value = 7 })
      (published ∷ []) answered sent_message

abbrev raw : RawConfig
raw = record {
  bootstrap_servers = some "localhost:9092";
  topic = some " kv ";
  num_partitions = some (pos 3);
  consumer_group_prefix = some "g";
}

abbrev config : MqConfig
config = record {
  bootstrap_servers = "localhost:9092";
  topic = "kv";
  num_partitions = pos 3;
  consumer_group_prefix = "g";
}

accepted : from_dict raw ≡ Checked.ok config
unfolding from_dict kv_replication_lab.Common.Config.require_nonempty_str strip
    kv_replication_lab.Common.Config.is_space
accepted = refl

abbrev never : Message (ReplicateRequest ℕ) → Bool
never m = false

-- A follower whose first commit fails.
deliver_all-consume_loop_example :
    Shuts parse never
      (deliver_all parse never (working fresh) (message ∷ []))
      (consume_loop parse never (message ∷ []) fresh)
deliver_all-consume_loop_example = deliver_all-consume_loop parse never (message ∷ []) fresh

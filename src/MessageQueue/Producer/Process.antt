-- ===== src/MessageQueue/Producer/Process.antt =====
-- The life of a producer's process: `_on_startup`, `put_key`, `health` and `_on_shutdown` of
-- `build_app` (message_queue/producer.py).
use kv_replication_lab.Prelude.{ℕ, ◌≡◌, ◌≢◌, ap, String, Bool, true, false, List}
use kv_replication_lab.Common.Server.{HttpResult, ok, PutRequest, PutResponse, ReplicateRequest}
use kv_replication_lab.Common.Waiting.{Outcome, returned, raised}
use kv_replication_lab.MessageQueue.Producer.{Sent, Record, put_key}
use kv_replication_lab.MessageQueue.Topics.{Ended, done, runtime_error, timeout_error}

pub record ProducerHealthResponse : Type 0 where
  pub node_id : String

-- `health`, whatever the producer's state is
unfoldable pub health : (node_id : String) → HttpResult ProducerHealthResponse
health node_id = ok (record { node_id = node_id })

-- `state["producer"]`: not there, started, or stopped.
pub data ProducerState : Type 0 where
  not_made started stopped : ProducerState

abbrev pub start_producer : Bool → ProducerState → ProducerState × Outcome (Unit {0})
start_producer true p = (started, returned tt)
start_producer false p = (p, raised)

-- `_on_startup`, from what `ensure_topic_exists` and `producer.start()` come to
unfoldable pub on_startup :
    (ensured : Ended) (starts : Bool) → ProducerState → ProducerState × Outcome (Unit {0})
on_startup done starts p = start_producer starts p
on_startup runtime_error starts p = (p, raised)
on_startup timeout_error starts p = (p, raised)

-- `_on_shutdown`
unfoldable pub on_shutdown : ProducerState → ProducerState
on_shutdown not_made = not_made
on_shutdown started = stopped
on_shutdown stopped = stopped

module _ {V Bytes : Type 0} (model_dump_json : ReplicateRequest V → Bytes) where
  -- `put_key` of the process: without a producer the look-up of `state["producer"]` raises
  unfoldable pub process_put_key :
      ProducerState
      → (node_id : String) (timestamp : ℕ) → Sent
      → List (Record Bytes)
      → String
      → PutRequest V
      → List (Record Bytes) × Outcome (HttpResult PutResponse)
  process_put_key not_made node_id timestamp sent topic key body = (topic, raised)
  process_put_key started node_id timestamp sent topic key body =
      put_key model_dump_json node_id timestamp sent topic key body
  process_put_key stopped node_id timestamp sent topic key body =
      put_key model_dump_json node_id timestamp sent topic key body

  -- A write before the startup raises and publishes nothing; only a process whose producer has been
  -- started answers one, and then as `put_key` does.
  pub answered_once_started :
      (p : ProducerState) (node_id : String) (timestamp : ℕ) (sent : Sent)
      (topic topic' : List (Record Bytes)) (key : String) (body : PutRequest V)
      (response : HttpResult PutResponse)
      → process_put_key p node_id timestamp sent topic key body ≡ (topic', returned response)
      → (p ≢ not_made)
        × (put_key model_dump_json node_id timestamp sent topic key body
            ≡ (topic', returned response))
  unfolding process_put_key
  answered_once_started not_made node_id timestamp sent topic topic' key body response h =
      absurd (raised_is_not_returned (ap (λ r. r.1) h))
    where
      raised_is_not_returned : ¬ (raised ≡ returned response)
      raised_is_not_returned e = cc e
  answered_once_started started node_id timestamp sent topic topic' key body response h =
      ((λ e. apart e), h)
    where
      apart : ¬ (started ≡ not_made)
      apart e = cc e
  answered_once_started stopped node_id timestamp sent topic topic' key body response h =
      ((λ e. apart e), h)
    where
      apart : ¬ (stopped ≡ not_made)
      apart e = cc e

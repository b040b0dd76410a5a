-- ===== src/MessageQueue/Producer.antt =====
-- message_queue/producer.py: a write is published to the topic, and acknowledged once Kafka has
-- confirmed it.
--
-- The value of a message is the request that it encodes, until `model_dump_json` makes bytes of it;
-- the bytes are a parameter's. The topic is the list of the messages that Kafka has confirmed.
pub mod Process
use kv_replication_lab.Prelude.{
  ℕ, ◌≡◌, refl, sym, ap, ◌∙◌, String, Bool, true, false, Option, some, List, [], ◌∷◌, ◌++◌, arith,
}
use kv_replication_lab.Common.Waiting.{Outcome, returned, raised}
use kv_replication_lab.Common.Server.{
  HttpResult, ok, http_exception, PutRequest, PutResponse, ReplicateRequest,
}

-- What `send_and_wait` does: Kafka confirms the message, or a `KafkaError` is raised (the message
-- may be in the log all the same), or anything else is.
pub data Sent : Type 0 where
  confirmed : Sent
  kafka_error : (logged : Bool) → Sent
  other_error : (logged : Bool) → Sent

pub record Record (V : Type 0) : Type 0 where
  pub record_key : String
  pub record_value : V

module _ {V Bytes : Type 0} (model_dump_json : ReplicateRequest V → Bytes) where
  -- `_build_message`; the key's UTF-8 bytes are written as the key
  unfoldable pub build_message : String → V → ℕ → String → Record Bytes
  build_message key value timestamp node_id = record {
    record_key = key;
    record_value =
        model_dump_json
          (record { key = key; value = value; timestamp = timestamp; node_id = node_id });
  }

  abbrev append_if : Bool → List (Record Bytes) → Record Bytes → List (Record Bytes)
  append_if true topic m = topic ++ (m ∷ [])
  append_if false topic m = topic

  abbrev after_send :
      (timestamp : ℕ)
      → List (Record Bytes)
      → Record Bytes
      → Sent
      → List (Record Bytes) × Outcome (HttpResult PutResponse)
  after_send timestamp topic m confirmed =
      (append_if true topic m, returned (ok (record { applied = true; timestamp = timestamp })))
  after_send timestamp topic m (kafka_error logged) =
      (append_if logged topic m, returned (http_exception 503))
  after_send timestamp topic m (other_error logged) = (append_if logged topic m, raised)

  -- `put_key` of the producer
  unfoldable pub put_key :
      (node_id : String) (timestamp : ℕ)
      → Sent
      → List (Record Bytes)
      → String
      → PutRequest V
      → List (Record Bytes) × Outcome (HttpResult PutResponse)
  unfolding build_message
  put_key node_id timestamp sent topic key body =
      let m = build_message key body.value timestamp node_id in after_send timestamp topic m sent

  module _ (parse : Bytes → Option (ReplicateRequest V))
      (round_trip : (r : ReplicateRequest V) → parse (model_dump_json r) ≡ some r)
      (node_id : String) (timestamp : ℕ) (sent : Sent) (topic : List (Record Bytes)) (key : String)
      (body : PutRequest V) where
    -- A write that is answered with a 200 has put one message at the end of the topic, under the
    -- write's key; where what `model_dump_json` writes can be read back, a follower reads from it
    -- the write with the stamp of the answer.
    pub put_key_ok :
        (topic' : List (Record Bytes)) (response : PutResponse)
        → put_key node_id timestamp sent topic key body ≡ (topic', returned (ok response))
        → (m : Record Bytes) × (topic' ≡ topic ++ (m ∷ []))
          × (m.record_key ≡ key)
          × (parse m.record_value
              ≡ some (record {
                key = key;
                value = body.value;
                timestamp = response.timestamp;
                node_id = node_id;
              }))
    unfolding put_key build_message
    put_key_ok topic' response h = sent_lem sent h
      where
        m : Record Bytes
        m = build_message key body.value timestamp node_id

        sent_lem :
            (s : Sent)
            → after_send timestamp topic m s ≡ (topic', returned (ok response))
            → (m : Record Bytes) × (topic' ≡ topic ++ (m ∷ []))
              × (m.record_key ≡ key)
              × (parse m.record_value
                  ≡ some (record {
                    key = key;
                    value = body.value;
                    timestamp = response.timestamp;
                    node_id = node_id;
                  }))
        sent_lem confirmed h =
            let stamp : timestamp ≡ response.timestamp = ground arith in
            (
              m,
              sym (ap (λ p. p.0) h),
              refl,
              round_trip _
                  ∙ ap
                      (λ ts. some (record {
                        key = key;
                        value = body.value;
                        timestamp = ts;
                        node_id = node_id;
                      }))
                      stamp,
            )
        sent_lem (kafka_error logged) h = absurd (ground arith)
        sent_lem (other_error logged) h = absurd (ground arith)

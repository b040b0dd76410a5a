-- ===== src/Leaderless/Node/Writes.antt =====
-- What a client's write comes to at its coordinator (`put_key_coordinator` of leaderless/node.py).
use kv_replication_lab.Prelude.{
  ℕ, ◌+◌, ◌-◌, ◌≤◌, ◌≡◌, refl, sym, ap, ◌∙◌, String, Bool, Option, some, List, length, arith,
  some_inj,
}
use kv_replication_lab.Common.Waiting.{Schedule, Outcome, returned}
use kv_replication_lab.Common.Storage
use kv_replication_lab.Common.Server.{HttpResult, ok, ReplicateRequest, PutRequest, PutResponse}
use kv_replication_lab.Leaderless.Config.{Node}
use kv_replication_lab.Leaderless.Coordinator.{
  Task, Gathered, gathered, failed, tasks_of, gather, after_write, replicate_write,
}
use kv_replication_lab.Leaderless.Coordinator.Tasks.{Answers, Answers-length, Part}
use kv_replication_lab.Leaderless.Coordinator.Gather.{gather_total, gather-Ended}
use kv_replication_lab.Leaderless.Node.{NodeState, write_answer, coordinate_write}

-- Some of the tasks, each at most once, that have all acknowledged the write.
pub record Acks (tasks : List (Task (Unit {0}))) (count : ℕ) : Type 0 where
  pub answered : List (Task (Unit {0}))
  pub units : List (Unit {0})
  pub answers : Answers answered units
  pub part : Part answered tasks
  pub enough : count ≤ length answered

module _ {V : Type 0} (node_id : String) (now w_required : ℕ)
    (results : ReplicateRequest V → Node → Outcome (Bool × Unit {0}))
    (s : Schedule (Task (Unit {0}))) (state : NodeState V) (key : String)
    (body : PutRequest V) where
  -- What the peers are sent.
  abbrev pub payload : ReplicateRequest V
  payload = record { key = key; value = body.value; timestamp = now; node_id = node_id }

  abbrev pub tasks : List (Task (Unit {0}))
  tasks = tasks_of (results payload) state.coordinator.peers

  abbrev pub collected : Option (Gathered (Unit {0}))
  collected = gather state.coordinator.timeout (w_required - 1) s tasks

  abbrev pub after : Gathered (Unit {0}) → NodeState V × Outcome (HttpResult PutResponse)
  after r =
      let put = Storage.put state.storage key body.value now node_id in
      let moved = after_write state.coordinator r in
      (record { storage = put.0; coordinator = moved.0 }, write_answer w_required put.1 now moved.1)

  run_lem :
      (r : Gathered (Unit {0}))
      → collected ≡ some r
      → coordinate_write node_id now w_required results s state key body ≡ some (after r)
  unfolding coordinate_write replicate_write
  run_lem r e = rw e

  pub end_of_gather :
      (e : NodeState V × Outcome (HttpResult PutResponse))
      → coordinate_write node_id now w_required results s state key body ≡ some e
      → (r : Gathered (Unit {0})) × (collected ≡ some r) × (after r ≡ e)
  end_of_gather e h =
      let (r, q) = gather_total state.coordinator.timeout (w_required - 1) s tasks in
      (r, q, some_inj (after r) e (sym (run_lem r q) ∙ h))

  -- Whatever the peers do and whenever, the write ends, and the coordinator's own store has taken
  -- it, whatever the answer.
  pub coordinate_write_total :
      (end : NodeState V × Outcome (HttpResult PutResponse)) × (coordinate_write node_id now
          w_required results s state key body
        ≡ some end)
      × (end.0.storage ≡ (Storage.put state.storage key body.value now node_id).0)
  coordinate_write_total =
      let (r, q) = gather_total state.coordinator.timeout (w_required - 1) s tasks in
      (after r, run_lem r q, kept r)
    where
      kept :
          (r : Gathered (Unit {0}))
          → (after r).0.storage ≡ (Storage.put state.storage key body.value now node_id).0
      kept (gathered new rest) = refl
      kept (failed rest) = refl

  -- A write that is answered with a 200 has been acknowledged by as many as one less than the nodes
  -- required of the requests that were sent, one to each place in the list of peers and each counted at
  -- most once; the coordinator's own store has taken the write, and the answer tells whether it applied
  -- it, and the timestamp that it was given.
  pub coordinate_write_ok :
      (st : NodeState V) (response : PutResponse)
      → coordinate_write node_id now w_required results s state key body
        ≡ some (st, returned (ok response))
      → Acks tasks (w_required - 1)
        × (st.storage ≡ (Storage.put state.storage key body.value now node_id).0)
        × (response.applied ≡ (Storage.put state.storage key body.value now node_id).1)
        × (response.timestamp ≡ now)
  coordinate_write_ok st response h =
      let (r, q, e) = end_of_gather (st, returned (ok response)) h in
      go r q (ap (λ p. p.1) e) (ap (λ p. p.0.storage) e)
    where
      go :
          (r : Gathered (Unit {0}))
          → collected ≡ some r
          → (after r).1 ≡ returned (ok response)
          → (after r).0.storage ≡ st.storage
          → Acks tasks (w_required - 1)
            × (st.storage ≡ (Storage.put state.storage key body.value now node_id).0)
            × (response.applied ≡ (Storage.put state.storage key body.value now node_id).1)
            × (response.timestamp ≡ now)
      go (failed rest) q e k = absurd (ground arith)
      go (gathered new rest) q e k =
          let ended = gather-Ended state.coordinator.timeout (w_required - 1) s tasks new rest q in
          (
            record {
              answered = ended.answered;
              units = ended.values;
              answers = ended.answers;
              part = ended.part;
              enough = omega (
                arith,
                Answers-length ended.answered ended.values ended.answers,
                ap (λ (l : List (Unit {0})). length l) ended.appended,
                few (length new) e,
              );
            },
            sym k,
            ground arith,
            ground arith,
          )
        where
          few :
              (n : ℕ)
              → write_answer w_required
                  (Storage.put state.storage key body.value now node_id).1
                  now
                  (returned n)
                ≡ returned (ok response)
              → w_required ≤ 1 + n
          few n e = ground arith

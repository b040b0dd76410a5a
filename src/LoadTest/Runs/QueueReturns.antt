-- ===== src/LoadTest/Runs/QueueReturns.antt =====
-- When `run_load_test` of experiments/mq_staleness_load_test.py completes.
use kv_replication_lab.Prelude.{
  ℕ, ◌<◌, inl, inr, String, Bool, true, false, not, ◌||◌, Option, none, some, List, [], ◌∷◌, All,
  length, nat_eq, ltb, Bool-cases, if_cases,
}
use kv_replication_lab.Prelude.Int.{ℤ}
use kv_replication_lab.Common.Waiting.{Outcome, returned, raised}
use kv_replication_lab.LoadTest.MessageQueue
use kv_replication_lab.LoadTest.MessageQueue.{
  LagMoment, attach, query_lag, compare, finish_read, do_read,
}
use kv_replication_lab.LoadTest.MessageQueue.Lag.{mq_worker-Fine}
use kv_replication_lab.LoadTest.Plan.{
  Rng, RequestPlan, HasTarget, generate_request_plan, generate_request_plan_lem,
}
use kv_replication_lab.LoadTest.Records.{Stats, new_stats, SourceEntry, snapshot}
use kv_replication_lab.LoadTest.Runs.{
  discover_node_id, discover_node_ids, mq_workers, run_mq_load_test,
}
use kv_replication_lab.LoadTest.Runs.Sums.{DrawsBelow, planned-Counts}
use kv_replication_lab.LoadTest.Runs.Returns.{
  Completes, IsReady, IsHealthy, run_workers-Completes, discover_node_id-Ends,
  discover_node_ids-Ends, target_of-some,
}
use kv_replication_lab.LoadTest.Worker.{Shared, Answer, http_error, response, count_request}
use kv_replication_lab.LoadTest.Worker.Ends.{
  Ends, HasBody, IsSound, finish_write-Ends, StepEnds, run_items-Ends, if-Ends,
}

-- The same of a request that is followed by a query of the lag.
abbrev pub IsLagSound : LagMoment → Type 0
IsLagSound m = IsSound m.request × HasBody m.lag_answer

-- What a state and an outcome end with.
abbrev EndsWell : Shared × Outcome Stats → Type 0
EndsWell r = Ends r.1

module _ (is_success : ℕ → Bool) where
  query_lag-Ends : (a : Answer ℤ) → HasBody a → Ends (query_lag is_success a)
  unfolding query_lag
  query_lag-Ends (http_error exc) h = tt
  query_lag-Ends (response status none) h = elim h [ ]
  query_lag-Ends (response status (some lag)) h = if-Ends (is_success status) _ _ tt tt

  attach-Ends : (s : Stats) (o : Outcome (Option ℤ)) → Ends o → Ends (attach s o)
  attach-Ends s raised h = elim h [ ]
  attach-Ends s (returned lag) h = tt

  module _ (m : LagMoment) (sound : IsLagSound m) (shared : Shared) where
    sample-Ends : (s : Stats) → Ends (attach s (query_lag is_success m.lag_answer))
    sample-Ends s = attach-Ends s _ (query_lag-Ends m.lag_answer sound.1)

    finish_read-Ends :
        (node_id : String) (e : SourceEntry) (s : Stats) (key : String) (a : Answer ℕ)
        → HasBody a
        → Ends (finish_read is_success m shared node_id e s key a).1
    finish_read-Ends node_id e s key (http_error exc) h = tt
    finish_read-Ends node_id e s key (response status none) h = elim h [ ]
    finish_read-Ends node_id e s key (response status (some actual)) h =
        if_cases EndsWell (not (nat_eq status 200 || nat_eq status 404)) _ _ (λ _. tt)
          (λ _.
            if_cases EndsWell (nat_eq status 404) _ _ (λ _. sample-Ends _)
              (λ _. if_cases EndsWell (ltb actual e.timestamp) _ _ (λ _. sample-Ends _) (λ _. tt)))

module _ (is_success : ℕ → Bool) (ports : List ℕ) (name_of : ℕ → String) (producer : String) where
  do_read-Ends :
      (m : LagMoment)
      → IsLagSound m
      → (shared : Shared) (x : ℕ) (e : Option SourceEntry) (s : Stats) (key : String)
      → Ends (do_read is_success m name_of shared (some x) e s key).1
  unfolding do_read
  do_read-Ends m sound shared x none s key = tt
  do_read-Ends m sound shared x (some e) s key =
      finish_read-Ends is_success m sound (m.request.during shared) (name_of x) e s key
        m.request.read_answer sound.0.1

  mq_step-Ends :
      (item : RequestPlan) (m : LagMoment)
      → HasTarget (length ports) item × IsLagSound m
      → StepEnds
          (λ (s : Shared). Unit {0})
          (MessageQueue.run_item is_success ports name_of producer)
          (item, m)
  unfolding MessageQueue.run_item MessageQueue.do_write
  mq_step-Ends item m (target, sound) shared stats o = (
    tt,
    elim (Bool-cases item.is_read) [
      | inl is_read ↦
          let (x, found) = target_of-some ports item is_read target in
          rw (is_read, found)
            (do_read-Ends m sound (m.request.before shared) x
              (snapshot (m.request.before shared).source_of_truth item.key)
              (count_request true stats) item.key)
      | inr is_write ↦ rw is_write (
          finish_write-Ends m.request.now producer (count_request false stats) item.key _ _
            m.request.write_answer sound.0.0)
    ],
  )

  steps_end :
      (items : List (RequestPlan × LagMoment))
      → All (IsReady (length ports) IsLagSound) items
      → All
          (StepEnds
            (λ (s : Shared). Unit {0})
            (MessageQueue.run_item is_success ports name_of producer))
          items
  steps_end [] h = tt
  steps_end ((item, m) ∷ rest) (h, hs) = (mq_step-Ends item m h, steps_end rest hs)

  mq_worker-Ends :
      (items : List (RequestPlan × LagMoment))
      → All (IsReady (length ports) IsLagSound) items
      → (s : Shared) → Ends (MessageQueue.run_worker is_success ports name_of producer items s).1
  unfolding MessageQueue.run_worker
  mq_worker-Ends items h s =
      run_items-Ends (λ (s : Shared). Unit {0})
        (MessageQueue.run_item is_success ports name_of producer) items (steps_end items h) s
        new_stats tt

module _ {G : Type 0} (rng : Rng G) (draws : DrawsBelow rng) (is_success : ℕ → Bool)
    (keys : List String) (seed total workers : ℕ) (some_worker : 0 < workers) where
  -- With at least one worker and one follower, and a `randrange` that draws below its bound, the
  -- message-queue load test completes, its numbers fit together and account for each of the planned
  -- requests, if the nodes give their names, and each response to a request of the plan or to a
  -- query of the lag has a body of the form that the script expects, whatever its status. Any
  -- request and any query may fail, and the workers may interleave in any way.
  pub mq_run-Completes :
      (ports : List ℕ)
      → 0 < length ports
      → (health : ℕ → Answer String) → ((port : ℕ) → IsHealthy is_success (health port))
      → (producer_health : Answer String) → IsHealthy is_success producer_health
      → (name_of : List (ℕ × String) → ℕ → String) (start : ℕ → Shared)
        (moments : (worker request : ℕ) → LagMoment)
      → ((i j : ℕ) → IsLagSound (moments i j))
      → Completes total (
          run_mq_load_test rng is_success keys seed ports health producer_health name_of start
            moments total workers)
  unfolding run_mq_load_test
  mq_run-Completes ports some_there health healthy producer_health producer_healthy name_of start
        moments sound =
      started (discover_node_ids is_success health ports)
        (discover_node_id is_success producer_health)
        (discover_node_ids-Ends is_success health healthy ports)
        (discover_node_id-Ends is_success producer_health producer_healthy)
    where
      started :
          (ids : Outcome (List (ℕ × String))) (producer : Outcome String)
          → Ends ids
          → Ends producer
          → Completes total (
              mq_workers rng is_success keys seed ports name_of start moments total workers ids
                producer)
      started raised producer e f = elim e [ ]
      started (returned ids) raised e f = elim f [ ]
      started (returned ids) (returned producer) e f =
          run_workers-Completes (length ports) IsLagSound
            (MessageQueue.run_worker is_success ports (name_of ids) producer) start moments
            (λ items h i. mq_worker-Ends is_success ports (name_of ids) producer items h (start i))
            sound total workers (generate_request_plan rng total keys (length ports) seed)
            some_worker
            (generate_request_plan_lem rng (length ports) (draws (length ports) some_there) total
              seed keys).1
            (planned-Counts rng draws is_success keys seed total workers some_worker
              (MessageQueue.run_worker is_success ports (name_of ids) producer)
              (mq_worker-Fine is_success ports (name_of ids) producer) start moments (length ports)
              some_there)

-- ===== src/LoadTest/Runs.antt =====
-- `run_load_test` of the three load tests (experiments/staleness_load_test.py,
-- experiments/leaderless_staleness_load_test.py, experiments/mq_staleness_load_test.py): the plan,
-- the names of the nodes, the workers at once, and the sum of what they return.
--
-- Each worker starts with the shared objects as they are when it first runs, and each of its
-- requests comes with its moment. Progress and logs are left out.
pub mod Sums
pub mod Returns
pub mod QueueReturns
pub mod ClusterReturns
use kv_replication_lab.Prelude.{
  ℕ, suc, ◌+◌, String, Bool, true, false, Option, none, some, List, [], ◌∷◌, length, is_empty,
  if◌then◌else◌,
}
use kv_replication_lab.Common.Waiting.{Outcome, returned, raised}
use kv_replication_lab.LeaderFollower.Config.{Follower}
use kv_replication_lab.Leaderless.Config.{Node}
use kv_replication_lab.LoadTest.LeaderFollower
use kv_replication_lab.LoadTest.Leaderless
use kv_replication_lab.LoadTest.MessageQueue
use kv_replication_lab.LoadTest.Plan.{Rng, RequestPlan, generate_request_plan, split_plan}
use kv_replication_lab.LoadTest.Records.{Stats, new_stats, merge}
use kv_replication_lab.LoadTest.Worker.{Shared, Answer, http_error, response, Moment}

-- `LoadTestResult`, or the exception that ends the run.
pub data Result : Type 0 where
  completed : Stats → Result
  system_exit failed : Result

abbrev pub prepend : {A : Type 0} → A → Outcome (List A) → Outcome (List A)
prepend a raised = raised
prepend a (returned rest) = returned (a ∷ rest)

-- What `asyncio.gather` gives, or the first exception.
abbrev pub gather : {A : Type 0} → List (Outcome A) → Outcome (List A)
gather [] = returned []
gather (raised ∷ rest) = raised
gather (returned a ∷ rest) = prepend a (gather rest)

-- `for result in results: stats.merge(result)`
abbrev pub merge_all : Stats → List Stats → Stats
merge_all stats [] = stats
merge_all stats (result ∷ rest) = merge_all (merge stats result) rest

abbrev pub sum_up : Outcome (List Stats) → Result
sum_up raised = failed
sum_up (returned results) = completed (merge_all new_stats results)

-- The requests of a chunk, each with its moment.
abbrev pub give_moments :
    {M : Type 0} → (moments : ℕ → M) → ℕ → List RequestPlan → List (RequestPlan × M)
give_moments moments j [] = []
give_moments moments j (item ∷ rest) = (item, moments j) ∷ give_moments moments (j + 1) rest

module _ {S M : Type 0} (run_worker : List (RequestPlan × M) → S → S × Outcome Stats)
    (start : ℕ → S) (moments : (worker request : ℕ) → M) where
  abbrev pub run_chunks : ℕ → List (List RequestPlan) → List (Outcome Stats)
  run_chunks i [] = []
  run_chunks i (chunk ∷ rest) =
      (run_worker (give_moments (moments i) 0 chunk) (start i)).1 ∷ run_chunks (i + 1) rest

  -- The workers of a run, from its plan on.
  unfoldable pub run_workers : List RequestPlan → (num_workers : ℕ) → Result
  run_workers plan num_workers = sum_up (gather (run_chunks 0 (split_plan plan num_workers)))

module _ (is_success : ℕ → Bool) where
  abbrev pub field_of : Option String → Outcome String
  field_of none = raised
  field_of (some node_id) = returned node_id

  -- `discover_leader_node_id`, and one round of `discover_node_ids`, from what /health answers;
  -- `is_success` is what `raise_for_status` accepts
  unfoldable pub discover_node_id : Answer String → Outcome String
  discover_node_id (http_error exc) = raised
  discover_node_id (response status_code body) =
      if is_success status_code then field_of body else raised

  abbrev pub named :
      {A : Type 0} → A → Outcome String → Outcome (List (A × String)) → Outcome (List (A × String))
  named node raised rest = raised
  named node (returned node_id) rest = prepend (node, node_id) rest

  unfoldable pub discover_node_ids :
      {A : Type 0} → (A → Answer String) → List A → Outcome (List (A × String))
  unfolding discover_node_id
  discover_node_ids health [] = returned []
  discover_node_ids health (node ∷ rest) =
      named node (discover_node_id (health node)) (discover_node_ids health rest)

module _ {G : Type 0} (rng : Rng G) (is_success : ℕ → Bool) (keys : List String) (seed : ℕ) where
  -- The rest of `run_load_test` once the names are known. `name_of` is a look-up in them, with the
  -- default of `.get`.
  abbrev pub leader_follower_workers :
      (followers : List Follower)
      → (name_of : List (Follower × String) → Follower → String)
      → (start : ℕ → Shared) (moments : (worker request : ℕ) → Moment Shared)
      → (total_requests num_workers : ℕ) → Outcome (List (Follower × String))
      → Outcome String
      → Result
  leader_follower_workers followers name_of start moments total workers raised leader = failed
  leader_follower_workers followers name_of start moments total workers (returned ids) raised =
      failed
  leader_follower_workers followers name_of start moments total workers (returned ids)
        (returned leader) =
      run_workers (LeaderFollower.run_worker followers (name_of ids) leader) start moments
        (generate_request_plan rng total keys (length followers) seed) workers

  -- experiments/staleness_load_test.py
  unfoldable pub run_leader_follower_load_test :
      (followers : List Follower)
      → (health : Follower → Answer String) → (leader_health : Answer String)
      → (name_of : List (Follower × String) → Follower → String)
      → (start : ℕ → Shared) (moments : (worker request : ℕ) → Moment Shared)
      → (total_requests num_workers : ℕ) → Result
  run_leader_follower_load_test followers health leader_health name_of start moments total workers =
      if is_empty followers
      then system_exit
      else leader_follower_workers followers name_of start moments total workers
          (discover_node_ids is_success health followers)
          (discover_node_id is_success leader_health)

  abbrev pub leaderless_workers :
      (nodes : List Node)
      → (name_of : List (Node × String) → Node → String) → (start : ℕ → Leaderless.ClusterShared)
      → (moments : (worker request : ℕ) → Moment Leaderless.ClusterShared)
      → (total_requests num_workers : ℕ) → Outcome (List (Node × String))
      → Result
  leaderless_workers nodes name_of start moments total workers raised = failed
  leaderless_workers nodes name_of start moments total workers (returned ids) =
      run_workers (Leaderless.run_worker nodes (name_of ids)) start moments
        (generate_request_plan rng total keys (length nodes) seed) workers

  -- experiments/leaderless_staleness_load_test.py
  unfoldable pub run_leaderless_load_test :
      (nodes : List Node)
      → (health : Node → Answer String) → (name_of : List (Node × String) → Node → String)
      → (start : ℕ → Leaderless.ClusterShared)
      → (moments : (worker request : ℕ) → Moment Leaderless.ClusterShared)
      → (total_requests num_workers : ℕ) → Result
  run_leaderless_load_test nodes health name_of start moments total workers =
      if is_empty nodes
      then system_exit
      else leaderless_workers nodes name_of start moments total workers
          (discover_node_ids is_success health nodes)

  abbrev pub mq_workers :
      (follower_ports : List ℕ)
      → (name_of : List (ℕ × String) → ℕ → String)
      → (start : ℕ → Shared) (moments : (worker request : ℕ) → MessageQueue.LagMoment)
      → (total_requests num_workers : ℕ) → Outcome (List (ℕ × String))
      → Outcome String
      → Result
  mq_workers ports name_of start moments total workers raised producer = failed
  mq_workers ports name_of start moments total workers (returned ids) raised = failed
  mq_workers ports name_of start moments total workers (returned ids) (returned producer) =
      run_workers (MessageQueue.run_worker is_success ports (name_of ids) producer) start moments
        (generate_request_plan rng total keys (length ports) seed) workers

  -- experiments/mq_staleness_load_test.py
  unfoldable pub run_mq_load_test :
      (follower_ports : List ℕ)
      → (health : ℕ → Answer String) → (producer_health : Answer String)
      → (name_of : List (ℕ × String) → ℕ → String)
      → (start : ℕ → Shared) (moments : (worker request : ℕ) → MessageQueue.LagMoment)
      → (total_requests num_workers : ℕ) → Result
  run_mq_load_test ports health producer_health name_of start moments total workers =
      mq_workers ports name_of start moments total workers
        (discover_node_ids is_success health ports) (discover_node_id is_success producer_health)

-- ===== src/LoadTest/LeaderFollower.antt =====
-- The workers of the leader-follower load test (experiments/staleness_load_test.py).
use kv_replication_lab.Prelude.{
  ℕ, ◌+◌, ◌≡◌, ap, subst, inl, inr, String, true, false, Option, none, some, List, length,
  Bool-cases, if◌then◌else◌,
}
use kv_replication_lab.Common.Waiting.{Outcome, returned, raised}
use kv_replication_lab.LeaderFollower.Config.{Follower}
use kv_replication_lab.LoadTest.Plan.{RequestPlan}
use kv_replication_lab.LoadTest.Records.{next_value, SourceEntry, snapshot, Stats, new_stats}
use kv_replication_lab.LoadTest.Worker.{
  Shared, Answer, Moment, finish_write, finish_read, count_request, target_of, run_items,
}
use kv_replication_lab.LoadTest.Worker.Bounds.{
  IsBalanced, IsCounted, count_request-IsCounted, settled, Fine, finish_read-Fine,
  finish_write-Fine, run_items-Fine,
}

-- `_do_write`
unfoldable pub do_write :
    Moment Shared → (leader_node_id : String) → Shared → Stats → String → Shared × Outcome Stats
do_write m leader_node_id shared stats key =
    let (counter, value) = next_value shared.counter in
    finish_write (m.during (record shared { counter = counter })) leader_node_id m.now stats key
      value m.write_answer

-- `_do_read`, from the snapshot that it takes first
unfoldable pub do_read :
    (now : ℕ) (node_id : String) → Answer ℕ → Option SourceEntry → Stats → String → Outcome Stats
do_read now node_id answer none stats key = returned stats
do_read now node_id answer (some expected_before) stats key =
    finish_read "follower_node_id" now node_id expected_before stats key answer

abbrev pub read_at :
    {A : Type 0} (name_of : A → String)
    → Option A
    → ℕ
    → Answer ℕ
    → Option SourceEntry
    → Stats
    → String
    → Outcome Stats
read_at name_of none now answer expected stats key = raised
read_at name_of (some target) now answer expected stats key =
    do_read now (name_of target) answer expected stats key

module _ (followers : List Follower) (name_of : Follower → String) (leader_node_id : String) where
  -- The body of the loop of `run_worker`; `name_of` is what `follower_node_ids` and its default give.
  unfoldable pub run_item : Moment Shared → Shared → Stats → RequestPlan → Shared × Outcome Stats
  run_item m shared stats item =
      let at_start = m.before shared in
      if item.is_read
      then (
        m.during at_start,
        read_at name_of (target_of followers item.read_target_index) m.now m.read_answer
            (snapshot at_start.source_of_truth item.key) (count_request true stats) item.key,
      )
      else do_write m leader_node_id at_start (count_request false stats) item.key

  unfoldable pub run_worker : List (RequestPlan × Moment Shared) → Shared → Shared × Outcome Stats
  unfolding run_item
  run_worker items shared = run_items run_item items shared new_stats

module _ (n now : ℕ) (s : Stats) (key : String) (h : IsCounted n true s) where
  do_read-Fine :
      (node_id : String) (a : Answer ℕ) (e : Option SourceEntry)
      → Fine n (do_read now node_id a e s key)
  unfolding do_read
  do_read-Fine node_id a none = settled n true s h
  do_read-Fine node_id a (some e) = finish_read-Fine n now node_id s key "follower_node_id" h e a

  pub read_at-Fine :
      {A : Type 0} (name_of : A → String) (target : Option A) (a : Answer ℕ)
      (e : Option SourceEntry)
      → Fine n (read_at name_of target now a e s key)
  read_at-Fine name_of none a e = tt
  read_at-Fine name_of (some target) a e = do_read-Fine (name_of target) a e

module _ (followers : List Follower) (name_of : Follower → String) (leader_node_id : String) where
  run_item-Fine :
      (n : ℕ) (m : Moment Shared) (shared : Shared) (s : Stats) (item : RequestPlan)
      → IsBalanced n s
      → Fine (n + 1) (run_item followers name_of leader_node_id m shared s item).1
  unfolding run_item do_write
  run_item-Fine n m shared s item h = elim (Bool-cases item.is_read) [
    | inl read ↦ rw read (
        read_at-Fine (n + 1) m.now (count_request true s) item.key
          (count_request-IsCounted n true s h) name_of _ m.read_answer _)
    | inr write ↦ rw write (
        finish_write-Fine (n + 1) m.now leader_node_id (count_request false s) item.key
          (count_request-IsCounted n false s h) _ _ m.write_answer)
  ]

  pub run_worker-Fine :
      (items : List (RequestPlan × Moment Shared)) (shared : Shared)
      → Fine (length items) (run_worker followers name_of leader_node_id items shared).1
  unfolding run_worker
  run_worker-Fine items shared =
      run_items-Fine (run_item followers name_of leader_node_id) run_item-Fine items shared

  -- Whatever the nodes answer and the other workers do, the numbers that a worker returns fit
  -- together, and it has handled all the requests of its chunk.
  pub run_worker-IsBalanced :
      (items : List (RequestPlan × Moment Shared)) (shared shared' : Shared) (s : Stats)
      → run_worker followers name_of leader_node_id items shared ≡ (shared', returned s)
      → IsBalanced (length items) s
  run_worker-IsBalanced items shared shared' s e =
      subst (Fine (length items)) (ap (λ r. r.1) e) (run_worker-Fine items shared)

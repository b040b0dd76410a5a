-- ===== src/LoadTest/Leaderless.antt =====
-- The workers of the leaderless load test (experiments/leaderless_staleness_load_test.py). A write
-- goes to the next node of the rotation, a read to the node that the plan names.
pub mod Rotation
pub mod Equivalence
use Prim.Native.Nat.{◌%◌}
use kv_replication_lab.Prelude.{
  ℕ, suc, ◌+◌, ◌≡◌, ap, subst, inl, inr, String, Bool, true, false, Option, none, some, List, [],
  ◌∷◌, length, arith, get_elem?, is_empty, Bool-cases, if◌then◌else◌,
}
use kv_replication_lab.Common.Waiting.{Outcome, returned, raised}
use kv_replication_lab.Leaderless.Config.{Node}
use kv_replication_lab.LoadTest.Plan.{RequestPlan}
use kv_replication_lab.LoadTest.Records.{
  GlobalCounter, next_value, SourceEntry, SourceOfTruth, snapshot, Stats, new_stats,
}
use kv_replication_lab.LoadTest.Worker.{
  Shared, Answer, Moment, finish_write, finish_read, count_request, target_of, run_items,
}
use kv_replication_lab.LoadTest.Worker.Bounds.{
  IsBalanced, IsCounted, count_request-IsCounted, settled, Fine, finish_read-Fine,
  finish_write-Fine, run_items-Fine,
}

-- `NodeRotation`, whose lock makes `next_node` one step.
pub record NodeRotation : Type 0 where
  pub nodes : List Node
  pub index : ℕ

-- `NodeRotation.next_node`, which raises when there is no node.
unfoldable pub next_node : NodeRotation → NodeRotation × Option Node
next_node self = if is_empty self.nodes then (self, none) else (
  record self { index = self.index + 1 },
  get_elem? self.nodes (self.index % length self.nodes),
)

-- What the workers of this test share: a rotation too.
pub record ClusterShared : Type 0 where
  pub common : Shared
  pub rotation : NodeRotation

-- The request of `_do_write`, at the coordinator that `next_node` has given, and what comes of it.
abbrev pub request_write :
    Moment ClusterShared
    → (name_of : Node → String) → (shared : ClusterShared) → ℕ
    → Stats
    → String
    → Option Node
    → ClusterShared × Outcome Stats
request_write m name_of shared value stats key none = (shared, raised)
request_write m name_of shared value stats key (some coordinator) =
    let later = m.during shared in
    let (common, result) =
      finish_write later.common (name_of coordinator) m.now stats key value m.write_answer in
    (record later { common = common }, result)

-- `_do_write`
unfoldable pub do_write :
    Moment ClusterShared
    → (name_of : Node → String) → ClusterShared
    → Stats
    → String
    → ClusterShared × Outcome Stats
do_write m name_of shared stats key =
    let (counter, value) = next_value shared.common.counter in
    let (rotation, coordinator) = next_node shared.rotation in
    request_write m name_of
      (record { common = record shared.common { counter = counter }; rotation = rotation }) value
      stats key coordinator

-- `_do_read`, from the snapshot that it takes first
unfoldable pub do_read :
    (now : ℕ) (name_of : Node → String)
    → Option Node
    → Answer ℕ
    → Option SourceEntry
    → Stats
    → String
    → Outcome Stats
do_read now name_of none answer expected_before stats key = raised
do_read now name_of (some coordinator) answer none stats key = returned stats
do_read now name_of (some coordinator) answer (some expected_before) stats key =
    finish_read "coordinator_node_id" now (name_of coordinator) expected_before stats key answer

module _ (nodes : List Node) (name_of : Node → String) where
  -- The body of the loop of `run_worker`; `name_of` is what `node_ids` and its default give.
  unfoldable pub run_item :
      Moment ClusterShared → ClusterShared → Stats → RequestPlan → ClusterShared × Outcome Stats
  run_item m shared stats item =
      let at_start = m.before shared in
      if item.is_read
      then (
        m.during at_start,
        do_read m.now name_of (target_of nodes item.read_target_index) m.read_answer
            (snapshot at_start.common.source_of_truth item.key) (count_request true stats) item.key,
      )
      else do_write m name_of at_start (count_request false stats) item.key

  unfoldable pub run_worker :
      List (RequestPlan × Moment ClusterShared) → ClusterShared → ClusterShared × Outcome Stats
  unfolding run_item
  run_worker items shared = run_items run_item items shared new_stats

do_read-Fine :
    (n now : ℕ) (s : Stats) (key : String)
    → IsCounted n true s
    → (name_of : Node → String) (target : Option Node) (a : Answer ℕ) (e : Option SourceEntry)
    → Fine n (do_read now name_of target a e s key)
unfolding do_read
do_read-Fine n now s key h name_of none a e = tt
do_read-Fine n now s key h name_of (some c) a none = settled n true s h
do_read-Fine n now s key h name_of (some c) a (some e) =
    finish_read-Fine n now (name_of c) s key "coordinator_node_id" h e a

do_write-Fine :
    (n : ℕ) (s : Stats) (key : String)
    → IsCounted n false s
    → (m : Moment ClusterShared) (name_of : Node → String) (shared : ClusterShared)
    → Fine n (do_write m name_of shared s key).1
unfolding do_write
do_write-Fine n s key h m name_of shared = by_coordinator _ _ (next_node shared.rotation).1
  where
    by_coordinator :
        (shared : ClusterShared) (value : ℕ) (c : Option Node)
        → Fine n (request_write m name_of shared value s key c).1
    by_coordinator shared value none = tt
    by_coordinator shared value (some c) =
        finish_write-Fine n m.now (name_of c) s key h (m.during shared).common value m.write_answer

module _ (nodes : List Node) (name_of : Node → String) where
  run_item-Fine :
      (n : ℕ) (m : Moment ClusterShared) (shared : ClusterShared) (s : Stats) (item : RequestPlan)
      → IsBalanced n s
      → Fine (n + 1) (run_item nodes name_of m shared s item).1
  unfolding run_item
  run_item-Fine n m shared s item h = elim (Bool-cases item.is_read) [
    | inl read ↦ rw read (
        do_read-Fine (n + 1) m.now (count_request true s) item.key
          (count_request-IsCounted n true s h) name_of _ m.read_answer _)
    | inr write ↦ rw write (
        do_write-Fine (n + 1) (count_request false s) item.key (count_request-IsCounted n false s h)
          m name_of _)
  ]

  pub run_worker-Fine :
      (items : List (RequestPlan × Moment ClusterShared)) (shared : ClusterShared)
      → Fine (length items) (run_worker nodes name_of items shared).1
  unfolding run_worker
  run_worker-Fine items shared = run_items-Fine (run_item nodes name_of) run_item-Fine items shared

  -- Whatever the nodes answer and the other workers do, the numbers that a worker of the leaderless
  -- test returns fit together, and it has handled all the requests of its chunk.
  pub leaderless_worker-IsBalanced :
      (items : List (RequestPlan × Moment ClusterShared)) (shared shared' : ClusterShared)
      (s : Stats)
      → run_worker nodes name_of items shared ≡ (shared', returned s)
      → IsBalanced (length items) s
  leaderless_worker-IsBalanced items shared shared' s e =
      subst (Fine (length items)) (ap (λ r. r.1) e) (run_worker-Fine items shared)

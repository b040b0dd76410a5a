-- ===== src/LoadTest/Runs/ClusterReturns.antt =====
-- When `run_load_test` of experiments/leaderless_staleness_load_test.py completes.
use Prim.Native.Nat.{◌%◌}
use kv_replication_lab.Prelude.{
  ℕ, ◌<◌, ◌≡◌, refl, ap, ◌∙◌, inl, inr, String, Bool, true, false, Option, none, some, List, [],
  ◌∷◌, All, length, is_empty, Bool-cases, arith,
}
use kv_replication_lab.Common.Waiting.{Outcome, returned, raised}
use kv_replication_lab.Leaderless.Config.{Node}
use kv_replication_lab.LoadTest.Leaderless
use kv_replication_lab.LoadTest.Leaderless.{
  NodeRotation, next_node, ClusterShared, request_write, do_read,
}
use kv_replication_lab.LoadTest.Leaderless.Equivalence.{HasNodes}
use kv_replication_lab.LoadTest.Plan.{
  Rng, RequestPlan, HasTarget, generate_request_plan, generate_request_plan_lem,
}
use kv_replication_lab.LoadTest.Records.{Stats, new_stats, SourceEntry, snapshot, next_value}
use kv_replication_lab.LoadTest.Runs.{
  discover_node_ids, leaderless_workers, run_leaderless_load_test,
}
use kv_replication_lab.LoadTest.Runs.Sums.{DrawsBelow, planned-Counts, some_target}
use kv_replication_lab.LoadTest.Runs.Returns.{
  Completes, IsReady, IsHealthy, run_workers-Completes, discover_node_ids-Ends, target_of-some,
  some_element,
}
use kv_replication_lab.LoadTest.Worker.{Answer, Moment, count_request}
use kv_replication_lab.LoadTest.Worker.Ends.{
  Ends, HasBody, IsSound, finish_read-Ends, finish_write-Ends, StepEnds, run_items-Ends,
}

-- The bodies are as expected, and what the other workers do leaves nodes in the rotation.
abbrev pub IsClusterSound : Moment ClusterShared → Type 0
IsClusterSound m =
    IsSound m
    × ((s : ClusterShared) → HasNodes s → HasNodes (m.before s))
    × ((s : ClusterShared) → HasNodes s → HasNodes (m.during s))

-- A rotation with nodes gives one, and keeps its nodes.
next_node-some :
    (r : NodeRotation)
    → is_empty r.nodes ≡ false
    → (c : Node) × ((next_node r).1 ≡ some c) × ((next_node r).0.nodes ≡ r.nodes)
unfolding next_node
next_node-some r h =
    let (c, found) = some_element r.nodes (r.index % length r.nodes) (below r.nodes r.index h) in
    rw h (c, found, refl)
  where
    below : (ns : List Node) (i : ℕ) → is_empty ns ≡ false → i % length ns < length ns
    below [] i h = cc h
    below (n ∷ ns) i h = omega arith

module _ (nodes : List Node) (name_of : Node → String) where
  abbrev StepIsFine : ClusterShared × Outcome Stats → Type 0
  StepIsFine r = HasNodes r.0 × Ends r.1

  request_write-Ends :
      (m : Moment ClusterShared)
      → IsClusterSound m
      → (shared : ClusterShared) → HasNodes shared
      → (value : ℕ) (stats : Stats) (key : String) (c : Node)
      → StepIsFine (request_write m name_of shared value stats key (some c))
  request_write-Ends m (sound, _, during) shared there value stats key c = (
    during shared there,
    finish_write-Ends m.now (name_of c) stats key (m.during shared).common value m.write_answer
        sound.0,
  )

  do_write-Ends :
      (m : Moment ClusterShared)
      → IsClusterSound m
      → (shared : ClusterShared) → HasNodes shared
      → (stats : Stats) (key : String) → StepIsFine (Leaderless.do_write m name_of shared stats key)
  unfolding Leaderless.do_write
  do_write-Ends m sound shared there stats key =
      let (c, given, same) = next_node-some shared.rotation there in
      rw given (
        request_write-Ends m sound _ (ap is_empty same ∙ there) (next_value shared.common.counter).1
          stats key c)

  do_read-Ends :
      (now : ℕ) (x : Node) (a : Answer ℕ)
      → HasBody a
      → (e : Option SourceEntry) (s : Stats) (key : String)
      → Ends (do_read now name_of (some x) a e s key)
  unfolding do_read
  do_read-Ends now x a h none s key = tt
  do_read-Ends now x a h (some e) s key =
      finish_read-Ends now (name_of x) s key "coordinator_node_id" e a h

  leaderless_step-Ends :
      (item : RequestPlan) (m : Moment ClusterShared)
      → HasTarget (length nodes) item × IsClusterSound m
      → StepEnds HasNodes (Leaderless.run_item nodes name_of) (item, m)
  unfolding Leaderless.run_item
  leaderless_step-Ends item m (target, sound) shared stats there =
      let started = sound.1 shared there in
      elim (Bool-cases item.is_read) [
        | inl is_read ↦
            let (x, found) = target_of-some nodes item is_read target in
            rw (is_read, found)
              (
                sound.2 (m.before shared) started,
                do_read-Ends m.now x m.read_answer sound.0.1
                    (snapshot (m.before shared).common.source_of_truth item.key)
                    (count_request true stats) item.key,
              )
        | inr is_write ↦
            rw is_write
              (do_write-Ends m sound (m.before shared) started (count_request false stats) item.key)
      ]

  steps_end :
      (items : List (RequestPlan × Moment ClusterShared))
      → All (IsReady (length nodes) IsClusterSound) items
      → All (StepEnds HasNodes (Leaderless.run_item nodes name_of)) items
  steps_end [] h = tt
  steps_end ((item, m) ∷ rest) (h, hs) = (leaderless_step-Ends item m h, steps_end rest hs)

  leaderless_worker-Ends :
      (items : List (RequestPlan × Moment ClusterShared))
      → All (IsReady (length nodes) IsClusterSound) items
      → (s : ClusterShared) → HasNodes s
      → Ends (Leaderless.run_worker nodes name_of items s).1
  unfolding Leaderless.run_worker
  leaderless_worker-Ends items h s there =
      run_items-Ends HasNodes (Leaderless.run_item nodes name_of) items (steps_end items h) s
        new_stats there

module _ {G : Type 0} (rng : Rng G) (draws : DrawsBelow rng) (is_success : ℕ → Bool)
    (keys : List String) (seed total workers : ℕ) (some_worker : 0 < workers) where
  -- With at least one worker and one node, a rotation that keeps its nodes, and a `randrange` that
  -- draws below its bound, the leaderless load test completes, its numbers fit together and account
  -- for each of the planned requests, if the nodes give their names, and each response to a request
  -- of the plan has a body of the form that the script expects, whatever its status. Any request may
  -- fail, and the workers may interleave in any way.
  pub leaderless_run-Completes :
      (nodes : List Node)
      → is_empty nodes ≡ false
      → (health : Node → Answer String) → ((node : Node) → IsHealthy is_success (health node))
      → (name_of : List (Node × String) → Node → String) (start : ℕ → ClusterShared)
        (moments : (worker request : ℕ) → Moment ClusterShared)
      → ((i : ℕ) → HasNodes (start i))
      → ((i j : ℕ) → IsClusterSound (moments i j))
      → Completes total (
          run_leaderless_load_test rng is_success keys seed nodes health name_of start moments total
            workers)
  unfolding run_leaderless_load_test
  leaderless_run-Completes nodes some_there health healthy name_of start moments there sound =
      rw some_there (
        started (discover_node_ids is_success health nodes)
          (discover_node_ids-Ends is_success health healthy nodes))
    where
      started :
          (ids : Outcome (List (Node × String)))
          → Ends ids
          → Completes total (
              leaderless_workers rng is_success keys seed nodes name_of start moments total workers
                ids)
      started raised e = elim e [ ]
      started (returned ids) e =
          run_workers-Completes (length nodes) IsClusterSound
            (Leaderless.run_worker nodes (name_of ids)) start moments
            (λ items h i. leaderless_worker-Ends nodes (name_of ids) items h (start i) (there i))
            sound total workers (generate_request_plan rng total keys (length nodes) seed)
            some_worker
            (generate_request_plan_lem rng (length nodes)
              (draws (length nodes) (some_target nodes some_there)) total seed keys).1
            (planned-Counts rng draws is_success keys seed total workers some_worker
              (Leaderless.run_worker nodes (name_of ids))
              (Leaderless.run_worker-Fine nodes (name_of ids)) start moments (length nodes)
              (some_target nodes some_there))

-- ===== src/LoadTest/Runs/Returns.antt =====
-- When `run_load_test` (experiments/staleness_load_test.py and the two others) completes.
use kv_replication_lab.Prelude.{
  ℕ, zero, suc, ◌+◌, ◌<◌, ◌≡◌, refl, ap, subst, sym, ◌∙◌, String, Bool, inl, inr, true, false,
  Option, none, some, List, [], ◌∷◌, ◌++◌, All, length, get_elem?, is_empty, arith, Bool-cases,
}
use kv_replication_lab.Common.Waiting.{Outcome, returned, raised}
use kv_replication_lab.LeaderFollower.Config.{Follower}
use kv_replication_lab.LoadTest.LeaderFollower
use kv_replication_lab.LoadTest.Plan.{
  Rng, RequestPlan, HasTarget, generate_request_plan, generate_request_plan_lem, split_plan,
}
use kv_replication_lab.LoadTest.Plan.Split.{concat, split_plan_lem}
use kv_replication_lab.LoadTest.Records.{Stats, new_stats, SourceEntry, snapshot}
use kv_replication_lab.LoadTest.Runs.{
  Result, completed, system_exit, failed, prepend, gather, give_moments, run_chunks, sum_up,
  run_workers, discover_node_id, discover_node_ids, named, leader_follower_workers,
  run_leader_follower_load_test,
}
use kv_replication_lab.LoadTest.Runs.Sums.{Counts, DrawsBelow, some_target, planned-Counts}
use kv_replication_lab.LoadTest.Worker.{
  Shared, Answer, http_error, response, Moment, target_of, count_request,
}
use kv_replication_lab.LoadTest.Worker.Bounds.{IsBalanced}
use kv_replication_lab.LoadTest.Worker.Ends.{
  Ends, HasBody, IsSound, finish_read-Ends, finish_write-Ends, StepEnds, run_items-Ends,
}

All-concat :
    {A : Type 0} (P : A → Type 0) (chunks : List (List A))
    → All P (concat chunks)
    → All (All P) chunks
All-concat P [] h = tt
All-concat P (chunk ∷ rest) h =
    let (first, others) = All-append chunk (concat rest) h in (first, All-concat P rest others)
  where
    All-append : (xs ys : List _) → All P (xs ++ ys) → All P xs × All P ys
    All-append [] ys h = (tt, h)
    All-append (x ∷ xs) ys (p, h) = let (a, b) = All-append xs ys h in ((p, a), b)

gather-Ends : (os : List (Outcome Stats)) → All Ends os → Ends (gather os)
gather-Ends [] h = tt
gather-Ends (raised ∷ rest) (h, hs) = elim h [ ]
gather-Ends (returned s ∷ rest) (h, hs) = prepended (gather rest) (gather-Ends rest hs)
  where
    prepended : (o : Outcome (List Stats)) → Ends o → Ends (prepend s o)
    prepended raised e = elim e [ ]
    prepended (returned results) e = tt

-- A run that completes, with n requests counted.
abbrev pub Completes : ℕ → Result → Type 0
Completes n (completed s) = IsBalanced n s
Completes n system_exit = ⊥
Completes n failed = ⊥

abbrev pub IsReady : {M : Type 0} → ℕ → (M → Type 0) → RequestPlan × M → Type 0
IsReady targets IsFine p = HasTarget targets p.0 × IsFine p.1

module _ {S M : Type 0} (targets : ℕ) (IsFine : M → Type 0)
    (run_worker : List (RequestPlan × M) → S → S × Outcome Stats) (start : ℕ → S)
    (moments : (worker request : ℕ) → M) where
  module _
      (run_worker-Ends : (items : List (RequestPlan × M))
        → All (IsReady targets IsFine) items
        → (i : ℕ) → Ends (run_worker items (start i)).1)
      (fine : (i j : ℕ) → IsFine (moments i j)) where
    given :
        (i j : ℕ) (plan : List RequestPlan)
        → All (HasTarget targets) plan
        → All (IsReady targets IsFine) (give_moments (moments i) j plan)
    given i j [] h = tt
    given i j (item ∷ rest) (h, hs) = ((h, fine i j), given i (j + 1) rest hs)

    chunks-Ends :
        (i : ℕ) (chunks : List (List RequestPlan))
        → All (All (HasTarget targets)) chunks
        → All Ends (run_chunks run_worker start moments i chunks)
    chunks-Ends i [] h = tt
    chunks-Ends i (chunk ∷ rest) (h, hs) =
        (run_worker-Ends _ (given i 0 chunk h) i, chunks-Ends (i + 1) rest hs)

    pub run_workers-Completes :
        (n workers : ℕ) (plan : List RequestPlan)
        → 0 < workers
        → All (HasTarget targets) plan
        → Counts n (run_workers run_worker start moments plan workers)
        → Completes n (run_workers run_worker start moments plan workers)
    unfolding run_workers
    run_workers-Completes n workers plan h named counts =
        summed _
          (gather-Ends _ (
            chunks-Ends 0 (split_plan plan workers) (
              All-concat (HasTarget targets) _
                (subst (All (HasTarget targets)) (sym (split_plan_lem plan workers h).1) named))))
          counts
      where
        summed : (o : Outcome (List Stats)) → Ends o → Counts n (sum_up o) → Completes n (sum_up o)
        summed raised e c = elim e [ ]
        summed (returned results) e c = c

-- What /health answers, with a node's name.
abbrev pub IsHealthy : (is_success : ℕ → Bool) → Answer String → Type 0
IsHealthy is_success (http_error exc) = ⊥
IsHealthy is_success (response status none) = ⊥
IsHealthy is_success (response status (some node_id)) = is_success status ≡ true

module _ (is_success : ℕ → Bool) where
  pub discover_node_id-Ends :
      (a : Answer String) → IsHealthy is_success a → Ends (discover_node_id is_success a)
  unfolding discover_node_id
  discover_node_id-Ends (http_error exc) h = elim h [ ]
  discover_node_id-Ends (response status none) h = elim h [ ]
  discover_node_id-Ends (response status (some node_id)) h = rw h tt

  pub discover_node_ids-Ends :
      {A : Type 0} (health : A → Answer String)
      → ((node : A) → IsHealthy is_success (health node))
      → (nodes : List A) → Ends (discover_node_ids is_success health nodes)
  unfolding discover_node_ids
  discover_node_ids-Ends health h [] = tt
  discover_node_ids-Ends {A} health h (node ∷ rest) =
      both (discover_node_id is_success (health node)) (discover_node_ids is_success health rest)
        (discover_node_id-Ends (health node) (h node)) (discover_node_ids-Ends health h rest)
    where
      both :
          (o : Outcome String) (r : Outcome (List (A × String)))
          → Ends o
          → Ends r
          → Ends (named is_success node o r)
      both raised r e f = elim e [ ]
      both (returned x) raised e f = elim f [ ]
      both (returned x) (returned rest) e f = tt

pub some_element :
    {A : Type 0} (xs : List A) (i : ℕ) → i < length xs → (x : A) × (get_elem? xs i ≡ some x)
some_element [] i h = absurd (not_below_zero i h)
  where
    not_below_zero : (i : ℕ) → ¬ (i < 0)
    not_below_zero i h = omega (arith, h)
some_element (x ∷ xs) zero h = (x, refl)
some_element (x ∷ xs) (suc i) h = some_element xs i (omega (arith, h))

pub target_of-some :
    {A : Type 0} (targets : List A) (item : RequestPlan)
    → item.is_read ≡ true
    → HasTarget (length targets) item
    → (x : A) × (target_of targets item.read_target_index ≡ some x)
target_of-some targets item read h =
    let h' : (i : ℕ) × (item.read_target_index ≡ some i) × (i < length targets) = rw read at h in
    let (i, named, below) = h' in
    let (x, found) = some_element targets i below in (x, ap (target_of targets) named ∙ found)

read_at-Ends :
    (name_of : Follower → String) (x : Follower) (now : ℕ) (a : Answer ℕ)
    → HasBody a
    → (e : Option SourceEntry) (s : Stats) (key : String)
    → Ends (LeaderFollower.read_at name_of (some x) now a e s key)
unfolding LeaderFollower.do_read
read_at-Ends name_of x now a h none s key = tt
read_at-Ends name_of x now a h (some e) s key =
    finish_read-Ends now (name_of x) s key "follower_node_id" e a h

module _ (followers : List Follower) (name_of : Follower → String) (leader : String) where
  leader_follower_step-Ends :
      (item : RequestPlan) (m : Moment Shared)
      → HasTarget (length followers) item × IsSound m
      → StepEnds
          (λ (s : Shared). Unit {0})
          (LeaderFollower.run_item followers name_of leader)
          (item, m)
  unfolding LeaderFollower.run_item LeaderFollower.do_write
  leader_follower_step-Ends item m (target, (write, read)) shared stats o = (
    tt,
    elim (Bool-cases item.is_read) [
      | inl is_read ↦
          let (x, found) = target_of-some followers item is_read target in
          rw (is_read, found)
            (read_at-Ends name_of x m.now m.read_answer read
              (snapshot (m.before shared).source_of_truth item.key) (count_request true stats)
              item.key)
      | inr is_write ↦ rw is_write (
          finish_write-Ends m.now leader (count_request false stats) item.key _ _ m.write_answer
            write)
    ],
  )

  steps_end :
      (items : List (RequestPlan × Moment Shared))
      → All (IsReady (length followers) IsSound) items
      → All
          (StepEnds (λ (s : Shared). Unit {0}) (LeaderFollower.run_item followers name_of leader))
          items
  steps_end [] h = tt
  steps_end ((item, m) ∷ rest) (h, hs) = (leader_follower_step-Ends item m h, steps_end rest hs)

  leader_follower_worker-Ends :
      (items : List (RequestPlan × Moment Shared))
      → All (IsReady (length followers) IsSound) items
      → (s : Shared) → Ends (LeaderFollower.run_worker followers name_of leader items s).1
  unfolding LeaderFollower.run_worker
  leader_follower_worker-Ends items h s =
      run_items-Ends (λ (s : Shared). Unit {0}) (LeaderFollower.run_item followers name_of leader)
        items (steps_end items h) s new_stats tt

module _ {G : Type 0} (rng : Rng G) (draws : DrawsBelow rng) (is_success : ℕ → Bool)
    (keys : List String) (seed total workers : ℕ) (some_worker : 0 < workers) where
  -- With at least one worker and one follower, and a `randrange` that draws below its bound, the
  -- leader-follower load test completes, its numbers fit together and account for each of the
  -- planned requests, if the nodes give their names, and each response to a request of the plan
  -- has a body of the form that the script expects, whatever its status. Any request may fail, and
  -- the workers may interleave in any way.
  pub leader_follower_run-Completes :
      (followers : List Follower)
      → is_empty followers ≡ false
      → (health : Follower → Answer String) → ((f : Follower) → IsHealthy is_success (health f))
      → (leader_health : Answer String) → IsHealthy is_success leader_health
      → (name_of : List (Follower × String) → Follower → String) (start : ℕ → Shared)
        (moments : (worker request : ℕ) → Moment Shared)
      → ((i j : ℕ) → IsSound (moments i j))
      → Completes total (
          run_leader_follower_load_test rng is_success keys seed followers health leader_health
            name_of start moments total workers)
  unfolding run_leader_follower_load_test
  leader_follower_run-Completes followers some_there health healthy leader_health leader_healthy
        name_of start moments sound =
      rw some_there (
        started (discover_node_ids is_success health followers)
          (discover_node_id is_success leader_health)
          (discover_node_ids-Ends is_success health healthy followers)
          (discover_node_id-Ends is_success leader_health leader_healthy))
    where
      plan : List RequestPlan
      plan = generate_request_plan rng total keys (length followers) seed

      started :
          (ids : Outcome (List (Follower × String))) (leader : Outcome String)
          → Ends ids
          → Ends leader
          → Completes total (
              leader_follower_workers rng is_success keys seed followers name_of start moments total
                workers ids leader)
      started raised leader e f = elim e [ ]
      started (returned ids) raised e f = elim f [ ]
      started (returned ids) (returned leader) e f =
          run_workers-Completes (length followers) IsSound
            (LeaderFollower.run_worker followers (name_of ids) leader) start moments
            (λ items h i.
              leader_follower_worker-Ends followers (name_of ids) leader items h (start i))
            sound total workers plan some_worker
            (generate_request_plan_lem rng (length followers)
              (draws (length followers) (some_target followers some_there)) total seed keys).1
            (planned-Counts rng draws is_success keys seed total workers some_worker
              (LeaderFollower.run_worker followers (name_of ids) leader)
              (LeaderFollower.run_worker-Fine followers (name_of ids) leader) start moments
              (length followers) (some_target followers some_there))

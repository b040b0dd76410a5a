-- ===== src/LoadTest/Runs/Sums.antt =====
-- The sum of what the workers of a load test return (`run_load_test` of the three scripts of
-- experiments/).
use kv_replication_lab.Prelude.{
  ℕ, suc, ◌+◌, ◌<◌, ◌≡◌, refl, ap, subst, String, Bool, inl, inr, false, List, [], ◌∷◌, ◌++◌,
  length, length-append, is_empty, arith, Bool-cases,
}
use kv_replication_lab.Common.Waiting.{Outcome, returned, raised}
use kv_replication_lab.Leaderless.Config.{Node}
use kv_replication_lab.LoadTest.Leaderless
use kv_replication_lab.LoadTest.MessageQueue
use kv_replication_lab.LoadTest.MessageQueue.{LagMoment}
use kv_replication_lab.LoadTest.MessageQueue.Lag.{mq_worker-Fine}
use kv_replication_lab.LoadTest.Plan.{
  Rng, RequestPlan, generate_request_plan, generate_request_plan_lem, split_plan,
}
use kv_replication_lab.LoadTest.Plan.Split.{concat, split_plan_lem}
use kv_replication_lab.LoadTest.Records.{Stats, new_stats, merge}
use kv_replication_lab.LoadTest.Records.Counting.{merge-IsConsistent}
use kv_replication_lab.LoadTest.Runs.{
  Result, completed, system_exit, failed, prepend, gather, merge_all, give_moments, run_chunks,
  sum_up, run_workers, discover_node_id, discover_node_ids, leaderless_workers,
  run_leaderless_load_test, mq_workers, run_mq_load_test,
}
use kv_replication_lab.LoadTest.Worker.{Shared, Answer, Moment}
use kv_replication_lab.LoadTest.Worker.Bounds.{IsBalanced, Fine, new_stats-IsBalanced}

merge-IsBalanced :
    (m n : ℕ) (s t : Stats) → IsBalanced m s → IsBalanced n t → IsBalanced (m + n) (merge s t)
unfolding merge
merge-IsBalanced m n s t h k = record {
  handled = omega (arith, h.handled, k.handled);
  consistent = (merge-IsConsistent s h.consistent t k.consistent).0;
  requests = omega (arith, h.requests, k.requests);
  stale = omega (arith, h.stale, k.stale);
  reads = omega (arith, h.reads, k.reads);
  writes = omega (arith, h.writes, k.writes);
}

-- Results that add n requests to what has been handled.
abbrev Adds : ℕ → Outcome (List Stats) → Type 0
Adds n raised = Unit
Adds n (returned results) =
    (m : ℕ) (s : Stats) → IsBalanced m s → IsBalanced (m + n) (merge_all s results)

gather-Adds :
    (m n : ℕ) (o : Outcome Stats) (rest : List (Outcome Stats))
    → Fine m o
    → Adds n (gather rest)
    → Adds (m + n) (gather (o ∷ rest))
gather-Adds m n raised rest h k = tt
gather-Adds m n (returned t) rest h k = both (gather rest) k
  where
    assoc : (l : ℕ) → l + m + n ≡ l + (m + n)
    assoc l = omega arith

    both : (g : Outcome (List Stats)) → Adds n g → Adds (m + n) (prepend t g)
    both raised k = tt
    both (returned results) k = λ l s b.
        subst (λ x. IsBalanced x (merge_all (merge s t) results)) (assoc l)
          (k (l + m) (merge s t) (merge-IsBalanced l m s t b h))

-- The result of a run, if it has one, counts n requests.
abbrev pub Counts : ℕ → Result → Type 0
Counts n (completed s) = IsBalanced n s
Counts n system_exit = Unit
Counts n failed = Unit

length-give_moments :
    {M : Type 0} (moments : ℕ → M) (j : ℕ) (plan : List RequestPlan)
    → length (give_moments moments j plan) ≡ length plan
length-give_moments moments j [] = refl
length-give_moments moments j (item ∷ rest) = ap suc (length-give_moments moments (j + 1) rest)

sum_up-Counts : (n : ℕ) (o : Outcome (List Stats)) → Adds n o → Counts n (sum_up o)
sum_up-Counts n raised h = tt
sum_up-Counts n (returned results) h =
    subst (λ x. IsBalanced x (merge_all new_stats results)) (from_none n)
      (h 0 new_stats new_stats-IsBalanced)
  where
    from_none : (n : ℕ) → 0 + n ≡ n
    from_none n = omega arith

module _ {S M : Type 0} (run_worker : List (RequestPlan × M) → S → S × Outcome Stats)
    (run_worker-Fine : (items : List (RequestPlan × M)) (s : S)
      → Fine (length items) (run_worker items s).1)
    (start : ℕ → S) (moments : (worker request : ℕ) → M) where
  chunks-Adds :
      (i : ℕ) (chunks : List (List RequestPlan))
      → Adds (length (concat chunks)) (gather (run_chunks run_worker start moments i chunks))
  chunks-Adds i [] = λ m s h. subst (λ x. IsBalanced x s) (nothing_more m) h
    where
      nothing_more : (m : ℕ) → m ≡ m + 0
      nothing_more m = omega arith
  chunks-Adds i (chunk ∷ rest) =
      let items = give_moments (moments i) 0 chunk in
      let total : length items + length (concat rest) ≡ length (chunk ++ concat rest) =
        omega (arith, length-give_moments (moments i) 0 chunk, length-append chunk (concat rest)) in
      subst (λ n. Adds n (gather (run_chunks run_worker start moments i (chunk ∷ rest)))) total
        (gather-Adds (length items) (length (concat rest)) (run_worker items (start i)).1 _
          (run_worker-Fine items (start i)) (chunks-Adds (i + 1) rest))

  pub run_workers-Counts :
      (plan : List RequestPlan) (workers : ℕ)
      → 0 < workers
      → Counts (length plan) (run_workers run_worker start moments plan workers)
  unfolding run_workers
  run_workers-Counts plan workers some_worker = sum_up-Counts (length plan) _ (
      subst
        (λ p.
          Adds (length p)
            (gather (run_chunks run_worker start moments 0 (split_plan plan workers))))
        (split_plan_lem plan workers some_worker).1 (chunks-Adds 0 (split_plan plan workers)))

-- What `randrange` promises.
abbrev pub DrawsBelow : {G : Type 0} → Rng G → Type 0
DrawsBelow {G} rng = (n : ℕ) → 0 < n → (g : G) → (rng.randrange n g).0 < n

pub some_target : {A : Type 0} (xs : List A) → is_empty xs ≡ false → 0 < length xs
some_target [] h = cc h
some_target (x ∷ xs) h = above (length xs)
  where
    above : (n : ℕ) → 0 < suc n
    above n = omega arith

module _ {G : Type 0} (rng : Rng G) (draws : DrawsBelow rng) (is_success : ℕ → Bool)
    (keys : List String) (seed total workers : ℕ) (some_worker : 0 < workers) where
  pub planned-Counts :
      {S M : Type 0} (run_worker : List (RequestPlan × M) → S → S × Outcome Stats)
      → ((items : List (RequestPlan × M)) (s : S) → Fine (length items) (run_worker items s).1)
      → (start : ℕ → S) (moments : (worker request : ℕ) → M) (targets : ℕ) → 0 < targets
      → Counts total (
          run_workers run_worker start moments
            (generate_request_plan rng total keys targets seed)
            workers)
  planned-Counts run_worker h start moments targets some_target =
      let plan = generate_request_plan rng total keys targets seed in
      subst (λ n. Counts n (run_workers run_worker start moments plan workers))
        (generate_request_plan_lem rng targets (draws targets some_target) total seed keys).0
        (run_workers-Counts run_worker h start moments plan workers some_worker)

  -- With at least one worker and a `randrange` that draws below its bound: if the leaderless load
  -- test completes, its numbers fit together and account for each of the planned requests,
  -- whatever the nodes answer and however the workers interleave.
  pub leaderless_run-Counts :
      (nodes : List Node) (health : Node → Answer String)
      (name_of : List (Node × String) → Node → String) (start : ℕ → Leaderless.ClusterShared)
      (moments : (worker request : ℕ) → Moment Leaderless.ClusterShared)
      → Counts total (
          run_leaderless_load_test rng is_success keys seed nodes health name_of start moments total
            workers)
  unfolding run_leaderless_load_test
  leaderless_run-Counts nodes health name_of start moments = elim (Bool-cases (is_empty nodes)) [
    | inl none_there ↦ rw none_there tt
    | inr some_there ↦
        rw some_there
          (started (some_target nodes some_there) (discover_node_ids is_success health nodes))
  ]
    where
      started :
          0 < length nodes
          → (ids : Outcome (List (Node × String)))
          → Counts total (
              leaderless_workers rng is_success keys seed nodes name_of start moments total workers
                ids)
      started h raised = tt
      started h (returned ids) =
          planned-Counts (Leaderless.run_worker nodes (name_of ids))
            (Leaderless.run_worker-Fine nodes (name_of ids)) start moments (length nodes) h

  -- With at least one worker and a `randrange` that draws below its bound: if the message-queue
  -- load test completes, its numbers fit together and account for each of the planned requests,
  -- whatever the nodes answer and however the workers interleave.
  pub mq_run-Counts :
      (ports : List ℕ)
      → 0 < length ports
      → (health : ℕ → Answer String) (producer_health : Answer String)
        (name_of : List (ℕ × String) → ℕ → String) (start : ℕ → Shared)
        (moments : (worker request : ℕ) → LagMoment)
      → Counts total (
          run_mq_load_test rng is_success keys seed ports health producer_health name_of start
            moments total workers)
  unfolding run_mq_load_test
  mq_run-Counts ports h health producer_health name_of start moments =
      started (discover_node_ids is_success health ports)
        (discover_node_id is_success producer_health)
    where
      started :
          (ids : Outcome (List (ℕ × String))) (producer : Outcome String)
          → Counts total (
              mq_workers rng is_success keys seed ports name_of start moments total workers ids
                producer)
      started raised producer = tt
      started (returned ids) raised = tt
      started (returned ids) (returned producer) =
          planned-Counts (MessageQueue.run_worker is_success ports (name_of ids) producer)
            (mq_worker-Fine is_success ports (name_of ids) producer) start moments (length ports) h

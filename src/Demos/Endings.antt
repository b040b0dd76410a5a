-- ===== src/Demos/Endings.antt =====
-- How the demonstrations end, what they leave running and what they write.
use kv_replication_lab.Prelude.{
  ℕ, ◌≡◌, refl, ap, sym, subst, ◌⊎◌, inl, inr, true, false, Option, none, some, List, [], ◌∷◌, ◌++◌,
  All, All-append, map, if_cases,
}
use kv_replication_lab.Common.Waiting.{Outcome, returned, raised}
use kv_replication_lab.LoadTest.Records.{Stats}
use kv_replication_lab.LoadTest.Runs.{Result, completed, system_exit, failed}
use kv_replication_lab.Prelude.Chars.{Text}
use kv_replication_lab.Comparison.{SpawnedNode, stop_all, spawn_each}
use kv_replication_lab.Comparison.Sweeps.{Stops, HasExited, stop_all-AllStopped}
use kv_replication_lab.Comparison.Clusters.{mq_follower_ports}
use kv_replication_lab.Prelude.Int.{ℤ}
use kv_replication_lab.Demos.{
  Args, Surroundings, Startup, up, startup_error, other_error, Attempt, finish, after_startup,
  first_of, query_all,
}
use kv_replication_lab.Demos.BoundaryCase.{
  boundary_launches, boundary_case, boundary_write_results_section, after_boundary_test,
}
use kv_replication_lab.Demos.ConsumerLag.{
  lag_launches, lag_demo, lag_attempt, lag_write_results_section, after_lags, after_lag_test,
  with_producer, producer_launch,
}

-- If all the nodes can be stopped, and are all tracked, the end is that of the `try`.
finish-Stopped :
    (a : Attempt)
    → All Stops a.nodes
    → a.untracked ≡ []
    → ((finish a).how ≡ a.how) × All HasExited (finish a).left
unfolding finish
finish-Stopped a stops tracked =
    let (stopped, how) = stop_all-AllStopped a.nodes stops in
    (
      ap (λ h. first_of h a.how) how,
      All-append HasExited _ a.untracked stopped (subst (All HasExited) (sym tracked) tt),
    )

finish-file : (a : Attempt) → (finish a).file ≡ a.file
unfolding finish
finish-file a = refl

-- A `try` all of whose nodes can be stopped and are tracked, with what is known of its end.
abbrev Tidy : (Outcome (Unit {0}) → Option Text → Type 0) → Attempt → Type 0
Tidy P a = All Stops a.nodes × (a.untracked ≡ []) × P a.how a.file

-- What is known of the `try` holds of the whole, and no process is left.
finish-Tidy :
    (P : Outcome (Unit {0}) → Option Text → Type 0) (a : Attempt)
    → Tidy P a
    → All HasExited (finish a).left × P (finish a).how (finish a).file
finish-Tidy P a (stops, tracked, known) =
    let (how, gone) = finish-Stopped a stops tracked in
    (gone, subst (λ h. P h (finish a).file) (sym how) (subst (P a.how) (sym (finish-file a)) known))

module _ (s : Surroundings) (args : Args) (file : Option Text) where
  -- The file is left alone, or a completed load test is followed by the writing of the section.
  abbrev pub WritesOnce : (Stats → Text → Type 0) → Outcome (Unit {0}) → Option Text → Type 0
  WritesOnce IsWritten how after =
      (after ≡ file)
      ⊎ ((stats : Stats) × (text : Text) × (s.load_test ≡ completed stats)
          × IsWritten stats text
          × (how ≡ returned tt)
          × (after ≡ some text))

  after_wait-Tidy :
      (IsWritten : Stats → Text → Type 0) (nodes : List SpawnedNode) (w : Startup) (next : Attempt)
      → All Stops nodes
      → Tidy (WritesOnce IsWritten) next
      → Tidy (WritesOnce IsWritten) (after_startup nodes file w next)
  after_wait-Tidy W nodes up next stops h = h
  after_wait-Tidy W nodes startup_error next stops h = (stops, refl, inl refl)
  after_wait-Tidy W nodes other_error next stops h = (stops, refl, inl refl)

  abbrev pub boundary_nodes : List SpawnedNode
  boundary_nodes = (spawn_each (map s.spawn (boundary_launches s args))).0

  -- What the boundary case writes.
  abbrev pub BoundaryText : Stats → Text → Type 0
  BoundaryText stats text = text ≡ boundary_write_results_section s args file stats

  boundary_test-Tidy :
      (r : Result)
      → s.load_test ≡ r
      → All Stops boundary_nodes
      → Tidy (WritesOnce BoundaryText) (after_boundary_test s args boundary_nodes file r)
  boundary_test-Tidy (completed stats) e stops = (stops, refl, inr (stats, _, e, refl, refl, refl))
  boundary_test-Tidy system_exit e stops = (stops, refl, inl refl)
  boundary_test-Tidy failed e stops = (stops, refl, inl refl)

  -- If all the nodes that it has started can be stopped, the boundary-case demonstration leaves
  -- none of them running, however it ends. It changes the results file only after a completed load
  -- test, to what its section makes of it, and then it ends without an exception.
  pub boundary_case_ends :
      All Stops boundary_nodes
      → All HasExited (boundary_case s args file).left
        × WritesOnce BoundaryText (boundary_case s args file).how (boundary_case s args file).file
  unfolding boundary_case
  boundary_case_ends stops = finish-Tidy (WritesOnce BoundaryText) _ (
      if_cases (Tidy (WritesOnce BoundaryText))
        (spawn_each (map s.spawn (boundary_launches s args))).1 _ _
        (λ all_there.
          after_wait-Tidy BoundaryText boundary_nodes (s.wait_healthy boundary_nodes) _ stops
            (boundary_test-Tidy s.load_test refl stops))
        (λ missing. (stops, refl, inl refl)))

  abbrev pub lag_followers : List SpawnedNode
  lag_followers = (spawn_each (map s.spawn (lag_launches s args))).0

  -- What the lag demonstration writes, with the final lags that it has asked for.
  abbrev pub LagText : Stats → Text → Type 0
  LagText stats text =
      (lags : List (ℕ × ℤ)) × (query_all s.query_final_lag mq_follower_ports ≡ some lags)
      × (text ≡ lag_write_results_section s args file stats lags)

  lags-Tidy :
      (nodes : List SpawnedNode) (stats : Stats) (o : Option (List (ℕ × ℤ)))
      → query_all s.query_final_lag mq_follower_ports ≡ o
      → s.load_test ≡ completed stats
      → All Stops nodes
      → Tidy (WritesOnce LagText) (after_lags s args nodes file stats o)
  lags-Tidy nodes stats none e t stops = (stops, refl, inl refl)
  lags-Tidy nodes stats (some lags) e t stops =
      (stops, refl, inr (stats, _, t, (lags, e, refl), refl, refl))

  lag_test-Tidy :
      (nodes : List SpawnedNode) (r : Result)
      → s.load_test ≡ r
      → All Stops nodes
      → Tidy (WritesOnce LagText) (after_lag_test s args nodes file r)
  lag_test-Tidy nodes (completed stats) e stops = lags-Tidy nodes stats _ refl e stops
  lag_test-Tidy nodes system_exit e stops = (stops, refl, inl refl)
  lag_test-Tidy nodes failed e stops = (stops, refl, inl refl)

  producer-Tidy :
      (nodes : List SpawnedNode) (o : Outcome SpawnedNode)
      → All Stops nodes
      → ((p : SpawnedNode) → o ≡ returned p → Stops p)
      → Tidy (WritesOnce LagText) (with_producer s args nodes file o)
  producer-Tidy nodes raised stops stop = (stops, refl, inl refl)
  producer-Tidy nodes (returned p) stops stop =
      let all_stop = All-append Stops nodes (p ∷ []) stops (stop p refl, tt) in
      after_wait-Tidy LagText (nodes ++ (p ∷ [])) (s.wait_healthy (p ∷ [])) _ all_stop
        (lag_test-Tidy (nodes ++ (p ∷ [])) s.load_test refl all_stop)

  -- If all four followers of the consumer-lag demonstration can be started, and they and the
  -- producer can be stopped, none of them is left running. It changes the results file only after a
  -- completed load test and an answer on the final lag from each follower, and then it ends without
  -- an exception.
  pub lag_demo_ends :
      (reset : Outcome (Unit {0}))
      → (spawn_each (map s.spawn (lag_launches s args))).1 ≡ true
      → All Stops lag_followers
      → ((p : SpawnedNode) → s.spawn (producer_launch s args) ≡ returned p → Stops p)
      → All HasExited (lag_demo s args reset file).left
        × WritesOnce LagText (lag_demo s args reset file).how (lag_demo s args reset file).file
  unfolding lag_demo lag_attempt
  lag_demo_ends raised all_there stops stop =
      finish-Tidy (WritesOnce LagText)
        (record { nodes = []; untracked = []; how = raised; file = file }) (tt, refl, inl refl)
  lag_demo_ends (returned u) all_there stops stop = finish-Tidy (WritesOnce LagText) _ (
      if_cases (Tidy (WritesOnce LagText)) (spawn_each (map s.spawn (lag_launches s args))).1 _ _
        (λ there. after_wait-Tidy LagText lag_followers (s.wait_healthy lag_followers) _ stops (
          after_wait-Tidy LagText lag_followers (s.wait_assigned lag_followers) _ stops
            (producer-Tidy lag_followers (s.spawn (producer_launch s args)) stops stop)))
        (λ missing. cc (all_there, missing)))

  -- If the topic has been reset and one of the followers of the consumer-lag demonstration cannot
  -- be started, it raises, and leaves those that it has started before as they are.
  pub lag_demo_left :
      (followers : List SpawnedNode)
      → spawn_each (map s.spawn (lag_launches s args)) ≡ (followers, false)
      → ((lag_demo s args (returned tt) file).how ≡ raised)
        × ((lag_demo s args (returned tt) file).left ≡ followers)
        × ((lag_demo s args (returned tt) file).file ≡ file)
  unfolding lag_demo lag_attempt finish stop_all
  lag_demo_left followers missing = rw missing (refl, refl, refl)

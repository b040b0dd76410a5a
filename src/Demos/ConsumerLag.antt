-- ===== src/Demos/ConsumerLag.antt =====
-- The cluster, the run and the section of experiments/mq_lag_demo.py.
use kv_replication_lab.Prelude.{
  ℕ, Option, none, some, List, [], ◌∷◌, ◌++◌, map, take, if◌then◌else◌,
}
use kv_replication_lab.Prelude.Int.{ℤ}
use kv_replication_lab.Prelude.Chars.{Text, codes, decimal, join_lines}
use kv_replication_lab.Common.Waiting.{Outcome, returned, raised}
use kv_replication_lab.LoadTest.Records.{Stats, new_stats}
use kv_replication_lab.LoadTest.Runs.{Result, completed, system_exit, failed}
use kv_replication_lab.Comparison.{SpawnedNode, spawn_each}
use kv_replication_lab.Comparison.Clusters.{
  local_host, mq_follower_ports, producer_port, node_args, enumerate,
}
use kv_replication_lab.Reports.{row}
use kv_replication_lab.ResultsDoc.{results_header, results_header_marker, replace_section}
use kv_replication_lab.Demos.{
  Args, Surroundings, Launch, Attempt, Ended, finish, after_startup, among, query_all, int_text,
  result_cells, table_head,
}

module _ (s : Surroundings) (args : Args) where
  -- `delayed_ports`
  abbrev pub delayed_ports : List ℕ
  delayed_ports = take args.delayed_count mq_follower_ports

  abbrev pub lag_args : (i port : ℕ) → List Text
  lag_args i port =
      node_args (codes "follower" ++ (decimal i ++ codes "_lagdemo")) port
      ++ (if among port delayed_ports
          then codes "--fault-inject-consume-delay-ms" ∷ s.number args.delay_ms ∷ []
          else [])

  abbrev pub lag_launch : (i port : ℕ) → Launch
  lag_launch i port = record {
    name = codes "message_queue.follower";
    args = lag_args i port;
    label = codes "lagdemo_follower" ++ decimal i;
    port = port;
  }

  abbrev pub lag_launches : List Launch
  lag_launches = enumerate lag_launch 1 mq_follower_ports

  abbrev pub producer_launch : Launch
  producer_launch = record {
    name = codes "message_queue.producer";
    args = node_args (codes "producer_lagdemo") producer_port;
    label = codes "lagdemo_producer";
    port = producer_port;
  }

  abbrev pub lag_row : ℕ × ℤ → Text
  lag_row (port, lag) = row (
      (codes "`" ++ (local_host ++ (codes ":" ++ (decimal port ++ codes "`"))))
      ∷ (if among port delayed_ports then codes "yes" else codes "no")
      ∷ int_text lag
      ∷ [])

  -- `lines` of the lag demo's `_write_results_section`
  unfoldable pub lag_lines : Stats → (per_follower_lag : List (ℕ × ℤ)) → List Text
  lag_lines stats per_follower_lag =
      codes "## Demonstrating message-queue consumer lag"
      ∷ codes ""
      ∷ (codes "Generated by `experiments/mq_lag_demo.py` on "
          ++ (s.generated_at
              ++ (codes ", at `--workers "
                  ++ (int_text args.workers
                      ++ (codes "` with `--delay-ms "
                          ++ (s.general args.delay_ms
                              ++ (codes " --delayed-follower-count "
                                  ++ (decimal args.delayed_count
                                      ++ (codes "` ("
                                          ++ (decimal args.delayed_count
                                              ++ (codes " of 4 followers fault-injected with a "
                                                  ++ (s.general args.delay_ms
                                                      ++ codes
                                                          "ms consume delay each). See the top-level `README.md`'s \"Results\" section for what this demonstrates and why, and this script's own module docstring for why this configuration was chosen."))))))))))))
      ∷ codes ""
      ∷ (table_head
          ++ (row (result_cells s stats)
              ∷ codes ""
              ∷ codes
                  "Final consumer lag per follower, queried immediately after the load test finished (delayed followers are still working through their backlog at this point; undelayed ones have typically already drained theirs):"
              ∷ codes ""
              ∷ codes "| Follower | Delayed? | Final lag |"
              ∷ codes "|---|---|---|"
              ∷ (map lag_row per_follower_lag
                  ++ (codes ""
                      ∷ codes
                          "Raw stale-read/failure JSONL logs: `experiments/output/mq_lag_demo/`."
                      ∷ []))))

  unfoldable pub lag_write_results_section : Option Text → Stats → List (ℕ × ℤ) → Text
  unfolding lag_lines
  lag_write_results_section file stats per_follower_lag =
      replace_section (some (replace_section file results_header_marker results_header))
        "mq-lag-demo" (join_lines (lag_lines stats per_follower_lag))

  abbrev pub after_lags : List SpawnedNode → Option Text → Stats → Option (List (ℕ × ℤ)) → Attempt
  after_lags nodes file stats none = record {
    nodes = nodes;
    untracked = [];
    how = raised;
    file = file;
  }
  after_lags nodes file stats (some lags) = record {
    nodes = nodes;
    untracked = [];
    how = returned tt;
    file = some (lag_write_results_section file stats lags);
  }

  abbrev pub after_lag_test : List SpawnedNode → Option Text → Result → Attempt
  after_lag_test nodes file (completed stats) =
      after_lags nodes file stats (query_all s.query_final_lag mq_follower_ports)
  after_lag_test nodes file system_exit = after_lags nodes file new_stats none
  after_lag_test nodes file failed = after_lags nodes file new_stats none

  abbrev pub with_producer : List SpawnedNode → Option Text → Outcome SpawnedNode → Attempt
  with_producer nodes file raised = record {
    nodes = nodes;
    untracked = [];
    how = raised;
    file = file;
  }
  with_producer nodes file (returned producer) =
      let all_nodes = nodes ++ (producer ∷ []) in
      after_startup all_nodes file (s.wait_healthy (producer ∷ []))
        (after_lag_test all_nodes file s.load_test)

  -- The `try` of the lag demo after the reset: the followers join `nodes` when all are started.
  unfoldable pub lag_attempt : Option Text → Attempt
  unfolding lag_write_results_section
  lag_attempt file =
      let (followers, all_there) = spawn_each (map s.spawn lag_launches) in
      if all_there
      then after_startup followers file (s.wait_healthy followers) (
          after_startup followers file (s.wait_assigned followers)
            (with_producer followers file (s.spawn producer_launch)))
      else record { nodes = []; untracked = followers; how = raised; file = file }

  -- `main` of the lag demo, after its arguments and its configuration
  unfoldable pub lag_demo : (reset_topic : Outcome (Unit {0})) → Option Text → Ended
  unfolding finish lag_attempt
  lag_demo raised file = finish (record { nodes = []; untracked = []; how = raised; file = file })
  lag_demo (returned u) file = finish (lag_attempt file)

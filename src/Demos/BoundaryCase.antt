-- ===== src/Demos/BoundaryCase.antt =====
-- The cluster, the run and the section of experiments/leaderless_boundary_case_demo.py.
use kv_replication_lab.Prelude.{ℕ, Option, some, List, [], ◌∷◌, ◌++◌, map, leb, if◌then◌else◌}
use kv_replication_lab.Prelude.Chars.{Text, codes, decimal, join_lines}
use kv_replication_lab.Common.Waiting.{returned, raised}
use kv_replication_lab.LoadTest.Records.{Stats}
use kv_replication_lab.LoadTest.Runs.{Result, completed, system_exit, failed}
use kv_replication_lab.Comparison.{SpawnedNode, spawn_each}
use kv_replication_lab.Comparison.Clusters.{leaderless_node_ports, node_args, enumerate}
use kv_replication_lab.Reports.{row}
use kv_replication_lab.ResultsDoc.{results_header, results_header_marker, replace_section}
use kv_replication_lab.Demos.{
  Args, Surroundings, Launch, Attempt, Ended, finish, after_startup, result_cells, table_head,
}

module _ (s : Surroundings) (args : Args) where
  -- The arguments of node i of the boundary-case cluster
  abbrev pub boundary_args : (i port : ℕ) → List Text
  boundary_args i port =
      node_args (codes "node" ++ decimal i) port
      ++ (if leb i args.delayed_count
          then codes "--fault-inject-delay-ms" ∷ s.number args.delay_ms ∷ []
          else [])

  abbrev pub boundary_launch : (i port : ℕ) → Launch
  boundary_launch i port = record {
    name = codes "leaderless.node";
    args = boundary_args i port;
    label = codes "boundary_demo_node" ++ decimal i;
    port = port;
  }

  abbrev pub boundary_launches : List Launch
  boundary_launches = enumerate boundary_launch 1 leaderless_node_ports

  -- `lines` of the boundary case's `_write_results_section`
  unfoldable pub boundary_lines : Stats → List Text
  boundary_lines stats =
      codes "## Demonstrating the W+R boundary case"
      ∷ codes ""
      ∷ (codes "Generated by `experiments/leaderless_boundary_case_demo.py` on "
          ++ (s.generated_at
              ++ (codes ", against `W=2,R=3` with `--delay-ms "
                  ++ (s.general args.delay_ms
                      ++ (codes " --delayed-node-count "
                          ++ (decimal args.delayed_count
                              ++ (codes "` ("
                                  ++ (decimal args.delayed_count
                                      ++ (codes " of 5 nodes fault-injected with a "
                                          ++ (s.general args.delay_ms
                                              ++ codes
                                                  "ms replicate delay each). See the top-level `README.md`'s \"Results\" section for what this demonstrates and why, and this script's own module docstring for the exploration that led to these default parameters."))))))))))
      ∷ codes ""
      ∷ (table_head
          ++ (row (result_cells s stats)
              ∷ codes ""
              ∷ codes
                  "Raw stale-read/failure JSONL logs: `experiments/output/leaderless_boundary_case_demo/`."
              ∷ []))

  unfoldable pub boundary_write_results_section : Option Text → Stats → Text
  unfolding boundary_lines
  boundary_write_results_section file stats =
      replace_section (some (replace_section file results_header_marker results_header))
        "boundary-case-demo" (join_lines (boundary_lines stats))

  abbrev pub after_boundary_test : List SpawnedNode → Option Text → Result → Attempt
  after_boundary_test nodes file (completed stats) = record {
    nodes = nodes;
    untracked = [];
    how = returned tt;
    file = some (boundary_write_results_section file stats);
  }
  after_boundary_test nodes file system_exit = record {
    nodes = nodes;
    untracked = [];
    how = raised;
    file = file;
  }
  after_boundary_test nodes file failed = record {
    nodes = nodes;
    untracked = [];
    how = raised;
    file = file;
  }

  -- `main` of the boundary case, after its arguments
  unfoldable pub boundary_case : Option Text → Ended
  unfolding finish boundary_write_results_section
  boundary_case file =
      let (nodes, all_there) = spawn_each (map s.spawn boundary_launches) in
      finish (
        if all_there
        then after_startup nodes file (s.wait_healthy nodes)
            (after_boundary_test nodes file s.load_test)
        else record { nodes = nodes; untracked = []; how = raised; file = file })

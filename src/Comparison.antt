-- ===== src/Comparison.antt =====
-- The sweep over all configurations of the three strategies (experiments/run_comparison.py): the
-- processes that it starts and stops, and what it notes for each configuration.
--
-- What `_spawn`, the waits for a cluster and a load test come to is an argument of a configuration.
-- An elapsed time and the text of an exception are arguments too.
pub mod Waits
pub mod Sweeps
pub mod Clusters
use kv_replication_lab.Prelude.{ℕ, Bool, true, false, not, List, [], ◌∷◌, ◌++◌, if◌then◌else◌}
use kv_replication_lab.Prelude.Chars.{Text}
use kv_replication_lab.Common.Waiting.{Outcome, returned, raised}
use kv_replication_lab.LoadTest.Records.{Stats, Ratio, total_failures, staleness_rate}
use kv_replication_lab.LoadTest.Runs.{Result, completed, system_exit, failed, prepend}

-- A process: whether it has exited, and whether it does so within the time that `wait` gives it.
pub record Process : Type 0 where
  pub has_exited : Bool
  pub exits_on_terminate : Bool
  pub exits_on_kill : Bool

pub record SpawnedNode : Type 0 where
  pub label : Text
  pub host : Text
  pub port : ℕ
  pub proc : Process
  pub log_path : Text

abbrev pub exited : SpawnedNode → SpawnedNode
exited node = record node { proc = record node.proc { has_exited = true } }

-- `_stop_node`; the second `wait` is not guarded
unfoldable pub stop_node : SpawnedNode → SpawnedNode × Outcome (Unit {0})
stop_node node =
    if node.proc.has_exited
    then (node, returned tt)
    else if node.proc.exits_on_terminate
    then (exited node, returned tt)
    else if node.proc.exits_on_kill
    then (exited node, returned tt)
    else (node, raised)

abbrev pub stop_rest :
    SpawnedNode × Outcome (Unit {0})
    → List SpawnedNode
    → List SpawnedNode × Outcome (Unit {0})
    → List SpawnedNode × Outcome (Unit {0})
stop_rest (node, raised) rest stopped = (node ∷ rest, raised)
stop_rest (node, returned u) rest (nodes, how) = (node ∷ nodes, how)

-- `_stop_all`
unfoldable pub stop_all : List SpawnedNode → List SpawnedNode × Outcome (Unit {0})
unfolding stop_node
stop_all [] = ([], returned tt)
stop_all (node ∷ rest) = stop_rest (stop_node node) rest (stop_all rest)

pub record ConfigResult : Type 0 where
  pub strategy : Text
  pub label : Text
  pub elapsed : ℕ
  pub staleness_rate : Ratio
  pub total_failures : ℕ
  pub total_requests : ℕ

pub record ConfigError : Type 0 where
  pub strategy : Text
  pub label : Text
  pub reason : Text

-- `Outcome`
pub data ConfigOutcome : Type 0 where
  config_result : ConfigResult → ConfigOutcome
  config_error : ConfigError → ConfigOutcome

-- What else is noted of a configuration: its names, the time that its load test took, in some small
-- unit, and the text of the exception, if one is raised.
pub record Description : Type 0 where
  pub strategy : Text
  pub label : Text
  pub elapsed : ℕ
  pub reason : Text

-- What a configuration comes to inside its `try`: the nodes that `finally` stops, other processes
-- that it has started, and the load test's result or the exception.
pub record Tried : Type 0 where
  pub nodes : List SpawnedNode
  pub untracked : List SpawnedNode
  pub result : Result

-- Nodes started one after the other, and whether all could be.
abbrev pub spawn_each : List (Outcome SpawnedNode) → List SpawnedNode × Bool
spawn_each [] = ([], true)
spawn_each (raised ∷ rest) = ([], false)
spawn_each (returned node ∷ rest) =
    let (nodes, all_there) = spawn_each rest in (node ∷ nodes, all_there)

-- The nodes that are tracked, what a wait comes to, and what is done after it.
abbrev pub after_wait : List SpawnedNode → Outcome (Unit {0}) → Tried → Tried
after_wait nodes raised next = record { nodes = nodes; untracked = []; result = failed }
after_wait nodes (returned u) next = next

abbrev pub and_run : List SpawnedNode → Outcome (Unit {0}) → Result → Tried
and_run nodes waited load_test =
    after_wait nodes waited (record { nodes = nodes; untracked = []; result = load_test })

-- The last node of a cluster, waited for by itself, and then the load test.
abbrev pub with_last :
    (wait : List SpawnedNode → Outcome (Unit {0}))
    → List SpawnedNode
    → Outcome SpawnedNode
    → Result
    → Tried
with_last wait nodes raised load_test = record { nodes = nodes; untracked = []; result = failed }
with_last wait nodes (returned last) load_test =
    and_run (nodes ++ (last ∷ [])) (wait (last ∷ [])) load_test

-- The `try` of `run_leader_follower_configs`
unfoldable pub leader_follower_config :
    (followers : List (Outcome SpawnedNode)) (leader : Outcome SpawnedNode)
    → (wait_healthy : List SpawnedNode → Outcome (Unit {0})) → (load_test : Result) → Tried
leader_follower_config followers leader wait_healthy load_test =
    let (nodes, all_there) = spawn_each followers in
    if all_there
    then after_wait nodes (wait_healthy nodes) (with_last wait_healthy nodes leader load_test)
    else record { nodes = nodes; untracked = []; result = failed }

-- The `try` of `run_leaderless_configs`
unfoldable pub leaderless_config :
    (spawned : List (Outcome SpawnedNode))
    → (wait_healthy : List SpawnedNode → Outcome (Unit {0})) → (load_test : Result) → Tried
leaderless_config spawned wait_healthy load_test =
    let (nodes, all_there) = spawn_each spawned in
    if all_there
    then and_run nodes (wait_healthy nodes) load_test
    else record { nodes = nodes; untracked = []; result = failed }

-- The `try` of `run_mq_configs`: the followers join `nodes` when all of them have been started.
unfoldable pub mq_config :
    (reset : Outcome (Unit {0}))
    → (spawned : List (Outcome SpawnedNode)) (producer : Outcome SpawnedNode)
    → (wait_healthy wait_assigned : List SpawnedNode → Outcome (Unit {0})) → (load_test : Result)
    → Tried
mq_config raised spawned producer wait_healthy wait_assigned load_test = record {
  nodes = [];
  untracked = [];
  result = failed;
}
mq_config (returned u) spawned producer wait_healthy wait_assigned load_test =
    let (followers, all_there) = spawn_each spawned in
    if all_there
    then after_wait followers (wait_healthy followers) (
        after_wait followers (wait_assigned followers)
          (with_last wait_healthy followers producer load_test))
    else record { nodes = []; untracked = followers; result = failed }

abbrev pub result_of : Description → Stats → ConfigResult
result_of d stats = record {
  strategy = d.strategy;
  label = d.label;
  elapsed = d.elapsed;
  staleness_rate = staleness_rate stats;
  total_failures = total_failures stats;
  total_requests = stats.total_requests;
}

abbrev pub error_of : Description → ConfigError
error_of d = record { strategy = d.strategy; label = d.label; reason = d.reason }

-- What is noted, unless the exception is none that `except Exception` catches.
abbrev pub noted : Description → Result → Outcome ConfigOutcome
noted d (completed stats) = returned (config_result (result_of d stats))
noted d failed = returned (config_error (error_of d))
noted d system_exit = raised

-- What a sweep returns, and all the processes that it has started, as it leaves them.
pub record Swept : Type 0 where
  pub outcomes : Outcome (List ConfigOutcome)
  pub left : List SpawnedNode

-- The rest of a sweep, if neither the `try` nor the `finally` of a configuration has raised.
abbrev pub then_sweep :
    List SpawnedNode → Outcome ConfigOutcome → Outcome (Unit {0}) → Swept → Swept
then_sweep left raised how rest = record { outcomes = raised; left = left }
then_sweep left (returned o) raised rest = record { outcomes = raised; left = left }
then_sweep left (returned o) (returned u) rest = record {
  outcomes = prepend o rest.outcomes;
  left = left ++ rest.left;
}

-- The loop of `run_leader_follower_configs`, `run_leaderless_configs` and `run_mq_configs`
unfoldable pub sweep : {A : Type 0} → (A → Description) → (A → Tried) → List A → Swept
unfolding stop_all
sweep describe attempt [] = record { outcomes = returned []; left = [] }
sweep describe attempt (config ∷ rest) =
    let tried = attempt config in
    let (stopped, how) = stop_all tried.nodes in
    then_sweep (stopped ++ tried.untracked) (noted (describe config) tried.result) how
      (sweep describe attempt rest)

-- ===== src/Demos.antt =====
-- The two demonstrations, experiments/leaderless_boundary_case_demo.py and
-- experiments/mq_lag_demo.py: their arguments, the processes that they start, and what they leave.
--
-- A delay is a natural number of some small unit; how Python prints one is an argument.
pub mod BoundaryCase
pub mod ConsumerLag
pub mod Arguments
pub mod Endings
use kv_replication_lab.Prelude.{
  ℕ, suc, Bool, true, false, Option, none, some, List, [], ◌∷◌, ◌++◌, map, take, leb, nat_eq,
  if◌then◌else◌,
}
use kv_replication_lab.Prelude.Int.{ℤ, pos, negsuc}
use kv_replication_lab.Prelude.Chars.{Text, codes, decimal, join_lines}
use kv_replication_lab.Common.Waiting.{Outcome, returned, raised}
use kv_replication_lab.LoadTest.Records.{Stats, new_stats, total_failures, staleness_rate}
use kv_replication_lab.LoadTest.Runs.{Result, completed, system_exit, failed}
use kv_replication_lab.Comparison.{SpawnedNode, stop_all, spawn_each}
use kv_replication_lab.Comparison.Clusters.{
  local_host, leaderless_node_ports, mq_follower_ports, producer_port, node_args, enumerate,
}
use kv_replication_lab.Reports.{Formats, row}
use kv_replication_lab.ResultsDoc.{results_header, results_header_marker, replace_section}

-- What argparse makes of a command line, before it is checked.
pub record Given : Type 0 where
  pub delay_ms : ℤ
  pub delayed_count : ℤ
  pub workers : ℤ

-- `DEFAULT_DELAY_MS`, `DEFAULT_DELAYED_NODE_COUNT` (and no workers)
abbrev pub boundary_defaults : Given
boundary_defaults = record { delay_ms = pos 800; delayed_count = pos 4; workers = pos 0 }

-- `DEFAULT_DELAY_MS`, `DEFAULT_DELAYED_FOLLOWER_COUNT`, `DEFAULT_WORKERS`
abbrev pub lag_defaults : Given
lag_defaults = record { delay_ms = pos 500; delayed_count = pos 2; workers = pos 5 }

pub record Args : Type 0 where
  pub delay_ms : ℕ
  pub delayed_count : ℕ
  pub workers : ℤ

abbrev pub checked : (most : ℕ) → (delay_ms delayed_count workers : ℤ) → Option Args
checked most (negsuc d) count workers = none
checked most (pos d) (negsuc n) workers = none
checked most (pos d) (pos n) workers =
    if leb n most
    then some (record { delay_ms = d; delayed_count = n; workers = workers })
    else none

-- The checks of `_parse_args`; `none` is `parser.error`.
unfoldable pub boundary_parse_args : Given → Option Args
boundary_parse_args given = checked 5 given.delay_ms given.delayed_count given.workers

unfoldable pub lag_parse_args : Given → Option Args
lag_parse_args given = checked 4 given.delay_ms given.delayed_count given.workers

-- What a wait for processes comes to: `NodeStartupError` is told from other exceptions.
pub data Startup : Type 0 where
  up startup_error other_error : Startup

-- A process that is to be started: its module, arguments, label and port.
pub record Launch : Type 0 where
  pub name : Text
  pub args : List Text
  pub label : Text
  pub port : ℕ

-- What a demonstration depends on. `general` and `number` print a delay (`:g` and `str`).
pub record Surroundings : Type 0 where
  pub spawn : Launch → Outcome SpawnedNode
  pub wait_healthy : List SpawnedNode → Startup
  pub wait_assigned : List SpawnedNode → Startup
  pub load_test : Result
  pub query_final_lag : (port : ℕ) → Outcome ℤ
  pub elapsed : ℕ
  pub generated_at : Text
  pub formats : Formats
  pub general : ℕ → Text
  pub number : ℕ → Text

-- What the `try` comes to: the nodes that `finally` stops, other processes, how it ends once
-- `except NodeStartupError` has been passed, and the results file.
pub record Attempt : Type 0 where
  pub nodes : List SpawnedNode
  pub untracked : List SpawnedNode
  pub how : Outcome (Unit {0})
  pub file : Option Text

pub record Ended : Type 0 where
  pub how : Outcome (Unit {0})
  pub file : Option Text
  pub left : List SpawnedNode

-- What was to be raised is lost if stopping raises.
abbrev pub first_of : Outcome (Unit {0}) → Outcome (Unit {0}) → Outcome (Unit {0})
first_of raised how = raised
first_of (returned u) how = how

-- The `finally`
unfoldable pub finish : Attempt → Ended
unfolding stop_all
finish attempt =
    let (stopped, stopping) = stop_all attempt.nodes in
    record {
      how = first_of stopping attempt.how;
      file = attempt.file;
      left = stopped ++ attempt.untracked;
    }

-- After a wait: the rest of the `try`, a message, or another exception
abbrev pub after_startup : List SpawnedNode → Option Text → Startup → Attempt → Attempt
after_startup nodes file up next = next
after_startup nodes file startup_error next = record {
  nodes = nodes;
  untracked = [];
  how = returned tt;
  file = file;
}
after_startup nodes file other_error next = record {
  nodes = nodes;
  untracked = [];
  how = raised;
  file = file;
}

-- `port in ports`
abbrev pub among : ℕ → List ℕ → Bool
among port [] = false
among port (p ∷ ports) = let later = among port ports in if nat_eq port p then true else later

-- `{port: await _query_final_lag(client, port) for port in ports}`, unless one of them raises; the
-- ports are distinct.
abbrev pub queried : ℕ → Outcome ℤ → Option (List (ℕ × ℤ)) → Option (List (ℕ × ℤ))
queried port raised rest = none
queried port (returned lag) none = none
queried port (returned lag) (some rest) = some ((port, lag) ∷ rest)

abbrev pub query_all : (ℕ → Outcome ℤ) → List ℕ → Option (List (ℕ × ℤ))
query_all query [] = some []
query_all query (port ∷ ports) = queried port (query port) (query_all query ports)

-- `str` of an integer
abbrev pub int_text : ℤ → Text
int_text (pos n) = decimal n
int_text (negsuc n) = codes "-" ++ decimal (suc n)

-- The cells of the table of results
abbrev pub result_cells : Surroundings → Stats → List Text
result_cells s stats =
    (s.formats.two_places (staleness_rate stats) ++ codes "%")
    ∷ decimal stats.comparable_reads
    ∷ decimal stats.stale_reads
    ∷ decimal (total_failures stats)
    ∷ (s.formats.one_place s.elapsed ++ codes "s")
    ∷ decimal stats.total_requests
    ∷ []

abbrev pub table_head : List Text
table_head =
    codes
      "| Staleness rate | Comparable reads | Stale reads | Failures | Elapsed | Total requests |"
    ∷ codes "|---|---|---|---|---|---|"
    ∷ []

-- ===== src/Reports/Whole.antt =====
-- `main` of experiments/run_comparison.py: the three sweeps, one after the other, and the reports.
use kv_replication_lab.Prelude.{Option, some, List, [], ◌++◌}
use kv_replication_lab.Prelude.Chars.{Text}
use kv_replication_lab.Common.Waiting.{Outcome, returned, raised}
use kv_replication_lab.Comparison.{SpawnedNode, ConfigOutcome, Swept}
use kv_replication_lab.Reports.{Formats, write_markdown_report, write_mq_markdown_report}
use kv_replication_lab.Reports.Printed.{print_report, print_mq_report}

-- What the script comes to: how it ends, what it has printed of the results, the results file, and
-- all the processes that it has started.
pub record Compared : Type 0 where
  pub how : Outcome (Unit {0})
  pub printed : List Text
  pub file : Option Text
  pub left : List SpawnedNode

module _ (formats : Formats) (main_time mq_time : Text) (file : Option Text) where
  -- An exception of a sweep ends the script before anything is reported.
  abbrev pub cut_short : List SpawnedNode → Compared
  cut_short left = record { how = raised; printed = []; file = file; left = left }

  abbrev pub reported :
      (main_outcomes mq_outcomes : List ConfigOutcome) → List SpawnedNode → Compared
  reported main_outcomes mq_outcomes left = record {
    how = returned tt;
    printed = print_report formats main_outcomes ++ print_mq_report formats mq_outcomes;
    file = some (
        write_mq_markdown_report formats mq_time
          (some (write_markdown_report formats main_time file main_outcomes)) mq_outcomes);
    left = left;
  }

  abbrev pub after_mq : List ConfigOutcome → List SpawnedNode → Swept → Compared
  after_mq main_outcomes left mq = elim mq.outcomes [
    | raised ↦ cut_short (left ++ mq.left)
    | returned mq_outcomes ↦ reported main_outcomes mq_outcomes (left ++ mq.left)
  ]

  abbrev pub after_leaderless : List ConfigOutcome → List SpawnedNode → Swept → Swept → Compared
  after_leaderless main_outcomes left leaderless mq = elim leaderless.outcomes [
    | raised ↦ cut_short (left ++ leaderless.left)
    | returned outcomes ↦ after_mq (main_outcomes ++ outcomes) (left ++ leaderless.left) mq
  ]

  -- `main`
  unfoldable pub comparison : (leader_follower leaderless mq : Swept) → Compared
  comparison leader_follower leaderless mq = elim leader_follower.outcomes [
    | raised ↦ cut_short leader_follower.left
    | returned outcomes ↦ after_leaderless outcomes leader_follower.left leaderless mq
  ]

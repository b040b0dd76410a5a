-- ===== src/Reports.antt =====
-- The reports of experiments/run_comparison.py: the order of the results and the lines of the two
-- sections, and what the script does from start to end.
--
-- How Python prints a floating-point number with one or two places, and the time stamp, are
-- arguments.
pub mod Notes
pub mod Printed
pub mod Rows
pub mod Plain
pub mod Whole
pub mod Complete
use kv_replication_lab.Prelude.{
  ℕ, suc, ◌*◌, String, Bool, Option, none, some, List, [], ◌∷◌, ◌++◌, map, is_empty, leb, ◌+◌,
  if◌then◌else◌,
}
use kv_replication_lab.Prelude.Chars.{Text, codes, decimal, join_lines}
use kv_replication_lab.Prelude.Sorting.{sorted_by}
use kv_replication_lab.LoadTest.Records.{Ratio}
use kv_replication_lab.Comparison.{
  ConfigResult, ConfigError, ConfigOutcome, config_result, config_error,
}
use kv_replication_lab.ResultsDoc.{results_header_marker, results_header, replace_section}
use kv_replication_lab.Reports.Notes.{methodology_notes, mq_methodology_notes}

-- `[o for o in outcomes if isinstance(o, ConfigResult)]`
unfoldable pub results_of : List ConfigOutcome → List ConfigResult
results_of [] = []
results_of (config_result r ∷ rest) = r ∷ results_of rest
results_of (config_error e ∷ rest) = results_of rest

-- `[o for o in outcomes if isinstance(o, ConfigError)]`
unfoldable pub errors_of : List ConfigOutcome → List ConfigError
errors_of [] = []
errors_of (config_result r ∷ rest) = errors_of rest
errors_of (config_error e ∷ rest) = e ∷ errors_of rest

-- `a.staleness_rate <= b.staleness_rate`
abbrev pub rate_le : ConfigResult → ConfigResult → Bool
rate_le a b =
    leb (a.staleness_rate.numerator * b.staleness_rate.denominator)
      (b.staleness_rate.numerator * a.staleness_rate.denominator)

-- `ranked`
unfoldable pub ranked : List ConfigOutcome → List ConfigResult
unfolding results_of
ranked outcomes = sorted_by rate_le (results_of outcomes)

-- How floating-point numbers are printed.
pub record Formats : Type 0 where
  pub one_place : ℕ → Text
  pub two_places : Ratio → Text

-- `enumerate(xs, start=i)`, each pair taken to a line
abbrev pub numbered : {A : Type 0} → (ℕ → A → Text) → ℕ → List A → List Text
numbered line i [] = []
numbered line i (a ∷ rest) = line i a ∷ numbered line (i + 1) rest

-- The cells of a row between bars
abbrev pub row : List Text → Text
row [] = codes "|"
row (cell ∷ rest) = codes "| " ++ (cell ++ (32 ∷ row rest))

-- `LOAD_TEST_LOG_DIR.relative_to(REPO_ROOT)`
abbrev pub load_test_log_dir : Text
load_test_log_dir = codes "experiments/output/run_comparison_load_test_logs"

-- The lines on the configurations without a result, if there are any
abbrev pub skipped : (heads : List Text) → List Text → List Text
skipped heads [] = []
skipped heads (l ∷ ls) =
    codes "" ∷ codes "### Skipped configurations" ∷ codes "" ∷ (heads ++ (l ∷ ls))

abbrev pub generated_line : Text → Text
generated_line generated_at =
    codes "Generated by `experiments/run_comparison.py` on " ++ (generated_at ++ codes ".")

-- The lines between it and the first row
abbrev pub main_head : List Text
main_head =
    codes ""
    ∷ (codes
          "Ranked by staleness rate ascending (lowest/best first). See the top-level `README.md` for what each strategy/parameter means and the hand-maintained interpretation of these numbers -- why they look the way they do. Raw per-config stale-read/failure JSONL logs: `"
        ++ (load_test_log_dir ++ codes "/`."))
    ∷ codes ""
    ∷ codes "| Rank | Strategy | Config | Staleness rate | Elapsed | Failures | Total requests |"
    ∷ codes "|---|---|---|---|---|---|---|"
    ∷ []

abbrev pub mq_head : List Text
mq_head =
    codes ""
    ∷ (codes
          "Listed in ascending load order (fewest concurrent workers first), not ranked by staleness -- see the top-level `README.md` for what this strategy's trade-off means and the hand-maintained interpretation of these numbers. Raw per-config stale-read/failure JSONL logs (including a `lag_at_stale_read` field on every stale-read event): `"
        ++ (load_test_log_dir ++ codes "/`."))
    ∷ codes ""
    ∷ codes "| Config | Staleness rate | Elapsed | Failures | Total requests |"
    ∷ codes "|---|---|---|---|---|"
    ∷ []

abbrev pub skipped_head : List Text
skipped_head = codes "| Strategy | Config | Reason |" ∷ codes "|---|---|---|" ∷ []

abbrev pub mq_skipped_head : List Text
mq_skipped_head = codes "| Config | Reason |" ∷ codes "|---|---|" ∷ []

abbrev pub error_row : ConfigError → Text
error_row e = row (e.strategy ∷ e.label ∷ e.reason ∷ [])

abbrev pub mq_error_row : ConfigError → Text
mq_error_row e = row (e.label ∷ e.reason ∷ [])

module _ (formats : Formats) where
  abbrev pub result_row : ℕ → ConfigResult → Text
  result_row i r = row (
      decimal i
      ∷ r.strategy
      ∷ r.label
      ∷ (formats.two_places r.staleness_rate ++ codes "%")
      ∷ (formats.one_place r.elapsed ++ codes "s")
      ∷ decimal r.total_failures
      ∷ decimal r.total_requests
      ∷ [])

  abbrev pub mq_result_row : ConfigResult → Text
  mq_result_row r = row (
      r.label
      ∷ (formats.two_places r.staleness_rate ++ codes "%")
      ∷ (formats.one_place r.elapsed ++ codes "s")
      ∷ decimal r.total_failures
      ∷ decimal r.total_requests
      ∷ [])

module _ (formats : Formats) (generated_at : Text) where
  -- `lines` of `_write_markdown_report`
  unfoldable pub markdown_lines : List ConfigOutcome → List Text
  unfolding ranked errors_of
  markdown_lines outcomes =
      codes "## Main sweep"
      ∷ codes ""
      ∷ generated_line generated_at
      ∷ (main_head
          ++ (numbered (result_row formats) 1 (ranked outcomes)
              ++ (skipped skipped_head (map error_row (errors_of outcomes))
                  ++ (codes "" ∷ methodology_notes ∷ []))))

  -- `lines` of `_write_mq_markdown_report`
  unfoldable pub mq_markdown_lines : List ConfigOutcome → List Text
  unfolding results_of errors_of
  mq_markdown_lines outcomes =
      codes "## Message-queue sweep"
      ∷ codes ""
      ∷ generated_line generated_at
      ∷ (mq_head
          ++ (map (mq_result_row formats) (results_of outcomes)
              ++ (skipped mq_skipped_head (map mq_error_row (errors_of outcomes))
                  ++ (codes "" ∷ mq_methodology_notes ∷ []))))

  -- `_write_markdown_report`: the file that it leaves
  unfoldable pub write_markdown_report : Option Text → List ConfigOutcome → Text
  unfolding markdown_lines
  write_markdown_report file outcomes =
      replace_section (some (replace_section file results_header_marker results_header))
        "main-sweep" (join_lines (markdown_lines outcomes))

  -- `_write_mq_markdown_report`
  unfoldable pub write_mq_markdown_report : Option Text → List ConfigOutcome → Text
  unfolding mq_markdown_lines
  write_mq_markdown_report file outcomes =
      replace_section (some (replace_section file results_header_marker results_header)) "mq-sweep"
        (join_lines (mq_markdown_lines outcomes))

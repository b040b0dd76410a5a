-- ===== src/Reports/Printed.antt =====
-- The reports that experiments/run_comparison.py prints: `_print_report` and `_print_mq_report`.
use kv_replication_lab.Prelude.{ℕ, zero, suc, ◌-◌, List, [], ◌∷◌, ◌++◌, map, length}
use kv_replication_lab.Prelude.Chars.{Text, codes, decimal}
use kv_replication_lab.Comparison.{ConfigResult, ConfigError, ConfigOutcome}
use kv_replication_lab.Reports.{Formats, numbered, ranked, results_of, errors_of}

-- `text * n` of one character
abbrev pub times : ℕ → ℕ → Text
times c zero = []
times c (suc n) = c ∷ times c n

-- `f"{text:<{width}}"`
abbrev pub field : ℕ → Text → Text
field width text = text ++ times 32 (width - length text)

-- The lines of what could not be run, if there is any
abbrev pub skipped_block : List Text → List Text
skipped_block [] = []
skipped_block (l ∷ ls) =
    codes ""
    ∷ times b'!' 92
    ∷ (codes "  "
        ++ (decimal (length (l ∷ ls))
            ++ codes " configuration(s) SKIPPED due to startup/run failures:"))
    ∷ ((l ∷ ls) ++ (times b'!' 92 ∷ []))

abbrev pub error_line : ConfigError → Text
error_line e = codes "    " ++ (field 16 (e.strategy) ++ (field 16 (e.label) ++ e.reason))

abbrev pub mq_error_line : ConfigError → Text
mq_error_line e = codes "    " ++ (field 16 (e.label) ++ e.reason)

module _ (formats : Formats) where
  abbrev pub result_line : ConfigResult → Text
  result_line r =
      field 14 (formats.two_places r.staleness_rate)
      ++ (field 13 (formats.one_place r.elapsed)
          ++ (field 10 (decimal r.total_failures) ++ field 10 (decimal r.total_requests)))

  abbrev pub ranked_line : ℕ → ConfigResult → Text
  ranked_line i r =
      field 6 (decimal i) ++ (field 16 (r.strategy) ++ (field 16 (r.label) ++ result_line r))

  -- `_print_report`
  unfoldable pub print_report : List ConfigOutcome → List Text
  unfolding ranked errors_of
  print_report outcomes =
      codes ""
      ∷ times b'=' 92
      ∷ codes "  COMBINED REPLICATION STRATEGY COMPARISON"
      ∷ codes "  (ranked by staleness rate ascending -- lowest/best first)"
      ∷ times b'=' 92
      ∷ (field 6 (codes "rank")
          ++ (field 16 (codes "strategy")
              ++ (field 16 (codes "config")
                  ++ (field 14 (codes "staleness %")
                      ++ (field 13 (codes "elapsed (s)")
                          ++ (field 10 (codes "failures") ++ field 10 (codes "requests")))))))
      ∷ times b'-' 92
      ∷ (numbered ranked_line 1 (ranked outcomes)
          ++ (times b'=' 92 ∷ skipped_block (map error_line (errors_of outcomes))))

  abbrev pub mq_line : ConfigResult → Text
  mq_line r = field 16 (r.label) ++ result_line r

  -- `_print_mq_report`
  unfoldable pub print_mq_report : List ConfigOutcome → List Text
  unfolding results_of errors_of
  print_mq_report outcomes =
      codes ""
      ∷ times b'=' 92
      ∷ codes "  MESSAGE-QUEUE SWEEP (load intensity -- not ranked against the table above)"
      ∷ times b'=' 92
      ∷ (field 16 (codes "config")
          ++ (field 14 (codes "staleness %")
              ++ (field 13 (codes "elapsed (s)")
                  ++ (field 10 (codes "failures") ++ field 10 (codes "requests")))))
      ∷ times b'-' 92
      ∷ (map mq_line (results_of outcomes)
          ++ (times b'=' 92 ∷ skipped_block (map mq_error_line (errors_of outcomes))))

-- ===== src/Tests/Reports.antt =====
-- Examples for the reports of experiments/run_comparison.py and for experiments/_results_doc.py.
use kv_replication_lab.Prelude.{
  ℕ, ◌≡◌, refl, inl, inr, String, none, some, List, [], ◌∷◌, All, keep, lookup,
}
use kv_replication_lab.Prelude.Chars.{Text, codes, Without-of_lacks}
use kv_replication_lab.Prelude.Sorting.{Ascending, same_rank, insert_by, sorted_by}
use kv_replication_lab.LoadTest.Records.{percentage}
use kv_replication_lab.Comparison.{
  ConfigResult, ConfigError, ConfigOutcome, config_result, config_error,
}
use kv_replication_lab.Comparison.Clusters.{follower_id}
use kv_replication_lab.ResultsDoc.{text_of, replace_section}
use kv_replication_lab.ResultsDoc.Search.{IsPlain}
use kv_replication_lab.ResultsDoc.Document.{render, IsPlainSection}
use kv_replication_lab.ResultsDoc.Writes.{write_all, document_after, last_content, write_all-render}
use kv_replication_lab.Reports.{Formats, rate_le, ranked, results_of}
use kv_replication_lab.Reports.Rows.{ranked-IsStable, IsShown, every_outcome-IsShown}

a-IsPlain : IsPlain "a"
a-IsPlain = record {
  no_space = Without-of_lacks 32 (codes "a") refl;
  no_angle = Without-of_lacks 60 (codes "a") refl;
}

b-IsPlain : IsPlain "b"
b-IsPlain = record {
  no_space = Without-of_lacks 32 (codes "b") refl;
  no_angle = Without-of_lacks 60 (codes "b") refl;
}

abbrev writes : List (String × Text)
writes = ("a", codes " first\n") ∷ ("b", codes "x -- > y") ∷ ("a", codes "last ") ∷ []

writes-IsPlain : All IsPlainSection writes
writes-IsPlain = (
  (a-IsPlain, Without-of_lacks 60 (codes " first\n") refl),
  (
    (b-IsPlain, Without-of_lacks 60 (codes "x -- > y") refl),
    ((a-IsPlain, Without-of_lacks 60 (codes "last ") refl), tt),
  ),
)

write_all-render_example :
    (text_of (write_all none writes) ≡ render (document_after [] writes))
    × ((k : String) → lookup k (document_after [] writes) ≡ last_content k none writes)
write_all-render_example = write_all-render writes writes-IsPlain

written :
    text_of (write_all none writes)
    ≡ codes "<!-- BEGIN:a -->\nlast\n<!-- END:a -->\n\n<!-- BEGIN:b -->\nx -- > y\n<!-- END:b -->\n"
unfolding replace_section
written = refl

-- A file with other text is kept, and a section without its end is not replaced.
unfinished :
    replace_section (some (codes "# x\n<!-- BEGIN:a -->\n\n\n")) "a" (codes "y")
    ≡ codes "# x\n<!-- BEGIN:a -->\n\n<!-- BEGIN:a -->\ny\n<!-- END:a -->\n"
unfolding replace_section
unfinished = refl

abbrev result : String → (stale comparable : ℕ) → ConfigResult
result label stale comparable = record {
  strategy = codes "leaderless";
  label = codes label;
  elapsed = 40;
  staleness_rate = percentage stale comparable;
  total_failures = 0;
  total_requests = 100;
}

abbrev lost : ConfigError
lost = record { strategy = codes "leader-follower"; label = codes "x"; reason = codes "no leader" }

abbrev noted : List ConfigOutcome
noted =
    config_result (result "p" 2 4)
    ∷ config_error lost
    ∷ config_result (result "q" 0 0)
    ∷ config_result (result "r" 3 6)
    ∷ []

-- p and r have the same rate and keep their order.
ranking : ranked noted ≡ result "q" 0 0 ∷ result "p" 2 4 ∷ result "r" 3 6 ∷ []
unfolding ranked results_of sorted_by insert_by
ranking = refl

ranked-IsStable_example :
    Ascending rate_le (ranked noted)
    × ((r : ConfigResult)
        → keep (same_rank rate_le r) (ranked noted) ≡ keep (same_rank rate_le r) (results_of noted))
ranked-IsStable_example = ranked-IsStable noted

abbrev formats : Formats
formats = record { one_place = λ n. codes "1.0"; two_places = λ r. codes "0.50" }

every_outcome-IsShown_example : IsShown formats (codes "now") noted (config_error lost)
every_outcome-IsShown_example =
    every_outcome-IsShown formats (codes "now") noted (config_error lost) (inr (inl refl))

abbrev busiest : ℕ
busiest = 5

abbrev third : ℕ
third = 3

id_of_third : follower_id busiest third ≡ codes "follower3_workers_5"
unfolding follower_id
id_of_third = refl

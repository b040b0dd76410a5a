-- ===== src/Reports/Plain.antt =====
-- Without a `<` in what goes into the reports of experiments/run_comparison.py there is none in
-- their sections.
use kv_replication_lab.Prelude.{
  ℕ, zero, suc, ◌+◌, ◌/◌, ◌%◌, ◌≡◌, refl, true, false, List, [], ◌∷◌, ◌++◌, map, arith, All,
  All-append, All-map, Bool, ltb, if◌then◌else◌, if_cases,
}
use kv_replication_lab.Prelude.Chars.{
  Text, codes, decimal, decimal_in, join_lines, Without, Without-append, Without-of_lacks, lacks,
}
use kv_replication_lab.Prelude.Sorting.{insert_by, sorted_by}
use kv_replication_lab.LoadTest.Records.{Ratio}
use kv_replication_lab.Comparison.{
  ConfigResult, ConfigError, ConfigOutcome, config_result, config_error,
}
use kv_replication_lab.Reports.{
  Formats, rate_le, ranked, results_of, errors_of, numbered, row, result_row, error_row,
  mq_result_row, mq_error_row, skipped, skipped_head, mq_skipped_head, main_head, mq_head,
  generated_line, markdown_lines, mq_markdown_lines,
}
use kv_replication_lab.Reports.Notes.{methodology_notes, mq_methodology_notes}

abbrev pub Plain : Text → Type 0
Plain = Without 60

-- The names of a configuration, and the text of its exception
abbrev pub IsPlainOutcome : ConfigOutcome → Type 0
IsPlainOutcome (config_result r) = Plain (r.strategy) × Plain (r.label)
IsPlainOutcome (config_error e) = Plain (e.strategy) × Plain (e.label) × Plain (e.reason)

pub record IsPlainFormats (formats : Formats) : Type 0 where
  pub one_place : (n : ℕ) → Plain (formats.one_place n)
  pub two_places : (r : Ratio) → Plain (formats.two_places r)

digit-Plain : (d : ℕ) → (Plain ((48 + (d % 10)) ∷ []))
digit-Plain d = (ground arith, tt)

decimal_in-Plain : (f n : ℕ) → Plain (decimal_in f n)
decimal_in-Plain zero n = tt
decimal_in-Plain (suc f) n =
    if_cases Plain (ltb n 10) _ _ (λ small. (ground (arith, small), tt))
      (λ large. Without-append 60 _ _ (decimal_in-Plain f (n / 10)) (digit-Plain n))

decimal-Plain : (n : ℕ) → Plain (decimal n)
decimal-Plain n = decimal_in-Plain (suc n) n

row-Plain : (cells : List Text) → All Plain cells → Plain (row cells)
row-Plain [] h = Without-of_lacks 60 (codes "|") refl
row-Plain (c ∷ cells) (h, hs) = (refl, (refl, Without-append 60 c _ h (refl, row-Plain cells hs)))

join_lines-Plain : (ls : List Text) → All Plain ls → Plain (join_lines ls)
join_lines-Plain [] h = tt
join_lines-Plain (l ∷ []) (h, hs) = h
join_lines-Plain (l ∷ (m ∷ ls)) (h, hs) =
    Without-append 60 l _ h (refl, join_lines-Plain (m ∷ ls) hs)

abbrev IsPlainResult : ConfigResult → Type 0
IsPlainResult r = IsPlainOutcome (config_result r)

abbrev IsPlainError : ConfigError → Type 0
IsPlainError e = IsPlainOutcome (config_error e)

results_of-Plain :
    (os : List ConfigOutcome) → All IsPlainOutcome os → All IsPlainResult (results_of os)
unfolding results_of
results_of-Plain [] h = tt
results_of-Plain (config_result r ∷ os) (h, hs) = (h, results_of-Plain os hs)
results_of-Plain (config_error e ∷ os) (h, hs) = results_of-Plain os hs

errors_of-Plain :
    (os : List ConfigOutcome) → All IsPlainOutcome os → All IsPlainError (errors_of os)
unfolding errors_of
errors_of-Plain [] h = tt
errors_of-Plain (config_error r ∷ os) (h, hs) = (h, errors_of-Plain os hs)
errors_of-Plain (config_result e ∷ os) (h, hs) = errors_of-Plain os hs

insert_by-All :
    {A : Type 0} (P : A → Type 0) (le : A → A → Bool) (x : A) (ys : List A)
    → P x
    → All P ys
    → All P (insert_by le x ys)
unfolding insert_by
insert_by-All P le x [] p ps = (p, tt)
insert_by-All P le x (y ∷ ys) p (q, qs) =
    if_cases (All P) (le x y) _ _ (λ h. (p, (q, qs))) (λ h. (q, insert_by-All P le x ys p qs))

sorted_by-All :
    {A : Type 0} (P : A → Type 0) (le : A → A → Bool) (xs : List A)
    → All P xs
    → All P (sorted_by le xs)
unfolding sorted_by
sorted_by-All P le [] h = tt
sorted_by-All P le (x ∷ xs) (h, hs) = insert_by-All P le x _ h (sorted_by-All P le xs hs)

ranked-Plain : (os : List ConfigOutcome) → All IsPlainOutcome os → All IsPlainResult (ranked os)
unfolding ranked
ranked-Plain os h = sorted_by-All IsPlainResult rate_le (results_of os) (results_of-Plain os h)

skipped-Plain :
    (heads ls : List Text) → All Plain heads → All Plain ls → All Plain (skipped heads ls)
skipped-Plain heads [] h k = tt
skipped-Plain heads (l ∷ ls) h k = (
  tt,
  (
    Without-of_lacks 60 (codes "### Skipped configurations") refl,
    (tt, All-append Plain heads (l ∷ ls) h k),
  ),
)

error_row-Plain : (e : ConfigError) → IsPlainError e → Plain (error_row e)
error_row-Plain e (s, l, r) = row-Plain (e.strategy ∷ e.label ∷ e.reason ∷ []) (s, (l, (r, tt)))

mq_error_row-Plain : (e : ConfigError) → IsPlainError e → Plain (mq_error_row e)
mq_error_row-Plain e (s, l, r) = row-Plain (e.label ∷ e.reason ∷ []) (l, (r, tt))

-- The same for lines that are written out.
abbrev all_lack : List Text → Bool
all_lack [] = true
all_lack (l ∷ ls) = let rest = all_lack ls in if lacks 60 l then rest else false

Plain-of_lacks : (ls : List Text) → all_lack ls ≡ true → All Plain ls
Plain-of_lacks [] h = tt
Plain-of_lacks (l ∷ ls) h = ground (arith, Without-of_lacks 60 l, Plain-of_lacks ls)

generated_line-Plain : (at : Text) → Plain at → Plain (generated_line at)
generated_line-Plain at h =
    Without-append 60 (codes "Generated by `experiments/run_comparison.py` on ") (at ++ codes ".")
      (Without-of_lacks 60 (codes "Generated by `experiments/run_comparison.py` on ") refl)
      (Without-append 60 at (codes ".") h (refl, tt))

module _ (formats : Formats) (hf : IsPlainFormats formats) where
  abbrev rate_cell : ConfigResult → Text
  rate_cell r = formats.two_places r.staleness_rate ++ codes "%"

  abbrev time_cell : ConfigResult → Text
  time_cell r = formats.one_place r.elapsed ++ codes "s"

  abbrev cells : ConfigResult → List Text
  cells r = rate_cell r ∷ time_cell r ∷ decimal r.total_failures ∷ decimal r.total_requests ∷ []

  cells-Plain : (r : ConfigResult) → All Plain (cells r)
  cells-Plain r = (
    Without-append 60 (formats.two_places r.staleness_rate) (codes "%")
        (hf.two_places r.staleness_rate) (refl, tt),
    (
      Without-append 60 (formats.one_place r.elapsed) (codes "s") (hf.one_place r.elapsed)
          (refl, tt),
      (decimal-Plain r.total_failures, (decimal-Plain r.total_requests, tt)),
    ),
  )

  result_row-Plain : (i : ℕ) (r : ConfigResult) → IsPlainResult r → Plain (result_row formats i r)
  result_row-Plain i r (s, l) =
      row-Plain (decimal i ∷ r.strategy ∷ r.label ∷ cells r)
        (decimal-Plain i, (s, (l, cells-Plain r)))

  mq_result_row-Plain : (r : ConfigResult) → IsPlainResult r → Plain (mq_result_row formats r)
  mq_result_row-Plain r (s, l) = row-Plain (r.label ∷ cells r) (l, cells-Plain r)

  numbered-Plain :
      (i : ℕ) (rs : List ConfigResult)
      → All IsPlainResult rs
      → All Plain (numbered (result_row formats) i rs)
  numbered-Plain i [] h = tt
  numbered-Plain i (r ∷ rs) (h, hs) = (result_row-Plain i r h, numbered-Plain (i + 1) rs hs)

  module _ (generated_at : Text) (hg : Plain generated_at) (os : List ConfigOutcome)
      (hos : All IsPlainOutcome os) where
    pub markdown_lines-Plain : Plain (join_lines (markdown_lines formats generated_at os))
    unfolding markdown_lines
    markdown_lines-Plain = join_lines-Plain (markdown_lines formats generated_at os) (
      Without-of_lacks 60 (codes "## Main sweep") refl,
      (
        tt,
        (
          generated_line-Plain generated_at hg,
          All-append Plain main_head _ (Plain-of_lacks main_head refl) (
              All-append Plain (numbered (result_row formats) 1 (ranked os)) _
                (numbered-Plain 1 (ranked os) (ranked-Plain os hos))
                (All-append Plain (skipped skipped_head (map error_row (errors_of os))) _
                  (skipped-Plain skipped_head (map error_row (errors_of os))
                    (Plain-of_lacks skipped_head refl)
                    (All-map Plain IsPlainError error_row error_row-Plain (errors_of os)
                      (errors_of-Plain os hos)))
                  (Plain-of_lacks (codes "" ∷ methodology_notes ∷ []) refl))),
        ),
      ),
    )

    pub mq_markdown_lines-Plain : Plain (join_lines (mq_markdown_lines formats generated_at os))
    unfolding mq_markdown_lines
    mq_markdown_lines-Plain = join_lines-Plain (mq_markdown_lines formats generated_at os) (
      Without-of_lacks 60 (codes "## Message-queue sweep") refl,
      (
        tt,
        (
          generated_line-Plain generated_at hg,
          All-append Plain mq_head _ (Plain-of_lacks mq_head refl) (
              All-append Plain (map (mq_result_row formats) (results_of os)) _
                (All-map Plain IsPlainResult (mq_result_row formats) mq_result_row-Plain
                  (results_of os) (results_of-Plain os hos))
                (All-append Plain (skipped mq_skipped_head (map mq_error_row (errors_of os))) _
                  (skipped-Plain mq_skipped_head (map mq_error_row (errors_of os))
                    (Plain-of_lacks mq_skipped_head refl)
                    (All-map Plain IsPlainError mq_error_row mq_error_row-Plain (errors_of os)
                      (errors_of-Plain os hos)))
                  (Plain-of_lacks (codes "" ∷ mq_methodology_notes ∷ []) refl))),
        ),
      ),
    )

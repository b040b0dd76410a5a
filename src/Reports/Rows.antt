-- ===== src/Reports/Rows.antt =====
-- What the reports of experiments/run_comparison.py show: the ranking, and every outcome.
use native.Mathlib.Nat.{mul_comm, mul_assoc, mul-le-mul_right, le_of_mul-le-mul_right}
use kv_replication_lab.Prelude.{
  ℕ, zero, suc, drop, ◌+◌, ◌*◌, ◌≤◌, ◌<◌, ◌≡◌, ap, sym, subst, ◌∙◌, inl, inr, true, false, List, [],
  ◌∷◌, map, arith, leb, In, In-map, In-append_left, In-append_right, In-keep, In-keep_of, keep,
}
use kv_replication_lab.Prelude.Chars.{Text, codes}
use kv_replication_lab.Prelude.Sorting.{Ascending, same_rank, sorted_by-IsStable}
use kv_replication_lab.Comparison.{
  ConfigResult, ConfigError, ConfigOutcome, config_result, config_error,
}
use kv_replication_lab.Reports.{
  rate_le, ranked, results_of, errors_of, numbered, Formats, result_row, error_row, skipped,
  skipped_head, markdown_lines,
}
use kv_replication_lab.Reports.Notes.{methodology_notes}
use kv_replication_lab.Reports.Printed.{ranked_line, error_line, skipped_block, print_report}

-- Crossed products compare fractions.
cross_trans : (a b c d e f : ℕ) → 0 < d → a * d ≤ c * b → c * f ≤ e * d → a * f ≤ e * b
cross_trans a b c d e f h p q =
    le_of_mul-le-mul_right {k = d}
      (omega (
        arith,
        mul-le-mul_right f p,
        mul-le-mul_right b q,
        right_comm a d f,
        right_comm c b f,
        right_comm e d b,
      ))
      h
  where
    right_comm : (m n k : ℕ) → m * n * k ≡ m * k * n
    right_comm m n k = mul_assoc m n k ∙ ap (λ t. m * t) (mul_comm n k) ∙ sym (mul_assoc m k n)

rate_le_total : (x y : ConfigResult) → rate_le x y ≡ false → rate_le y x ≡ true
rate_le_total x y h = ground arith

leb-le : (m n : ℕ) → leb m n ≡ true → m ≤ n
leb-le m n h = ground arith

le-leb : (m n : ℕ) → m ≤ n → leb m n ≡ true
le-leb m n h = ground arith

rate_le_trans :
    (x y z : ConfigResult) → rate_le x y ≡ true → rate_le y z ≡ true → rate_le x z ≡ true
rate_le_trans x y z h k = le-leb _ _ (
    cross_trans x.staleness_rate.numerator x.staleness_rate.denominator y.staleness_rate.numerator
      y.staleness_rate.denominator z.staleness_rate.numerator z.staleness_rate.denominator
      y.staleness_rate.denominator_pos (leb-le _ _ h) (leb-le _ _ k))

-- The results are listed by rising staleness rate, and those of one rate are the same, and in the
-- same order, as in the sweep.
pub ranked-IsStable :
    (outcomes : List ConfigOutcome)
    → Ascending rate_le (ranked outcomes)
      × ((r : ConfigResult)
          → keep (same_rank rate_le r) (ranked outcomes)
            ≡ keep (same_rank rate_le r) (results_of outcomes))
unfolding ranked
ranked-IsStable outcomes =
    sorted_by-IsStable rate_le rate_le_total rate_le_trans (results_of outcomes)

In-ranked :
    (r : ConfigResult) (outcomes : List ConfigOutcome)
    → In r (results_of outcomes)
    → In r (ranked outcomes)
In-ranked r outcomes there =
    (In-keep (same_rank rate_le r) r (ranked outcomes) (
      subst (In r) (sym ((ranked-IsStable outcomes).1 r))
        (In-keep_of (same_rank rate_le r) r (results_of outcomes) there (ground arith)))).0

In-results_of :
    (r : ConfigResult) (outcomes : List ConfigOutcome)
    → In (config_result r) outcomes
    → In r (results_of outcomes)
unfolding results_of
In-results_of r [] there = elim there [ ]
In-results_of r (config_result s ∷ rest) (inl e) = inl (same e)
  where
    same : config_result r ≡ config_result s → r ≡ s
    same e = ap (λ o. elim o [ config_result a ↦ a | config_error b ↦ s ]) e
In-results_of r (config_result s ∷ rest) (inr m) = inr (In-results_of r rest m)
In-results_of r (config_error s ∷ rest) (inl e) = cc e
In-results_of r (config_error s ∷ rest) (inr m) = In-results_of r rest m

In-errors_of :
    (r : ConfigError) (outcomes : List ConfigOutcome)
    → In (config_error r) outcomes
    → In r (errors_of outcomes)
unfolding errors_of
In-errors_of r [] there = elim there [ ]
In-errors_of r (config_error s ∷ rest) (inl e) = inl (same e)
  where
    same : config_error r ≡ config_error s → r ≡ s
    same e = ap (λ o. elim o [ config_result a ↦ s | config_error b ↦ b ]) e
In-errors_of r (config_error s ∷ rest) (inr m) = inr (In-errors_of r rest m)
In-errors_of r (config_result s ∷ rest) (inl e) = cc e
In-errors_of r (config_result s ∷ rest) (inr m) = In-errors_of r rest m

-- The place of a row is its number, in whatever way rows are printed.
In-numbered :
    {A : Type 0} (a : A) (i : ℕ) (xs : List A)
    → In a xs
    → (n : ℕ) × ((line : ℕ → A → Text) → In (line n a) (numbered line i xs))
In-numbered a i [] there = elim there [ ]
In-numbered a i (x ∷ xs) (inl e) = (i, λ line. inl (ap (line i) e))
In-numbered a i (x ∷ xs) (inr m) =
    let (n, shown) = In-numbered a (i + 1) xs m in (n, λ line. inr (shown line))

In-drop : (l : Text) (n : ℕ) (ls : List Text) → In l (drop n ls) → In l ls
In-drop l zero ls there = there
In-drop l (suc n) [] there = there
In-drop l (suc n) (x ∷ ls) there = inr (In-drop l n ls there)

In-skipped : (heads : List Text) (l : Text) (ls : List Text) → In l ls → In l (skipped heads ls)
In-skipped heads l [] there = elim there [ ]
In-skipped heads l (x ∷ ls) there = inr (inr (inr (In-append_right l heads (x ∷ ls) there)))

In-skipped_block : (l : Text) (ls : List Text) → In l ls → In l (skipped_block ls)
In-skipped_block l [] there = elim there [ ]
In-skipped_block l (x ∷ ls) there = inr (inr (inr (In-append_left l (x ∷ ls) _ there)))

module _ (formats : Formats) (generated_at : Text) (outcomes : List ConfigOutcome) where
  -- An outcome is in the printed report and in the written one; a result has one rank in both.
  abbrev pub IsShown : ConfigOutcome → Type 0
  IsShown (config_result r) =
      (i : ℕ) × In (result_row formats i r) (markdown_lines formats generated_at outcomes)
      × In (ranked_line formats i r) (print_report formats outcomes)
  IsShown (config_error e) =
      In (error_row e) (markdown_lines formats generated_at outcomes)
      × In (error_line e) (print_report formats outcomes)

  -- Each outcome of the main sweep has its row in the section that is written and its line in what
  -- is printed, a result under the same rank in both.
  pub every_outcome-IsShown : (o : ConfigOutcome) → In o outcomes → IsShown o
  unfolding markdown_lines print_report
  every_outcome-IsShown (config_result r) there =
      let (i, shown) =
        In-numbered r 1 (ranked outcomes) (In-ranked r outcomes (In-results_of r outcomes there)) in
      (
        i,
        In-drop _ 8 (markdown_lines formats generated_at outcomes)
            (In-append_left _ _ _ (shown (result_row formats))),
        In-drop _ 7 (print_report formats outcomes)
            (In-append_left _ _ _ (shown (ranked_line formats))),
      )
  every_outcome-IsShown (config_error e) there =
      let found = In-errors_of e outcomes there in
      (
        In-drop _ 8 (markdown_lines formats generated_at outcomes) (
            In-append_right _ (numbered (result_row formats) 1 (ranked outcomes)) _ (
              In-append_left (error_row e)
                (skipped skipped_head (map error_row (errors_of outcomes)))
                (codes "" ∷ methodology_notes ∷ [])
                (In-skipped skipped_head (error_row e) _ (In-map error_row e _ found)))),
        In-drop _ 7 (print_report formats outcomes) (
            In-append_right _ (numbered (ranked_line formats) 1 (ranked outcomes)) _
              (inr (In-skipped_block _ _ (In-map error_line e _ found)))),
      )

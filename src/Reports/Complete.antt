-- ===== src/Reports/Complete.antt =====
-- What a run of experiments/run_comparison.py comes to if every configuration can be run to an end.
use kv_replication_lab.Prelude.{
  ◌≡◌, ◌≢◌, refl, ap, sym, subst, ◌∙◌, arith, eq_iff, true, String, Option, some, List, [], ◌∷◌,
  ◌++◌, All, All-append, map, lookup,
}
use kv_replication_lab.Prelude.Chars.{Text, codes, join_lines, Without-of_lacks, lacks, strip}
use kv_replication_lab.Common.Waiting.{returned}
use kv_replication_lab.Comparison.{SpawnedNode, ConfigOutcome, Swept, Description, Tried, sweep}
use kv_replication_lab.Comparison.Sweeps.{HasExited, IsOrderly, note, sweep_complete}
use kv_replication_lab.Reports.{
  Formats, markdown_lines, mq_markdown_lines, write_markdown_report, write_mq_markdown_report,
}
use kv_replication_lab.Reports.Plain.{
  Plain, IsPlainOutcome, IsPlainFormats, markdown_lines-Plain, mq_markdown_lines-Plain,
}
use kv_replication_lab.ResultsDoc.{text_of, results_header, results_header_marker}
use kv_replication_lab.ResultsDoc.Search.{IsPlain}
use kv_replication_lab.ResultsDoc.Document.{Document, render, IsPlainSection}
use kv_replication_lab.ResultsDoc.Writes.{
  document_after, last_content, render_after, lookup-document_after,
}
use kv_replication_lab.Reports.Whole.{Compared, reported, comparison}

abbrev pub main_section : Formats → Text → List ConfigOutcome → Text
main_section formats at outcomes = join_lines (markdown_lines formats at outcomes)

abbrev pub mq_section : Formats → Text → List ConfigOutcome → Text
mq_section formats at outcomes = join_lines (mq_markdown_lines formats at outcomes)

-- The calls of `replace_section` that a whole run makes
abbrev pub section_writes :
    Formats
    → (main_time mq_time : Text) → (main_outcomes mq_outcomes : List ConfigOutcome)
    → List (String × Text)
section_writes formats main_time mq_time main_outcomes mq_outcomes =
    (results_header_marker, results_header)
    ∷ ("main-sweep", main_section formats main_time main_outcomes)
    ∷ (results_header_marker, results_header)
    ∷ ("mq-sweep", mq_section formats mq_time mq_outcomes)
    ∷ []

marker-IsPlain : (m : String) → lacks 32 (codes m) ≡ true → lacks 60 (codes m) ≡ true → IsPlain m
marker-IsPlain m h k = record {
  no_space = Without-of_lacks 32 (codes m) h;
  no_angle = Without-of_lacks 60 (codes m) k;
}

header-Plain : Plain results_header
header-Plain = Without-of_lacks 60 results_header refl

module _ (formats : Formats) (hf : IsPlainFormats formats) (main_time mq_time : Text)
    (main_plain : Plain main_time) (mq_plain : Plain mq_time) where
  section_writes-Plain :
      (a b : List ConfigOutcome)
      → All IsPlainOutcome a
      → All IsPlainOutcome b
      → All IsPlainSection (section_writes formats main_time mq_time a b)
  section_writes-Plain a b ha hb = (
    (marker-IsPlain "header" refl refl, header-Plain),
    (
      (
        marker-IsPlain "main-sweep" refl refl,
        markdown_lines-Plain formats hf main_time main_plain a ha,
      ),
      (
        (marker-IsPlain "header" refl refl, header-Plain),
        (
          (
            marker-IsPlain "mq-sweep" refl refl,
            mq_markdown_lines-Plain formats hf mq_time mq_plain b hb,
          ),
          tt,
        ),
      ),
    ),
  )

  reported-render :
      (file : Option Text) (d : Document) (a b : List ConfigOutcome) (left : List SpawnedNode)
      → All IsPlainOutcome a
      → All IsPlainOutcome b
      → All IsPlainSection d
      → text_of file ≡ render d
      → text_of (reported formats main_time mq_time file a b left).file
        ≡ render (document_after d (section_writes formats main_time mq_time a b))
  unfolding write_markdown_report write_mq_markdown_report
  reported-render file d a b left ha hb plain shows =
      render_after (section_writes formats main_time mq_time a b) file d
        (section_writes-Plain a b ha hb) plain shows

comparison-returned :
    (formats : Formats) (main_time mq_time : Text) (file : Option Text) (x y z : Swept)
    (a b c : List ConfigOutcome)
    → x.outcomes ≡ returned a
    → y.outcomes ≡ returned b
    → z.outcomes ≡ returned c
    → comparison formats main_time mq_time file x y z
      ≡ reported formats main_time mq_time file (a ++ b) c ((x.left ++ y.left) ++ z.left)
unfolding comparison
comparison-returned formats main_time mq_time file x y z a b c h k l = rw (h, k, l) refl

untouched :
    (formats : Formats) (main_time mq_time : Text) (a b : List ConfigOutcome) (held : Option Text)
    (k : String)
    → k ≢ "header"
    → k ≢ "main-sweep"
    → k ≢ "mq-sweep"
    → last_content k held (section_writes formats main_time mq_time a b) ≡ held
untouched formats main_time mq_time a b held k no_header no_main no_mq =
    ground (arith, eq_iff "header" k, eq_iff "main-sweep" k, eq_iff "mq-sweep" k)

-- What a sweep over orderly configurations comes to.
abbrev pub outcomes_of :
    {A : Type 0} → (A → Description) → (A → Tried) → List A → List ConfigOutcome
outcomes_of describe attempt cs = map (λ c. note (describe c) (attempt c).result) cs

module _ {A B C : Type 0} (describe_a : A → Description) (attempt_a : A → Tried)
    (describe_b : B → Description) (attempt_b : B → Tried) (describe_c : C → Description)
    (attempt_c : C → Tried) where
  -- A whole run over orderly configurations, none of whose names and exceptions has a `<` in it.
  pub record IsOrderlyRun (as' : List A) (bs : List B) (cs : List C) : Type 0 where
    pub leader_follower : All (IsOrderly describe_a attempt_a) as'
    pub leaderless : All (IsOrderly describe_b attempt_b) bs
    pub mq : All (IsOrderly describe_c attempt_c) cs
    pub main_plain :
        All IsPlainOutcome
          (outcomes_of describe_a attempt_a as' ++ outcomes_of describe_b attempt_b bs)
    pub mq_plain : All IsPlainOutcome (outcomes_of describe_c attempt_c cs)

  module _ (formats : Formats) (hf : IsPlainFormats formats) (main_time mq_time : Text)
      (main_plain : Plain main_time) (mq_plain : Plain mq_time) (file : Option Text) where
    -- If all configurations are orderly, the script ends without an exception, leaves no process
    -- running, and turns a results file that shows a document into one that shows the document
    -- with two sections rewritten: the main sweep, over the outcomes of the leader-follower and the
    -- leaderless configurations, and the message-queue sweep. Apart from these two and the header,
    -- no section changes.
    --
    -- No name, exception text, number or time that is printed has a `<`, and the document has only
    -- markers without `<` and spaces and bodies without `<`.
    pub comparison_complete :
        (as' : List A) (bs : List B) (cs : List C)
        → IsOrderlyRun as' bs cs
        → (d : Document) → All IsPlainSection d
        → text_of file ≡ render d
        → let main_outcomes =
            outcomes_of describe_a attempt_a as' ++ outcomes_of describe_b attempt_b bs in
          let mq_outcomes = outcomes_of describe_c attempt_c cs in
          let run =
            comparison formats main_time mq_time file
              (sweep describe_a attempt_a as')
              (sweep describe_b attempt_b bs)
              (sweep describe_c attempt_c cs) in
          let after =
            document_after d (section_writes formats main_time mq_time main_outcomes mq_outcomes) in
          (run.how ≡ returned tt)
          × All HasExited run.left
          × (text_of run.file ≡ render after)
          × (lookup "main-sweep" after
              ≡ some (strip (main_section formats main_time main_outcomes)))
          × (lookup "mq-sweep" after ≡ some (strip (mq_section formats mq_time mq_outcomes)))
          × ((k : String)
              → k ≢ "header"
              → k ≢ "main-sweep"
              → k ≢ "mq-sweep"
              → lookup k after ≡ lookup k d)
    unfolding comparison
    comparison_complete as' bs cs orderly d plain shows =
        let x = sweep describe_a attempt_a as' in
        let y = sweep describe_b attempt_b bs in
        let z = sweep describe_c attempt_c cs in
        let a = outcomes_of describe_a attempt_a as' in
        let b = outcomes_of describe_b attempt_b bs in
        let c = outcomes_of describe_c attempt_c cs in
        let writes = section_writes formats main_time mq_time (a ++ b) c in
        let (a_noted, a_gone) = sweep_complete describe_a attempt_a as' orderly.leader_follower in
        let (b_noted, b_gone) = sweep_complete describe_b attempt_b bs orderly.leaderless in
        let (c_noted, c_gone) = sweep_complete describe_c attempt_c cs orderly.mq in
        let same =
          comparison-returned formats main_time mq_time file x y z a b c a_noted b_noted c_noted in
        (
          ap (λ (r : Compared). r.how) same,
          subst (λ (r : Compared). All HasExited r.left) (sym same)
              (All-append HasExited (x.left ++ y.left) z.left
                (All-append HasExited x.left y.left a_gone b_gone) c_gone),
          ap (λ (r : Compared). text_of r.file) same
              ∙ reported-render formats hf main_time mq_time main_plain mq_plain file d (a ++ b) c
                  ((x.left ++ y.left) ++ z.left) orderly.main_plain orderly.mq_plain plain shows,
          lookup-document_after "main-sweep" d writes,
          lookup-document_after "mq-sweep" d writes,
          λ k h m q.
              lookup-document_after k d writes
              ∙ untouched formats main_time mq_time (a ++ b) c (lookup k d) k h m q,
        )

-- ===== src/Tests/Sweep.antt =====
-- Examples for experiments/run_comparison.py.
use kv_replication_lab.Prelude.{
  ℕ, ◌+◌, ◌<◌, ◌≡◌, ◌≢◌, refl, inl, inr, ◌⊎◌, Bool, true, false, String, some, List, [], ◌∷◌, ◌++◌,
  All, map, lookup, arith, ltb, if◌then◌else◌,
}
use kv_replication_lab.Prelude.Chars.{Text, codes, lacks, strip, Without-of_lacks}
use kv_replication_lab.ResultsDoc.{text_of}
use kv_replication_lab.ResultsDoc.Search.{IsPlain}
use kv_replication_lab.ResultsDoc.Document.{Document, render, IsPlainSection}
use kv_replication_lab.ResultsDoc.Writes.{document_after}
use kv_replication_lab.Reports.{Formats}
use kv_replication_lab.Reports.Plain.{Plain, IsPlainOutcome, IsPlainFormats}
use kv_replication_lab.Reports.Whole.{Compared, comparison}
use kv_replication_lab.Reports.Complete.{
  main_section, mq_section, section_writes, outcomes_of, IsOrderlyRun, comparison_complete,
}
use kv_replication_lab.Common.Waiting.{Outcome, returned, raised}
use kv_replication_lab.Comparison.{
  SpawnedNode, Process, ConfigOutcome, config_error, error_of, Description, Tried, spawn_each,
  leader_follower_config, mq_config, sweep,
}
use kv_replication_lab.Comparison.Sweeps.{
  HasExited, IsOrderly, note, sweep_complete, sweep_raises, every_node_tracked, mq_followers_left,
}
use kv_replication_lab.Comparison.Waits.{
  Probe, ready, not_ready, Waited, wait_until_ready, wait_until_ready_total,
}
use kv_replication_lab.LoadTest.Records.{new_stats}
use kv_replication_lab.LoadTest.Runs.{completed, failed}

abbrev node : (exits_on_terminate exits_on_kill : Bool) → SpawnedNode
node terminates dies = record {
  label = codes "n";
  host = codes "a";
  port = 1;
  log_path = codes "n.log";
  proc = record { has_exited = false; exits_on_terminate = terminates; exits_on_kill = dies };
}

abbrev slow : SpawnedNode
slow = node false true

-- A node that is ready from the second round on.
abbrev probes : ℕ → SpawnedNode → Probe
probes round n = if ltb 1 round then ready else not_ready

abbrev clock : ℕ → ℕ
clock round = round

clock-ticks : (i : ℕ) → clock i < clock (i + 1)
clock-ticks i = omega arith

waited : wait_until_ready probes clock 3 4 (slow ∷ []) ≡ some (returned tt)
unfolding wait_until_ready kv_replication_lab.Comparison.Waits.wait_loop
waited = refl

wait_until_ready_total_example :
    Waited probes clock clock-ticks 3 (slow ∷ []) (wait_until_ready probes clock 3 4 (slow ∷ []))
wait_until_ready_total_example = wait_until_ready_total probes clock clock-ticks 3 (slow ∷ [])

abbrev healthy : List SpawnedNode → Outcome (Unit {0})
healthy nodes = returned tt

abbrev quick : SpawnedNode
quick = node true true

-- The followers start, and the leader does for one of the two configurations.
abbrev attempt : Bool → Tried
attempt leader_starts =
    leader_follower_config (returned quick ∷ returned slow ∷ [])
      (if leader_starts then returned quick else raised) healthy (completed new_stats)

abbrev described : String → Description
described label = record {
  strategy = codes "leader-follower";
  label = codes label;
  elapsed = 12;
  reason = codes "no leader";
}

abbrev describe : Bool → Description
describe leader_starts = described (if leader_starts then "ack_required=0" else "ack_required=1")

with_leader : IsOrderly describe attempt true
unfolding leader_follower_config
with_leader = record {
  no_exit = λ h. cc;
  stops = (inr (inl refl), (inr (inr refl), (inr (inl refl), tt)));
  tracked =
      (every_node_tracked (returned quick ∷ returned slow ∷ []) healthy (completed new_stats)
        (returned quick)).0;
}

without_leader : IsOrderly describe attempt false
unfolding leader_follower_config
without_leader = record {
  no_exit = λ h. cc;
  stops = (inr (inl refl), (inr (inr refl), tt));
  tracked =
      (every_node_tracked (returned quick ∷ returned slow ∷ []) healthy (completed new_stats)
        raised).0;
}

sweep_complete_example :
    ((sweep describe attempt (true ∷ false ∷ [])).outcomes
      ≡ returned (map (λ c. note (describe c) (attempt c).result) (true ∷ false ∷ [])))
    × All HasExited (sweep describe attempt (true ∷ false ∷ [])).left
sweep_complete_example =
    sweep_complete describe attempt (true ∷ false ∷ []) (with_leader, (without_leader, tt))

abbrev stuck : SpawnedNode
stuck = node false false

abbrev with_stuck : Bool → Tried
with_stuck c = record { nodes = stuck ∷ []; untracked = []; result = failed }

sweep_raises_example : (sweep describe with_stuck (true ∷ false ∷ [])).outcomes ≡ raised
sweep_raises_example =
    sweep_raises describe with_stuck (true ∷ false ∷ []) false (inr (inl refl))
      (inr (stuck, inl refl, λ h. not_stopped h))
  where
    not_stopped : ¬ ((false ≡ true) ⊎ ((false ≡ true) ⊎ (false ≡ true)))
    not_stopped (inl a) = cc a
    not_stopped (inr (inl a)) = cc a
    not_stopped (inr (inr a)) = cc a

mq_followers_left_example :
    ((sweep {A = Description}
        (λ l. l)
        (λ l.
          mq_config
            (returned tt)
            (returned slow ∷ raised ∷ returned quick ∷ [])
            (returned quick)
            healthy
            healthy
            failed)
        (described "workers=1" ∷ [])).outcomes
      ≡ returned (config_error (error_of (described "workers=1")) ∷ []))
    × ((sweep {A = Description}
          (λ l. l)
          (λ l.
            mq_config
              (returned tt)
              (returned slow ∷ raised ∷ returned quick ∷ [])
              (returned quick)
              healthy
              healthy
              failed)
          (described "workers=1" ∷ [])).left
        ≡ slow ∷ [])
mq_followers_left_example =
    mq_followers_left (slow ∷ []) (returned quick ∷ []) (returned quick) healthy healthy failed
      (described "workers=1")

abbrev formats : Formats
formats = record { one_place = λ n. codes "1.2"; two_places = λ r. codes "0.00" }

formats-IsPlainFormats : IsPlainFormats formats
formats-IsPlainFormats = record {
  one_place = λ n. Without-of_lacks 60 (codes "1.2") refl;
  two_places = λ r. Without-of_lacks 60 (codes "0.00") refl;
}

abbrev document : Document
document = ("boundary-case-demo", codes "kept") ∷ ("main-sweep", codes "old") ∷ []

marker-IsPlain : (m : String) → lacks 32 (codes m) ≡ true → lacks 60 (codes m) ≡ true → IsPlain m
marker-IsPlain m h k = record {
  no_space = Without-of_lacks 32 (codes m) h;
  no_angle = Without-of_lacks 60 (codes m) k;
}

document-IsPlain : All IsPlainSection document
document-IsPlain = (
  (marker-IsPlain "boundary-case-demo" refl refl, Without-of_lacks 60 (codes "kept") refl),
  ((marker-IsPlain "main-sweep" refl refl, Without-of_lacks 60 (codes "old") refl), tt),
)

strategy-Plain : Plain (codes "leader-follower")
strategy-Plain = Without-of_lacks 60 (codes "leader-follower") refl

noted-Plain : (c : Bool) → IsPlainOutcome (note (describe c) (attempt c).result)
unfolding leader_follower_config
noted-Plain true = (strategy-Plain, Without-of_lacks 60 (codes "ack_required=0") refl)
noted-Plain false = (
  strategy-Plain,
  Without-of_lacks 60 (codes "ack_required=1") refl,
  Without-of_lacks 60 (codes "no leader") refl,
)

orderly_run :
    IsOrderlyRun describe attempt describe attempt describe attempt
      (true ∷ false ∷ [])
      (true ∷ [])
      (false ∷ [])
orderly_run = record {
  leader_follower = (with_leader, (without_leader, tt));
  leaderless = (with_leader, tt);
  mq = (without_leader, tt);
  main_plain = (noted-Plain true, (noted-Plain false, (noted-Plain true, tt)));
  mq_plain = (noted-Plain false, tt);
}

abbrev today : Text
today = codes "2026-01-01"

abbrev main_outcomes : List ConfigOutcome
main_outcomes =
    outcomes_of describe attempt (true ∷ false ∷ []) ++ outcomes_of describe attempt (true ∷ [])

abbrev mq_outcomes : List ConfigOutcome
mq_outcomes = outcomes_of describe attempt (false ∷ [])

abbrev whole_run : Compared
whole_run =
    comparison formats today today (some (render document))
      (sweep describe attempt (true ∷ false ∷ [])) (sweep describe attempt (true ∷ []))
      (sweep describe attempt (false ∷ []))

abbrev after : Document
after = document_after document (section_writes formats today today main_outcomes mq_outcomes)

comparison_complete_example :
    (whole_run.how ≡ returned tt)
    × All HasExited whole_run.left
    × (text_of whole_run.file ≡ render after)
    × (lookup "main-sweep" after ≡ some (strip (main_section formats today main_outcomes)))
    × (lookup "mq-sweep" after ≡ some (strip (mq_section formats today mq_outcomes)))
    × ((k : String)
        → k ≢ "header"
        → k ≢ "main-sweep"
        → k ≢ "mq-sweep"
        → lookup k after ≡ lookup k document)
comparison_complete_example =
    comparison_complete describe attempt describe attempt describe attempt formats
      formats-IsPlainFormats today today (Without-of_lacks 60 today refl)
      (Without-of_lacks 60 today refl) (some (render document)) (true ∷ false ∷ []) (true ∷ [])
      (false ∷ []) orderly_run document document-IsPlain refl

-- ===== src/Tests/Demos.antt =====
-- Examples for the two demonstrations.
use kv_replication_lab.Prelude.{
  ◌≡◌, refl, ap, subst, inl, inr, true, false, none, some, All, nat_eq, if◌then◌else◌,
}
use kv_replication_lab.Prelude.Int.{pos}
use kv_replication_lab.Prelude.Chars.{codes, decimal}
use kv_replication_lab.Common.Waiting.{Outcome, returned, raised}
use kv_replication_lab.LoadTest.Records.{new_stats}
use kv_replication_lab.LoadTest.Runs.{completed}
use kv_replication_lab.Comparison.{SpawnedNode}
use kv_replication_lab.Comparison.Sweeps.{Stops, HasExited}
use kv_replication_lab.Demos.{
  Args, Surroundings, Launch, up, boundary_defaults, lag_defaults, boundary_parse_args,
  lag_parse_args,
}
use kv_replication_lab.Demos.BoundaryCase.{boundary_launches, boundary_case}
use kv_replication_lab.Demos.ConsumerLag.{lag_demo, producer_launch}
use kv_replication_lab.Demos.Arguments.{Checks, boundary_parse_args-Checks}
use kv_replication_lab.Demos.Endings.{
  WritesOnce, BoundaryText, LagText, boundary_nodes, lag_followers, boundary_case_ends,
  lag_demo_ends, lag_demo_left,
}

abbrev started : Launch → SpawnedNode
started launch = record {
  label = launch.label;
  host = codes "127.0.0.1";
  port = launch.port;
  proc = record { has_exited = false; exits_on_terminate = true; exits_on_kill = true };
  log_path = launch.label;
}

abbrev surroundings : Surroundings
surroundings = record {
  spawn = λ launch. returned (started launch);
  wait_healthy = λ nodes. up;
  wait_assigned = λ nodes. up;
  load_test = completed new_stats;
  query_final_lag = λ port. returned (pos port);
  elapsed = 3;
  generated_at = codes "now";
  formats = record { one_place = λ n. codes "3.0"; two_places = λ r. codes "0.00" };
  general = decimal;
  number = decimal;
}

abbrev args : Args
args = record { delay_ms = 800; delayed_count = 2; workers = pos 5 }

defaults_accepted :
    Checks 5
      (boundary_launches surroundings)
      boundary_defaults
      (boundary_parse_args boundary_defaults)
defaults_accepted = boundary_parse_args-Checks surroundings boundary_defaults

accepted :
    lag_parse_args lag_defaults
    ≡ some (record { delay_ms = 500; delayed_count = 2; workers = pos 5 })
unfolding lag_parse_args
accepted = refl

refused :
    lag_parse_args (record { delay_ms = pos 1; delayed_count = pos 5; workers = pos 5 }) ≡ none
unfolding lag_parse_args
refused = refl

nodes-Stops : All Stops (boundary_nodes surroundings args none)
nodes-Stops =
    (inr (inl refl), (inr (inl refl), (inr (inl refl), (inr (inl refl), (inr (inl refl), tt)))))

followers-Stops : All Stops (lag_followers surroundings args none)
followers-Stops = (inr (inl refl), (inr (inl refl), (inr (inl refl), (inr (inl refl), tt))))

boundary_case_ends_example :
    All HasExited (boundary_case surroundings args none).left
    × WritesOnce surroundings args none
        (BoundaryText surroundings args none)
        (boundary_case surroundings args none).how
        (boundary_case surroundings args none).file
boundary_case_ends_example = boundary_case_ends surroundings args none nodes-Stops

producer-Stops :
    (p : SpawnedNode)
    → surroundings.spawn (producer_launch surroundings args) ≡ returned p
    → Stops p
producer-Stops p e =
    subst Stops
      (ap
        (λ (o : Outcome SpawnedNode). elim o [
          | returned a ↦ a
          | raised ↦ started (producer_launch surroundings args)
        ])
        e)
      (inr (inl refl))

lag_demo_ends_example :
    All HasExited (lag_demo surroundings args (returned tt) none).left
    × WritesOnce surroundings args none
        (LagText surroundings args none)
        (lag_demo surroundings args (returned tt) none).how
        (lag_demo surroundings args (returned tt) none).file
lag_demo_ends_example =
    lag_demo_ends surroundings args none (returned tt) refl followers-Stops producer-Stops

-- The third follower cannot be started.
abbrev occupied : Surroundings
occupied = record surroundings {
  spawn = λ launch. if nat_eq launch.port 8203 then raised else returned (started launch);
}

two_left : (lag_demo occupied args (returned tt) none).left ≡ lag_followers occupied args none
two_left = (lag_demo_left occupied args none (lag_followers occupied args none) refl).1

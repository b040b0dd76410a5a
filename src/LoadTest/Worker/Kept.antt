-- ===== src/LoadTest/Worker/Kept.antt =====
-- What the loop of a load test's worker keeps true of its numbers, if each request does.
use kv_replication_lab.Prelude.{List, [], ◌∷◌}
use kv_replication_lab.Common.Waiting.{Outcome, returned, raised}
use kv_replication_lab.LoadTest.Plan.{RequestPlan}
use kv_replication_lab.LoadTest.Records.{Stats}
use kv_replication_lab.LoadTest.Worker.{go_on, run_items}

abbrev pub Holds : (Stats → Type 0) → Outcome Stats → Type 0
Holds P raised = Unit
Holds P (returned s) = P s

module _ {S M : Type 0} (P : Stats → Type 0)
    (step : M → S → Stats → RequestPlan → S × Outcome Stats)
    (step-Holds : (m : M) (shared : S) (s : Stats) (item : RequestPlan)
      → P s
      → Holds P (step m shared s item).1) where
  go_on-Holds :
      (next : S → Stats → S × Outcome Stats)
      → ((shared : S) (s : Stats) → P s → Holds P (next shared s).1)
      → (r : S × Outcome Stats) → Holds P r.1
      → Holds P (go_on next r).1
  go_on-Holds next h (shared, raised) p = tt
  go_on-Holds next h (shared, returned s) p = h shared s p

  pub run_items-Holds :
      (items : List (RequestPlan × M)) (shared : S) (s : Stats)
      → P s
      → Holds P (run_items step items shared s).1
  unfolding run_items
  run_items-Holds [] shared s p = p
  run_items-Holds ((item, m) ∷ rest) shared s p =
      go_on-Holds (run_items step rest) (run_items-Holds rest) (step m shared s item)
        (step-Holds m shared s item p)

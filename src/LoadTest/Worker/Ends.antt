-- ===== src/LoadTest/Worker/Ends.antt =====
-- When a worker of a load test does not raise (experiments/staleness_load_test.py and the two
-- others).
use kv_replication_lab.Prelude.{
  ℕ, inl, inr, String, Bool, true, false, not, ◌||◌, none, some, List, [], ◌∷◌, All, nat_eq,
  Bool-cases, if◌then◌else◌,
}
use kv_replication_lab.Common.Waiting.{Outcome, returned, raised}
use kv_replication_lab.LoadTest.Plan.{RequestPlan}
use kv_replication_lab.LoadTest.Records.{SourceEntry, Stats}
use kv_replication_lab.LoadTest.Worker.{
  Shared, Answer, http_error, response, WriteBody, Moment, finish_write, finish_read, go_on,
  run_items,
}

abbrev pub Ends : {A : Type 0} → Outcome A → Type 0
Ends raised = ⊥
Ends (returned a) = Unit

-- The body of a response is as the script expects it.
abbrev pub HasBody : {A : Type 0} → Answer A → Type 0
HasBody (http_error exc) = Unit
HasBody (response status none) = ⊥
HasBody (response status (some body)) = Unit

abbrev pub IsSound : {S : Type 0} → Moment S → Type 0
IsSound m = HasBody m.write_answer × HasBody m.read_answer

pub if-Ends :
    {A : Type 0} (b : Bool) (o p : Outcome A) → Ends o → Ends p → Ends (if b then o else p)
if-Ends true o p h k = h
if-Ends false o p h k = k

module _ (now : ℕ) (node_id : String) (s : Stats) (key : String) where
  pub finish_read-Ends :
      (field : String) (e : SourceEntry) (a : Answer ℕ)
      → HasBody a
      → Ends (finish_read field now node_id e s key a)
  finish_read-Ends field e (http_error exc) h = tt
  finish_read-Ends field e (response status none) h = elim h [ ]
  finish_read-Ends field e (response status (some actual)) h =
      if-Ends (not (nat_eq status 200 || nat_eq status 404)) _ _ tt
        (if-Ends (nat_eq status 404) _ _ tt tt)

  pub finish_write-Ends :
      (shared : Shared) (value : ℕ) (a : Answer WriteBody)
      → HasBody a
      → Ends (finish_write shared node_id now s key value a).1
  finish_write-Ends shared value (http_error exc) h = tt
  finish_write-Ends shared value (response status none) h = elim h [ ]
  finish_write-Ends shared value (response status (some body)) h =
      elim (Bool-cases (nat_eq status 200)) [ inl good ↦ rw good tt | inr bad ↦ rw bad tt ]

module _ {S M : Type 0} (Ok : S → Type 0)
    (step : M → S → Stats → RequestPlan → S × Outcome Stats) where
  abbrev pub StepEnds : RequestPlan × M → Type 0
  StepEnds (item, m) =
      (s : S) (stats : Stats) → Ok s → Ok (step m s stats item).0 × Ends (step m s stats item).1

  go_on-Ends :
      (next : S → Stats → S × Outcome Stats)
      → ((s : S) (stats : Stats) → Ok s → Ends (next s stats).1)
      → (r : S × Outcome Stats) → Ok r.0
      → Ends r.1
      → Ends (go_on next r).1
  go_on-Ends next h (s, raised) o e = elim e [ ]
  go_on-Ends next h (s, returned stats) o e = h s stats o

  pub run_items-Ends :
      (items : List (RequestPlan × M))
      → All StepEnds items
      → (s : S) (stats : Stats) → Ok s
      → Ends (run_items step items s stats).1
  unfolding run_items
  run_items-Ends [] h s stats o = tt
  run_items-Ends ((item, m) ∷ rest) (h, hs) s stats o =
      let (kept, ended) = h s stats o in
      go_on-Ends (run_items step rest) (run_items-Ends rest hs) (step m s stats item) kept ended

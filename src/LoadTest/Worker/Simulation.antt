-- ===== src/LoadTest/Worker/Simulation.antt =====
-- Two workers of load tests, one of which sees only a part of what the other does, step for step.
use kv_replication_lab.Prelude.{◌≡◌, refl, List, [], ◌∷◌, map, All}
use kv_replication_lab.Common.Waiting.{Outcome, returned, raised}
use kv_replication_lab.LoadTest.Plan.{RequestPlan}
use kv_replication_lab.LoadTest.Records.{Stats}
use kv_replication_lab.LoadTest.Worker.{go_on, run_items}

abbrev pub with_moment : {M N : Type 0} → (M → N) → RequestPlan × M → RequestPlan × N
with_moment f p = (p.0, f p.1)

pub run_items-map :
    {S M N : Type 0} (step : N → S → Stats → RequestPlan → S × Outcome Stats) (f : M → N)
    (items : List (RequestPlan × M)) (s : S) (stats : Stats)
    → run_items step (map (with_moment f) items) s stats ≡ run_items (λ m. step (f m)) items s stats
unfolding run_items
run_items-map step f [] s stats = refl
run_items-map step f ((item, m) ∷ rest) s stats =
    next (step (f m) s stats item) (λ t u. run_items-map step f rest t u)
  where
    next :
        (r : _ × Outcome Stats)
        → ((t : _) (u : Stats)
            → run_items step (map (with_moment f) rest) t u ≡ run_items (λ m. step (f m)) rest t u)
        → go_on (run_items step (map (with_moment f) rest)) r
          ≡ go_on (run_items (λ m. step (f m)) rest) r
    next (t, raised) h = refl
    next (t, returned u) h = h t u

-- Two outcomes that look the same.
abbrev pub Same : (Stats → Stats) → Outcome Stats → Outcome Stats → Type 0
Same view raised raised = Unit
Same view (returned s) (returned t) = view s ≡ view t
Same view raised (returned t) = ⊥
Same view (returned s) raised = ⊥

-- The part of the state that both have is the same, and so are the outcomes as they look.
abbrev pub Agree :
    {S T : Type 0} (part : S → T) (Ok : S → Type 0) (view : Stats → Stats)
    → S × Outcome Stats
    → T × Outcome Stats
    → Type 0
Agree part Ok view r q = (part r.0 ≡ q.0) × Same view r.1 q.1 × Ok r.0

module _ {S T M N : Type 0} (part : S → T) (Ok : S → Type 0) (view : Stats → Stats)
    (step : M → S → Stats → RequestPlan → S × Outcome Stats)
    (step' : N → T → Stats → RequestPlan → T × Outcome Stats) where
  -- A step of the one worker and the step of the other with the moment beside it.
  abbrev pub Simulates : RequestPlan × (M × N) → Type 0
  Simulates (item, (m, m')) =
      (s : S) (t : T) (stats stats' : Stats)
      → part s ≡ t
      → Ok s
      → view stats ≡ view stats'
      → Agree part Ok view (step m s stats item) (step' m' t stats' item)

  go_on-Agree :
      (next : S → Stats → S × Outcome Stats) (next' : T → Stats → T × Outcome Stats)
      → ((s : S) (t : T) (stats stats' : Stats)
          → part s ≡ t
          → Ok s
          → view stats ≡ view stats'
          → Agree part Ok view (next s stats) (next' t stats'))
      → (r : S × Outcome Stats) (q : T × Outcome Stats) → Agree part Ok view r q
      → Agree part Ok view (go_on next r) (go_on next' q)
  go_on-Agree next next' h (s, raised) (t, raised) a = a
  go_on-Agree next next' h (s, returned x) (t, returned y) (p, v, o) = h s t x y p o v
  go_on-Agree next next' h (s, raised) (t, returned y) (p, v, o) = elim v [ ]
  go_on-Agree next next' h (s, returned x) (t, raised) (p, v, o) = elim v [ ]

  pub run_items-Agree :
      (items : List (RequestPlan × (M × N)))
      → All Simulates items
      → (s : S) (t : T) (stats stats' : Stats) → part s ≡ t
      → Ok s
      → view stats ≡ view stats'
      → Agree part Ok view
          (run_items (λ (p : M × N). step p.0) items s stats)
          (run_items (λ (p : M × N). step' p.1) items t stats')
  unfolding run_items
  run_items-Agree [] h s t stats stats' p o v = (p, v, o)
  run_items-Agree ((item, (m, m')) ∷ rest) (h, hs) s t stats stats' p o v =
      go_on-Agree _ _ (run_items-Agree rest hs) (step m s stats item) (step' m' t stats' item)
        (h s t stats stats' p o v)

-- ===== src/Leaderless/Coordinator/Gather.antt =====
-- What `QuorumCoordinator._gather` (leaderless/node.py) collects, when it stops, and that it does.
use kv_replication_lab.Prelude.{
  ℕ, zero, suc, ◌+◌, ◌≤◌, ◌<◌, ◌≡◌, refl, sym, ap, subst, ◌∙◌, ◌⊎◌, inl, inr, Bool, true, not, ◌||◌,
  Option, none, some, List, [], ◌∷◌, ◌++◌, length, is_empty, keep, ltb, arith, Bool-cases,
  length-append,
}
use mathlib.Core.List.{append-nil, append_assoc}
use kv_replication_lab.Common.Config.{Seconds, is_over}
use kv_replication_lab.Common.Waiting.{
  Schedule, wait_done, wait_pending, pending_after, wait_none, wait_shrinks,
}
use kv_replication_lab.Leaderless.Coordinator.{
  Task, Gathered, gathered, failed, counted_values, gather_loop, gather,
}
use kv_replication_lab.Leaderless.Coordinator.Tasks.{
  Answers, Answers-append, Answers-length, counts, counted-Answers, total_counts, total_counts-keep,
  Part, Part-keep, Part-append, Part-nil,
}

module _ {A : Type 0} (s : Schedule (Task A)) where
  total_counts-wait :
      (i : ℕ) (ts : List (Task A))
      → total_counts (wait_done s i ts) + total_counts (wait_pending s i ts) ≡ total_counts ts
  unfolding total_counts wait_done wait_pending
  total_counts-wait i [] = refl
  total_counts-wait i (t ∷ ts) = ground (arith, total_counts-wait i ts)

next_round : (i r : ℕ) → i + 1 + r ≡ i + suc r
next_round i r = omega arith

no_round : (i : ℕ) → i ≡ i + 0
no_round i = omega arith

module _ {A : Type 0} (s : Schedule (Task A)) (is_late : ℕ → Bool) (needed : ℕ) where
  -- The time was up at a round: before the wait, or in it.
  abbrev pub TimedOut : ℕ → List (Task A) → Type 0
  TimedOut i ts = (is_late (s.now i) ≡ true) ⊎ (is_empty (wait_done s i ts) ≡ true)

  -- How a loop over some tasks ended: what it collected came from tasks that count, each once, no
  -- answer is counted and left, and it stopped for a reason.
  pub record Ended (i : ℕ) (ts : List (Task A)) (old new : List A) (rest : List (Task A))
      : Type 0 where
    pub answered : List (Task A)
    pub values : List A
    pub appended : new ≡ old ++ values
    pub answers : Answers answered values
    pub part : Part answered ts
    pub counted : length new + total_counts rest ≡ length old + total_counts ts
    pub rounds : ℕ
    pub left : rest ≡ pending_after s i rounds ts
    pub why : (needed ≤ length new) ⊎ (rest ≡ []) ⊎ TimedOut (i + rounds) rest

  Ended_here :
      (i : ℕ) (ts rest : List (Task A)) (old new : List A)
      → some (gathered old ts) ≡ some (gathered new rest)
      → (needed ≤ length new) ⊎ (rest ≡ []) ⊎ TimedOut i rest
      → Ended i ts old new rest
  Ended_here i ts rest old new h w =
      let same : ts ≡ rest = ground arith in
      let kept : old ≡ new = ground arith in
      record {
        answered = [];
        values = [];
        appended = sym kept ∙ sym (append-nil old);
        answers = tt;
        part = Part-nil ts;
        counted = omega (arith, ap total_counts same, ap (λ (l : List A). length l) kept);
        rounds = 0;
        left = sym same;
        why = subst (λ r. (needed ≤ length new) ⊎ (rest ≡ []) ⊎ TimedOut r rest) (no_round i) w;
      }

  enough :
      (ts rest : List (Task A)) (old new : List A) (i : ℕ)
      → some (gathered old ts) ≡ some (gathered new rest)
      → (is_empty ts || not (ltb (length old) needed)) ≡ true
      → (needed ≤ length new) ⊎ (rest ≡ []) ⊎ TimedOut i rest
  enough [] rest old new i h e = inr (inl (ground arith))
  enough (t ∷ ts) rest old new i h e =
      let kept : old ≡ new = ground arith in
      inl (subst (λ l. needed ≤ length l) kept (ground arith))

  Ended-next :
      (i : ℕ) (ts : List (Task A)) (old vs new : List A) (rest : List (Task A))
      → counted_values (wait_done s i ts) ≡ some vs
      → Ended (i + 1) (wait_pending s i ts) (old ++ vs) new rest
      → Ended i ts old new rest
  unfolding wait_done wait_pending
  Ended-next i ts old vs new rest c e =
      let done = counted-Answers (wait_done s i ts) vs c in
      record {
        answered = keep counts (wait_done s i ts) ++ e.answered;
        values = vs ++ e.values;
        appended = e.appended ∙ append_assoc old vs e.values;
        answers =
            Answers-append (keep counts (wait_done s i ts)) e.answered vs e.values done e.answers;
        part =
            Part-append (s.finished i) (keep counts (wait_done s i ts)) e.answered ts
              (Part-keep counts (wait_done s i ts)) e.part;
        counted = omega (
          arith,
          e.counted,
          length-append old vs,
          Answers-length (keep counts (wait_done s i ts)) vs done,
          total_counts-keep (wait_done s i ts),
          total_counts-wait s i ts,
        );
        rounds = suc e.rounds;
        left = e.left;
        why =
            subst (λ r. (needed ≤ length new) ⊎ (rest ≡ []) ⊎ TimedOut r rest)
              (next_round i e.rounds) e.why;
      }

  after_wait :
      (f i : ℕ) (ts rest : List (Task A)) (old new : List A) (o : Option (List A))
      → counted_values (wait_done s i ts) ≡ o
      → (elim o [
        | none ↦ some (failed (wait_pending s i ts))
        | some vs ↦ gather_loop s is_late needed f (i + 1) (wait_pending s i ts) (old ++ vs)
      ])
        ≡ some (gathered new rest)
      → ((vs : List A)
          → gather_loop s is_late needed f (i + 1) (wait_pending s i ts) (old ++ vs)
            ≡ some (gathered new rest)
          → Ended (i + 1) (wait_pending s i ts) (old ++ vs) new rest)
      → Ended i ts old new rest
  after_wait f i ts rest old new none c h ih = absurd (ground arith)
  after_wait f i ts rest old new (some vs) c h ih = Ended-next i ts old vs new rest c (ih vs h)

  gather_loop-Ended :
      (f i : ℕ) (ts rest : List (Task A)) (old new : List A)
      → gather_loop s is_late needed f i ts old ≡ some (gathered new rest)
      → Ended i ts old new rest
  unfolding gather_loop
  gather_loop-Ended zero i ts rest old new h = absurd (ground arith)
  gather_loop-Ended (suc f) i ts rest old new h =
      elim (Bool-cases (is_empty ts || not (ltb (length old) needed))) [
        | inl stop ↦
            let h' = rw stop at h in
            Ended_here i ts rest old new h' (enough ts rest old new i h' stop)
        | inr go ↦ elim (Bool-cases (is_late (s.now i))) [
          | inl late ↦ Ended_here i ts rest old new (rw (go, late) at h) (inr (inr (inl late)))
          | inr early ↦ elim (Bool-cases (is_empty (wait_done s i ts))) [
            | inl quiet ↦
                let h' = rw (wait_none s i ts quiet) at (rw (go, early, quiet) at h) in
                let same : ts ≡ rest = ground arith in
                Ended_here i ts rest old new h'
                  (inr (inr (inr (subst (λ r. is_empty (wait_done s i r) ≡ true) same quiet))))
            | inr some_done ↦
                after_wait f i ts rest old new (counted_values (wait_done s i ts)) refl
                  (rw (go, early, some_done) at h)
                  (λ vs. gather_loop-Ended f (i + 1) (wait_pending s i ts) rest (old ++ vs) new)
          ]
        ]
      ]

  after_wait_total :
      (f i : ℕ) (ts : List (Task A)) (old : List A) (o : Option (List A))
      → ((vs : List A)
          → (r : Gathered A) × (gather_loop s is_late needed f
                (i + 1)
                (wait_pending s i ts)
                (old ++ vs)
              ≡ some r))
      → (r : Gathered A) × ((elim o [
        | none ↦ some (failed (wait_pending s i ts))
        | some vs ↦ gather_loop s is_late needed f (i + 1) (wait_pending s i ts) (old ++ vs)
      ])
          ≡ some r)
  after_wait_total f i ts old none ih = (failed (wait_pending s i ts), refl)
  after_wait_total f i ts old (some vs) ih = ih vs

  gather_loop_total :
      (f i : ℕ) (ts : List (Task A)) (old : List A)
      → length ts < f
      → (r : Gathered A) × (gather_loop s is_late needed f i ts old ≡ some r)
  unfolding gather_loop
  gather_loop_total zero i ts old h = absurd (omega arith)
  gather_loop_total (suc f) i ts old h =
      elim (Bool-cases (is_empty ts || not (ltb (length old) needed))) [
        | inl stop ↦ (gathered old ts, rw stop)
        | inr go ↦ elim (Bool-cases (is_late (s.now i))) [
          | inl late ↦ (gathered old ts, rw (go, late))
          | inr early ↦ elim (Bool-cases (is_empty (wait_done s i ts))) [
            | inl quiet ↦ (gathered old (wait_pending s i ts), rw (go, early, quiet))
            | inr some_done ↦
                rw (go, early, some_done)
                  (after_wait_total f i ts old (counted_values (wait_done s i ts)) (λ vs.
                    gather_loop_total f (i + 1) (wait_pending s i ts) (old ++ vs)
                      (omega (arith, wait_shrinks s i ts some_done))))
          ]
        ]
      ]

module _ {A : Type 0} (timeout : Seconds) (needed : ℕ) (s : Schedule (Task A))
    (tasks : List (Task A)) where
  -- Whatever the peers do and whenever, the waiting ends.
  pub gather_total : (r : Gathered A) × (gather timeout needed s tasks ≡ some r)
  unfolding gather
  gather_total =
      gather_loop_total s (is_over timeout (s.now 0)) needed (suc (length tasks)) 1 tasks []
        (omega arith)

  pub gather-Ended :
      (new : List A) (rest : List (Task A))
      → gather timeout needed s tasks ≡ some (gathered new rest)
      → Ended s (is_over timeout (s.now 0)) needed 1 tasks [] new rest
  unfolding gather
  gather-Ended new rest h =
      gather_loop-Ended s (is_over timeout (s.now 0)) needed (suc (length tasks)) 1 tasks rest []
        new h

-- ===== src/LeaderFollower/Replicator/Acks.antt =====
-- What the waiting loop of `Replicator.replicate` (leader_follower/leader.py) counts, when it
-- stops, and that it does.
use kv_replication_lab.Prelude.{
  ℕ, zero, suc, ◌+◌, ◌≤◌, ◌<◌, ◌≡◌, refl, sym, ap, subst, ◌∙◌, ◌⊎◌, inl, inr, Bool, true, false,
  not, ◌||◌, Option, none, some, List, [], ◌∷◌, length, is_empty, ltb, arith, All, Bool-cases,
  if◌then◌else◌,
}
use kv_replication_lab.Common.Waiting.{
  Schedule, Outcome, returned, raised, wait_done, wait_pending, pending_after, wait_none,
  wait_shrinks,
}
use kv_replication_lab.LeaderFollower.Replicator.{
  Task, Replicated, acks, failed, count_acks, add_ack, ack_loop,
}

-- The follower of the task acknowledges the write.
abbrev pub is_ack : Task → Bool
is_ack t = elim t.result [ returned b ↦ b | raised ↦ false ]

abbrev pub is_raised : Outcome Bool → Bool
is_raised raised = true
is_raised (returned b) = false

unfoldable pub total_acks : List Task → ℕ
total_acks [] = 0
total_acks (t ∷ ts) = (if is_ack t then 1 else 0) + total_acks ts

add_ack-some :
    (r : Outcome Bool) (o : Option ℕ) (m : ℕ)
    → add_ack r o ≡ some m
    → (k : ℕ) × (o ≡ some k)
      × (m ≡ (if elim r [ returned b ↦ b | raised ↦ false ] then 1 else 0) + k)
add_ack-some raised o m h = ground arith
add_ack-some (returned b) none m h = ground arith
add_ack-some (returned b) (some k) m h = (k, refl, ground arith)

count_acks-eq-total : (ts : List Task) (m : ℕ) → count_acks ts ≡ some m → m ≡ total_acks ts
unfolding count_acks total_acks
count_acks-eq-total [] m h = ground arith
count_acks-eq-total (t ∷ ts) m h =
    let (k, e, q) = add_ack-some t.result (count_acks ts) m h in
    q ∙ ap (λ x. (if is_ack t then 1 else 0) + x) (count_acks-eq-total ts k e)

module _ (s : Schedule Task) where
  total_acks-wait :
      (i : ℕ) (ts : List Task)
      → total_acks (wait_done s i ts) + total_acks (wait_pending s i ts) ≡ total_acks ts
  unfolding total_acks wait_done wait_pending
  total_acks-wait i [] = refl
  total_acks-wait i (t ∷ ts) = ground (arith, total_acks-wait i ts)

next_round : (i r : ℕ) → i + 1 + r ≡ i + suc r
next_round i r = omega arith

no_round : (i : ℕ) → i ≡ i + 0
no_round i = omega arith

module _ (s : Schedule Task) (is_late : ℕ → Bool) (ack_required : ℕ) where
  -- The time was up at a round: before the wait, or in it.
  abbrev pub TimedOut : ℕ → List Task → Type 0
  TimedOut i ts = (is_late (s.now i) ≡ true) ⊎ (is_empty (wait_done s i ts) ≡ true)

  -- Why a loop over some tasks, from a round on, ended with a count and a rest.
  pub record Ended (i : ℕ) (ts : List Task) (acked n : ℕ) (rest : List Task) : Type 0 where
    pub counted : n + total_acks rest ≡ acked + total_acks ts
    pub rounds : ℕ
    pub left : rest ≡ pending_after s i rounds ts
    pub why : (ack_required ≤ n) ⊎ (rest ≡ []) ⊎ TimedOut (i + rounds) rest

  Ended-next :
      (i : ℕ) (ts : List Task) (acked m n : ℕ) (rest : List Task)
      → count_acks (wait_done s i ts) ≡ some m
      → Ended (i + 1) (wait_pending s i ts) (acked + m) n rest
      → Ended i ts acked n rest
  Ended-next i ts acked m n rest c e = record {
    counted =
        omega
          (arith, e.counted, count_acks-eq-total (wait_done s i ts) m c, total_acks-wait s i ts);
    rounds = suc e.rounds;
    left = e.left;
    why =
        subst (λ r. (ack_required ≤ n) ⊎ (rest ≡ []) ⊎ TimedOut r rest) (next_round i e.rounds)
          e.why;
  }

  Ended_here :
      (i : ℕ) (ts rest : List Task) (acked n : ℕ)
      → some (acks acked ts) ≡ some (acks n rest)
      → (ack_required ≤ n) ⊎ (rest ≡ []) ⊎ TimedOut i rest
      → Ended i ts acked n rest
  Ended_here i ts rest acked n h w =
      let same : ts ≡ rest = ground arith in
      let total : total_acks ts ≡ total_acks rest = ap total_acks same in
      record {
        counted = ground arith;
        rounds = 0;
        left = sym same;
        why = subst (λ r. (ack_required ≤ n) ⊎ (rest ≡ []) ⊎ TimedOut r rest) (no_round i) w;
      }

  enough :
      (ts rest : List Task) (acked n i : ℕ)
      → some (acks acked ts) ≡ some (acks n rest)
      → (is_empty ts || not (ltb acked ack_required)) ≡ true
      → (ack_required ≤ n) ⊎ (rest ≡ []) ⊎ TimedOut i rest
  enough [] rest acked n i h e = inr (inl (ground arith))
  enough (t ∷ ts) rest acked n i h e = inl (ground arith)

  after_wait :
      (f i : ℕ) (ts rest : List Task) (acked n : ℕ) (o : Option ℕ)
      → count_acks (wait_done s i ts) ≡ o
      → (elim o [
        | none ↦ some failed
        | some m ↦ ack_loop s is_late ack_required f (i + 1) (wait_pending s i ts) (acked + m)
      ])
        ≡ some (acks n rest)
      → ((m : ℕ)
          → ack_loop s is_late ack_required f (i + 1) (wait_pending s i ts) (acked + m)
            ≡ some (acks n rest)
          → Ended (i + 1) (wait_pending s i ts) (acked + m) n rest)
      → Ended i ts acked n rest
  after_wait f i ts rest acked n none c h ih = absurd (ground arith)
  after_wait f i ts rest acked n (some m) c h ih = Ended-next i ts acked m n rest c (ih m h)

  pub ack_loop-Ended :
      (f i : ℕ) (ts rest : List Task) (acked n : ℕ)
      → ack_loop s is_late ack_required f i ts acked ≡ some (acks n rest)
      → Ended i ts acked n rest
  unfolding ack_loop
  ack_loop-Ended zero i ts rest acked n h = absurd (ground arith)
  ack_loop-Ended (suc f) i ts rest acked n h =
      elim (Bool-cases (is_empty ts || not (ltb acked ack_required))) [
        | inl stop ↦
            let h' = rw stop at h in
            Ended_here i ts rest acked n h' (enough ts rest acked n i h' stop)
        | inr go ↦ elim (Bool-cases (is_late (s.now i))) [
          | inl late ↦ Ended_here i ts rest acked n (rw (go, late) at h) (inr (inr (inl late)))
          | inr early ↦ elim (Bool-cases (is_empty (wait_done s i ts))) [
            | inl quiet ↦
                let h' = rw (wait_none s i ts quiet) at (rw (go, early, quiet) at h) in
                let same : ts ≡ rest = ground arith in
                Ended_here i ts rest acked n h'
                  (inr (inr (inr (subst (λ r. is_empty (wait_done s i r) ≡ true) same quiet))))
            | inr some_done ↦
                after_wait f i ts rest acked n (count_acks (wait_done s i ts)) refl
                  (rw (go, early, some_done) at h)
                  (λ m. ack_loop-Ended f (i + 1) (wait_pending s i ts) rest (acked + m) n)
          ]
        ]
      ]

  after_wait_total :
      (f i : ℕ) (ts : List Task) (acked : ℕ) (o : Option ℕ)
      → ((m : ℕ)
          → (r : Replicated) × (ack_loop s is_late ack_required f
                (i + 1)
                (wait_pending s i ts)
                (acked + m)
              ≡ some r))
      → (r : Replicated) × ((elim o [
        | none ↦ some failed
        | some m ↦ ack_loop s is_late ack_required f (i + 1) (wait_pending s i ts) (acked + m)
      ])
          ≡ some r)
  after_wait_total f i ts acked none ih = (failed, refl)
  after_wait_total f i ts acked (some m) ih = ih m

  -- As many rounds as there are tasks, and one more, are enough for the loop to end.
  pub ack_loop_total :
      (f i : ℕ) (ts : List Task) (acked : ℕ)
      → length ts < f
      → (r : Replicated) × (ack_loop s is_late ack_required f i ts acked ≡ some r)
  unfolding ack_loop
  ack_loop_total zero i ts acked h = absurd (omega arith)
  ack_loop_total (suc f) i ts acked h =
      elim (Bool-cases (is_empty ts || not (ltb acked ack_required))) [
        | inl stop ↦ (acks acked ts, rw stop)
        | inr go ↦ elim (Bool-cases (is_late (s.now i))) [
          | inl late ↦ (acks acked ts, rw (go, late))
          | inr early ↦ elim (Bool-cases (is_empty (wait_done s i ts))) [
            | inl quiet ↦ (acks acked (wait_pending s i ts), rw (go, early, quiet))
            | inr some_done ↦
                rw (go, early, some_done)
                  (after_wait_total f i ts acked (count_acks (wait_done s i ts)) (λ m.
                    ack_loop_total f (i + 1) (wait_pending s i ts) (acked + m)
                      (omega (arith, wait_shrinks s i ts some_done))))
          ]
        ]
      ]

pub total_acks-le-length : (ts : List Task) → total_acks ts ≤ length ts
unfolding total_acks
total_acks-le-length [] = omega arith
total_acks-le-length (t ∷ ts) = ground (arith, total_acks-le-length ts)

-- As many acknowledgments as tasks: every task acknowledged.
pub All-acks : (ts : List Task) → length ts ≤ total_acks ts → All (λ t. is_ack t ≡ true) ts
unfolding total_acks
All-acks [] h = tt
All-acks (t ∷ ts) h =
    (ground (arith, total_acks-le-length ts), All-acks ts (ground (arith, total_acks-le-length ts)))

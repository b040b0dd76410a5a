-- ===== src/LeaderFollower/Sending/Closing.antt =====
-- What becomes of the calls of `_send` (leader_follower/leader.py) that have not made their request
-- when the client is closed.
use kv_replication_lab.Prelude.{
  ℕ, zero, suc, ◌≡◌, ◌≢◌, refl, ap, sym, subst, ◌⊎◌, inl, inr, Bool, true, false, Option, none,
  some, List, [], ◌∷◌, ◌++◌, get_elem?, arith, nat_eq, nat_eq_iff, if_cases, Bool-cases,
}
use kv_replication_lab.Common.Replies.{Reply}
use kv_replication_lab.Common.Server.{ReplicateResponse}
use kv_replication_lab.Common.Waiting.{returned, raised}
use kv_replication_lab.LeaderFollower.Replicator.{after_post}
use kv_replication_lab.LeaderFollower.Sending.{
  Phase, created, queued, posting, ended, Sends, Event, spawn, close, resume, answer, set_at, post,
  acquire, resumed, answered, step, run,
}
use kv_replication_lab.LeaderFollower.Sending.Limit.{
  true_is_not_false, get_elem-set_at, closed_step,
}

get_elem-append :
    (ps qs : List Phase) (i : ℕ) (p : Phase)
    → get_elem? ps i ≡ some p
    → get_elem? (ps ++ qs) i ≡ some p
get_elem-append [] qs i p h = cc h
get_elem-append (q ∷ ps) qs zero p h = h
get_elem-append (q ∷ ps) qs (suc i) p h = get_elem-append ps qs i p h

get_elem-set_at_other :
    (j i : ℕ) (p : Phase) (ps : List Phase) → j ≢ i → get_elem? (set_at j p ps) i ≡ get_elem? ps i
get_elem-set_at_other j i p [] other = refl
get_elem-set_at_other zero zero p (q ∷ ps) other = absurd (other refl)
get_elem-set_at_other zero (suc i) p (q ∷ ps) other = refl
get_elem-set_at_other (suc j) zero p (q ∷ ps) other = refl
get_elem-set_at_other (suc j) (suc i) p (q ∷ ps) other =
    get_elem-set_at_other j i p ps (λ e. other (ap suc e))

-- A call is in one of two phases.
abbrev pub Either : Phase → Phase → ℕ → Sends → Type 0
Either p q i s = (get_elem? s.phases i ≡ some p) ⊎ (get_elem? s.phases i ≡ some q)

module _ (is_success : ℕ → Bool) where
  -- No call but one is changed.
  abbrev Spares : ℕ → Sends → Sends → Type 0
  Spares j s t = (i : ℕ) → j ≢ i → get_elem? t.phases i ≡ get_elem? s.phases i

  acquire-Spares : (s : Sends) (j : ℕ) → Spares j s (acquire is_success s j)
  unfolding acquire post
  acquire-Spares s j =
      if_cases (Spares j s) (nat_eq s.value 0) _ _
        (λ full i. get_elem-set_at_other j i queued s.phases)
        (λ free.
          if_cases (Spares j s) s.is_closed _ _
            (λ closed i. get_elem-set_at_other j i (ended raised) s.phases)
            (λ still_open i. get_elem-set_at_other j i posting s.phases))

  resumed-Spares : (s : Sends) (j : ℕ) (o : Option Phase) → Spares j s (resumed is_success s j o)
  resumed-Spares s j none i other = refl
  resumed-Spares s j (some posting) i other = refl
  resumed-Spares s j (some (ended r)) i other = refl
  resumed-Spares s j (some queued) i other = acquire-Spares s j i other
  resumed-Spares s j (some created) i other =
      if_cases (λ (t : Sends). get_elem? t.phases i ≡ get_elem? s.phases i) s.is_closed _ _
        (λ closed. get_elem-set_at_other j i (ended (returned false)) s.phases other)
        (λ still_open. acquire-Spares s j i other)

  answered-Spares :
      (s : Sends) (j : ℕ) (reply : Reply ReplicateResponse) (o : Option Phase)
      → Spares j s (answered is_success s j reply o)
  answered-Spares s j reply none i other = refl
  answered-Spares s j reply (some created) i other = refl
  answered-Spares s j reply (some queued) i other = refl
  answered-Spares s j reply (some (ended r)) i other = refl
  answered-Spares s j reply (some posting) i other =
      get_elem-set_at_other j i (ended (after_post is_success reply)) s.phases other

  -- Two phases that the call's own events do not leave, once the client is closed, are not left.
  module _ (p q : Phase) (i : ℕ)
      (run_keeps : (s : Sends)
        → s.is_closed ≡ true
        → Either p q i s
        → Either p q i (resumed is_success s i (get_elem? s.phases i)))
      (answer_keeps : (s : Sends) (reply : Reply ReplicateResponse)
        → Either p q i s
        → Either p q i (answered is_success s i reply (get_elem? s.phases i))) where
    moved :
        (s t : Sends)
        → get_elem? t.phases i ≡ get_elem? s.phases i
        → Either p q i s
        → Either p q i t
    moved s t e h = subst (λ o. (o ≡ some p) ⊎ (o ≡ some q)) (sym e) h

    own_or_other :
        (j : ℕ) (s : Sends) (t : ℕ → Sends)
        → (j ≢ i → get_elem? (t j).phases i ≡ get_elem? s.phases i)
        → Either p q i (t i)
        → Either p q i s
        → Either p q i (t j)
    own_or_other j s t other own h = elim (Bool-cases (nat_eq j i)) [
      | inl same ↦ subst (λ k. Either p q i (t k)) (sym ((nat_eq_iff j i).0 same)) own
      | inr different ↦ moved s (t j) (other (λ e. ground arith)) h
    ]

    step-Either :
        (e : Event) (s : Sends)
        → s.is_closed ≡ true
        → Either p q i s
        → Either p q i (step is_success e s)
    unfolding step
    step-Either spawn s closed (inl h) = inl (get_elem-append s.phases (created ∷ []) i p h)
    step-Either spawn s closed (inr h) = inr (get_elem-append s.phases (created ∷ []) i q h)
    step-Either close s closed h = h
    step-Either (resume j) s closed h =
        own_or_other j s (λ k. resumed is_success s k (get_elem? s.phases k))
          (resumed-Spares s j (get_elem? s.phases j) i) (run_keeps s closed h) h
    step-Either (answer j reply) s closed h =
        own_or_other j s (λ k. answered is_success s k reply (get_elem? s.phases k))
          (answered-Spares s j reply (get_elem? s.phases j) i) (answer_keeps s reply h) h

    run-Either :
        (es : List Event) (s : Sends)
        → s.is_closed ≡ true
        → Either p q i s
        → Either p q i (run is_success es s)
    unfolding run
    run-Either [] s closed h = h
    run-Either (e ∷ es) s closed h =
        run-Either es (step is_success e s) (closed_step is_success e s closed).0
          (step-Either e s closed h)

  acquired_closed :
      (i : ℕ) (s : Sends)
      → s.is_closed ≡ true
      → get_elem? s.phases i ≡ some queued
      → Either queued (ended raised) i (acquire is_success s i)
  unfolding acquire post
  acquired_closed i s closed at =
      if_cases (Either queued (ended raised) i) (nat_eq s.value 0) _ _
        (λ full. inl (get_elem-set_at i queued queued s.phases at))
        (λ free.
          if_cases (Either queued (ended raised) i) s.is_closed _ _
            (λ c. inr (get_elem-set_at i queued (ended raised) s.phases at))
            (λ still_open. absurd (true_is_not_false closed still_open)))

  ran_closed :
      (i : ℕ) (s : Sends)
      → s.is_closed ≡ true
      → get_elem? s.phases i ≡ some created
      → Either created (ended (returned false)) i (resumed is_success s i (some created))
  ran_closed i s closed at =
      if_cases (Either created (ended (returned false)) i) s.is_closed _ _
        (λ c. inr (get_elem-set_at i created (ended (returned false)) s.phases at))
        (λ still_open. absurd (true_is_not_false closed still_open))

  -- Once the client is closed, whatever happens afterwards, a call that was waiting for the semaphore
  -- goes on waiting or has raised, and so never becomes a failed send, since `_send` looks at
  -- `is_closed` only before it waits; a call that had not begun has still not begun or is a failed
  -- send.
  pub closed_fates :
      (s : Sends) (i : ℕ)
      → s.is_closed ≡ true
      → (es : List Event)
      → (get_elem? s.phases i ≡ some queued → Either queued (ended raised) i (run is_success es s))
        × (get_elem? s.phases i ≡ some created
            → Either created (ended (returned false)) i (run is_success es s))
  closed_fates s i closed es = (
    λ at. run-Either queued (ended raised) i waiting waiting_answered es s closed (inl at),
    λ at. run-Either created (ended (returned false)) i fresh fresh_answered es s closed (inl at),
  )
    where
      waiting :
          (t : Sends)
          → t.is_closed ≡ true
          → Either queued (ended raised) i t
          → Either queued (ended raised) i (resumed is_success t i (get_elem? t.phases i))
      waiting t shut (inl h) = rw h (acquired_closed i t shut h)
      waiting t shut (inr h) = rw h (inr h)

      waiting_answered :
          (t : Sends) (reply : Reply ReplicateResponse)
          → Either queued (ended raised) i t
          → Either queued (ended raised) i (answered is_success t i reply (get_elem? t.phases i))
      waiting_answered t reply (inl h) = rw h (inl h)
      waiting_answered t reply (inr h) = rw h (inr h)

      fresh :
          (t : Sends)
          → t.is_closed ≡ true
          → Either created (ended (returned false)) i t
          → Either created
              (ended (returned false))
              i
              (resumed is_success t i (get_elem? t.phases i))
      fresh t shut (inl h) = rw h (ran_closed i t shut h)
      fresh t shut (inr h) = rw h (inr h)

      fresh_answered :
          (t : Sends) (reply : Reply ReplicateResponse)
          → Either created (ended (returned false)) i t
          → Either created
              (ended (returned false))
              i
              (answered is_success t i reply (get_elem? t.phases i))
      fresh_answered t reply (inl h) = rw h (inl h)
      fresh_answered t reply (inr h) = rw h (inr h)

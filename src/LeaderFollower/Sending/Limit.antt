-- ===== src/LeaderFollower/Sending/Limit.antt =====
-- How many requests of a `Replicator` (leader_follower/leader.py) are out at once, and that none goes
-- out once the client is closed.
use kv_replication_lab.Prelude.{
  ℕ, zero, suc, ◌+◌, ◌≤◌, ◌≡◌, refl, ap, Bool, true, false, Option, none, some, List, [], ◌∷◌, ◌++◌,
  get_elem?, arith, nat_eq, if_cases,
}
use kv_replication_lab.Common.Replies.{Reply}
use kv_replication_lab.Common.Server.{ReplicateResponse}
use kv_replication_lab.Common.Waiting.{returned, raised}
use kv_replication_lab.LeaderFollower.Replicator.{after_post}
use kv_replication_lab.LeaderFollower.Sending.{
  max_concurrent_replicate_calls, Phase, created, queued, posting, ended, Sends, Event, spawn,
  close, resume, answer, initial, set_at, post, acquire, resumed, answered, step, run,
}

abbrev pub total : (Phase → ℕ) → List Phase → ℕ
total f [] = 0
total f (p ∷ ps) = f p + total f ps

-- Setting one phase changes a total by what the two phases count.
pub total-set_at :
    (f : Phase → ℕ) (i : ℕ) (p q : Phase) (ps : List Phase)
    → get_elem? ps i ≡ some p
    → total f (set_at i q ps) + f p ≡ total f ps + f q
total-set_at f i p q [] h = cc h
total-set_at f zero p q (r ∷ ps) h = let same : r ≡ p = cc h in omega (arith, ap f same)
total-set_at f (suc i) p q (r ∷ ps) h = omega (arith, total-set_at f i p q ps h)

pub total-append :
    (f : Phase → ℕ) (ps qs : List Phase) → total f (ps ++ qs) ≡ total f ps + total f qs
total-append f [] qs = omega arith
total-append f (p ∷ ps) qs = omega (arith, total-append f ps qs)

pub true_is_not_false : {b : Bool} → b ≡ true → ¬ (b ≡ false)
true_is_not_false p q = cc

pub get_elem-set_at :
    (i : ℕ) (p q : Phase) (ps : List Phase)
    → get_elem? ps i ≡ some p
    → get_elem? (set_at i q ps) i ≡ some q
get_elem-set_at i p q [] h = cc h
get_elem-set_at zero p q (r ∷ ps) h = refl
get_elem-set_at (suc i) p q (r ∷ ps) h = get_elem-set_at i p q ps h

abbrev pub out : Phase → ℕ
out created = 0
out queued = 0
out posting = 1
out (ended r) = 0

-- The semaphore's value and the requests that are out add up to the limit.
abbrev pub IsLimited : Sends → Type 0
IsLimited s = s.value + total out s.phases ≡ max_concurrent_replicate_calls

module _ (is_success : ℕ → Bool) where
  acquire-IsLimited :
      (s : Sends) (i : ℕ) (p : Phase)
      → get_elem? s.phases i ≡ some p
      → out p ≡ 0
      → IsLimited s
      → IsLimited (acquire is_success s i)
  unfolding acquire post
  acquire-IsLimited s i p at none_out h =
      if_cases IsLimited (nat_eq s.value 0) _ _
        (λ full. omega (arith, h, none_out, total-set_at out i p queued s.phases at))
        (λ free.
          if_cases IsLimited s.is_closed _ _
            (λ closed. omega (arith, h, none_out, total-set_at out i p (ended raised) s.phases at))
            (λ still_open. ground (arith, h, none_out, total-set_at out i p posting s.phases at)))

  resumed-IsLimited :
      (s : Sends) (i : ℕ) (p : Option Phase)
      → get_elem? s.phases i ≡ p
      → IsLimited s
      → IsLimited (resumed is_success s i p)
  resumed-IsLimited s i none at h = h
  resumed-IsLimited s i (some posting) at h = h
  resumed-IsLimited s i (some (ended r)) at h = h
  resumed-IsLimited s i (some queued) at h = acquire-IsLimited s i queued at refl h
  resumed-IsLimited s i (some created) at h =
      if_cases IsLimited s.is_closed _ _
        (λ closed.
          omega (arith, h, total-set_at out i created (ended (returned false)) s.phases at))
        (λ still_open. acquire-IsLimited s i created at refl h)

  answered-IsLimited :
      (s : Sends) (i : ℕ) (reply : Reply ReplicateResponse) (p : Option Phase)
      → get_elem? s.phases i ≡ p
      → IsLimited s
      → IsLimited (answered is_success s i reply p)
  answered-IsLimited s i reply none at h = h
  answered-IsLimited s i reply (some created) at h = h
  answered-IsLimited s i reply (some queued) at h = h
  answered-IsLimited s i reply (some (ended r)) at h = h
  answered-IsLimited s i reply (some posting) at h =
      omega (arith, h, total-set_at out i posting (ended (after_post is_success reply)) s.phases at)

  pub step-IsLimited : (e : Event) (s : Sends) → IsLimited s → IsLimited (step is_success e s)
  unfolding step
  step-IsLimited spawn s h = omega (arith, h, total-append out s.phases (created ∷ []))
  step-IsLimited close s h = h
  step-IsLimited (resume i) s h = resumed-IsLimited s i _ refl h
  step-IsLimited (answer i reply) s h = answered-IsLimited s i reply _ refl h

  pub run-IsLimited : (es : List Event) (s : Sends) → IsLimited s → IsLimited (run is_success es s)
  unfolding run
  run-IsLimited [] s h = h
  run-IsLimited (e ∷ es) s h = run-IsLimited es (step is_success e s) (step-IsLimited e s h)

  -- However the calls of `_send` interleave, and however many writes make them, there are never
  -- more than 256 requests out at once.
  pub requests_out_le :
      (es : List Event)
      → total out (run is_success es initial).phases ≤ max_concurrent_replicate_calls
  requests_out_le es = omega (arith, run-IsLimited es initial (omega arith))

  -- The client stays closed, and no more requests are out than in another state.
  abbrev pub StaysClosed : Sends → Sends → Type 0
  StaysClosed s t = (t.is_closed ≡ true) × (total out t.phases ≤ total out s.phases)

  closed_acquire :
      (s : Sends) (i : ℕ) (p : Phase)
      → get_elem? s.phases i ≡ some p
      → s.is_closed ≡ true
      → StaysClosed s (acquire is_success s i)
  unfolding acquire post
  closed_acquire s i p at closed =
      if_cases (StaysClosed s) (nat_eq s.value 0) _ _
        (λ full. (closed, omega (arith, total-set_at out i p queued s.phases at)))
        (λ free.
          if_cases (StaysClosed s) s.is_closed _ _
            (λ c. (closed, omega (arith, total-set_at out i p (ended raised) s.phases at)))
            (λ still_open. absurd (true_is_not_false closed still_open)))

  closed_resumed :
      (s : Sends) (i : ℕ) (p : Option Phase)
      → get_elem? s.phases i ≡ p
      → s.is_closed ≡ true
      → StaysClosed s (resumed is_success s i p)
  closed_resumed s i none at closed = (closed, omega arith)
  closed_resumed s i (some posting) at closed = (closed, omega arith)
  closed_resumed s i (some (ended r)) at closed = (closed, omega arith)
  closed_resumed s i (some queued) at closed = closed_acquire s i queued at closed
  closed_resumed s i (some created) at closed =
      if_cases (StaysClosed s) s.is_closed _ _
        (λ c.
          (closed, omega (arith, total-set_at out i created (ended (returned false)) s.phases at)))
        (λ still_open. closed_acquire s i created at closed)

  closed_answered :
      (s : Sends) (i : ℕ) (reply : Reply ReplicateResponse) (p : Option Phase)
      → get_elem? s.phases i ≡ p
      → s.is_closed ≡ true
      → StaysClosed s (answered is_success s i reply p)
  closed_answered s i reply none at closed = (closed, omega arith)
  closed_answered s i reply (some created) at closed = (closed, omega arith)
  closed_answered s i reply (some queued) at closed = (closed, omega arith)
  closed_answered s i reply (some (ended r)) at closed = (closed, omega arith)
  closed_answered s i reply (some posting) at closed = (
    closed,
    omega (arith, total-set_at out i posting (ended (after_post is_success reply)) s.phases at),
  )

  pub closed_step :
      (e : Event) (s : Sends) → s.is_closed ≡ true → StaysClosed s (step is_success e s)
  unfolding step
  closed_step spawn s closed = (closed, omega (arith, total-append out s.phases (created ∷ [])))
  closed_step close s closed = (refl, omega arith)
  closed_step (resume i) s closed = closed_resumed s i _ refl closed
  closed_step (answer i reply) s closed = closed_answered s i reply _ refl closed

  -- Once the client is closed no further request goes out, whatever happens afterwards.
  pub closed_sends_nothing :
      (es : List Event) (s : Sends)
      → s.is_closed ≡ true
      → total out (run is_success es s).phases ≤ total out s.phases
  unfolding run
  closed_sends_nothing [] s closed = omega arith
  closed_sends_nothing (e ∷ es) s closed =
      let (still_closed, le) = closed_step e s closed in
      omega (arith, le, closed_sends_nothing es (step is_success e s) still_closed)

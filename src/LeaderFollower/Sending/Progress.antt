-- ===== src/LeaderFollower/Sending/Progress.antt =====
-- That the calls of `_send` (leader_follower/leader.py) come to their ends: none waits for the
-- semaphore for ever.
use kv_replication_lab.Prelude.{
  ℕ, zero, suc, ◌+◌, ◌*◌, length, ◌≤◌, ◌<◌, ◌≡◌, ◌≢◌, refl, Bool, true, false, Option, none, some,
  List, [], ◌∷◌, All, get_elem?, arith, nat_eq, nat_eq_iff, if_cases, if◌then◌else◌,
}
use kv_replication_lab.Common.Replies.{Reply, http_error}
use kv_replication_lab.Common.Server.{ReplicateResponse}
use kv_replication_lab.Common.Waiting.{returned, raised}
use kv_replication_lab.LeaderFollower.Replicator.{after_post}
use kv_replication_lab.LeaderFollower.Sending.{
  Phase, created, queued, posting, ended, Sends, Event, spawn, close, resume, answer, initial, post,
  acquire, step, run,
}
use kv_replication_lab.LeaderFollower.Sending.Limit.{
  total, total-set_at, out, IsLimited, step-IsLimited, run-IsLimited,
}

-- How many steps a call has before it at most.
abbrev pub weight : Phase → ℕ
weight created = 3
weight queued = 2
weight posting = 1
weight (ended r) = 0

abbrev pub work : Sends → ℕ
work s = total weight s.phases

abbrev pub IsEnded : Phase → Type 0
IsEnded created = ⊥
IsEnded queued = ⊥
IsEnded posting = ⊥
IsEnded (ended r) = Unit

more_than_none : {w : ℕ} (n : ℕ) → w + n ≡ 0 → ¬ (0 < w)
more_than_none n h k = omega (arith, h, k)

work-le : (ps : List Phase) → total weight ps ≤ 3 * length ps
work-le [] = omega arith
work-le (created ∷ ps) = omega (arith, work-le ps)
work-le (queued ∷ ps) = omega (arith, work-le ps)
work-le (posting ∷ ps) = omega (arith, work-le ps)
work-le (ended r ∷ ps) = omega (arith, work-le ps)

work-All : (ps : List Phase) → total weight ps ≡ 0 → All IsEnded ps
work-All [] h = tt
work-All (created ∷ ps) h = absurd (more_than_none (total weight ps) h (omega arith))
work-All (queued ∷ ps) h = absurd (more_than_none (total weight ps) h (omega arith))
work-All (posting ∷ ps) h = absurd (more_than_none (total weight ps) h (omega arith))
work-All (ended r ∷ ps) h = (tt, work-All ps (omega (arith, h)))

abbrev pub is_posting : Phase → Bool
is_posting created = false
is_posting queued = false
is_posting posting = true
is_posting (ended r) = false

abbrev pub is_waiting : Phase → Bool
is_waiting created = true
is_waiting queued = true
is_waiting posting = false
is_waiting (ended r) = false

abbrev next_index : Option ℕ → Option ℕ
next_index none = none
next_index (some i) = some (suc i)

abbrev first_with : (Phase → Bool) → List Phase → Option ℕ
first_with p [] = none
first_with p (q ∷ qs) = let later = next_index (first_with p qs) in if p q then some 0 else later

-- What a search gives: the place of such a phase, or that there is none.
abbrev Found : (Phase → Bool) → List Phase → Option ℕ → Type 0
Found p ps none = All (λ q. p q ≡ false) ps
Found p ps (some i) = (q : Phase) × (get_elem? ps i ≡ some q) × (p q ≡ true)

first_with-Found : (p : Phase → Bool) (ps : List Phase) → Found p ps (first_with p ps)
first_with-Found p [] = tt
first_with-Found p (q ∷ qs) =
    if_cases (Found p (q ∷ qs)) (p q) _ _ (λ here. (q, refl, here))
      (λ not_here. later not_here (first_with p qs) (first_with-Found p qs))
  where
    later : p q ≡ false → (o : Option ℕ) → Found p qs o → Found p (q ∷ qs) (next_index o)
    later not_here none all = (not_here, all)
    later not_here (some i) found = found

-- What the event loop can do next for a call that has not ended: hand it the answer to its request,
-- or run it while the semaphore's value is not 0. A closed client and new calls are no progress.
abbrev pub IsEnabled : Sends → Event → Type 0
IsEnabled s spawn = ⊥
IsEnabled s close = ⊥
IsEnabled s (resume i) =
    (q : Phase) × (get_elem? s.phases i ≡ some q) × (is_waiting q ≡ true) × (s.value ≢ 0)
IsEnabled s (answer i reply) = get_elem? s.phases i ≡ some posting

abbrev attend : Option ℕ → Event
attend none = close
attend (some i) = resume i

-- Answers a request that is out; if there is none, resumes a call that has not come so far.
abbrev pub first_event : (ℕ → Reply ReplicateResponse) → Sends → Event
first_event replies s = elim (first_with is_posting s.phases) [
  | some i ↦ answer i (replies i)
  | none ↦ attend (first_with is_waiting s.phases)
]

none_out : (ps : List Phase) → All (λ q. is_posting q ≡ false) ps → total out ps ≡ 0
none_out [] h = refl
none_out (created ∷ ps) (h, hs) = omega (arith, none_out ps hs)
none_out (queued ∷ ps) (h, hs) = omega (arith, none_out ps hs)
none_out (posting ∷ ps) (h, hs) = cc h
none_out (ended r ∷ ps) (h, hs) = omega (arith, none_out ps hs)

none_left :
    (ps : List Phase)
    → All (λ q. is_posting q ≡ false) ps
    → All (λ q. is_waiting q ≡ false) ps
    → total weight ps ≡ 0
none_left [] h k = refl
none_left (created ∷ ps) h (k, ks) = cc k
none_left (queued ∷ ps) h (k, ks) = cc k
none_left (posting ∷ ps) (h, hs) k = cc h
none_left (ended r ∷ ps) (h, hs) (k, ks) = omega (arith, none_left ps hs ks)

abbrev no_reply : ℕ → Reply ReplicateResponse
no_reply i = http_error

above_zero : (n : ℕ) → nat_eq n 0 ≡ false → 0 < n
above_zero n h = ground arith

-- Where the semaphore's value and the requests that are out add up to the limit, and a call of
-- `_send` has not ended, there is an event that can take a call on: the answer to a request that is
-- out, or, where none is out, the resumption of a call, which then need not wait.
pub no_deadlock :
    (replies : ℕ → Reply ReplicateResponse) (s : Sends)
    → IsLimited s
    → 0 < work s
    → IsEnabled s (first_event replies s)
no_deadlock replies s limited left =
    choose (first_with is_posting s.phases) (first_with-Found is_posting s.phases)
      (first_with is_waiting s.phases) (first_with-Found is_waiting s.phases)
  where
    out_there :
        (i : ℕ) (q : Phase)
        → get_elem? s.phases i ≡ some q
        → is_posting q ≡ true
        → get_elem? s.phases i ≡ some posting
    out_there i created at is = cc is
    out_there i queued at is = cc is
    out_there i posting at is = at
    out_there i (ended r) at is = cc is

    choose :
        (o : Option ℕ)
        → Found is_posting s.phases o
        → (w : Option ℕ) → Found is_waiting s.phases w
        → IsEnabled s (elim o [ some i ↦ answer i (replies i) | none ↦ attend w ])
    choose (some i) (q, at, is) w g = out_there i q at is
    choose none f none g = absurd (nothing_left (none_left s.phases f g))
      where
        nothing_left : ¬ (work s ≡ 0)
        nothing_left e = omega (arith, e, left)
    choose none f (some i) (q, at, is) =
        (q, at, is, λ e. omega (arith, e, limited, none_out s.phases f))

module _ (is_success : ℕ → Bool) where
  abbrev Works : Sends → Sends → Type 0
  Works s t = work t < work s

  answered-Works :
      (s : Sends) (i : ℕ) (reply : Reply ReplicateResponse) (q : Phase)
      → get_elem? s.phases i ≡ some q
      → is_posting q ≡ true
      → Works s (step is_success (answer i reply) s)
  unfolding step
  answered-Works s i reply created at h = cc h
  answered-Works s i reply queued at h = cc h
  answered-Works s i reply (ended r) at h = cc h
  answered-Works s i reply posting at h = rw at (
      omega
        (arith, total-set_at weight i posting (ended (after_post is_success reply)) s.phases at))

  acquire-Works :
      (s : Sends) (i : ℕ) (q : Phase)
      → get_elem? s.phases i ≡ some q
      → 1 < weight q
      → s.value ≢ 0
      → Works s (acquire is_success s i)
  unfolding acquire post
  acquire-Works s i q at h free =
      if_cases (Works s) (nat_eq s.value 0) _ _
        (λ full. absurd (free ((nat_eq_iff s.value 0).0 full)))
        (λ b.
          if_cases (Works s) s.is_closed _ _
            (λ closed. omega (arith, h, total-set_at weight i q (ended raised) s.phases at))
            (λ still_open. omega (arith, h, total-set_at weight i q posting s.phases at)))

  resumed-Works :
      (s : Sends) (i : ℕ) (q : Phase)
      → get_elem? s.phases i ≡ some q
      → is_waiting q ≡ true
      → s.value ≢ 0
      → Works s (step is_success (resume i) s)
  unfolding step
  resumed-Works s i posting at h free = cc h
  resumed-Works s i (ended r) at h free = cc h
  resumed-Works s i queued at h free = rw at (acquire-Works s i queued at (omega arith) free)
  resumed-Works s i created at h free = rw at (
      if_cases (Works s) s.is_closed _ _
        (λ closed.
          omega (arith, total-set_at weight i created (ended (returned false)) s.phases at))
        (λ still_open. acquire-Works s i created at (omega arith) free))

  -- What can be done next takes the call nearer to its end.
  pub enabled-Works : (s : Sends) (e : Event) → IsEnabled s e → Works s (step is_success e s)
  enabled-Works s spawn h = elim h [ ]
  enabled-Works s close h = elim h [ ]
  enabled-Works s (resume i) (q, at, is, free) = resumed-Works s i q at is free
  enabled-Works s (answer i reply) at = answered-Works s i reply posting at refl

  -- The rounds of a scheduler, until all calls have ended.
  abbrev pub follow : (rounds : ℕ) → (ℕ → Sends → Event) → Sends → Sends
  follow zero pick s = s
  follow (suc n) pick s =
      let later = follow n pick (step is_success (pick n s) s) in
      if nat_eq (work s) 0 then s else later

  module _ (pick : ℕ → Sends → Event)
      (attentive : (n : ℕ) (s : Sends)
        → IsLimited s
        → ((e : Event) × IsEnabled s e)
        → IsEnabled s (pick n s)) where
    follow-All :
        (n : ℕ) (s : Sends) → IsLimited s → work s ≤ n → All IsEnded (follow n pick s).phases
    follow-All zero s limited le = work-All s.phases (omega (arith, le))
    follow-All (suc n) s limited le =
        if_cases (λ (t : Sends). All IsEnded t.phases) (nat_eq (work s) 0) _ _
          (λ none_left. work-All s.phases ((nat_eq_iff (work s) 0).0 none_left))
          (λ some_left.
            let left = above_zero (work s) some_left in
            let enabled =
              attentive n s limited (first_event no_reply s, no_deadlock no_reply s limited left) in
            let taken_on = enabled-Works s (pick n s) enabled in
            follow-All n (step is_success (pick n s) s)
              (step-IsLimited is_success (pick n s) s limited) (omega (arith, taken_on, le)))

    -- From each state that the calls can come to, every scheduler that does something that can be
    -- done for a call, while there is such a thing, brings all the calls to their ends, and needs at
    -- most three rounds for each call; and there is such a thing while a call has not ended.
    pub sends_end :
        (es : List Event)
        → All IsEnded
            (follow (work (run is_success es initial)) pick (run is_success es initial)).phases
          × (work (run is_success es initial) ≤ 3 * length (run is_success es initial).phases)
          × (0 < work (run is_success es initial)
              → (e : Event) × IsEnabled (run is_success es initial) e)
    sends_end es =
        let limited = run-IsLimited is_success es initial (omega arith) in
        (
          follow-All (work (run is_success es initial)) (run is_success es initial) limited
              (omega arith),
          work-le (run is_success es initial).phases,
          λ left. (
            first_event no_reply (run is_success es initial),
            no_deadlock no_reply (run is_success es initial) limited left,
          ),
        )

-- ===== src/SmokeTest/Polling.antt =====
-- That the polling loops of experiments/kafka_smoke_test.py end, and what they have seen then.
use kv_replication_lab.Prelude.{
  ℕ, zero, suc, ◌+◌, ◌-◌, ◌<◌, ◌≡◌, refl, ap, inl, inr, Bool, true, false, not, Option, none, some,
  List, [], ◌∷◌, All, arith, leb, nat_eq, nat_eq_iff, if_cases, Bool-cases,
}
use kv_replication_lab.Common.Waiting.{Outcome, returned, raised}
use kv_replication_lab.SmokeTest.Broker.{
  topic, raise_on_error_codes, poll_until, Recreation, followed_by, has_all_partitions, is_listed,
  recreate_topic,
}

-- The fuel has not run out.
abbrev pub IsDecided : {A : Type 0} → Option A → Type 0
IsDecided none = ⊥
IsDecided (some a) = Unit

abbrev pub Ticks : (ℕ → ℕ) → Type 0
Ticks now = (i : ℕ) → now i < now (i + 1)

pub early : (d t : ℕ) → leb d t ≡ false → t < d
early d t h = ground arith

poll_until-IsDecided :
    (now : ℕ → ℕ)
    → Ticks now
    → (holds : ℕ → Bool) (deadline fuel i : ℕ) → deadline + 1 - now i < fuel
    → IsDecided (poll_until fuel i deadline holds now)
unfolding poll_until
poll_until-IsDecided now ticks holds deadline zero i lt = absurd (omega (arith, lt))
poll_until-IsDecided now ticks holds deadline (suc f) i lt =
    if_cases IsDecided (holds i) _ _ (λ h. tt)
      (λ h.
        if_cases IsDecided (leb deadline (now i)) _ _ (λ late. tt)
          (λ in_time.
            poll_until-IsDecided now ticks holds deadline f (i + 1)
              (omega (arith, lt, early deadline (now i) in_time, ticks i))))

followed_by-IsDecided :
    (o p : Option (Outcome (Unit {0}))) → IsDecided o → IsDecided p → IsDecided (followed_by o p)
followed_by-IsDecided none p h k = h
followed_by-IsDecided (some raised) p h k = tt
followed_by-IsDecided (some (returned u)) p h k = k

pub recreate_topic-IsDecided :
    (timeout : ℕ) (r : Recreation)
    → Ticks r.delete_clock
    → Ticks r.ready_clock
    → IsDecided (recreate_topic timeout (suc timeout) r)
unfolding recreate_topic
recreate_topic-IsDecided timeout r deleting getting_ready =
    if_cases IsDecided (is_listed topic r.existing) _ _
      (λ old. followed_by-IsDecided (some (raise_on_error_codes r.delete_errors)) _ tt (
        followed_by-IsDecided _ _
          (poll_until-IsDecided r.delete_clock deleting (λ i. not (is_listed topic (r.listed i)))
            (r.delete_clock 0 + timeout) (suc timeout) 1 (omega (arith, deleting 0)))
          created))
      (λ fresh. created)
  where
    created : IsDecided (
        followed_by (some (raise_on_error_codes r.create_errors)) (
          poll_until
            (suc timeout)
            1
            (r.ready_clock 0 + timeout)
            (λ i. has_all_partitions (r.partitions i))
            r.ready_clock))
    created = followed_by-IsDecided (some (raise_on_error_codes r.create_errors)) _ tt (
        poll_until-IsDecided r.ready_clock getting_ready (λ i. has_all_partitions (r.partitions i))
          (r.ready_clock 0 + timeout) (suc timeout) 1 (omega (arith, getting_ready 0)))

-- The topic has been recreated: no error codes, an old topic seen to be gone, and the new one seen to
-- have four partitions.
pub record IsRecreated (r : Recreation) : Type 0 where
  pub deleted :
      is_listed "kv-lab-kafka-smoke-test" r.existing ≡ true
      → All (λ c. c ≡ 0) r.delete_errors
        × ((k : ℕ) × (is_listed "kv-lab-kafka-smoke-test" (r.listed k) ≡ false))
  pub created : All (λ c. c ≡ 0) r.create_errors
  pub complete : (k : ℕ) × (r.partitions k ≡ some 4)

poll_until-holds :
    (holds : ℕ → Bool) (now : ℕ → ℕ) (deadline fuel i : ℕ)
    → poll_until fuel i deadline holds now ≡ some (returned tt)
    → (k : ℕ) × (holds k ≡ true)
unfolding poll_until
poll_until-holds holds now deadline zero i h = absurd (ground arith)
poll_until-holds holds now deadline (suc f) i h = elim (Bool-cases (holds i)) [
  | inl yes_now ↦ (i, yes_now)
  | inr not_now ↦ elim (Bool-cases (leb deadline (now i))) [
    | inl late ↦ absurd (cc (rw (not_now, late) at h))
    | inr in_time ↦ poll_until-holds holds now deadline f (i + 1) (rw (not_now, in_time) at h)
  ]
]

raise_on_error_codes-All :
    (codes : List ℕ) → raise_on_error_codes codes ≡ returned tt → All (λ c. c ≡ 0) codes
unfolding raise_on_error_codes
raise_on_error_codes-All [] h = tt
raise_on_error_codes-All (c ∷ cs) h = elim (Bool-cases (nat_eq c 0)) [
  | inl fine ↦ ((nat_eq_iff c 0).0 fine, raise_on_error_codes-All cs (rw fine at h))
  | inr bad ↦ absurd (cc (rw bad at h))
]

followed_by-both :
    (o : Outcome (Unit {0})) (p : Option (Outcome (Unit {0})))
    → followed_by (some o) p ≡ some (returned tt)
    → (o ≡ returned tt) × (p ≡ some (returned tt))
followed_by-both raised p h = absurd (cc h)
followed_by-both (returned tt) p h = (refl, h)

followed_by-polled :
    (o p : Option (Outcome (Unit {0})))
    → followed_by o p ≡ some (returned tt)
    → (o ≡ some (returned tt)) × (p ≡ some (returned tt))
followed_by-polled none p h = absurd (cc h)
followed_by-polled (some raised) p h = absurd (cc h)
followed_by-polled (some (returned tt)) p h = (refl, h)

all_partitions : (o : Option ℕ) → has_all_partitions o ≡ true → o ≡ some 4
all_partitions none h = cc h
all_partitions (some n) h = ap some ((nat_eq_iff n 4).0 h)

not_listed : (b : Bool) → not b ≡ true → b ≡ false
not_listed true h = cc h
not_listed false h = refl

pub recreate_topic-IsRecreated :
    (timeout fuel : ℕ) (r : Recreation)
    → recreate_topic timeout fuel r ≡ some (returned tt)
    → IsRecreated r
unfolding recreate_topic
recreate_topic-IsRecreated timeout fuel r h = elim (Bool-cases (is_listed topic r.existing)) [
  | inl old ↦
      let (deleted, polled) =
        followed_by-both (raise_on_error_codes r.delete_errors) _ (rw old at h) in
      let (gone, made) = followed_by-polled _ _ polled in
      let (k, absent) = poll_until-holds _ r.delete_clock _ fuel 1 gone in
      completed made
        (λ _. (raise_on_error_codes-All r.delete_errors deleted, (k, not_listed _ absent)))
  | inr new ↦ completed (rw new at h) (λ listed. absurd (cc (listed, new)))
]
  where
    completed :
        followed_by (some (raise_on_error_codes r.create_errors)) (
            poll_until fuel 1
              (r.ready_clock 0 + timeout)
              (λ i. has_all_partitions (r.partitions i))
              r.ready_clock)
          ≡ some (returned tt)
        → (is_listed topic r.existing ≡ true
            → All (λ c. c ≡ 0) r.delete_errors × ((k : ℕ) × (is_listed topic (r.listed k) ≡ false)))
        → IsRecreated r
    completed made deleted =
        let (created, polled) = followed_by-both (raise_on_error_codes r.create_errors) _ made in
        let (k, seen) = poll_until-holds _ r.ready_clock _ fuel 1 polled in
        record {
          deleted = deleted;
          created = raise_on_error_codes-All r.create_errors created;
          complete = (k, all_partitions (r.partitions k) seen);
        }

-- ===== src/MessageQueue/Topics/Polling.antt =====
-- How the polling loop of `reset_topic` (message_queue/topics.py) ends.
use kv_replication_lab.Prelude.{
  ℕ, zero, suc, ◌+◌, ◌≤◌, ◌<◌, ◌≡◌, refl, ◌⊎◌, inl, inr, ◌↔◌, ◌-◌, String, true, false, Option,
  some, List, [], ◌∷◌, arith, Bool-cases, eq_iff, leb,
}
use kv_replication_lab.MessageQueue.Topics.{
  Ended, done, runtime_error, timeout_error, TopicError, contains, raise_on_topic_errors,
  poll_deleted, ensure_topic_exists, reset_topic,
}

module _ (for_code : ℕ → String) where
  -- The check of a response passes exactly when each entry has the code 0 or one of the tolerated
  -- class.
  pub raise_on_topic_errors_iff :
      (tolerate : String) (t : String) (c : ℕ) (es : List TopicError)
      → (raise_on_topic_errors for_code ((t, c) ∷ es) tolerate ≡ done) ↔ (
          ((c ≡ 0) ⊎ (for_code c ≡ tolerate)) × (raise_on_topic_errors for_code es tolerate ≡ done))
  unfolding raise_on_topic_errors
  raise_on_topic_errors_iff tolerate t c es = ground (arith, eq_iff (for_code c) tolerate)

  raise_cases :
      (es : List TopicError) (tolerate : String)
      → (raise_on_topic_errors for_code es tolerate ≡ done)
        ⊎ (raise_on_topic_errors for_code es tolerate ≡ runtime_error)
  unfolding raise_on_topic_errors
  raise_cases [] tolerate = inl refl
  raise_cases (e ∷ es) tolerate = ground (arith, raise_cases es tolerate)

  ensure_cases :
      (topic : String) (listed : List String) (es : List TopicError)
      → (ensure_topic_exists for_code topic listed es ≡ done)
        ⊎ (ensure_topic_exists for_code topic listed es ≡ runtime_error)
  unfolding ensure_topic_exists
  ensure_cases topic listed es = ground (arith, raise_cases es "TopicAlreadyExistsError")

module _ (for_code : ℕ → String) (topic : String) (listed : ℕ → List String) (now : ℕ → ℕ)
    (ticks : (i : ℕ) → now i < now (i + 1)) where
  -- How polling ends: at some round, the topic is gone, or it is not and the time is up.
  abbrev Polled : ℕ → Option Ended → Type 0
  Polled deadline e =
      (k : ℕ) × (((e ≡ some done) × (contains for_code topic (listed k) ≡ false))
        ⊎ ((e ≡ some timeout_error)
            × (contains for_code topic (listed k) ≡ true)
            × (deadline ≤ now k)))

  poll_deleted_total :
      (fuel i deadline : ℕ)
      → deadline - now i < fuel
      → Polled deadline (poll_deleted for_code fuel i topic deadline listed now)
  unfolding poll_deleted
  poll_deleted_total zero i deadline lt = absurd (omega arith)
  poll_deleted_total (suc f) i deadline lt =
      elim (Bool-cases (contains for_code topic (listed i))) [
        | inr gone ↦ (i, inl (rw gone, gone))
        | inl there ↦ elim (Bool-cases (leb deadline (now i))) [
          | inl late ↦ (i, inr (rw (there, late), there, ground arith))
          | inr early ↦
              rw (there, early) (poll_deleted_total f (i + 1) deadline (ground (arith, ticks i)))
        ]
      ]

  -- On a clock that advances in every round: given enough rounds, one for each tick of the timeout and one more, a reset ends. If it is
  -- done, the topic was absent at the start or in some later listing, and making sure of the topic
  -- again succeeded; if it times out, the topic was still listed when the time was up.
  pub reset_topic_total :
      (timeout : ℕ) (delete_errors create_errors : List TopicError) (listed_after : List String)
      → (e : Ended) × (reset_topic for_code timeout
            (suc timeout)
            topic
            listed
            delete_errors
            now
            listed_after
            create_errors
          ≡ some e)
        × (e ≡ done
            → ((k : ℕ) × (contains for_code topic (listed k) ≡ false))
              × (ensure_topic_exists for_code topic listed_after create_errors ≡ done))
        × (e ≡ timeout_error
            → (k : ℕ) × (contains for_code topic (listed k) ≡ true) × (now 0 + timeout ≤ now k))
  unfolding reset_topic
  reset_topic_total timeout delete_errors create_errors listed_after =
      elim (Bool-cases (contains for_code topic (listed 0))) [
        | inr absent ↦ (
          ensured,
          rw absent,
          λ e. ((0, absent), e),
          λ e. elim (ensure_cases for_code topic listed_after create_errors) [
            | inl q ↦ absurd (ground arith)
            | inr q ↦ absurd (ground arith)
          ],
        )
        | inl there ↦ elim (raise_cases for_code delete_errors "UnknownTopicOrPartitionError") [
          | inr refused ↦ (
            runtime_error,
            rw (there, refused),
            λ e. absurd (ground arith),
            λ e. absurd (ground arith),
          )
          | inl deleted ↦
              let (k, how) =
                poll_deleted_total (suc timeout) 1 (now 0 + timeout) (omega (arith, ticks 0)) in
              elim how [
                | inl (polled, gone) ↦ (
                  ensured,
                  rw (there, deleted, polled),
                  λ e. ((k, gone), e),
                  λ e. elim (ensure_cases for_code topic listed_after create_errors) [
                    | inl q ↦ absurd (ground arith)
                    | inr q ↦ absurd (ground arith)
                  ],
                )
                | inr (polled, still, late) ↦ (
                  timeout_error,
                  rw (there, deleted, polled),
                  λ e. absurd (ground arith),
                  λ e. (k, still, late),
                )
              ]
        ]
      ]
    where
      ensured : Ended
      ensured = ensure_topic_exists for_code topic listed_after create_errors

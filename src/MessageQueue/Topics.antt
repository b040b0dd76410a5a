-- ===== src/MessageQueue/Topics.antt =====
-- message_queue/topics.py: the topic is created if it is missing, and reset by deleting it, waiting
-- until it is gone, and creating it again.
--
-- What the broker answers is an argument: the topics that each `list_topics()` lists, and the error
-- codes of a create or a delete. `for_code` is aiokafka's, from a code to the name of its class;
-- the clock of `time.monotonic()` is read in every round of the polling loop.
pub mod Polling
use kv_replication_lab.Prelude.{
  ℕ, zero, suc, ◌+◌, String, Bool, true, false, not, ◌&&◌, ◌||◌, Option, none, some, List, [], ◌∷◌,
  nat_eq, leb, ◌==◌, if◌then◌else◌,
}
use mathlib.Core.Option

pub data Ended : Type 0 where
  done runtime_error timeout_error : Ended

-- One entry of `topic_errors`: the topic and its `error_code`
abbrev pub TopicError : Type 0
TopicError = String × ℕ

module _ (for_code : ℕ → String) where
  -- `_raise_on_topic_errors`
  unfoldable pub raise_on_topic_errors : List TopicError → (tolerate : String) → Ended
  raise_on_topic_errors [] tolerate = done
  raise_on_topic_errors ((topic, code) ∷ entries) tolerate =
      let rest = raise_on_topic_errors entries tolerate in
      if not (nat_eq code 0) && not (for_code code == tolerate) then runtime_error else rest

  abbrev pub contains : String → List String → Bool
  contains x [] = false
  contains x (t ∷ ts) = (t == x) || contains x ts

  -- `ensure_topic_exists`
  unfoldable pub ensure_topic_exists :
      (topic : String) → (listed : List String) → (topic_errors : List TopicError) → Ended
  ensure_topic_exists topic listed topic_errors =
      if contains topic listed
      then done
      else raise_on_topic_errors topic_errors "TopicAlreadyExistsError"

  -- The `while` loop of `reset_topic`, from a round on; `none` means that the fuel ran out.
  unfoldable pub poll_deleted :
      (fuel round : ℕ) (topic : String) (deadline : ℕ)
      → (listed : ℕ → List String) → (now : ℕ → ℕ) → Option Ended
  poll_deleted zero i topic deadline listed now = none
  poll_deleted (suc f) i topic deadline listed now =
      let rest = poll_deleted f (i + 1) topic deadline listed now in
      if contains topic (listed i)
      then (if leb deadline (now i) then some timeout_error else rest)
      else some done

  abbrev pub and_then : Ended → Ended → Ended
  and_then done e = e
  and_then runtime_error e = runtime_error
  and_then timeout_error e = timeout_error

  -- `reset_topic`; the topics of round 0 are those that are listed first, the clock of round 0 is
  -- the one that sets the deadline.
  unfoldable pub reset_topic :
      (timeout fuel : ℕ) (topic : String)
      → (listed : ℕ → List String) → (delete_errors : List TopicError) → (now : ℕ → ℕ)
      → (listed_after : List String) → (create_errors : List TopicError) → Option Ended
  reset_topic timeout fuel topic listed delete_errors now listed_after create_errors =
      let ensured = ensure_topic_exists topic listed_after create_errors in
      if contains topic (listed 0)
      then elim (raise_on_topic_errors delete_errors "UnknownTopicOrPartitionError") [
        | done ↦
            Option.map (λ e. and_then e ensured)
              (poll_deleted fuel 1 topic (now 0 + timeout) listed now)
        | runtime_error ↦ some runtime_error
        | timeout_error ↦ some timeout_error
      ]
      else some ensured

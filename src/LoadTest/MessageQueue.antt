-- ===== src/LoadTest/MessageQueue.antt =====
-- The workers of the message-queue load test (experiments/mq_staleness_load_test.py): writes go to
-- the producer, reads to a follower, and each stale read is followed by a query of that follower's
-- lag.
pub mod Lag
use kv_replication_lab.Prelude.{
  ℕ, ◌+◌, String, Bool, true, false, not, ◌||◌, Option, none, some, List, [], ◌∷◌, nat_eq, ltb,
  if◌then◌else◌,
}
use kv_replication_lab.Prelude.Int.{ℤ}
use kv_replication_lab.Common.Waiting.{Outcome, returned, raised}
use kv_replication_lab.LoadTest.Plan.{RequestPlan}
use kv_replication_lab.LoadTest.Records.{
  next_value, SourceEntry, StaleEvent, snapshot, Stats, new_stats, classify_exception,
  record_failure, record_stale,
}
use kv_replication_lab.LoadTest.Worker.{
  Shared, Answer, http_error, response, Moment, finish_write, count_comparable, count_request,
  target_of, run_items,
}

-- What happens while one request of the plan is carried out, the query of the lag included.
pub record LagMoment : Type 0 where
  pub request : Moment Shared
  pub during_lag : Shared → Shared
  pub lag_answer : Answer ℤ

-- `stats.stale_events[-1]["lag_at_stale_read"] = lag`
abbrev pub set_last : Option ℤ → List StaleEvent → List StaleEvent
set_last lag [] = []
set_last lag (e ∷ []) = record e { lag_at_stale_read = some lag } ∷ []
set_last lag (e ∷ e' ∷ rest) = e ∷ set_last lag (e' ∷ rest)

abbrev pub attach : Stats → Outcome (Option ℤ) → Outcome Stats
attach stats raised = raised
attach stats (returned lag) =
    returned (record stats { stale_events = set_last lag stats.stale_events })

-- `_do_write`
unfoldable pub do_write :
    Moment Shared → (producer_node_id : String) → Shared → Stats → String → Shared × Outcome Stats
do_write m producer_node_id shared stats key =
    let (counter, value) = next_value shared.counter in
    finish_write (m.during (record shared { counter = counter })) producer_node_id m.now stats key
      value m.write_answer

-- `is_success` is what `raise_for_status` accepts.
module _ (is_success : ℕ → Bool) where
  abbrev pub lag_of : Option ℤ → Outcome (Option ℤ)
  lag_of none = raised
  lag_of (some total_lag) = returned (some total_lag)

  -- `_query_lag`; a body without a `total_lag` that `int` takes raises
  unfoldable pub query_lag : Answer ℤ → Outcome (Option ℤ)
  query_lag (http_error exc) = returned none
  query_lag (response status_code body) =
      if is_success status_code then lag_of body else returned none

  -- The query for the read that has just been recorded as stale.
  abbrev pub sample_lag : LagMoment → Shared → Stats → Shared × Outcome Stats
  sample_lag m shared stats = (m.during_lag shared, attach stats (query_lag m.lag_answer))

  abbrev pub compare :
      LagMoment → Shared → String → SourceEntry → Stats → String → Option ℕ → Shared × Outcome Stats
  compare m shared node_id expected_before stats key none = (shared, raised)
  compare m shared node_id expected_before stats key (some actual_timestamp) =
      if ltb actual_timestamp expected_before.timestamp
      then sample_lag m shared (
          record_stale stats key node_id expected_before (some actual_timestamp) "follower_node_id"
            m.request.now)
      else (shared, returned stats)

  abbrev pub finish_read :
      LagMoment → Shared → String → SourceEntry → Stats → String → Answer ℕ → Shared × Outcome Stats
  finish_read m shared node_id expected_before stats key (http_error exc) = (
    shared,
    returned (record_failure stats "read" (classify_exception exc) key node_id none m.request.now),
  )
  finish_read m shared node_id expected_before stats key (response status_code body) =
      if not (nat_eq status_code 200 || nat_eq status_code 404)
      then (
        shared,
        returned
            (record_failure stats "read" "non_2xx" key node_id (some status_code) m.request.now),
      )
      else if nat_eq status_code 404
      then sample_lag m shared (
          record_stale (count_comparable stats) key node_id expected_before none "follower_node_id"
            m.request.now)
      else compare m shared node_id expected_before (count_comparable stats) key body

  -- `_do_read`, from the snapshot that it takes first; without one no request is made
  unfoldable pub do_read :
      LagMoment
      → (name_of : ℕ → String) → Shared
      → Option ℕ
      → Option SourceEntry
      → Stats
      → String
      → Shared × Outcome Stats
  do_read m name_of shared none expected_before stats key = (shared, raised)
  do_read m name_of shared (some port) none stats key = (shared, returned stats)
  do_read m name_of shared (some port) (some expected_before) stats key =
      finish_read m (m.request.during shared) (name_of port) expected_before stats key
        m.request.read_answer

  module _ (follower_ports : List ℕ) (name_of : ℕ → String) (producer_node_id : String) where
    -- The body of the loop of `run_worker`; `name_of` is what `follower_node_ids` and its default
    -- give.
    unfoldable pub run_item : LagMoment → Shared → Stats → RequestPlan → Shared × Outcome Stats
    run_item m shared stats item =
        let at_start = m.request.before shared in
        if item.is_read
        then do_read m name_of at_start (target_of follower_ports item.read_target_index)
            (snapshot at_start.source_of_truth item.key) (count_request true stats) item.key
        else do_write m.request producer_node_id at_start (count_request false stats) item.key

    unfoldable pub run_worker : List (RequestPlan × LagMoment) → Shared → Shared × Outcome Stats
    unfolding run_item
    run_worker items shared = run_items run_item items shared new_stats

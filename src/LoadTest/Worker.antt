-- ===== src/LoadTest/Worker.antt =====
-- What the workers of the three load tests have in common (experiments/staleness_load_test.py,
-- experiments/leaderless_staleness_load_test.py, experiments/mq_staleness_load_test.py): what comes
-- of the answer to a request, and the loop over the requests of a chunk.
--
-- The other workers act on the shared objects whenever this one awaits: what they do to them is a
-- function of an environment, for each of the places where a request is waited for. A body that
-- `resp.json()` or the look-up of a field refuses raises out of the worker.
pub mod Bounds
pub mod Simulation
pub mod Names
pub mod Kept
pub mod Ends
use kv_replication_lab.Prelude.{
  ℕ, zero, suc, ◌+◌, ◌<◌, String, Bool, true, false, not, ◌&&◌, ◌||◌, Option, none, some, List, [],
  ◌∷◌, length, nat_eq, ltb, get_elem?, if◌then◌else◌,
}
use kv_replication_lab.Common.Waiting.{Outcome, returned, raised}
use kv_replication_lab.LoadTest.Plan.{RequestPlan}
use kv_replication_lab.LoadTest.Records.{
  GlobalCounter, next_value, SourceEntry, SourceOfTruth, record_write, snapshot, Stats, new_stats,
  HttpError, classify_exception, record_failure, record_stale,
}

-- The objects that the workers share.
pub record Shared : Type 0 where
  pub counter : GlobalCounter
  pub source_of_truth : SourceOfTruth

pub data Answer (A : Type 0) : Type 0 where
  http_error : HttpError → Answer A
  response : (status_code : ℕ) (body : Option A) → Answer A

-- `applied` and `timestamp` of a `PutResponse`
pub record WriteBody : Type 0 where
  pub applied : Bool
  pub timestamp : ℕ

-- What happens while one request of the plan is carried out, to the shared objects `S` too.
pub record Moment (S : Type 0) : Type 0 where
  pub before : S → S
  pub during : S → S
  pub write_answer : Answer WriteBody
  pub read_answer : Answer ℕ
  pub now : ℕ

abbrev pub record_applied : Shared → Stats → String → ℕ → Option WriteBody → Shared × Outcome Stats
record_applied shared stats key value none = (shared, raised)
record_applied shared stats key value (some body) = (
  if not body.applied then shared else record shared {
    source_of_truth = record_write shared.source_of_truth key value body.timestamp;
  },
  returned stats,
)

abbrev pub finish_write :
    Shared → (node_id : String) → ℕ → Stats → String → ℕ → Answer WriteBody → Shared × Outcome Stats
finish_write shared node_id now stats key value (http_error exc) =
    (shared, returned (record_failure stats "write" (classify_exception exc) key node_id none now))
finish_write shared node_id now stats key value (response status_code body) =
    if not (nat_eq status_code 200)
    then (
      shared,
      returned (record_failure stats "write" "non_2xx" key node_id (some status_code) now),
    )
    else record_applied shared stats key value body

abbrev pub compare :
    (node_id_field : String) → ℕ → String → SourceEntry → Stats → String → Option ℕ → Outcome Stats
compare node_id_field now node_id expected_before stats key none = raised
compare node_id_field now node_id expected_before stats key (some actual_timestamp) = returned (
    if ltb actual_timestamp expected_before.timestamp
    then record_stale stats key node_id expected_before (some actual_timestamp) node_id_field now
    else stats)

abbrev pub count_comparable : Stats → Stats
count_comparable stats = record stats { comparable_reads = stats.comparable_reads + 1 }

abbrev pub finish_read :
    (node_id_field : String) → ℕ → String → SourceEntry → Stats → String → Answer ℕ → Outcome Stats
finish_read node_id_field now node_id expected_before stats key (http_error exc) =
    returned (record_failure stats "read" (classify_exception exc) key node_id none now)
finish_read node_id_field now node_id expected_before stats key (response status_code body) =
    if not (nat_eq status_code 200 || nat_eq status_code 404)
    then returned (record_failure stats "read" "non_2xx" key node_id (some status_code) now)
    else if nat_eq status_code 404
    then returned
        (record_stale (count_comparable stats) key node_id expected_before none node_id_field now)
    else compare node_id_field now node_id expected_before (count_comparable stats) key body

abbrev pub count_request : Bool → Stats → Stats
count_request true stats = record stats {
  total_requests = stats.total_requests + 1;
  total_reads = stats.total_reads + 1;
}
count_request false stats = record stats {
  total_requests = stats.total_requests + 1;
  total_writes = stats.total_writes + 1;
}

-- `targets[item.read_target_index]`, where the index is asserted to be there
abbrev pub target_of : {A : Type 0} → List A → Option ℕ → Option A
target_of targets none = none
target_of targets (some i) = get_elem? targets i

abbrev pub go_on :
    {S : Type 0} → (S → Stats → S × Outcome Stats) → S × Outcome Stats → S × Outcome Stats
go_on next (shared, raised) = (shared, raised)
go_on next (shared, returned stats) = next shared stats

-- The loop of `run_worker`, over the requests of a chunk, each with its moment.
unfoldable pub run_items :
    {S M : Type 0}
    → (M → S → Stats → RequestPlan → S × Outcome Stats)
    → List (RequestPlan × M)
    → S
    → Stats
    → S × Outcome Stats
run_items step [] shared stats = (shared, returned stats)
run_items step ((item, m) ∷ rest) shared stats =
    go_on (run_items step rest) (step m shared stats item)

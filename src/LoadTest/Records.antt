-- ===== src/LoadTest/Records.antt =====
-- What a load test counts and records (experiments/_load_test_common.py).
--
-- Each method of a class with a lock is one atomic step. Times are natural numbers of some small
-- unit; a gap is 1000 times an integer number of them. A `Counter` is the list of its entries.
pub mod Counting
pub mod Source
use Prim.Native.Nat.{◌*◌}
use kv_replication_lab.Prelude.{
  ℕ, zero, suc, ◌+◌, ◌-◌, ◌<◌, String, Bool, true, false, not, ◌&&◌, ◌||◌, Option, none, some, List,
  [], ◌∷◌, ◌++◌, Dict, lookup, insert, ltb, ◌==◌, if◌then◌else◌, arith,
}
use kv_replication_lab.Prelude.Int.{ℤ, pos, negsuc, ◌-ℤ◌}

-- `GlobalCounter`: the next value of the `itertools.count()`
abbrev pub GlobalCounter : Type 0
GlobalCounter = ℕ

unfoldable pub next_value : GlobalCounter → GlobalCounter × ℕ
next_value counter = (suc counter, counter)

pub record SourceEntry : Type 0 where
  pub value : ℕ
  pub timestamp : ℕ

pub record SourceOfTruth : Type 0 where
  pub entries : Dict SourceEntry

-- `current is None or timestamp > current.timestamp`
abbrev pub takes_effect : ℕ → Option SourceEntry → Bool
takes_effect timestamp none = true
takes_effect timestamp (some current) = ltb current.timestamp timestamp

-- `SourceOfTruth.record`
unfoldable pub record_write : SourceOfTruth → String → (value timestamp : ℕ) → SourceOfTruth
record_write self key value timestamp =
    if takes_effect timestamp (lookup key self.entries)
    then record {
      entries = insert key (record { value = value; timestamp = timestamp }) self.entries;
    }
    else self

unfoldable pub snapshot : SourceOfTruth → String → Option SourceEntry
snapshot self key = lookup key self.entries

pub record FailureEvent : Type 0 where
  pub operation : String
  pub failure_type : String
  pub key : String
  pub node_id : String
  pub status_code : Option ℕ
  pub timestamp : ℕ

-- `actual_timestamp` is `none` where the source writes "missing". The message-queue test sets
-- `lag_at_stale_read` afterwards, to a lag or to None; it is `none` where it is not set. The node's
-- name stands under the key `node_id_field`, which the tests choose.
pub record StaleEvent : Type 0 where
  pub key : String
  pub node_id : String
  pub node_id_field : String
  pub expected_timestamp : ℕ
  pub actual_timestamp : Option ℕ
  pub staleness_gap_ms : ℤ
  pub lag_at_stale_read : Option (Option ℤ)

abbrev pub Counter : Type 0
Counter = List ((String × String) × ℕ)

-- `counter[key] += n`
abbrev pub count_up : (String × String) → ℕ → Counter → Counter
count_up key n [] = (key, n) ∷ []
count_up key n ((k, c) ∷ rest) =
    let later = count_up key n rest in
    if (key.0 == k.0) && (key.1 == k.1) then (k, c + n) ∷ rest else (k, c) ∷ later

-- `Counter.update`
abbrev pub count_all : Counter → Counter → Counter
count_all counter [] = counter
count_all counter ((k, c) ∷ rest) = count_all (count_up k c counter) rest

pub record Stats : Type 0 where
  pub total_requests : ℕ
  pub total_reads : ℕ
  pub total_writes : ℕ
  pub comparable_reads : ℕ
  pub stale_reads : ℕ
  pub stale_events : List StaleEvent
  pub failed_reads : ℕ
  pub failed_writes : ℕ
  pub failure_counts : Counter
  pub failure_events : List FailureEvent

-- `Stats()`
abbrev pub new_stats : Stats
new_stats = record {
  total_requests = 0;
  total_reads = 0;
  total_writes = 0;
  comparable_reads = 0;
  stale_reads = 0;
  stale_events = [];
  failed_reads = 0;
  failed_writes = 0;
  failure_counts = [];
  failure_events = [];
}

unfoldable pub total_failures : Stats → ℕ
total_failures self = self.failed_reads + self.failed_writes

-- A rate, exactly: the source has the nearest floating-point number. Two rates of fewer than 2 ^ 25
-- reads each are in the same order either way.
pub record Ratio : Type 0 where
  pub numerator : ℕ
  pub denominator : ℕ
  pub denominator_pos : 0 < denominator

abbrev pub percentage : (part whole : ℕ) → Ratio
percentage part zero = record { numerator = 0; denominator = 1; denominator_pos = omega arith }
percentage part (suc n) = record {
  numerator = 100 * part;
  denominator = suc n;
  denominator_pos = omega arith;
}

-- Stale reads in per cent of comparable reads
unfoldable pub staleness_rate : Stats → Ratio
staleness_rate self = percentage self.stale_reads self.comparable_reads

unfoldable pub merge : Stats → Stats → Stats
merge self other = record {
  total_requests = self.total_requests + other.total_requests;
  total_reads = self.total_reads + other.total_reads;
  total_writes = self.total_writes + other.total_writes;
  comparable_reads = self.comparable_reads + other.comparable_reads;
  stale_reads = self.stale_reads + other.stale_reads;
  stale_events = self.stale_events ++ other.stale_events;
  failed_reads = self.failed_reads + other.failed_reads;
  failed_writes = self.failed_writes + other.failed_writes;
  failure_counts = count_all self.failure_counts other.failure_counts;
  failure_events = self.failure_events ++ other.failure_events;
}

-- The classes of `httpx.HTTPError` that the code tells apart.
pub data HttpError : Type 0 where
  timeout_exception connect_error another_error : HttpError

unfoldable pub classify_exception : HttpError → String
classify_exception timeout_exception = "timeout"
classify_exception connect_error = "connection_error"
classify_exception another_error = "other_error"

-- `_record_failure`; the text of the detail is left out
unfoldable pub record_failure :
    Stats → (operation failure_type key node_id : String) (status_code : Option ℕ) (now : ℕ) → Stats
record_failure stats operation failure_type key node_id status_code now =
    let is_read = operation == "read" in
    record stats {
      failed_reads = if is_read then stats.failed_reads + 1 else stats.failed_reads;
      failed_writes = if is_read then stats.failed_writes else stats.failed_writes + 1;
      failure_counts = count_up (operation, failure_type) 1 stats.failure_counts;
      failure_events =
          stats.failure_events
          ++ (record {
            operation = operation;
            failure_type = failure_type;
            key = key;
            node_id = node_id;
            status_code = status_code;
            timestamp = now;
          }
              ∷ []);
    }

-- `1000 *` of an integer
abbrev pub thousand_times : ℤ → ℤ
thousand_times (pos n) = pos (1000 * n)
thousand_times (negsuc n) = negsuc (1000 * n + 999)

abbrev pub gap_of : (expected now : ℕ) → Option ℕ → ℤ
gap_of expected now none = thousand_times (pos now -ℤ pos expected)
gap_of expected now (some actual) = thousand_times (pos expected -ℤ pos actual)

-- `_record_stale`
unfoldable pub record_stale :
    Stats
    → (key node_id : String) → SourceEntry
    → (actual_timestamp : Option ℕ) (node_id_field : String) (now : ℕ) → Stats
record_stale stats key node_id expected actual_timestamp node_id_field now = record stats {
  stale_reads = stats.stale_reads + 1;
  stale_events =
      stats.stale_events
      ++ (record {
        key = key;
        node_id = node_id;
        node_id_field = node_id_field;
        expected_timestamp = expected.timestamp;
        actual_timestamp = actual_timestamp;
        staleness_gap_ms = gap_of expected.timestamp now actual_timestamp;
        lag_at_stale_read = none;
      }
          ∷ []);
}

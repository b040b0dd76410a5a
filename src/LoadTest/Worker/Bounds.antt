-- ===== src/LoadTest/Worker/Bounds.antt =====
-- The numbers that a worker of a load test comes to (experiments/staleness_load_test.py and the
-- two others).
use kv_replication_lab.Prelude.{
  ℕ, ◌+◌, ◌≤◌, ◌≡◌, refl, subst, suc, length, inl, inr, String, Bool, true, false, ◌||◌, Option,
  none, some, List, [], ◌∷◌, arith, nat_eq, ltb, Bool-cases, if◌then◌else◌,
}
use kv_replication_lab.Common.Waiting.{Outcome, returned, raised}
use kv_replication_lab.LoadTest.Plan.{RequestPlan}
use kv_replication_lab.LoadTest.Records.{
  SourceEntry, Stats, new_stats, record_failure, record_stale, total_failures,
}
use kv_replication_lab.LoadTest.Records.Counting.{
  IsConsistent, new_stats-IsConsistent, record_failure-IsConsistent, record_stale-IsConsistent,
}
use kv_replication_lab.LoadTest.Worker.{
  Shared, Answer, http_error, response, WriteBody, record_applied, finish_write, compare,
  finish_read, count_comparable, count_request, go_on, run_items,
}
use kv_replication_lab.LoadTest.Worker.Kept.{Holds}

-- After n requests: every request is a read or a write; a stale read is comparable; a read is
-- comparable, failed, or neither, never both, and a write fails at most once.
pub record IsBalanced (n : ℕ) (s : Stats) : Type 0 where
  pub handled : s.total_requests ≡ n
  pub consistent : IsConsistent s
  pub requests : s.total_requests ≡ s.total_reads + s.total_writes
  pub stale : s.stale_reads ≤ s.comparable_reads
  pub reads : s.comparable_reads + s.failed_reads ≤ s.total_reads
  pub writes : s.failed_writes ≤ s.total_writes

-- A request has been counted, and its outcome not yet.
pub record IsCounted (n : ℕ) (is_read : Bool) (s : Stats) : Type 0 where
  pub handled : s.total_requests ≡ n
  pub consistent : IsConsistent s
  pub requests : s.total_requests ≡ s.total_reads + s.total_writes
  pub stale : s.stale_reads ≤ s.comparable_reads
  pub reads : s.comparable_reads + s.failed_reads + (if is_read then 1 else 0) ≤ s.total_reads
  pub writes : s.failed_writes + (if is_read then 0 else 1) ≤ s.total_writes

pub new_stats-IsBalanced : IsBalanced 0 new_stats
new_stats-IsBalanced = record {
  handled = refl;
  consistent = new_stats-IsConsistent;
  requests = omega arith;
  stale = omega arith;
  reads = omega arith;
  writes = omega arith;
}

pub count_request-IsCounted :
    (n : ℕ) (is_read : Bool) (s : Stats)
    → IsBalanced n s
    → IsCounted (n + 1) is_read (count_request is_read s)
unfolding total_failures
count_request-IsCounted n true s h = record {
  handled = omega (arith, h.handled);
  consistent = record {
    failures = h.consistent.failures;
    kinds = h.consistent.kinds;
    stale = h.consistent.stale;
  };
  requests = omega (arith, h.requests);
  stale = h.stale;
  reads = omega (arith, h.reads);
  writes = omega (arith, h.writes);
}
count_request-IsCounted n false s h = record {
  handled = omega (arith, h.handled);
  consistent = record {
    failures = h.consistent.failures;
    kinds = h.consistent.kinds;
    stale = h.consistent.stale;
  };
  requests = omega (arith, h.requests);
  stale = h.stale;
  reads = omega (arith, h.reads);
  writes = omega (arith, h.writes);
}

module _ (n : ℕ) (is_read : Bool) (s : Stats) (h : IsCounted n is_read s) where
  pub settled : IsBalanced n s
  settled = record {
    handled = h.handled;
    consistent = h.consistent;
    requests = h.requests;
    stale = h.stale;
    reads = omega (arith, h.reads);
    writes = omega (arith, h.writes);
  }

module _ (n : ℕ) (s : Stats) (key node_id : String) (now : ℕ) where
  pub read_failed :
      IsCounted n true s
      → (kind : String) (status : Option ℕ)
      → IsBalanced n (record_failure s "read" kind key node_id status now)
  unfolding record_failure
  read_failed h kind status = record {
    handled = h.handled;
    consistent = record_failure-IsConsistent s h.consistent "read" kind key node_id status now;
    requests = h.requests;
    stale = h.stale;
    reads = omega (arith, h.reads);
    writes = omega (arith, h.writes);
  }

  pub write_failed :
      IsCounted n false s
      → (kind : String) (status : Option ℕ)
      → IsBalanced n (record_failure s "write" kind key node_id status now)
  unfolding record_failure
  write_failed h kind status = record {
    handled = h.handled;
    consistent = record_failure-IsConsistent s h.consistent "write" kind key node_id status now;
    requests = h.requests;
    stale = h.stale;
    reads = omega (arith, h.reads);
    writes = omega (arith, h.writes);
  }

  pub compared : IsCounted n true s → IsBalanced n (count_comparable s)
  unfolding total_failures
  compared h = record {
    handled = h.handled;
    consistent = record {
      failures = h.consistent.failures;
      kinds = h.consistent.kinds;
      stale = h.consistent.stale;
    };
    requests = h.requests;
    stale = omega (arith, h.stale);
    reads = omega (arith, h.reads);
    writes = omega (arith, h.writes);
  }

  pub found_stale :
      IsCounted n true s
      → (expected : SourceEntry) (actual : Option ℕ) (field : String)
      → IsBalanced n (record_stale (count_comparable s) key node_id expected actual field now)
  unfolding record_stale total_failures
  found_stale h expected actual field = record {
    handled = h.handled;
    consistent =
        record_stale-IsConsistent (count_comparable s) (compared h).consistent key node_id expected
          actual field now;
    requests = h.requests;
    stale = omega (arith, h.stale);
    reads = omega (arith, h.reads);
    writes = omega (arith, h.writes);
  }

-- What a worker ends with is balanced, if it has not raised.
abbrev pub Fine : ℕ → Outcome Stats → Type 0
Fine n = Holds (IsBalanced n)

if-IsBalanced :
    (n : ℕ) (b : Bool) (s t : Stats)
    → IsBalanced n s
    → IsBalanced n t
    → IsBalanced n (if b then s else t)
if-IsBalanced n true s t h k = h
if-IsBalanced n false s t h k = k

module _ (n now : ℕ) (node_id : String) (s : Stats) (key : String) where
  pub finish_read-Fine :
      (field : String)
      → IsCounted n true s
      → (e : SourceEntry) (a : Answer ℕ) → Fine n (finish_read field now node_id e s key a)
  finish_read-Fine field h e (http_error exc) = read_failed n s key node_id now h _ none
  finish_read-Fine field h e (response status body) =
      elim (Bool-cases (nat_eq status 200 || nat_eq status 404)) [
        | inr bad ↦ rw bad (read_failed n s key node_id now h _ (some status))
        | inl good ↦ elim (Bool-cases (nat_eq status 404)) [
          | inl missing ↦ rw (good, missing) (found_stale n s key node_id now h e none field)
          | inr found ↦ rw (good, found) (compare-Fine body)
        ]
      ]
    where
      compare-Fine :
          (b : Option ℕ) → Fine n (compare field now node_id e (count_comparable s) key b)
      compare-Fine none = tt
      compare-Fine (some actual) =
          if-IsBalanced n (ltb actual e.timestamp) _ _
            (found_stale n s key node_id now h e (some actual) field)
            (compared n s key node_id now h)

  pub finish_write-Fine :
      IsCounted n false s
      → (shared : Shared) (value : ℕ) (a : Answer WriteBody)
      → Fine n (finish_write shared node_id now s key value a).1
  finish_write-Fine h shared value (http_error exc) = write_failed n s key node_id now h _ none
  finish_write-Fine h shared value (response status body) = elim (Bool-cases (nat_eq status 200)) [
    | inr bad ↦ rw bad (write_failed n s key node_id now h _ (some status))
    | inl good ↦ rw good (applied-Fine body)
  ]
    where
      applied-Fine : (b : Option WriteBody) → Fine n (record_applied shared s key value b).1
      applied-Fine none = tt
      applied-Fine (some b) = settled n false s h

go_on-Fine :
    {S : Type 0} (n : ℕ) (next : S → Stats → S × Outcome Stats) (total : ℕ)
    → ((shared : S) (s : Stats) → IsBalanced n s → Fine total (next shared s).1)
    → (r : S × Outcome Stats) → Fine n r.1
    → Fine total (go_on next r).1
go_on-Fine n next total h (shared, raised) f = tt
go_on-Fine n next total h (shared, returned s) f = h shared s f

module _ {S M : Type 0} (step : M → S → Stats → RequestPlan → S × Outcome Stats)
    (step-Fine : (n : ℕ) (m : M) (shared : S) (s : Stats) (item : RequestPlan)
      → IsBalanced n s
      → Fine (n + 1) (step m shared s item).1) where
  run_items_from :
      (items : List (RequestPlan × M)) (n : ℕ) (shared : S) (s : Stats)
      → IsBalanced n s
      → Fine (n + length items) (run_items step items shared s).1
  unfolding run_items
  run_items_from [] n shared s h = subst (λ k. Fine k (returned s)) (nothing_more n) h
    where
      nothing_more : (n : ℕ) → n ≡ n + 0
      nothing_more n = omega arith
  run_items_from ((item, m) ∷ rest) n shared s h =
      subst (λ k. Fine k (run_items step ((item, m) ∷ rest) shared s).1) (one_more n (length rest))
        (go_on-Fine (n + 1) (run_items step rest) (n + 1 + length rest)
          (λ shared' t k. run_items_from rest (n + 1) shared' t k) (step m shared s item)
          (step-Fine n m shared s item h))
    where
      one_more : (n k : ℕ) → n + 1 + k ≡ n + suc k
      one_more n k = omega arith

  pub run_items-Fine :
      (items : List (RequestPlan × M)) (shared : S)
      → Fine (length items) (run_items step items shared new_stats).1
  run_items-Fine items shared =
      subst (λ k. Fine k (run_items step items shared new_stats).1) (from_none (length items))
        (run_items_from items 0 shared new_stats new_stats-IsBalanced)
    where
      from_none : (k : ℕ) → 0 + k ≡ k
      from_none k = omega arith

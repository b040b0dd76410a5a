-- ===== src/LoadTest/Records/Counting.antt =====
-- The counters of `Stats` (experiments/_load_test_common.py) and its events.
use kv_replication_lab.Prelude.{
  ℕ, ◌+◌, ◌≡◌, refl, sym, ap, ◌∙◌, ◌++◌, ◌==◌, Bool, String, Option, List, [], ◌∷◌, length,
  length-append, arith, if◌then◌else◌,
}
use kv_replication_lab.LoadTest.Records.{
  SourceEntry, Counter, count_up, count_all, Stats, new_stats, total_failures, merge,
  record_failure, record_stale,
}

abbrev pub counted : Counter → ℕ
counted [] = 0
counted ((k, c) ∷ rest) = c + counted rest

-- Each failure is counted once by operation, once by kind and listed once, and each stale read is
-- counted and listed once.
pub record IsConsistent (s : Stats) : Type 0 where
  pub failures : total_failures s ≡ length s.failure_events
  pub kinds : counted s.failure_counts ≡ length s.failure_events
  pub stale : s.stale_reads ≡ length s.stale_events

counted-count_up :
    (k : String × String) (n : ℕ) (c : Counter) → counted (count_up k n c) ≡ counted c + n
counted-count_up k n [] = omega arith
counted-count_up k n ((j, m) ∷ rest) = ground (arith, counted-count_up k n rest)

counted-count_all : (c d : Counter) → counted (count_all c d) ≡ counted c + counted d
counted-count_all c [] = omega arith
counted-count_all c ((k, n) ∷ rest) =
    omega (arith, counted-count_all (count_up k n c) rest, counted-count_up k n c)

length_snoc : {A : Type 0} (xs : List A) (x : A) → length (xs ++ (x ∷ [])) ≡ length xs + 1
length_snoc xs x = length-append xs (x ∷ [])

one_more : (b : Bool) (r w : ℕ) → (if b then r + 1 else r) + (if b then w else w + 1) ≡ r + w + 1
one_more b r w = ground arith

pub new_stats-IsConsistent : IsConsistent new_stats
unfolding total_failures
new_stats-IsConsistent = record { failures = refl; kinds = refl; stale = refl }

module _ (s : Stats) (h : IsConsistent s) where
  pub record_failure-IsConsistent :
      (operation failure_type key node_id : String) (status_code : Option ℕ) (now : ℕ)
      → IsConsistent (record_failure s operation failure_type key node_id status_code now)
  unfolding total_failures record_failure
  record_failure-IsConsistent operation failure_type key node_id status_code now = record {
    failures =
        one_more (operation == "read") s.failed_reads s.failed_writes
        ∙ ap (λ n. n + 1) h.failures
        ∙ sym (length_snoc s.failure_events _);
    kinds =
        counted-count_up (operation, failure_type) 1 s.failure_counts
        ∙ ap (λ n. n + 1) h.kinds
        ∙ sym (length_snoc s.failure_events _);
    stale = h.stale;
  }

  pub record_stale-IsConsistent :
      (key node_id : String) (expected : SourceEntry) (actual : Option ℕ) (field : String) (now : ℕ)
      → IsConsistent (record_stale s key node_id expected actual field now)
  unfolding total_failures record_stale
  record_stale-IsConsistent key node_id expected actual field now = record {
    failures = h.failures;
    kinds = h.kinds;
    stale = ap (λ n. n + 1) h.stale ∙ sym (length_snoc s.stale_events _);
  }

  -- Merging the counters of two workers keeps the agreement of counters and events, and the merged
  -- numbers of failures and of stale reads are the sums.
  pub merge-IsConsistent :
      (t : Stats)
      → IsConsistent t
      → IsConsistent (merge s t)
        × (total_failures (merge s t) ≡ total_failures s + total_failures t)
        × (length (merge s t).failure_events ≡ length s.failure_events + length t.failure_events)
  unfolding total_failures merge
  merge-IsConsistent t k = (
    record {
      failures =
          omega (arith, h.failures, k.failures, length-append s.failure_events t.failure_events);
      kinds = omega (
        arith,
        h.kinds,
        k.kinds,
        length-append s.failure_events t.failure_events,
        counted-count_all s.failure_counts t.failure_counts,
      );
      stale = omega (arith, h.stale, k.stale, length-append s.stale_events t.stale_events);
    },
    omega arith,
    length-append s.failure_events t.failure_events,
  )

-- ===== src/LoadTest/MessageQueue/Lag.antt =====
-- The numbers of the message-queue load test (experiments/mq_staleness_load_test.py) and the lags
-- that go with its stale reads.
use kv_replication_lab.Prelude.{
  ℕ, suc, ◌+◌, ◌≡◌, ◌≢◌, refl, ap, sym, subst, ◌∙◌, inl, inr, String, Bool, true, false, ◌||◌,
  Option, none, some, List, [], ◌∷◌, ◌++◌, All, length, nat_eq, ltb, Bool-cases,
}
use kv_replication_lab.Prelude.Int.{ℤ}
use kv_replication_lab.Common.Waiting.{Outcome, returned, raised}
use kv_replication_lab.LoadTest.MessageQueue.{
  LagMoment, set_last, attach, do_write, query_lag, compare, finish_read, do_read, run_item,
  run_worker,
}
use kv_replication_lab.LoadTest.Plan.{RequestPlan}
use kv_replication_lab.LoadTest.Records.{
  SourceEntry, StaleEvent, Stats, new_stats, record_failure, record_stale, total_failures,
}
use kv_replication_lab.LoadTest.Worker.{
  Shared, Answer, http_error, response, WriteBody, record_applied, finish_write, count_comparable,
  count_request,
}
use kv_replication_lab.LoadTest.Worker.Bounds.{
  IsBalanced, IsCounted, count_request-IsCounted, settled, compared, found_stale, read_failed, Fine,
  finish_write-Fine, run_items-Fine,
}
use kv_replication_lab.LoadTest.Worker.Kept.{Holds, run_items-Holds}

length-set_last : (lag : Option ℤ) (es : List StaleEvent) → length (set_last lag es) ≡ length es
length-set_last lag [] = refl
length-set_last lag (e ∷ []) = refl
length-set_last lag (e ∷ e' ∷ rest) = ap suc (length-set_last lag (e' ∷ rest))

set_last-append :
    (lag : Option ℤ) (es : List StaleEvent) (e : StaleEvent)
    → set_last lag (es ++ (e ∷ [])) ≡ es ++ (record e { lag_at_stale_read = some lag } ∷ [])
set_last-append lag [] e = refl
set_last-append lag (x ∷ []) e = refl
set_last-append lag (x ∷ y ∷ rest) e = ap (◌∷◌ x) (set_last-append lag (y ∷ rest) e)

-- A lag, or the None of a query that failed, has been set.
abbrev pub HasLag : StaleEvent → Type 0
HasLag e = e.lag_at_stale_read ≢ none

abbrev pub IsSampled : Stats → Type 0
IsSampled s = All HasLag s.stale_events

All-append :
    (es : List StaleEvent) (e : StaleEvent) → All HasLag es → HasLag e → All HasLag (es ++ (e ∷ []))
All-append [] e h k = (k, tt)
All-append (x ∷ es) e (h, hs) k = (h, All-append es e hs k)

attach-Fine :
    (n : ℕ) (s : Stats) (lag : Outcome (Option ℤ)) → IsBalanced n s → Fine n (attach s lag)
unfolding total_failures
attach-Fine n s raised h = tt
attach-Fine n s (returned lag) h = record {
  handled = h.handled;
  consistent = record {
    failures = h.consistent.failures;
    kinds = h.consistent.kinds;
    stale = h.consistent.stale ∙ sym (length-set_last lag s.stale_events);
  };
  requests = h.requests;
  stale = h.stale;
  reads = h.reads;
  writes = h.writes;
}

attach-Sampled :
    (s : Stats) (key node_id : String) (e : SourceEntry) (actual : Option ℕ) (field : String)
    (now : ℕ) (lag : Outcome (Option ℤ))
    → IsSampled s
    → Holds IsSampled (attach (record_stale s key node_id e actual field now) lag)
unfolding record_stale
attach-Sampled s key node_id e actual field now raised h = tt
attach-Sampled s key node_id e actual field now (returned lag) h =
    subst (All HasLag) (sym (set_last-append lag s.stale_events _))
      (All-append s.stale_events _ h (λ p. cc))

-- What holds after each of the ways in which a read can end.
module _ (is_success : ℕ → Bool) (Q : Stats → Type 0) (m : LagMoment) (node_id : String)
    (e : SourceEntry) (s : Stats) (key : String)
    (failed : (kind : String) (status : Option ℕ)
      → Q (record_failure s "read" kind key node_id status m.request.now))
    (stale : (actual : Option ℕ) (lag : Outcome (Option ℤ))
      → Holds Q (
          attach
            (record_stale
              (count_comparable s)
              key
              node_id
              e
              actual
              "follower_node_id"
              m.request.now)
            lag))
    (fresh : Q (count_comparable s)) where
  compare-Holds :
      (shared : Shared) (b : Option ℕ)
      → Holds Q (compare is_success m shared node_id e (count_comparable s) key b).1
  compare-Holds shared none = tt
  compare-Holds shared (some actual) = elim (Bool-cases (ltb actual e.timestamp)) [
    | inl older ↦ rw older (stale (some actual) (query_lag is_success m.lag_answer))
    | inr not_older ↦ rw not_older fresh
  ]

  finish_read-Holds :
      (shared : Shared) (a : Answer ℕ)
      → Holds Q (finish_read is_success m shared node_id e s key a).1
  finish_read-Holds shared (http_error exc) = failed _ none
  finish_read-Holds shared (response status body) =
      elim (Bool-cases (nat_eq status 200 || nat_eq status 404)) [
        | inr bad ↦ rw bad (failed _ (some status))
        | inl good ↦ elim (Bool-cases (nat_eq status 404)) [
          | inl missing ↦ rw (good, missing) (stale none (query_lag is_success m.lag_answer))
          | inr found ↦ rw (good, found) (compare-Holds shared body)
        ]
      ]

module _ (is_success : ℕ → Bool) (m : LagMoment) (name_of : ℕ → String) (s : Stats)
    (key : String) where
  do_read-Fine :
      (n : ℕ)
      → IsCounted n true s
      → (shared : Shared) (port : Option ℕ) (e : Option SourceEntry)
      → Fine n (do_read is_success m name_of shared port e s key).1
  unfolding do_read
  do_read-Fine n h shared none e = tt
  do_read-Fine n h shared (some port) none = settled n true s h
  do_read-Fine n h shared (some port) (some e) =
      finish_read-Holds is_success (IsBalanced n) m (name_of port) e s key
        (read_failed n s key (name_of port) m.request.now h)
        (λ actual lag.
          attach-Fine n _ lag
            (found_stale n s key (name_of port) m.request.now h e actual "follower_node_id"))
        (compared n s key (name_of port) m.request.now h) _ m.request.read_answer

  do_read-Sampled :
      IsSampled s
      → (shared : Shared) (port : Option ℕ) (e : Option SourceEntry)
      → Holds IsSampled (do_read is_success m name_of shared port e s key).1
  unfolding do_read record_failure
  do_read-Sampled h shared none e = tt
  do_read-Sampled h shared (some port) none = h
  do_read-Sampled h shared (some port) (some e) =
      finish_read-Holds is_success IsSampled m (name_of port) e s key (λ kind status. h)
        (λ actual lag.
          attach-Sampled (count_comparable s) key (name_of port) e actual "follower_node_id"
            m.request.now lag h)
        h _ m.request.read_answer

finish_write-Sampled :
    (shared : Shared) (node_id : String) (now : ℕ) (s : Stats) (key : String) (value : ℕ)
    → IsSampled s
    → (a : Answer WriteBody) → Holds IsSampled (finish_write shared node_id now s key value a).1
unfolding record_failure
finish_write-Sampled shared node_id now s key value h (http_error exc) = h
finish_write-Sampled shared node_id now s key value h (response status body) =
    elim (Bool-cases (nat_eq status 200)) [
      | inr bad ↦ rw bad h
      | inl good ↦ rw good (applied-Sampled body)
    ]
  where
    applied-Sampled :
        (b : Option WriteBody) → Holds IsSampled (record_applied shared s key value b).1
    applied-Sampled none = tt
    applied-Sampled (some b) = h

module _ (is_success : ℕ → Bool) (follower_ports : List ℕ) (name_of : ℕ → String)
    (producer_node_id : String) where
  item-Fine :
      (n : ℕ) (m : LagMoment) (shared : Shared) (s : Stats) (item : RequestPlan)
      → IsBalanced n s
      → Fine (n + 1) (run_item is_success follower_ports name_of producer_node_id m shared s item).1
  unfolding run_item do_write
  item-Fine n m shared s item h = elim (Bool-cases item.is_read) [
    | inl read ↦ rw read (
        do_read-Fine is_success m name_of (count_request true s) item.key (n + 1)
          (count_request-IsCounted n true s h) _ _ _)
    | inr write ↦ rw write (
        finish_write-Fine (n + 1) m.request.now producer_node_id (count_request false s) item.key
          (count_request-IsCounted n false s h) _ _ m.request.write_answer)
  ]

  item-Sampled :
      (m : LagMoment) (shared : Shared) (s : Stats) (item : RequestPlan)
      → IsSampled s
      → Holds IsSampled
          (run_item is_success follower_ports name_of producer_node_id m shared s item).1
  unfolding run_item do_write
  item-Sampled m shared s item h = elim (Bool-cases item.is_read) [
    | inl read ↦
        rw read (do_read-Sampled is_success m name_of (count_request true s) item.key h _ _ _)
    | inr write ↦ rw write (
        finish_write-Sampled _ producer_node_id m.request.now (count_request false s) item.key _ h
          m.request.write_answer)
  ]

  pub mq_worker-Fine :
      (items : List (RequestPlan × LagMoment)) (shared : Shared)
      → Fine
          (length items)
          (run_worker is_success follower_ports name_of producer_node_id items shared).1
  unfolding run_worker
  mq_worker-Fine items shared =
      run_items-Fine (run_item is_success follower_ports name_of producer_node_id) item-Fine items
        shared

  -- The numbers that a worker of the message-queue test returns fit together, it has handled all
  -- the requests of its chunk, and each stale read that it lists comes with a sample of the lag:
  -- the lag, or None where the query failed.
  pub mq_worker-IsSampled :
      (items : List (RequestPlan × LagMoment)) (shared shared' : Shared) (s : Stats)
      → run_worker is_success follower_ports name_of producer_node_id items shared
        ≡ (shared', returned s)
      → IsBalanced (length items) s × IsSampled s
  unfolding run_worker
  mq_worker-IsSampled items shared shared' s e = (
    subst (Fine (length items)) (ap (λ r. r.1) e) (mq_worker-Fine items shared),
    subst (Holds IsSampled) (ap (λ r. r.1) e) (
        run_items-Holds IsSampled (run_item is_success follower_ports name_of producer_node_id)
          item-Sampled items shared new_stats tt),
  )

-- ===== src/LoadTest/Worker/Names.antt =====
-- Numbers of a load test with the names of the nodes left out of the events.
use kv_replication_lab.Prelude.{
  ℕ, ◌≡◌, refl, ap, ◌∙◌, sym, String, Bool, true, false, Option, none, some, map, map-append,
  nat_eq, ltb, ◌||◌, Bool-cases, inl, inr, if◌then◌else◌,
}
use kv_replication_lab.LoadTest.Records.{
  SourceEntry, StaleEvent, FailureEvent, Stats, record_failure, record_stale,
}
use kv_replication_lab.LoadTest.Worker.{
  Shared, Answer, http_error, response, WriteBody, record_applied, finish_write, compare,
  count_comparable, finish_read, count_request,
}
use kv_replication_lab.LoadTest.Worker.Simulation.{Same}

abbrev without_name : StaleEvent → StaleEvent
without_name e = record e { node_id = ""; node_id_field = "" }

abbrev without_node : FailureEvent → FailureEvent
without_node e = record e { node_id = "" }

-- The numbers, and the events without the names of their nodes and the keys that these stand under.
abbrev pub unnamed : Stats → Stats
unnamed s = record s {
  stale_events = map without_name s.stale_events;
  failure_events = map without_node s.failure_events;
}

unnamed-record_failure :
    (s : Stats) (operation kind key node_id : String) (status : Option ℕ) (now : ℕ)
    → unnamed (record_failure s operation kind key node_id status now)
      ≡ record_failure (unnamed s) operation kind key "" status now
unfolding record_failure
unnamed-record_failure s operation kind key node_id status now = simp map-append refl

unnamed-record_stale :
    (s : Stats) (key node_id : String) (expected : SourceEntry) (actual : Option ℕ) (field : String)
    (now : ℕ)
    → unnamed (record_stale s key node_id expected actual field now)
      ≡ record_stale (unnamed s) key "" expected actual "" now
unfolding record_stale
unnamed-record_stale s key node_id expected actual field now = simp map-append refl

module _ (s t : Stats) (same : unnamed s ≡ unnamed t) (n n' key : String) (now : ℕ) where
  failures_same :
      (operation kind : String) (status : Option ℕ)
      → unnamed (record_failure s operation kind key n status now)
        ≡ unnamed (record_failure t operation kind key n' status now)
  failures_same operation kind status =
      unnamed-record_failure s operation kind key n status now
      ∙ ap (λ x. record_failure x operation kind key "" status now) same
      ∙ sym (unnamed-record_failure t operation kind key n' status now)

  stale_same :
      (field field' : String) (expected : SourceEntry) (actual : Option ℕ)
      → unnamed (record_stale s key n expected actual field now)
        ≡ unnamed (record_stale t key n' expected actual field' now)
  stale_same field field' expected actual =
      unnamed-record_stale s key n expected actual field now
      ∙ ap (λ x. record_stale x key "" expected actual "" now) same
      ∙ sym (unnamed-record_stale t key n' expected actual field' now)

if_same :
    (b : Bool) (s t s' t' : Stats)
    → unnamed s ≡ unnamed t
    → unnamed s' ≡ unnamed t'
    → unnamed (if b then s else s') ≡ unnamed (if b then t else t')
if_same true s t s' t' h k = h
if_same false s t s' t' h k = k

module _ (s t : Stats) (same : unnamed s ≡ unnamed t) (n n' key : String) (now : ℕ) where
  pub finish_read-Same :
      (field field' : String) (e : SourceEntry) (a : Answer ℕ)
      → Same unnamed (finish_read field now n e s key a) (finish_read field' now n' e t key a)
  finish_read-Same field field' e (http_error exc) = failures_same s t same n n' key now _ _ none
  finish_read-Same field field' e (response status body) =
      elim (Bool-cases (nat_eq status 200 || nat_eq status 404)) [
        | inr bad ↦ rw bad (failures_same s t same n n' key now _ _ (some status))
        | inl good ↦ elim (Bool-cases (nat_eq status 404)) [
          | inl missing ↦
              rw (good, missing) (stale_same _ _ counted n n' key now field field' e none)
          | inr found ↦ rw (good, found) (compare-Same body)
        ]
      ]
    where
      counted : unnamed (count_comparable s) ≡ unnamed (count_comparable t)
      counted = ap count_comparable same

      compare-Same :
          (b : Option ℕ)
          → Same unnamed
              (compare field now n e (count_comparable s) key b)
              (compare field' now n' e (count_comparable t) key b)
      compare-Same none = tt
      compare-Same (some actual) =
          if_same (ltb actual e.timestamp) _ _ _ _
            (stale_same _ _ counted n n' key now field field' e (some actual)) counted

  pub finish_write-Same :
      (shared : Shared) (value : ℕ) (a : Answer WriteBody)
      → ((finish_write shared n now s key value a).0 ≡ (finish_write shared n' now t key value a).0)
        × Same unnamed
            (finish_write shared n now s key value a).1
            (finish_write shared n' now t key value a).1
  finish_write-Same shared value (http_error exc) =
      (refl, failures_same s t same n n' key now _ _ none)
  finish_write-Same shared value (response status body) = elim (Bool-cases (nat_eq status 200)) [
    | inr bad ↦ rw bad (refl, failures_same s t same n n' key now _ _ (some status))
    | inl good ↦ rw good (applied-Same body)
  ]
    where
      applied-Same :
          (b : Option WriteBody)
          → ((record_applied shared s key value b).0 ≡ (record_applied shared t key value b).0)
            × Same unnamed
                (record_applied shared s key value b).1
                (record_applied shared t key value b).1
      applied-Same none = (refl, tt)
      applied-Same (some b) = (refl, same)

pub count_request-Same :
    (is_read : Bool) (s t : Stats)
    → unnamed s ≡ unnamed t
    → unnamed (count_request is_read s) ≡ unnamed (count_request is_read t)
count_request-Same true s t h = ap (count_request true) h
count_request-Same false s t h = ap (count_request false) h

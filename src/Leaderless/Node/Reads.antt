-- ===== src/Leaderless/Node/Reads.antt =====
-- What a client's read comes to at its coordinator (`get_key_coordinator` of leaderless/node.py).
use kv_replication_lab.Prelude.{
  ℕ, ◌+◌, ◌-◌, ◌≤◌, ◌<◌, ◌≡◌, refl, sym, ap, subst, ◌⊎◌, inl, inr, String, Bool, true, false,
  Option, some, List, [], ◌∷◌, length, arith, if◌then◌else◌, leb, ltb, Bool-cases,
}
use kv_replication_lab.Prelude.Chars.{Text}
use kv_replication_lab.Common.Replies.{Reply}
use kv_replication_lab.Common.Models.{VersionedValue}
use native.Mathlib.Decide.{dec_le}
use kv_replication_lab.Common.Waiting.{Schedule, Outcome, returned, raised}
use kv_replication_lab.Common.Storage
use kv_replication_lab.Common.Server.{HttpResult, http_exception, KvResponse}
use kv_replication_lab.Leaderless.Config.{Node}
use kv_replication_lab.Leaderless.Coordinator.{
  Task, Gathered, gathered, failed, Coordinator, tasks_of, gather, select_read_peers, read_outcome,
  after_read, read,
}
use kv_replication_lab.Leaderless.Coordinator.Tasks.{Answers, Answers-length, Part, Part-nil}
use kv_replication_lab.Leaderless.Coordinator.Gather.{gather_total, gather-Ended}
use kv_replication_lab.Leaderless.Node.{
  NodeState, candidates, winner_answer, read_answer, coordinate_read,
}
use kv_replication_lab.Leaderless.Node.Newest.{IsNewestOf, winner-IsNewestOf}

quorum_met : (n r : ℕ) → r - 1 ≤ n → ltb (1 + n) r ≡ false
quorum_met n r h = ground arith

quorum_missed : (n r : ℕ) → n < r - 1 → ltb (1 + n) r ≡ true
quorum_missed n r h = ground arith

-- Some of the tasks, each at most once, that have all answered a read, and their entries.
pub record Responses {V : Type 0} (tasks : List (Task (Option (VersionedValue V)))) (count : ℕ)
    (entries : List (Option (VersionedValue V))) : Type 0 where
  pub answered : List (Task (Option (VersionedValue V)))
  pub answers : Answers answered entries
  pub part : Part answered tasks
  pub enough : count ≤ length answered

module _ {V : Type 0} (sample : List Node → ℕ → List Node) (r_required : ℕ)
    (get : Node → Text → Reply (KvResponse V)) (s : Schedule (Task (Option (VersionedValue V))))
    (state : NodeState V) (key : String) where
  abbrev pub needed : ℕ
  needed = r_required - 1

  abbrev pub asked : List (Task (Option (VersionedValue V)))
  asked =
      tasks_of (λ p. read_outcome (get p) p key)
        (select_read_peers sample state.coordinator.peers needed)

  abbrev pub local_entry : Option (VersionedValue V)
  local_entry = Storage.get state.storage key

  abbrev after :
      Coordinator V × Outcome (List (Option (VersionedValue V)))
      → NodeState V × Outcome (HttpResult (KvResponse V))
  after r = (record state { coordinator = r.0 }, read_answer r_required key local_entry r.1)

  -- How the query of the peers ends: with entries that enough of them gave, or with too few, or
  -- with an exception.
  data Queried : Outcome (List (Option (VersionedValue V))) → Type 0 where
    all_in :
        (entries : List (Option (VersionedValue V)))
        → Responses asked needed entries
        → Queried (returned entries)
    too_few :
        (entries : List (Option (VersionedValue V)))
        → length entries < needed
        → Queried (returned entries)
    broken : Queried raised

  read_end :
      (e : Coordinator V × Outcome (List (Option (VersionedValue V)))) × (read sample
          state.coordinator key needed get s
        ≡ some e)
      × Queried e.1
  unfolding read
  read_end = elim (Bool-cases (leb needed 0)) [
    | inl none_needed ↦ (
      (state.coordinator, returned []),
      rw none_needed,
      all_in []
          (record { answered = []; answers = tt; part = Part-nil asked; enough = ground arith }),
    )
    | inr some_needed ↦
        let (r, q) = gather_total state.coordinator.timeout needed s asked in
        (after_read state.coordinator r, rw (some_needed, q), gathered_end r q)
  ]
    where
      gathered_end :
          (r : Gathered (Option (VersionedValue V)))
          → gather state.coordinator.timeout needed s asked ≡ some r
          → Queried (after_read state.coordinator r).1
      gathered_end (failed rest) q = broken
      gathered_end (gathered new rest) q = elim (dec_le needed (length new)) [
        | yes enough ↦
            let ended = gather-Ended state.coordinator.timeout needed s asked new rest q in
            let values : new ≡ ended.values = ended.appended in
            all_in new (record {
              answered = ended.answered;
              answers = subst (Answers ended.answered) (sym values) ended.answers;
              part = ended.part;
              enough = omega (
                arith,
                enough,
                Answers-length ended.answered new
                    (subst (Answers ended.answered) (sym values) ended.answers),
              );
            })
        | no few ↦ too_few new (omega (arith, few))
      ]

  -- A read whose quorum is in range ends, and changes no store. Unless it is a 503 or an exception,
  -- its answer is an entry that none is newer than, among the coordinator's own and those that at
  -- least one less than the nodes required have answered with, or a 404 if none of them has an entry.
  -- The answers counted are of requests to the peers that were chosen, each counted at most once.
  pub coordinate_read_total :
      (o : Outcome (HttpResult (KvResponse V))) × (st : NodeState V) × (coordinate_read sample
          r_required get s state key
        ≡ some (st, o))
      × (st.storage ≡ state.storage)
      × ((o ≡ raised)
          ⊎ (o ≡ returned (http_exception 503))
          ⊎ ((entries : List (Option (VersionedValue V))) × Responses asked needed entries
              × ((answer : HttpResult (KvResponse V)) × (o ≡ returned answer)
                  × IsNewestOf key (local_entry ∷ entries) answer)))
  unfolding coordinate_read
  coordinate_read_total =
      let (e, q, w) = read_end in ((after e).1, (after e).0, rw q, refl, answers e.1 w)
    where
      choose : List (Option (VersionedValue V)) → Bool → Outcome (HttpResult (KvResponse V))
      choose entries b =
          returned (
            if b
            then http_exception 503
            else winner_answer key (candidates (local_entry ∷ entries)))

      answers :
          (a : Outcome (List (Option (VersionedValue V))))
          → Queried a
          → (read_answer r_required key local_entry a ≡ raised)
            ⊎ (read_answer r_required key local_entry a ≡ returned (http_exception 503))
            ⊎ ((entries : List (Option (VersionedValue V))) × Responses asked needed entries
                × ((answer : HttpResult (KvResponse V)) × (read_answer r_required key local_entry a
                      ≡ returned answer)
                    × IsNewestOf key (local_entry ∷ entries) answer))
      answers a (all_in entries r) =
          let met =
            quorum_met (length entries) r_required
              (omega (arith, r.enough, Answers-length r.answered entries r.answers)) in
          inr (
            inr (
              entries,
              r,
              (
                winner_answer key (candidates (local_entry ∷ entries)),
                ap (choose entries) met,
                winner-IsNewestOf key (local_entry ∷ entries),
              ),
            ))
      answers a (too_few entries lt) =
          inr (inl (ap (choose entries) (quorum_missed (length entries) r_required lt)))
      answers a broken = inl refl

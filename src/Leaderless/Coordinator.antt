-- ===== src/Leaderless/Coordinator.antt =====
-- `QuorumCoordinator` of leaderless/node.py: a write goes to every peer, a read to as many as are
-- needed, and the answers are collected until there are enough or the time is up.
pub mod Tasks
pub mod Gather
pub mod Outcomes
use kv_replication_lab.Prelude.{
  ℕ, zero, suc, ◌+◌, String, Bool, true, false, not, ◌||◌, Option, none, some, List, [], ◌∷◌, ◌++◌,
  map, is_empty, length, ltb, leb, nat_eq, if◌then◌else◌,
}
use mathlib.Core.Option
use kv_replication_lab.Prelude.Chars.{Text}
use kv_replication_lab.Common.Models.{VersionedValue}
use kv_replication_lab.Common.Waiting.{Schedule, Outcome, returned, raised, wait_done, wait_pending}
use kv_replication_lab.Common.Replies.{
  Body, unreadable, not_json, invalid, valid, Reply, http_error, other_error, response,
}
use kv_replication_lab.Common.Config.{Seconds, is_over}
use kv_replication_lab.Common.Server.{KvResponse, ReplicateRequest, ReplicateResponse}
use kv_replication_lab.Leaderless.Config.{Node, internal_read_url}

-- A task of one peer, with what its coroutine will come to: whether it counts, and a value.
pub record Task (A : Type 0) : Type 0 where
  pub peer : Node
  pub result : Outcome (Bool × A)

module _ {A : Type 0} where
  abbrev pub add_value : Outcome (Bool × A) → Option (List A) → Option (List A)
  add_value raised rest = none
  add_value (returned (counts, value)) none = none
  add_value (returned (counts, value)) (some rest) = some (if counts then value ∷ rest else rest)

  -- The values appended by `for task in done`; `none` means that a result was raised.
  unfoldable pub counted_values : List (Task A) → Option (List A)
  counted_values [] = some []
  counted_values (t ∷ ts) = add_value t.result (counted_values ts)

-- How `_gather` ends, with the tasks that its `finally` hands to the background.
pub data Gathered (A : Type 0) : Type 0 where
  gathered : (collected : List A) (background : List (Task A)) → Gathered A
  failed : (background : List (Task A)) → Gathered A

-- `is_late` is `deadline - loop.time() <= 0`, of a reading of the clock.
module _ {A : Type 0} (s : Schedule (Task A)) (is_late : ℕ → Bool) (needed : ℕ) where
  -- The `while` loop of `_gather`; `none` means that the fuel ran out.
  unfoldable pub gather_loop :
      (fuel round : ℕ) → List (Task A) → (collected : List A) → Option (Gathered A)
  gather_loop zero i pending collected = none
  gather_loop (suc f) i pending collected =
      let next =
        λ (vs : List A). gather_loop f (i + 1) (wait_pending s i pending) (collected ++ vs) in
      if is_empty pending || not (ltb (length collected) needed)
      then some (gathered collected pending)
      else if is_late (s.now i)
      then some (gathered collected pending)
      else if is_empty (wait_done s i pending)
      then some (gathered collected (wait_pending s i pending))
      else elim (counted_values (wait_done s i pending)) [
        | none ↦ some (failed (wait_pending s i pending))
        | some vs ↦ next vs
      ]

-- `_gather`: the clock is read once for the deadline, at round 0, and then in every round.
unfoldable pub gather :
    {A : Type 0} (timeout : Seconds) (needed : ℕ)
    → Schedule (Task A)
    → List (Task A)
    → Option (Gathered A)
unfolding gather_loop
gather timeout needed s tasks =
    gather_loop s (is_over timeout (s.now 0)) needed (suc (length tasks)) 1 tasks []

-- `raise_for_status()` of httpx raises an `HTTPStatusError`, an `HTTPError`, unless this holds.
module _ (is_success : ℕ → Bool) where
  abbrev parse_ack : Body ReplicateResponse → Outcome (Bool × Unit {0})
  parse_ack unreadable = raised
  parse_ack not_json = returned (false, tt)
  parse_ack invalid = returned (false, tt)
  parse_ack (valid parsed) = returned (true, tt)

  -- `_replicate_outcome`, for one peer
  unfoldable pub replicate_outcome : Reply ReplicateResponse → Outcome (Bool × Unit {0})
  replicate_outcome http_error = returned (false, tt)
  replicate_outcome other_error = raised
  replicate_outcome (response status body) =
      if is_success status then parse_ack body else returned (false, tt)

module _ {V : Type 0} where
  abbrev parse_entry : Body (KvResponse V) → Outcome (Bool × Option (VersionedValue V))
  parse_entry unreadable = raised
  parse_entry not_json = returned (false, none)
  parse_entry invalid = returned (false, none)
  parse_entry (valid parsed) = returned (
    true,
    some (record { value = parsed.value; timestamp = parsed.timestamp; node_id = parsed.node_id }),
  )

  -- `_read_outcome` from the answer on
  unfoldable pub after_get : Reply (KvResponse V) → Outcome (Bool × Option (VersionedValue V))
  after_get http_error = returned (false, none)
  after_get other_error = raised
  after_get (response status body) =
      if nat_eq status 404
      then returned (true, none)
      else if not (nat_eq status 200)
      then returned (false, none)
      else parse_entry body

  -- `_read_outcome`, for one peer; `get` is the client's request of a URL
  unfoldable pub read_outcome :
      (get : Text → Reply (KvResponse V))
      → (peer : Node) (key : String) → Outcome (Bool × Option (VersionedValue V))
  unfolding after_get
  read_outcome get peer key = after_get (get (internal_read_url peer key))

-- `_select_read_peers`; `sample` is `random.sample`
unfoldable pub select_read_peers : (sample : List Node → ℕ → List Node) → List Node → ℕ → List Node
select_read_peers sample peers needed =
    if leb (length peers) needed then peers else sample peers needed

abbrev pub tasks_of : {A : Type 0} → (Node → Outcome (Bool × A)) → List Node → List (Task A)
tasks_of results = map (λ p. record { peer = p; result = results p })

-- The state of a `QuorumCoordinator`; its background set is kept as two lists, by the tasks' types.
pub record Coordinator (V : Type 0) : Type 0 where
  pub peers : List Node
  pub timeout : Seconds
  pub background_writes : List (Task (Unit {0}))
  pub background_reads : List (Task (Option (VersionedValue V)))

module _ {V : Type 0} where
  abbrev pub after_write : Coordinator V → Gathered (Unit {0}) → Coordinator V × Outcome ℕ
  after_write self (gathered collected rest) = (
    record self { background_writes = self.background_writes ++ rest },
    returned (length collected),
  )
  after_write self (failed rest) =
      (record self { background_writes = self.background_writes ++ rest }, raised)

  -- `results` is what the request with the payload to each peer comes to.
  unfoldable pub replicate_write :
      Coordinator V
      → (key : String) (value : V) (timestamp : ℕ) (node_id : String) (needed : ℕ)
      → (ReplicateRequest V → Node → Outcome (Bool × Unit {0}))
      → Schedule (Task (Unit {0}))
      → Option (Coordinator V × Outcome ℕ)
  replicate_write self key value timestamp node_id needed results s =
      Option.map (after_write self) (
        gather self.timeout needed s (
          tasks_of
            (results
              (record { key = key; value = value; timestamp = timestamp; node_id = node_id }))
            self.peers))

  abbrev pub after_read :
      Coordinator V
      → Gathered (Option (VersionedValue V))
      → Coordinator V × Outcome (List (Option (VersionedValue V)))
  after_read self (gathered collected rest) =
      (record self { background_reads = self.background_reads ++ rest }, returned collected)
  after_read self (failed rest) =
      (record self { background_reads = self.background_reads ++ rest }, raised)

  unfoldable pub read :
      (sample : List Node → ℕ → List Node)
      → Coordinator V
      → (key : String) (needed : ℕ) → (get : Node → Text → Reply (KvResponse V))
      → Schedule (Task (Option (VersionedValue V)))
      → Option (Coordinator V × Outcome (List (Option (VersionedValue V))))
  read sample self key needed get s =
      if leb needed 0
      then some (self, returned [])
      else Option.map (after_read self) (
          gather self.timeout needed s (
            tasks_of (λ p. read_outcome (get p) p key)
              (select_read_peers sample self.peers needed)))

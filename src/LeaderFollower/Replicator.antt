-- ===== src/LeaderFollower/Replicator.antt =====
-- `Replicator` of leader_follower/leader.py: one write is sent to every follower at once, and the
-- acknowledgments are counted until there are enough or the time is up.
pub mod Acks
pub mod Sends
use kv_replication_lab.Prelude.{
  ℕ, zero, suc, ◌+◌, String, Bool, true, false, not, ◌||◌, Option, none, some, List, [], ◌∷◌, ◌++◌,
  map, is_empty, length, ltb, if◌then◌else◌,
}
use mathlib.Core.Option
use kv_replication_lab.Common.Waiting.{Schedule, Outcome, returned, raised, wait_done, wait_pending}
use kv_replication_lab.Common.Replies.{
  Body, unreadable, not_json, invalid, valid, Reply, http_error, other_error, response,
}
use kv_replication_lab.Common.Config.{is_over}
use kv_replication_lab.Common.Server.{ReplicateRequest, ReplicateResponse}
use kv_replication_lab.LeaderFollower.Config.{Follower, ClusterConfig}
use kv_replication_lab.Prelude.Int.{pos_part}

-- `raise_for_status()` of httpx raises an `HTTPStatusError`, an `HTTPError`, unless this holds.
module _ (is_success : ℕ → Bool) where
  abbrev pub parse_ack : Body ReplicateResponse → Outcome Bool
  parse_ack unreadable = raised
  parse_ack not_json = returned false
  parse_ack invalid = returned false
  parse_ack (valid parsed) = returned true

  abbrev pub after_post : Reply ReplicateResponse → Outcome Bool
  after_post http_error = returned false
  after_post other_error = raised
  after_post (response status body) = if is_success status then parse_ack body else returned false

  -- `_send`, for one follower
  unfoldable pub send : (is_closed : Bool) → Reply ReplicateResponse → Outcome Bool
  send is_closed reply = if is_closed then returned false else after_post reply

-- A task of one follower, with what its `_send` will come to.
pub record Task : Type 0 where
  pub follower : Follower
  pub result : Outcome Bool

abbrev pub add_ack : Outcome Bool → Option ℕ → Option ℕ
add_ack raised n = none
add_ack (returned b) none = none
add_ack (returned b) (some n) = some (if b then n + 1 else n)

-- `sum(1 for task in done if task.result())`, where `none` means that a result was raised
unfoldable pub count_acks : List Task → Option ℕ
count_acks [] = some 0
count_acks (t ∷ ts) = add_ack t.result (count_acks ts)

-- How a call of `replicate` ends: with the count and the tasks handed to the background, or by an
-- exception, when nothing is handed over.
pub data Replicated : Type 0 where
  acks : (acked : ℕ) (background : List Task) → Replicated
  failed : Replicated

-- `is_late` is `deadline - loop.time() <= 0`, of a reading of the clock.
module _ (s : Schedule Task) (is_late : ℕ → Bool) (ack_required : ℕ) where
  -- The `while` loop; `none` means that the fuel ran out.
  unfoldable pub ack_loop : (fuel round : ℕ) → List Task → (acked : ℕ) → Option Replicated
  ack_loop zero i pending acked = none
  ack_loop (suc f) i pending acked =
      let next = λ (n : ℕ). ack_loop f (i + 1) (wait_pending s i pending) (acked + n) in
      if is_empty pending || not (ltb acked ack_required)
      then some (acks acked pending)
      else if is_late (s.now i)
      then some (acks acked pending)
      else if is_empty (wait_done s i pending)
      then some (acks acked (wait_pending s i pending))
      else elim (count_acks (wait_done s i pending)) [ none ↦ some failed | some n ↦ next n ]

-- The state of a `Replicator`: its config, and the tasks that it keeps a reference to.
pub record Replicator : Type 0 where
  pub config : ClusterConfig
  pub background : List Task

-- A task for every follower of the config.
abbrev pub fan_out : (Follower → Outcome Bool) → List Follower → List Task
fan_out results = map (λ f. record { follower = f; result = results f })

abbrev pub hand_over : Replicator → Replicated → Replicator × Outcome ℕ
hand_over self (acks acked background) =
    (record self { background = self.background ++ background }, returned acked)
hand_over self failed = (self, raised)

-- `replicate`: the clock is read once for the deadline, at round 0, and then in every round. A
-- negative `ack_required` stops the loop as 0 does. `results` is what `_send` of the payload to each
-- follower comes to.
unfoldable pub replicate {ℓ} :
    {V : Type ℓ}
    → Replicator
    → (key : String) (value : V) (timestamp : ℕ) (node_id : String)
    → (ReplicateRequest V → Follower → Outcome Bool)
    → Schedule Task
    → Option (Replicator × Outcome ℕ)
replicate self key value timestamp node_id results s =
    let pending =
      fan_out
        (results (record { key = key; value = value; timestamp = timestamp; node_id = node_id }))
        self.config.followers in
    let is_late = is_over self.config.timeout_seconds (s.now 0) in
    Option.map (hand_over self)
      (ack_loop s is_late (pos_part self.config.ack_required) (suc (length pending)) 1 pending 0)

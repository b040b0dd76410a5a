-- ===== src/LeaderFollower/Sending.antt =====
-- All the calls of `_send` of one `Replicator` (leader_follower/leader.py) together: the semaphore
-- that bounds how many requests are out at once, and the closing of the client.
--
-- What the event loop does next is an event, so a sequence of events is one interleaving. The
-- semaphore is asyncio's: it lets a caller in while its value is not 0, and a caller that has to
-- wait tries again when it is resumed. A closed httpx client refuses a request by a `RuntimeError`.
pub mod Limit
pub mod Progress
pub mod Closing
use kv_replication_lab.Prelude.{
  ℕ, zero, suc, ◌+◌, ◌-◌, Bool, true, false, Option, none, some, List, [], ◌∷◌, ◌++◌, get_elem?,
  nat_eq, if◌then◌else◌,
}
use kv_replication_lab.Common.Replies.{Reply, other_error}
use kv_replication_lab.Common.Server.{ReplicateResponse}
use kv_replication_lab.Common.Waiting.{Outcome, returned, raised}
use kv_replication_lab.LeaderFollower.Replicator.{after_post}

-- `_MAX_CONCURRENT_REPLICATE_CALLS`
abbrev pub max_concurrent_replicate_calls : ℕ
max_concurrent_replicate_calls = 256

-- Where a call of `_send` is: not yet run, waiting for the semaphore, waiting for the answer to its
-- request, or at its end.
pub data Phase : Type 0 where
  created queued posting : Phase
  ended : Outcome Bool → Phase

-- The semaphore's value, the client, and the calls in the order of their making.
pub record Sends : Type 0 where
  pub value : ℕ
  pub is_closed : Bool
  pub phases : List Phase

pub data Event : Type 0 where
  spawn close : Event
  resume : ℕ → Event
  answer : ℕ → Reply ReplicateResponse → Event

-- The `Replicator` as it is made.
abbrev pub initial : Sends
initial = record { value = max_concurrent_replicate_calls; is_closed = false; phases = [] }

abbrev pub set_at : ℕ → Phase → List Phase → List Phase
set_at i p [] = []
set_at zero p (q ∷ qs) = p ∷ qs
set_at (suc i) p (q ∷ qs) = q ∷ set_at i p qs

abbrev pub move : Sends → ℕ → Phase → Sends
move s i p = record s { phases = set_at i p s.phases }

module _ (is_success : ℕ → Bool) where
  -- The request is made, with the semaphore held. A closed client raises at once, and the
  -- semaphore is given back.
  unfoldable pub post : Sends → ℕ → Sends
  post s i =
      if s.is_closed
      then move s i (ended (after_post is_success other_error))
      else record (move s i posting) { value = s.value - 1 }

  -- `async with self._semaphore`
  unfoldable pub acquire : Sends → ℕ → Sends
  unfolding post
  acquire s i = if nat_eq s.value 0 then move s i queued else post s i

  -- From the start of `_send`, or from the wait for the semaphore.
  abbrev pub resumed : Sends → ℕ → Option Phase → Sends
  resumed s i (some created) =
      if s.is_closed then move s i (ended (returned false)) else acquire s i
  resumed s i (some queued) = acquire s i
  resumed s i (some posting) = s
  resumed s i (some (ended r)) = s
  resumed s i none = s

  -- The answer to the request: the semaphore is given back, and the rest of `_send` runs.
  abbrev pub answered : Sends → ℕ → Reply ReplicateResponse → Option Phase → Sends
  answered s i reply (some posting) = record (move s i (ended (after_post is_success reply))) {
    value = s.value + 1;
  }
  answered s i reply (some created) = s
  answered s i reply (some queued) = s
  answered s i reply (some (ended r)) = s
  answered s i reply none = s

  unfoldable pub step : Event → Sends → Sends
  unfolding acquire
  step spawn s = record s { phases = s.phases ++ (created ∷ []) }
  step close s = record s { is_closed = true }
  step (resume i) s = resumed s i (get_elem? s.phases i)
  step (answer i reply) s = answered s i reply (get_elem? s.phases i)

  unfoldable pub run : List Event → Sends → Sends
  unfolding step
  run [] s = s
  run (e ∷ es) s = run es (step e s)

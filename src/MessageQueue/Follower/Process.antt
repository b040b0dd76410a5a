-- ===== src/MessageQueue/Follower/Process.antt =====
-- The life of a follower's process: `_on_startup`, the background task of `_consume_loop`,
-- `get_lag` and `_on_shutdown` of `build_app` (message_queue/follower.py).
--
-- Each message that the consumer delivers is one event. Whether the topic could be ensured, the
-- consumer started and an offset committed is the broker's answer, an argument of the event.
use kv_replication_lab.Prelude.{
  ℕ, ◌+◌, ◌≡◌, refl, String, Bool, true, false, Option, none, some, List, [], ◌∷◌, if◌then◌else◌,
  Bool-cases, inl, inr, subst, sym, ap, ◌∙◌,
}
use kv_replication_lab.Common.Server.{HttpResult, ReplicateRequest}
use kv_replication_lab.Common.Storage
use kv_replication_lab.Common.Waiting.{Outcome, returned, raised}
use kv_replication_lab.MessageQueue.Follower.{
  Message, FollowerState, Consumer, LagResponse, apply_message, consume_loop, get_lag, commit,
}
use kv_replication_lab.MessageQueue.Topics.{Ended, done, runtime_error, timeout_error}

-- `state["task"]`: not there, at work, or at its end by an exception that nobody has asked for.
pub data ConsumeTask : Type 0 where
  not_made running died : ConsumeTask

pub record FollowerProcess (V : Type 0) : Type 0 where
  pub follower : FollowerState V
  pub task : ConsumeTask
  pub consumer_stopped : Bool

-- What `get_lag` finds in `state["consumer"]`, which is set with the task.
abbrev pub consumer_of : ConsumeTask → Consumer → Option Consumer
consumer_of not_made consumer = none
consumer_of running consumer = some consumer
consumer_of died consumer = some consumer

module _ {V : Type 0} where
  -- `build_app` in a new process of a node, with the offsets that its group has committed
  abbrev pub new_process : (ℕ → Option ℕ) → FollowerProcess V
  new_process committed = record {
    follower = record { storage = Storage.empty; committed = committed };
    task = not_made;
    consumer_stopped = false;
  }

  abbrev pub start_consumer : Bool → FollowerProcess V → FollowerProcess V × Outcome (Unit {0})
  start_consumer true p = (record p { task = running }, returned tt)
  start_consumer false p = (p, raised)

  -- `_on_startup`
  unfoldable pub on_startup :
      (ensured : Ended) (started : Bool)
      → FollowerProcess V
      → FollowerProcess V × Outcome (Unit {0})
  on_startup done started p = start_consumer started p
  on_startup runtime_error started p = (p, raised)
  on_startup timeout_error started p = (p, raised)

  -- `_on_shutdown`: the task is cancelled and awaited, and an exception other than that of the
  -- cancelling comes out of the `await`
  unfoldable pub on_shutdown : FollowerProcess V → FollowerProcess V × Outcome (Unit {0})
  on_shutdown p = elim p.task [
    | not_made ↦ (p, returned tt)
    | running ↦ (record p { consumer_stopped = true }, returned tt)
    | died ↦ (p, raised)
  ]

  unfoldable pub process_get_lag :
      (node_id : String) → FollowerProcess V → Consumer → HttpResult LagResponse
  process_get_lag node_id p consumer = get_lag node_id (consumer_of p.task consumer)

module _ {V Bytes : Type 0} (model_validate_json : Bytes → Option (ReplicateRequest V))
    (commit_ok : Message Bytes → Bool) where
  abbrev pub consumed : FollowerState V → Message Bytes → FollowerProcess V → FollowerProcess V
  consumed applied m p =
      if commit_ok m
      then record p {
        follower = record applied {
          committed = commit p.follower.committed m.partition (m.offset + 1);
        };
      }
      else record p { follower = applied; task = died }

  -- One round of `_consume_loop`, if the task is at work
  unfoldable pub deliver : FollowerProcess V → Message Bytes → FollowerProcess V
  deliver p m =
      let (storage, result) = apply_message model_validate_json m.value p.follower.storage in
      elim p.task [
        | not_made ↦ p
        | running ↦ consumed (record p.follower { storage = storage }) m p
        | died ↦ p
      ]

  unfoldable pub deliver_all : FollowerProcess V → List (Message Bytes) → FollowerProcess V
  unfolding deliver
  deliver_all p [] = p
  deliver_all p (m ∷ ms) = deliver_all (deliver p m) ms

-- A process whose task is at work.
abbrev pub working : {V : Type 0} → FollowerState V → FollowerProcess V
working f = record { follower = f; task = running; consumer_stopped = false }

abbrev pub succeeds : Outcome (Unit {0}) → Bool
succeeds (returned u) = true
succeeds raised = false

module _ {V Bytes : Type 0} (model_validate_json : Bytes → Option (ReplicateRequest V))
    (commit_ok : Message Bytes → Bool) where
  died_for_good :
      (f : FollowerState V) (ms : List (Message Bytes))
      → deliver_all model_validate_json commit_ok
          (record { follower = f; task = died; consumer_stopped = false })
          ms
        ≡ record { follower = f; task = died; consumer_stopped = false }
  unfolding deliver_all
  died_for_good f [] = refl
  died_for_good f (m ∷ ms) = died_for_good f ms

  abbrev applied_to : Message Bytes → FollowerState V → FollowerState V
  applied_to m f = record f { storage = (apply_message model_validate_json m.value f.storage).0 }

  deliver_fine :
      (m : Message Bytes) (f : FollowerState V)
      → commit_ok m ≡ true
      → deliver model_validate_json commit_ok (working f) m
        ≡ working
            (record (applied_to m f) { committed = commit f.committed m.partition (m.offset + 1) })
  unfolding deliver
  deliver_fine m f fine = rw fine refl

  deliver_broken :
      (m : Message Bytes) (f : FollowerState V)
      → commit_ok m ≡ false
      → deliver model_validate_json commit_ok (working f) m
        ≡ record { follower = applied_to m f; task = died; consumer_stopped = false }
  unfolding deliver
  deliver_broken m f broken = rw broken refl

  -- How a process stands after some messages, and how it shuts down, beside the loop over them.
  abbrev pub Shuts : FollowerProcess V → FollowerState V × Outcome (Unit {0}) → Type 0
  Shuts p loop =
      (p.follower ≡ loop.0)
      × ((on_shutdown p).1 ≡ loop.1)
      × ((on_shutdown p).0.consumer_stopped ≡ succeeds loop.1)

  -- The rounds of a working process, message by message, are the loop over the messages: it holds
  -- and has committed what the loop has. If a commit fails, the task ends there for good: the
  -- process takes no further message, and its shutdown raises and leaves the consumer unstopped;
  -- if none fails, the shutdown stops the consumer.
  pub deliver_all-consume_loop :
      (ms : List (Message Bytes)) (f : FollowerState V)
      → Shuts
          (deliver_all model_validate_json commit_ok (working f) ms)
          (consume_loop model_validate_json commit_ok ms f)
  unfolding deliver_all consume_loop on_shutdown
  deliver_all-consume_loop [] f = (refl, refl, refl)
  deliver_all-consume_loop (m ∷ ms) f = elim (Bool-cases (commit_ok m)) [
    | inl fine ↦
        subst
          (λ p.
            Shuts (deliver_all model_validate_json commit_ok p ms)
              (consume_loop model_validate_json commit_ok (m ∷ ms) f))
          (sym (deliver_fine m f fine)) (rw fine (deliver_all-consume_loop ms _))
    | inr broken ↦
        subst (λ p. Shuts p (consume_loop model_validate_json commit_ok (m ∷ ms) f))
          (sym (
            ap (λ p. deliver_all model_validate_json commit_ok p ms) (deliver_broken m f broken)
            ∙ died_for_good (applied_to m f) ms))
          (rw broken (refl, refl, refl))
  ]

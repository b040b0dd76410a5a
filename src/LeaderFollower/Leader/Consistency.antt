-- ===== src/LeaderFollower/Leader/Consistency.antt =====
-- What the nodes of a leader-follower cluster (leader_follower/leader.py, common/server.py) answer
-- after a write that the leader has acknowledged.
use kv_replication_lab.Prelude.{
  ℕ, ◌≡◌, sym, ap, ◌∙◌, some_inj, subst, ◌⊎◌, inl, inr, String, Bool, true, some, List, [], ◌∷◌,
  length, All, In,
}
use kv_replication_lab.Common.Models.{VersionedValue}
use kv_replication_lab.Common.Storage
use kv_replication_lab.Common.Storage.{KvStore}
use kv_replication_lab.Common.Storage.Replay.{AtLeast}
use kv_replication_lab.Common.Server
use kv_replication_lab.Common.Server.{ok, ReplicateRequest, PutRequest, PutResponse, get_key}
use kv_replication_lab.Common.Server.Later.{
  Later, AnswersFrom, get-Later, put-AtLeast, replicate-AtLeast, get_key-AnswersFrom,
}
use kv_replication_lab.Common.Waiting.{Schedule, Outcome, returned}
use kv_replication_lab.LeaderFollower.Config.{Follower}
use kv_replication_lab.LeaderFollower.Leader.{LeaderState, put_key_leader}
use kv_replication_lab.LeaderFollower.Leader.Writes.{
  payload, required, put_key_leader_synchronous, put_key_leader_total,
}
use kv_replication_lab.LeaderFollower.Replicator.{Task}

All-In : {A : Type 0} (P : A → Type 0) (xs : List A) → All P xs → (x : A) → In x xs → P x
All-In P [] h x m = absurd m
All-In P (y ∷ ys) (h, hs) x (inl e) = subst P (sym e) h
All-In P (y ∷ ys) (h, hs) x (inr m) = All-In P ys hs x m

module _ {V : Type 0} (node_id : String) (now : ℕ)
    (results : ReplicateRequest V → Follower → Outcome Bool) (s : Schedule Task)
    (state st : LeaderState V) (key : String) (body : PutRequest V) (response : PutResponse)
    (stores : Follower → KvStore V)
    (replicated : (f : Follower)
      → results (payload node_id now results s state key body) f ≡ returned true
      → (before : KvStore V) × Later
          (Server.replicate before (payload node_id now results s state key body)).0
          (stores f))
    (every : required node_id now results s state key body
      ≡ length state.replicator.config.followers)
    (written : put_key_leader node_id now results s state key body
      ≡ some (st, returned (ok response))) where
  abbrev version : VersionedValue V
  version = record { value = body.value; timestamp = now; node_id = node_id }

  leader_storage : st.storage ≡ (Storage.put state.storage key body.value now node_id).0
  leader_storage =
      let (end, ended, kept) = put_key_leader_total node_id now results s state key body in
      sym (ap (λ e. e.0.storage) (some_inj end (st, returned (ok response)) (sym ended ∙ written)))
      ∙ kept

  -- With every follower required, a read after an acknowledged write sees it at any node: let a
  -- write have been answered with a 200, let every follower whose send was acknowledged have run
  -- its `/internal/replicate` handler on it, and let the stores have changed since only by `put`s.
  -- Then a read of the key at the leader or at any follower is answered with a version that the
  -- written one is not newer than.
  pub read_after_synchronous_write :
      (t : KvStore V)
      → (Later st.storage t
          ⊎ ((f : Follower) × In f state.replicator.config.followers × Later (stores f) t))
      → AnswersFrom version key (get_key t key)
  read_after_synchronous_write t (inl later) = get_key-AnswersFrom t key version (
      get-Later st.storage t key version later (
        subst (λ z. AtLeast version (Storage.get z key)) (sym leader_storage)
          (put-AtLeast state.storage key version)))
  read_after_synchronous_write t (inr (f, there, later)) =
      let acked =
        All-In (λ f. results (payload node_id now results s state key body) f ≡ returned true)
          state.replicator.config.followers
          (put_key_leader_synchronous node_id now results s state key body st response every
            written)
          f there in
      let (before, first) = replicated f acked in
      get_key-AnswersFrom t key version (
        get-Later (stores f) t key version later
          (get-Later _ (stores f) key version first (replicate-AtLeast before key version)))

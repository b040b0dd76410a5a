-- ===== src/Leaderless/Quorum/Overlap.antt =====
-- What a read finds after a write where the read quorum and the write quorum of a leaderless
-- cluster (leaderless/node.py) together are more than the nodes.
use kv_replication_lab.Prelude.{
  ℕ, suc, ◌+◌, ◌-◌, ◌<◌, ◌≡◌, refl, sym, ap, subst, ◌∙◌, ◌⊎◌, inl, inr, String, Bool, true, false,
  Option, some, List, [], ◌∷◌, length, In, Distinct, pigeonhole, arith,
}
use kv_replication_lab.Prelude.Chars.{Text, codes}
use kv_replication_lab.Common.Models.{VersionedValue, is_newer_than}
use kv_replication_lab.Common.Waiting.{Schedule, Outcome, returned, raised}
use kv_replication_lab.Common.Storage
use kv_replication_lab.Common.Storage.{KvStore}
use kv_replication_lab.Common.Storage.Replay.{AtLeast}
use kv_replication_lab.Common.Replies.{Reply}
use kv_replication_lab.Common.Server
use kv_replication_lab.Common.Server.{
  HttpResult, ok, http_exception, PutRequest, PutResponse, KvResponse, ReplicateRequest,
  ReplicateResponse, entry_response,
}
use kv_replication_lab.Common.Server.Later.{Later, get-Later, put-AtLeast, replicate-AtLeast}
use kv_replication_lab.Leaderless.Config.{Node, ClusterConfig, peers_excluding, internal_read_url}
use kv_replication_lab.Leaderless.Config.Bounds.{ports}
use kv_replication_lab.Leaderless.Coordinator.{
  Task, tasks_of, read_outcome, after_get, select_read_peers,
}
use kv_replication_lab.Leaderless.Coordinator.Tasks.{ids, In-ids}
use kv_replication_lab.Leaderless.Node.{
  NodeState, coordinate_write, coordinate_read, internal_get_key,
}
use kv_replication_lab.Leaderless.Node.Writes.{Acks, coordinate_write_ok}
use kv_replication_lab.Leaderless.Node.Newest.{IsNewestOf}
use kv_replication_lab.Leaderless.Node.Reads.{Responses, coordinate_read_total}
use kv_replication_lab.Leaderless.Quorum.Members.{
  IsSample, In-tasks_of, Answers-In, Members, coordinator_Members, peers-Distinct,
  select_read_peers-Within, select_read_peers-Distinct,
}
use kv_replication_lab.Leaderless.Quorum.Answers.{
  IsPlain, served, after_get-internal_get_key, read_outcome-after_get, newest-AtLeast,
}

module _ {V : Type 0} (sample : List Node → ℕ → List Node) (fair : IsSample sample)
    (config : ClusterConfig) (distinct : Distinct (ports config.nodes)) (key : String)
    (stores : ℕ → KvStore V) (own_w own_r : ℕ) (listed_w : In own_w (ports config.nodes))
    (listed_r : In own_r (ports config.nodes)) (node_id : String) (now w r : ℕ)
    (body : PutRequest V) (overlap : length config.nodes < w + r)
    (state_w st_w state_r : NodeState V)
    (peers_w : state_w.coordinator.peers ≡ peers_excluding config own_w)
    (peers_r : state_r.coordinator.peers ≡ peers_excluding config own_r) (acked : PutResponse)
    (results_w : ReplicateRequest V → Node → Outcome (Bool × Unit {0}))
    (get : Node → Text → Reply (KvResponse V)) (asked_key : Text → Option Text)
    (plain_url : (p : Node)
      → In p (select_read_peers sample state_r.coordinator.peers (r - 1))
      → (k : String) → IsPlain k
      → asked_key (internal_read_url p k) ≡ some (codes k))
    (plain : IsPlain key) (s_w : Schedule (Task (Unit {0})))
    (s_r : Schedule (Task (Option (VersionedValue V))))
    (written : coordinate_write node_id now w results_w s_w state_w key body
      ≡ some (st_w, returned (ok acked)))
    (own_written : Later st_w.storage (stores own_w))
    (peer_written : (p : Node)
      → results_w (record { key = key; value = body.value; timestamp = now; node_id = node_id }) p
        ≡ returned (true, tt)
      → (s : KvStore V) × Later
          (Server.replicate s
            (record { key = key; value = body.value; timestamp = now; node_id = node_id })).0
          (stores p.port))
    (own_read : Later (stores own_r) state_r.storage)
    (peer_read : (p : Node) (url : Text) (e : Option (VersionedValue V))
      → asked_key url ≡ some (codes key)
      → after_get (get p url) ≡ returned (true, e)
      → (s : KvStore V) × Later (stores p.port) s
        × (get p url ≡ served (internal_get_key s key))) where
  abbrev version : VersionedValue V
  version = record { value = body.value; timestamp = now; node_id = node_id }

  abbrev request : ReplicateRequest V
  request = record { key = key; value = body.value; timestamp = now; node_id = node_id }

  abbrev results_r : Node → Outcome (Bool × Option (VersionedValue V))
  results_r p = read_outcome (get p) p key

  abbrev asked : List Node
  asked = select_read_peers sample state_r.coordinator.peers (r - 1)

  write_acks :
      Acks (tasks_of (results_w request) state_w.coordinator.peers) (w - 1)
      × (st_w.storage ≡ (Storage.put state_w.storage key body.value now node_id).0)
  write_acks =
      let (a, b, c, d) =
        coordinate_write_ok node_id now w results_w s_w state_w key body st_w acked written in
      (a, b)

  write-Members : Members config (own_w ∷ ids write_acks.0.answered) w
  write-Members =
      coordinator_Members config own_w distinct listed_w (results_w request)
        state_w.coordinator.peers
        (subst (λ ps. Distinct (ports ps)) (sym peers_w) (peers-Distinct config own_w distinct))
        (λ x m. subst (λ ps. In x (ports ps)) peers_w m) write_acks.0.answered write_acks.0.part w
        (omega (arith, write_acks.0.enough))

  -- Every node that the write counts holds its version or a newer one.
  at_writer :
      (x : ℕ)
      → In x (own_w ∷ ids write_acks.0.answered)
      → AtLeast version (Storage.get (stores x) key)
  at_writer x (inl e) =
      subst (λ z. AtLeast version (Storage.get (stores z) key)) (sym e)
        (get-Later st_w.storage (stores own_w) key version own_written (
          subst (λ z. AtLeast version (Storage.get z key)) (sym write_acks.1)
            (put-AtLeast state_w.storage key version)))
  at_writer x (inr m) =
      let (t, k, e) = In-ids x write_acks.0.answered m in
      let (v, q, n) =
        Answers-In t write_acks.0.answered write_acks.0.units write_acks.0.answers k in
      let (l, c) =
        In-tasks_of (results_w request) t state_w.coordinator.peers (write_acks.0.part.from t k) in
      let (s, later) = peer_written t.peer (sym c ∙ q) in
      subst (λ z. AtLeast version (Storage.get (stores z) key)) e
        (get-Later _ (stores t.peer.port) key version later (replicate-AtLeast s key version))

  module _ (entries : List (Option (VersionedValue V)))
      (responses : Responses (tasks_of results_r asked) (r - 1) entries) where
    read-Members : Members config (own_r ∷ ids responses.answered) r
    read-Members =
        coordinator_Members config own_r distinct listed_r results_r asked
          (select_read_peers-Distinct sample fair state_r.coordinator.peers (r - 1) (
            subst (λ ps. Distinct (ports ps)) (sym peers_r) (peers-Distinct config own_r distinct)))
          (λ x m.
            subst (λ ps. In x (ports ps)) peers_r
              (select_read_peers-Within sample fair state_r.coordinator.peers (r - 1) x m))
          responses.answered responses.part r (omega (arith, responses.enough))

    -- What a node that the read counts has answered.
    at_reader :
        (x : ℕ)
        → In x (own_r ∷ ids responses.answered)
        → AtLeast version (Storage.get (stores x) key)
        → (o : Option (VersionedValue V)) × In o (Storage.get state_r.storage key ∷ entries)
          × AtLeast version o
    at_reader x (inl e) a = (
      Storage.get state_r.storage key,
      inl refl,
      get-Later (stores own_r) state_r.storage key version own_read
          (subst (λ z. AtLeast version (Storage.get (stores z) key)) e a),
    )
    at_reader x (inr m) a =
        let (t, k, e) = In-ids x responses.answered m in
        let (v, q, n) = Answers-In t responses.answered entries responses.answers k in
        let (l, c) = In-tasks_of results_r t asked (responses.part.from t k) in
        let (s, later, answer) =
          peer_read t.peer (internal_read_url t.peer key) v (plain_url t.peer l key plain)
            (read_outcome-after_get (get t.peer) t.peer key _ (sym c ∙ q)) in
        let same : v ≡ Storage.get s key = same_answer v (Storage.get s key) (
          sym (read_outcome-after_get (get t.peer) t.peer key _ (sym c ∙ q))
          ∙ ap after_get answer
          ∙ after_get-internal_get_key s key) in
        (
          v,
          inr n,
          subst (AtLeast version) (sym same) (
              get-Later (stores t.peer.port) s key version later
                (subst (λ z. AtLeast version (Storage.get (stores z) key)) (sym e) a)),
        )
      where
        same_answer :
            (a b : Option (VersionedValue V))
            → ◌≡◌ {A = Outcome (Bool × Option (VersionedValue V))}
                (returned (true, a))
                (returned (true, b))
            → a ≡ b
        same_answer a b p = ground arith

    -- The entries of a read include one that is at least as new as the write.
    entry_AtLeast :
        (o : Option (VersionedValue V)) × In o (Storage.get state_r.storage key ∷ entries)
        × AtLeast version o
    entry_AtLeast =
        let (x, mw, mr) =
          pigeonhole (own_w ∷ ids write_acks.0.answered) (own_r ∷ ids responses.answered)
            (ports config.nodes) write-Members.once read-Members.once write-Members.known
            read-Members.known enough in
        at_reader x mr (at_writer x mw)
      where
        length-ports : (ns : List Node) → length (ports ns) ≡ length ns
        length-ports [] = refl
        length-ports (n ∷ ns) = ap suc (length-ports ns)

        enough :
            length (ports config.nodes)
            < length (own_w ∷ ids write_acks.0.answered) + length (own_r ∷ ids responses.answered)
        enough =
            omega (arith, length-ports config.nodes, overlap, write-Members.size, read-Members.size)

  -- A read sees an acknowledged write where the two quorums together are more than the nodes: in a
  -- cluster whose ports differ, let a write with the quorum w have been answered with a 200, by a
  -- node of the config that sends to all the others, and let w + r exceed the number of nodes. Let
  -- every peer that acknowledged have run its `/internal/replicate` handler on the write, and all
  -- stores have changed since only by `put`s. Let the key be of letters, digits, `-` and `_`, which
  -- in a URL stand for themselves. Then a read of the key with the quorum r at any node of the config,
  -- whose peers answer by their `/internal/kv` handlers for the key that the requested URL names, ends,
  -- and unless it is a 503 or an exception it is answered with a version that the written one is not
  -- newer than.
  pub read_after_write :
      (o : Outcome (HttpResult (KvResponse V))) × (st : NodeState V) × (coordinate_read sample r get
          s_r state_r key
        ≡ some (st, o))
      × ((o ≡ raised)
          ⊎ (o ≡ returned (http_exception 503))
          ⊎ ((x : VersionedValue V) × (o ≡ returned (ok (entry_response key x)))
              × (is_newer_than version x ≡ false)))
  read_after_write =
      let (o, st, run, kept, how) = coordinate_read_total sample r get s_r state_r key in
      (o, st, run, answer o how)
    where
      answer :
          (o : Outcome (HttpResult (KvResponse V)))
          → (o ≡ raised)
            ⊎ (o ≡ returned (http_exception 503))
            ⊎ ((entries : List (Option (VersionedValue V))) × Responses
                  (tasks_of results_r asked)
                  (r - 1)
                  entries
                × ((a : HttpResult (KvResponse V)) × (o ≡ returned a)
                    × IsNewestOf key (Storage.get state_r.storage key ∷ entries) a))
          → (o ≡ raised)
            ⊎ (o ≡ returned (http_exception 503))
            ⊎ ((x : VersionedValue V) × (o ≡ returned (ok (entry_response key x)))
                × (is_newer_than version x ≡ false))
      answer o (inl e) = inl e
      answer o (inr (inl e)) = inr (inl e)
      answer o (inr (inr (entries, responses, (a, e, newest)))) =
          let (z, m, old) = entry_AtLeast entries responses in
          let (x, won, h) =
            newest-AtLeast key version z (Storage.get state_r.storage key ∷ entries) a m old
              newest in
          inr (inr (x, e ∙ ap returned won, h))

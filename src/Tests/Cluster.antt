-- ===== src/Tests/Cluster.antt =====
-- Examples for leaderless/: a cluster of three nodes.
use kv_replication_lab.Prelude.{
  ℕ, zero, suc, ◌+◌, ◌-◌, ◌≤◌, ◌<◌, ◌≡◌, refl, sym, ap, subst, ◌∙◌, ◌⊎◌, inl, inr, ◌↔◌, String,
  Bool, true, false, Option, none, some, List, [], ◌∷◌, ◌++◌, length, take, In, Distinct, arith,
  nat_eq, nat_eq_iff, some_inj, All, Bool-cases, if◌then◌else◌,
}
use kv_replication_lab.Prelude.Int.{pos}
use kv_replication_lab.Prelude.Chars.{Text, codes, decimal, starts_with}
use kv_replication_lab.Common.Models.{VersionedValue, is_newer_than}
use kv_replication_lab.Common.Waiting.{Schedule, Outcome, returned, raised, pending_after}
use kv_replication_lab.Common.Replies.{Reply, response, valid}
use kv_replication_lab.Common.Storage
use kv_replication_lab.Common.Storage.{KvStore}
use kv_replication_lab.Common.Storage.Replay.{apply_all}
use kv_replication_lab.Common.Server
use kv_replication_lab.Common.Server.{
  HttpResult, ok, http_exception, PutRequest, PutResponse, KvResponse, ReplicateRequest,
  ReplicateResponse, entry_response,
}
use kv_replication_lab.Common.Config.{Checked, finite, is_over, get_default}
use kv_replication_lab.Leaderless.Config.{
  Node, RawConfig, ClusterConfig, peers_excluding, internal_read_url, resolve_config,
}
use kv_replication_lab.Leaderless.Config.Bounds.{IsValid, ports, resolve_config-IsValid}
use kv_replication_lab.Leaderless.Coordinator.{Task, replicate_outcome, read_outcome}
use kv_replication_lab.Leaderless.Coordinator.Tasks.{total_counts}
use kv_replication_lab.Leaderless.Coordinator.Gather.{TimedOut}
use kv_replication_lab.Leaderless.Node.{
  NodeState, initial, coordinate_write, coordinate_read, internal_get_key,
}
use kv_replication_lab.Leaderless.Node.Writes.{
  Acks, tasks, coordinate_write_total, coordinate_write_ok,
}
use kv_replication_lab.Leaderless.Node.Newest.{IsNewestOf}
use kv_replication_lab.Leaderless.Node.Reads.{Responses, asked, coordinate_read_total}
use kv_replication_lab.Leaderless.Node.Refusals.{InRange, sent, coordinate_write_503}
use kv_replication_lab.Leaderless.Quorum.Members.{IsSample}
use kv_replication_lab.Leaderless.Quorum.Overlap.{read_after_write}
use kv_replication_lab.Leaderless.Quorum.Answers.{is_plain_char, IsPlain, served}
use kv_replication_lab.Common.Server.Later.{Later}

abbrev three_nodes : ClusterConfig
three_nodes = record {
  nodes =
      record { host = "a"; port = 1 }
      ∷ record { host = "b"; port = 2 }
      ∷ record { host = "c"; port = 3 }
      ∷ [];
  default_w = pos 2;
  default_r = pos 2;
  timeout_seconds = finite (pos 10);
}

three_nodes-Distinct : Distinct (ports three_nodes.nodes)
three_nodes-Distinct = ground arith

first_of-In : (ps : List Node) (k x : ℕ) → In x (ports (take k ps)) → In x (ports ps)
first_of-In ps zero x m = absurd m
first_of-In [] (suc k) x m = absurd m
first_of-In (p ∷ ps) (suc k) x (inl e) = inl e
first_of-In (p ∷ ps) (suc k) x (inr m) = inr (first_of-In ps k x m)

first_of-Distinct : (ps : List Node) (k : ℕ) → Distinct (ports ps) → Distinct (ports (take k ps))
first_of-Distinct ps zero d = tt
first_of-Distinct [] (suc k) d = tt
first_of-Distinct (p ∷ ps) (suc k) d =
    (λ m. d.0 (first_of-In ps k p.port m), first_of-Distinct ps k d.1)

abbrev first_of : List Node → ℕ → List Node
first_of ps k = take k ps

first_of-IsSample : IsSample first_of
first_of-IsSample = record {
  from = λ ps k x m. first_of-In ps k x m;
  each_once = λ ps k d. first_of-Distinct ps k d;
}

abbrev body : PutRequest ℕ
body = record { value = 7 }

abbrev node : ℕ → NodeState ℕ
node port = initial port three_nodes

abbrev write_results : ReplicateRequest ℕ → Node → Outcome (Bool × Unit {0})
write_results payload p = returned (nat_eq p.port 2, tt)

abbrev no_results : ReplicateRequest ℕ → Node → Outcome (Bool × Unit {0})
no_results payload p = returned (false, tt)

abbrev at_once : {A : Type 0} → Schedule (Task A)
at_once = record { now = λ i. i; finished = λ i t. true }

abbrev written_store : KvStore ℕ
written_store = (Storage.put (Storage.empty {V = ℕ}) "k" 7 5 "a").0

abbrev written_node : NodeState ℕ
written_node = record { storage = written_store; coordinator = (node 1).coordinator }

abbrev acked : PutResponse
acked = record { applied = true; timestamp = 5 }

written :
    coordinate_write "a" 5 2 write_results at_once (node 1) "k" body
    ≡ some (written_node, returned (ok acked))
unfolding coordinate_write kv_replication_lab.Leaderless.Coordinator.replicate_write
    kv_replication_lab.Leaderless.Coordinator.gather initial peers_excluding
    kv_replication_lab.Common.Waiting.wait_done
    kv_replication_lab.Leaderless.Coordinator.counted_values
    kv_replication_lab.Common.Waiting.wait_pending Storage.put Storage.is_stale
    kv_replication_lab.Prelude.lookup
written = refl

abbrev unmet : ℕ
unmet = 503

not_written :
    coordinate_write "a" 5 2 no_results at_once (node 1) "k" body
    ≡ some (written_node, returned (http_exception unmet))
unfolding coordinate_write kv_replication_lab.Leaderless.Coordinator.replicate_write
    kv_replication_lab.Leaderless.Coordinator.gather initial peers_excluding
    kv_replication_lab.Common.Waiting.wait_done
    kv_replication_lab.Leaderless.Coordinator.counted_values
    kv_replication_lab.Common.Waiting.wait_pending
not_written = refl

coordinate_write_total_example :
    (end : NodeState ℕ × Outcome (HttpResult PutResponse)) × (coordinate_write "a" 5 2 no_results
        at_once
        (node 1)
        "k"
        body
      ≡ some end)
    × (end.0.storage ≡ (Storage.put (node 1).storage "k" 7 5 "a").0)
coordinate_write_total_example = coordinate_write_total "a" 5 2 no_results at_once (node 1) "k" body

coordinate_write_ok_example :
    Acks (tasks "a" 5 2 write_results at_once (node 1) "k" body) 1
    × (written_node.storage ≡ (Storage.put (node 1).storage "k" 7 5 "a").0)
    × (acked.applied ≡ (Storage.put (node 1).storage "k" 7 5 "a").1)
    × (acked.timestamp ≡ 5)
coordinate_write_ok_example =
    coordinate_write_ok "a" 5 2 write_results at_once (node 1) "k" body written_node acked written

coordinate_write_503_example :
    (unmet ≡ 503)
    × ((n : ℕ) × (rest : List (Task (Unit {0}))) × (1 + n < 2)
        × (n + total_counts rest ≡ total_counts (sent "a" 5 2 no_results at_once (node 1) "k" body))
        × (written_node.coordinator.background_writes
            ≡ (node 1).coordinator.background_writes ++ rest)
        × ((d : ℕ) × (rest
              ≡ pending_after at_once 1 d (sent "a" 5 2 no_results at_once (node 1) "k" body))
            × ((rest ≡ [])
                ⊎ TimedOut at_once (is_over (node 1).coordinator.timeout 0) 1 (1 + d) rest)))
coordinate_write_503_example =
    coordinate_write_503 "a" 5 2 no_results at_once (node 1) "k" body written_node unmet not_written

too_many : ¬ InRange (get_default (some (pos 4)) three_nodes.default_w) three_nodes
too_many h = ground arith

-- Two nodes hold the write, the third does not.
abbrev stores : ℕ → KvStore ℕ
stores x = if nat_eq x 3 then Storage.empty else written_store

-- The part of a URL after its last slash; what a plain key's URL names.
abbrev after_slash : (last rest : Text) → Text
after_slash last [] = last
after_slash last (c ∷ cs) =
    let here = after_slash cs cs in
    let there = after_slash last cs in if nat_eq c 47 then here else there

abbrev asked_key : Text → Option Text
asked_key url = some (after_slash [] url)

-- A text before some other does not matter, if what comes after does not depend on what was before.
after_slash-append :
    (s t k : Text)
    → ((last : Text) → after_slash last t ≡ k)
    → (last : Text) → after_slash last (s ++ t) ≡ k
after_slash-append [] t k h last = h last
after_slash-append (c ∷ s) t k h last = elim (Bool-cases (nat_eq c 47)) [
  | inl slash ↦ rw slash (after_slash-append s t k h (s ++ t))
  | inr other ↦ rw other (after_slash-append s t k h last)
]

no_slash :
    (k : Text) → All (λ c. is_plain_char c ≡ true) k → (last : Text) → after_slash last k ≡ last
no_slash [] h last = refl
no_slash (c ∷ k) (h, hs) last =
    let other : nat_eq c 47 ≡ false = ground arith in rw other (no_slash k hs last)

plain_url : (p : Node) (k : String) → IsPlain k → asked_key (internal_read_url p k) ≡ some (codes k)
unfolding internal_read_url
plain_url p k (some_char, plain) =
    let path : Text = codes "/internal/kv/" ++ codes k in
    let port : Text = decimal p.port ++ path in
    let colon : Text = codes ":" ++ port in
    let host : Text = codes p.host ++ colon in
    ap some (
      after_slash-append (codes "http://") host (codes k)
        (after_slash-append (codes p.host) colon (codes k) (
          after_slash-append (codes ":") port (codes k) (
            after_slash-append (decimal p.port) path (codes k)
              (λ last. no_slash (codes k) plain (codes k)))))
        [])

-- A peer answers for the key that the URL names; any other key but "k" is absent.
abbrev peer_get : Node → Text → Reply (KvResponse ℕ)
peer_get p url =
    if starts_with (codes "k") (after_slash [] url)
    then served (internal_get_key (stores p.port) "k")
    else served (http_exception 404)

peer_serves :
    (p : Node) (url : Text)
    → asked_key url ≡ some (codes "k")
    → peer_get p url ≡ served (internal_get_key (stores p.port) "k")
peer_serves p url named =
    let ends : after_slash [] url ≡ codes "k" = some_inj _ _ named in rw ends refl

IsPlain-k : IsPlain "k"
IsPlain-k = (refl, (refl, tt))

coordinate_read_total_example :
    (o : Outcome (HttpResult (KvResponse ℕ))) × (st : NodeState ℕ) × (coordinate_read first_of 2
        peer_get at_once
        (node 3)
        "k"
      ≡ some (st, o))
    × (st.storage ≡ (node 3).storage)
    × ((o ≡ raised)
        ⊎ (o ≡ returned (http_exception 503))
        ⊎ ((entries : List (Option (VersionedValue ℕ))) × Responses
              (asked first_of 2 peer_get at_once (node 3) "k")
              1
              entries
            × ((answer : HttpResult (KvResponse ℕ)) × (o ≡ returned answer)
                × IsNewestOf "k" (Storage.get (node 3).storage "k" ∷ entries) answer)))
coordinate_read_total_example = coordinate_read_total first_of 2 peer_get at_once (node 3) "k"

now-Later : (s : KvStore ℕ) → Later s s
unfolding apply_all
now-Later s = ([], refl)

abbrev request : ReplicateRequest ℕ
request = record { key = "k"; value = 7; timestamp = 5; node_id = "a" }

peer_written :
    (p : Node)
    → write_results request p ≡ returned (true, tt)
    → (s : KvStore ℕ) × Later (Server.replicate s request).0 (stores p.port)
unfolding Server.replicate apply_all
peer_written p e =
    let port : p.port ≡ 2 = ground arith in (Storage.empty, rw port (now-Later written_store))

read_after_write_example :
    (o : Outcome (HttpResult (KvResponse ℕ))) × (st : NodeState ℕ) × (coordinate_read first_of 2
        peer_get at_once
        (node 3)
        "k"
      ≡ some (st, o))
    × ((o ≡ raised)
        ⊎ (o ≡ returned (http_exception 503))
        ⊎ ((x : VersionedValue ℕ) × (o ≡ returned (ok (entry_response "k" x)))
            × (is_newer_than (record { value = 7; timestamp = 5; node_id = "a" }) x ≡ false)))
unfolding initial
read_after_write_example =
    read_after_write first_of first_of-IsSample three_nodes three_nodes-Distinct "k" stores 1 3
      (inl refl) (inr (inr (inl refl))) "a" 5 2 2 body (omega arith) (node 1) written_node (node 3)
      refl refl acked write_results peer_get asked_key (λ p m. plain_url p) IsPlain-k at_once
      at_once written (now-Later written_store) peer_written (now-Later Storage.empty)
      (λ p url e named q. (stores p.port, now-Later (stores p.port), peer_serves p url named))

abbrev is_2xx : ℕ → Bool
is_2xx status = true

abbrev accepted : Reply ReplicateResponse
accepted = response 200 (valid (record { applied = false }))

abbrev absent : Reply (KvResponse ℕ)
absent = served (http_exception 404)

abbrev raw : RawConfig
raw = record {
  nodes = some (
      record { host = some "a"; port = some 1 }
      ∷ record { host = some "b"; port = some 2 }
      ∷ record { host = some "c"; port = some 3 }
      ∷ []);
  default_w = some (pos 2);
  default_r = some (pos 1);
  timeout_seconds = some (finite (pos 10));
}

resolved : resolve_config (finite (pos 2)) raw none (some (pos 2)) ≡ Checked.ok three_nodes
unfolding resolve_config kv_replication_lab.Leaderless.Config.from_dict
    kv_replication_lab.Leaderless.Config.parse_nodes
    kv_replication_lab.Leaderless.Config.validate_quorum
    kv_replication_lab.Common.Config.require_positive
    kv_replication_lab.Leaderless.Config.with_default_r
resolved = refl

resolve_config-IsValid_example : IsValid three_nodes
resolve_config-IsValid_example =
    resolve_config-IsValid (finite (pos 2)) raw none (some (pos 2)) three_nodes resolved

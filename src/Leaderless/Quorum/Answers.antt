-- ===== src/Leaderless/Quorum/Answers.antt =====
-- What a peer's answer to a read (`_read_outcome` of leaderless/node.py) and the newest of some
-- answers tell of the peers' stores.
use kv_replication_lab.Prelude.{
  ℕ, ◌≡◌, refl, subst, inl, inr, String, Bool, true, false, Option, none, some, List, In, All,
  is_empty, leb, nat_eq, ◌&&◌, ◌||◌,
}
use kv_replication_lab.Prelude.Chars.{Text, codes}
use kv_replication_lab.Common.Models.{VersionedValue, is_newer_than}
use kv_replication_lab.Common.Models.Order.{not_newer_trans}
use kv_replication_lab.Common.Waiting.{Outcome, returned}
use kv_replication_lab.Common.Storage
use kv_replication_lab.Common.Storage.{KvStore}
use kv_replication_lab.Common.Storage.Replay.{AtLeast}
use kv_replication_lab.Common.Replies.{invalid, valid, Reply, response}
use kv_replication_lab.Common.Server.{HttpResult, ok, http_exception, KvResponse, entry_response}
use kv_replication_lab.Common.Server.Later.{AtLeast-some}
use kv_replication_lab.Leaderless.Config.{Node, internal_read_url}
use kv_replication_lab.Leaderless.Coordinator.{read_outcome, after_get}
use kv_replication_lab.Leaderless.Node.{internal_get_key}
use kv_replication_lab.Leaderless.Node.Newest.{IsNewestOf}

-- A character that neither httpx nor the server of a peer treats in a special way, in a path: a letter, a
-- digit, `-` or `_`.
abbrev pub is_plain_char : ℕ → Bool
is_plain_char c =
    leb 48 c && leb c 57
    || leb 65 c && leb c 90
    || leb 97 c && leb c 122
    || nat_eq c 45
    || nat_eq c 95

-- A key of such characters, with one at least.
abbrev pub IsPlain : String → Type 0
IsPlain key = (is_empty (codes key) ≡ false) × All (λ c. is_plain_char c ≡ true) (codes key)

-- What FastAPI sends of what a handler returns or raises.
abbrev pub served : {A : Type 0} → HttpResult A → Reply A
served (ok body) = response 200 (valid body)
served (http_exception status) = response status invalid

module _ {V : Type 0} where
  -- What a coordinator makes of a peer's answer is exactly what the peer's store holds: its version, or the
  -- absence of one.
  pub after_get-internal_get_key :
      (s : KvStore V) (key : String)
      → after_get (served (internal_get_key s key)) ≡ returned (true, Storage.get s key)
  unfolding after_get internal_get_key
  after_get-internal_get_key s key = found (Storage.get s key) refl
    where
      found :
          (o : Option (VersionedValue V))
          → Storage.get s key ≡ o
          → after_get (served (internal_get_key s key)) ≡ returned (true, o)
      found none e = rw e
      found (some v) e = rw e

  pub read_outcome-after_get :
      (get : Text → Reply (KvResponse V)) (p : Node) (key : String)
      (o : Outcome (Bool × Option (VersionedValue V)))
      → read_outcome get p key ≡ o
      → after_get (get (internal_read_url p key)) ≡ o
  unfolding read_outcome
  read_outcome-after_get get p key o h = h

  -- If one of the entries is at least as new as a version, so is an answer with the newest of them.
  pub newest-AtLeast :
      (key : String) (v : VersionedValue V) (o : Option (VersionedValue V))
      (es : List (Option (VersionedValue V))) (answer : HttpResult (KvResponse V))
      → In o es
      → AtLeast v o
      → IsNewestOf key es answer
      → (x : VersionedValue V) × (answer ≡ ok (entry_response key x)) × (is_newer_than v x ≡ false)
  newest-AtLeast key v o es answer m a (inl (e, nothing)) =
      let (u, q, h) = AtLeast-some v o a in absurd (nothing u (subst (λ z. In z es) q m))
  newest-AtLeast key v o es answer m a (inr (x, e, there, max)) =
      let (u, q, h) = AtLeast-some v o a in
      (x, e, not_newer_trans v u x h (max u (subst (λ z. In z es) q m)))

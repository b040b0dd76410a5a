-- ===== src/MessageQueue/Follower/Convergence.antt =====
-- The stores of followers of one topic that have caught up, or been restarted
-- (message_queue/follower.py).
use kv_replication_lab.Prelude.{
  ℕ, zero, suc, ◌≤◌, ◌<◌, ◌≡◌, refl, sym, ap, subst, ◌∙◌, ◌⊎◌, inl, inr, String, Bool, Option, none,
  some, List, [], ◌∷◌, In, arith, Bool-cases, get_elem?, length,
}
use kv_replication_lab.Common.Models.{VersionedValue}
use kv_replication_lab.Common.Storage
use kv_replication_lab.Common.Storage.{KvStore}
use kv_replication_lab.Common.Storage.Replay.{
  Write, AtLeast, apply_all-AtLeast-In, apply_all_converges, source_of_empty,
}
use kv_replication_lab.Common.Server.{ReplicateRequest, http_exception, get_key}
use kv_replication_lab.MessageQueue.Follower.{
  Message, FollowerState, or_zero, consume_loop, restart,
}
use kv_replication_lab.MessageQueue.Follower.Run.{
  write_of, Delivered, advance, writes, applied, add_write, consume_loop-storage, committed-In,
}

-- A follower that has never run.
abbrev pub fresh : {V : Type 0} → FollowerState V
fresh = record { storage = Storage.empty; committed = λ p. none }

-- All that the logs hold is committed.
abbrev pub CaughtUp : {V Bytes : Type 0} → (ℕ → List Bytes) → FollowerState V → Type 0
CaughtUp logs st = (p : ℕ) → length (logs p) ≤ or_zero (st.committed p)

get_elem?-lt : {A : Type 0} (xs : List A) (i : ℕ) (x : A) → get_elem? xs i ≡ some x → i < length xs
get_elem?-lt [] i x e = absurd (ground arith)
get_elem?-lt (y ∷ ys) zero x e = omega arith
get_elem?-lt (y ∷ ys) (suc i) x e = omega (arith, get_elem?-lt ys i x e)

module _ {V Bytes : Type 0} (model_validate_json : Bytes → Option (ReplicateRequest V)) where
  -- A write that a well-formed message of the logs carries.
  abbrev pub Published : (ℕ → List Bytes) → Write V → Type 0
  Published logs w =
      (p : ℕ) × (i : ℕ) × (raw : Bytes) × (r : ReplicateRequest V) × (get_elem? (logs p) i
        ≡ some raw)
      × (model_validate_json raw ≡ some r)
      × (w ≡ write_of r)

  In-add_write :
      (w : Write V) (o : Option (ReplicateRequest V)) (ws : List (Write V))
      → In w (add_write model_validate_json o ws)
      → ((r : ReplicateRequest V) × (o ≡ some r) × (w ≡ write_of r)) ⊎ In w ws
  In-add_write w none ws m = inr m
  In-add_write w (some r) ws (inl e) = inl (r, refl, e)
  In-add_write w (some r) ws (inr m) = inr m

  module _ (logs : ℕ → List Bytes) (commit_ok : Message Bytes → Bool) where
    writes-Published :
        (ms : List (Message Bytes)) (from : ℕ → ℕ)
        → Delivered logs from ms
        → (w : Write V)
        → In w (writes model_validate_json (applied model_validate_json commit_ok ms))
        → Published logs w
    unfolding writes applied
    writes-Published [] from d w m = absurd m
    writes-Published (n ∷ ns) from (o, g, d) w m = elim (Bool-cases (commit_ok n)) [
      | inl fine ↦
          here _ (In-add_write w (model_validate_json n.value) _ (rw fine at m))
            (writes-Published ns (advance from n.partition) d w)
      | inr broken ↦
          here [] (In-add_write w (model_validate_json n.value) [] (rw broken at m)) (λ k. absurd k)
    ]
      where
        here :
            (ws : List (Write V))
            → ((r : ReplicateRequest V) × (model_validate_json n.value ≡ some r) × (w ≡ write_of r))
              ⊎ In w ws
            → (In w ws → Published logs w)
            → Published logs w
        here ws (inl (r, e, q)) rest = (n.partition, n.offset, n.value, r, g, e, q)
        here ws (inr k) rest = rest k

    module _ (ms : List (Message Bytes)) (delivered : Delivered logs (λ p. 0) ms)
        (caught : CaughtUp logs (consume_loop model_validate_json commit_ok ms fresh).0) where
      pub Published-writes :
          (w : Write V)
          → Published logs w
          → In w (writes model_validate_json (applied model_validate_json commit_ok ms))
      Published-writes w (p, i, raw, r, e, q, s) =
          subst (λ x. In x (writes model_validate_json (applied model_validate_json commit_ok ms)))
            (sym s)
            (committed-In model_validate_json commit_ok logs ms fresh (λ p. 0) (λ p. refl) delivered
              p i raw r (omega arith) (omega (arith, caught p, get_elem?-lt (logs p) i raw e)) e q)

      -- A follower that has caught up with the logs, from its first start on, holds for each write
      -- that a well-formed message of them carries its version or a newer one.
      pub caught_up_AtLeast :
          (p i : ℕ) (raw : Bytes) (r : ReplicateRequest V)
          → get_elem? (logs p) i ≡ some raw
          → model_validate_json raw ≡ some r
          → AtLeast
              (write_of r).1
              (Storage.get (consume_loop model_validate_json commit_ok ms fresh).0.storage r.key)
      caught_up_AtLeast p i raw r e q =
          subst (λ s. AtLeast (write_of r).1 (Storage.get s r.key))
            (sym (consume_loop-storage model_validate_json commit_ok ms fresh))
            (apply_all-AtLeast-In Storage.empty _ r.key (write_of r).1
              (Published-writes (write_of r) (p, i, raw, r, e, q, refl)))

  -- Two followers that have caught up with the same logs, from their first start on, hold the same
  -- versions, in whatever way the partitions were interleaved for each of them, if no two of the
  -- writes to a key share a stamp and differ.
  pub CaughtUp-converge :
      (logs : ℕ → List Bytes) (c d : Message Bytes → Bool) (ms us : List (Message Bytes))
      → ((k : String) (u v : VersionedValue V)
          → Published logs (k, u)
          → Published logs (k, v)
          → (u.timestamp ≡ v.timestamp) × (u.node_id ≡ v.node_id)
          → u ≡ v)
      → Delivered logs (λ p. 0) ms
      → Delivered logs (λ p. 0) us
      → CaughtUp logs (consume_loop model_validate_json c ms fresh).0
      → CaughtUp logs (consume_loop model_validate_json d us fresh).0
      → (key : String)
      → Storage.get (consume_loop model_validate_json c ms fresh).0.storage key
        ≡ Storage.get (consume_loop model_validate_json d us fresh).0.storage key
  CaughtUp-converge logs c d ms us one dm du cm cu key =
      ap (λ s. Storage.get s key) (consume_loop-storage model_validate_json c ms fresh)
      ∙ apply_all_converges _ _
          (λ k u v mu mv same.
            one k u v (writes-Published logs c ms (λ p. 0) dm (k, u) mu)
              (writes-Published logs c ms (λ p. 0) dm (k, v) mv) same)
          (λ w m. Published-writes logs d us du cu w (writes-Published logs c ms (λ p. 0) dm w m))
          (λ w m. Published-writes logs c ms dm cm w (writes-Published logs d us (λ p. 0) du w m))
          key
      ∙ ap (λ s. Storage.get s key) (sym (consume_loop-storage model_validate_json d us fresh))

  module _ (commit_ok : Message Bytes → Bool) where
    writes-source :
        (ms : List (Message Bytes)) (w : Write V)
        → In w (writes model_validate_json (applied model_validate_json commit_ok ms))
        → (m : Message Bytes) × (r : ReplicateRequest V) × In m ms
          × (model_validate_json m.value ≡ some r)
          × (w ≡ write_of r)
    unfolding writes applied
    writes-source [] w k = absurd k
    writes-source (n ∷ ns) w k = elim (Bool-cases (commit_ok n)) [
      | inl fine ↦ elim (In-add_write w (model_validate_json n.value) _ (rw fine at k)) [
        | inl (r, e, q) ↦ (n, r, inl refl, e, q)
        | inr j ↦ let (m, r, i, e, q) = writes-source ns w j in (m, r, inr i, e, q)
      ]
      | inr broken ↦ elim (In-add_write w (model_validate_json n.value) [] (rw broken at k)) [
        | inl (r, e, q) ↦ (n, r, inl refl, e, q)
        | inr j ↦ absurd j
      ]
    ]

    -- A follower that has been restarted answers a 404 for a key as long as no message that is
    -- delivered since carries it, whatever was committed, and so is no longer in the lag, before.
    pub restart_forgets :
        (st : FollowerState V) (ms : List (Message Bytes)) (key : String)
        → ((m : Message Bytes) (r : ReplicateRequest V)
            → In m ms
            → model_validate_json m.value ≡ some r
            → ¬ (r.key ≡ key))
        → (get_key (consume_loop model_validate_json commit_ok ms (restart st)).0.storage key
            ≡ http_exception 404)
          × ((restart st).committed ≡ st.committed)
    unfolding get_key restart
    restart_forgets st ms key other = (absent (Storage.get (run.storage) key) refl, refl)
      where
        run : FollowerState V
        run = (consume_loop model_validate_json commit_ok ms (restart st)).0

        absent :
            (o : Option (VersionedValue V))
            → Storage.get run.storage key ≡ o
            → get_key run.storage key ≡ http_exception 404
        absent none e = rw e refl
        absent (some v) e =
            let (m, r, i, q, s) =
              writes-source ms (key, v)
                (source_of_empty _ key v (
                  ap (λ t. Storage.get t key)
                    (sym (consume_loop-storage model_validate_json commit_ok ms (restart st)))
                  ∙ e)) in
            absurd (other m r i q (sym (ap (λ w. w.0) s)))

-- ===== src/MessageQueue/Follower/Run.antt =====
-- What `_consume_loop` of message_queue/follower.py leaves in the store and commits, over the logs
-- of the topic's partitions.
use kv_replication_lab.Prelude.{
  ℕ, ◌+◌, ◌≤◌, ◌<◌, ◌≡◌, refl, sym, ap, ◌∙◌, ◌⊎◌, inl, inr, Bool, Option, none, some, List, [], ◌∷◌,
  In, arith, Bool-cases, some_inj, get_elem?, nat_eq, nat_eq_iff, if◌then◌else◌,
}
use kv_replication_lab.Common.Storage.{KvStore}
use kv_replication_lab.Common.Storage.Replay.{Write, apply_write, apply_all}
use kv_replication_lab.Common.Server.{ReplicateRequest}
use kv_replication_lab.MessageQueue.Follower.{
  Message, FollowerState, or_zero, commit, apply_message, consume_loop,
}

-- The versioned write that a request carries.
abbrev pub write_of : {V : Type 0} → ReplicateRequest V → Write V
write_of r = (r.key, record { value = r.value; timestamp = r.timestamp; node_id = r.node_id })

abbrev pub advance : (ℕ → ℕ) → ℕ → ℕ → ℕ
advance from p q = if nat_eq q p then from q + 1 else from q

-- The consumer delivers the messages of each partition's log one after the other, from an offset
-- of each on; the partitions interleave in any way.
abbrev pub Delivered :
    {Bytes : Type 0} (logs : ℕ → List Bytes) (from : ℕ → ℕ) → List (Message Bytes) → Type 0
Delivered logs from [] = Unit
Delivered logs from (m ∷ ms) =
    (m.offset ≡ from m.partition)
    × (get_elem? (logs m.partition) m.offset ≡ some m.value)
    × Delivered logs (advance from m.partition) ms

-- A later message of a partition is the one that is delivered now, or comes after it.
now_or_later :
    (from : ℕ → ℕ) (p q i : ℕ) → from p ≤ i → ((p ≡ q) × (i ≡ from p)) ⊎ (advance from q p ≤ i)
now_or_later from p q i le = ground arith

commit-advance :
    (committed : ℕ → Option ℕ) (from : ℕ → ℕ) (q n p : ℕ)
    → or_zero (committed p) ≡ from p
    → n ≡ from q
    → or_zero (commit committed q (n + 1) p) ≡ advance from q p
commit-advance committed from q n p at e = elim (Bool-cases (nat_eq p q)) [
  | inl same ↦ rw same (ap (λ k. k + 1) (e ∙ ap from (sym ((nat_eq_iff p q).0 same))))
  | inr other ↦ rw other at
]

module _ {V Bytes : Type 0} (model_validate_json : Bytes → Option (ReplicateRequest V)) where
  abbrev pub add_write : Option (ReplicateRequest V) → List (Write V) → List (Write V)
  add_write none ws = ws
  add_write (some r) ws = write_of r ∷ ws

  -- The writes that well-formed messages carry.
  unfoldable pub writes : List (Message Bytes) → List (Write V)
  writes [] = []
  writes (m ∷ ms) = add_write (model_validate_json m.value) (writes ms)

  module _ (commit_ok : Message Bytes → Bool) where
    -- The messages up to the first whose commit is raised, that one included.
    unfoldable pub applied : List (Message Bytes) → List (Message Bytes)
    applied [] = []
    applied (m ∷ ms) = let rest = applied ms in if commit_ok m then m ∷ rest else m ∷ []

    abbrev next_state : FollowerState V → Message Bytes → FollowerState V
    next_state st m = record {
      storage = (apply_message model_validate_json m.value st.storage).0;
      committed = commit st.committed m.partition (m.offset + 1);
    }

    apply_message_lem :
        (m : Message Bytes) (s : KvStore V) (ws : List (Write V))
        → apply_all (apply_message model_validate_json m.value s).0 ws
          ≡ apply_all s (add_write (model_validate_json m.value) ws)
    unfolding apply_message apply_all apply_write
    apply_message_lem m s ws = parsed (model_validate_json m.value) refl
      where
        parsed :
            (o : Option (ReplicateRequest V))
            → model_validate_json m.value ≡ o
            → apply_all (apply_message model_validate_json m.value s).0 ws
              ≡ apply_all s (add_write o ws)
        parsed none e = rw (e, apply_message) refl
        parsed (some r) e = rw (e, apply_message) refl

    -- A follower's store is what the writes of the messages so far make of the store it had.
    pub consume_loop-storage :
        (ms : List (Message Bytes)) (st : FollowerState V)
        → (consume_loop model_validate_json commit_ok ms st).0.storage
          ≡ apply_all st.storage (writes (applied ms))
    unfolding consume_loop writes applied apply_all
    consume_loop-storage [] st = refl
    consume_loop-storage (m ∷ ms) st = elim (Bool-cases (commit_ok m)) [
      | inl fine ↦ rw fine (
          consume_loop-storage ms (next_state st m)
          ∙ apply_message_lem m st.storage (writes (applied ms)))
      | inr broken ↦ rw broken (apply_message_lem m st.storage [])
    ]

    In-add_write :
        (w : Write V) (o : Option (ReplicateRequest V)) (ws : List (Write V))
        → In w ws
        → In w (add_write o ws)
    In-add_write w none ws m = m
    In-add_write w (some r) ws m = inr m

    -- A message that has been committed since has been applied.
    pub committed-In :
        (logs : ℕ → List Bytes) (ms : List (Message Bytes)) (st : FollowerState V) (from : ℕ → ℕ)
        → ((p : ℕ) → or_zero (st.committed p) ≡ from p)
        → Delivered logs from ms
        → (p i : ℕ) (raw : Bytes) (r : ReplicateRequest V) → from p ≤ i
        → i < or_zero ((consume_loop model_validate_json commit_ok ms st).0.committed p)
        → get_elem? (logs p) i ≡ some raw
        → model_validate_json raw ≡ some r
        → In (write_of r) (writes (applied ms))
    unfolding consume_loop writes applied
    committed-In logs [] st from at d p i raw r le lt e q = absurd (omega (arith, at p))
    committed-In logs (m ∷ ms) st from at (o, g, d) p i raw r le lt e q =
        elim (Bool-cases (commit_ok m)) [
          | inr broken ↦ absurd (omega (arith, at p, le, rw broken at lt))
          | inl fine ↦ elim (now_or_later from p m.partition i le) [
            | inl (same, here) ↦
                let value : raw ≡ m.value = some_inj raw m.value (
                  sym e
                  ∙ ap (λ k. get_elem? (logs p) k) (here ∙ ap from same ∙ sym o)
                  ∙ ap (λ k. get_elem? (logs k) m.offset) same
                  ∙ g) in
                rw (fine, sym (ap model_validate_json value) ∙ q) (inl refl)
            | inr later ↦
                let rest =
                  committed-In logs ms (next_state st m) (advance from m.partition)
                    (λ k. commit-advance st.committed from m.partition m.offset k (at k) o) d p i
                    raw r later (rw fine at lt) e q in
                rw fine (
                  In-add_write (write_of r) (model_validate_json m.value) (writes (applied ms))
                    rest)
          ]
        ]

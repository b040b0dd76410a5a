-- ===== src/Common/Storage/Replay.antt =====
-- Sequences of `KVStore.put` (common/storage.py), as a replica applies them, and what a key holds
-- after them.
use kv_replication_lab.Prelude.{
  lookup, ◌≡◌, refl, sym, ap, subst, ◌⊎◌, inl, inr, String, Bool, true, false, Option, none, some,
  List, [], ◌∷◌, In, arith, eq_iff, eq_refl, ◌==◌, if◌then◌else◌,
}
use kv_replication_lab.Common.Models.{VersionedValue, is_newer_than}
use kv_replication_lab.Common.Models.Order.{
  SameStamp, not_newer_trans, not_newer_self, newer_asymm, SameStamp-of_not_newer,
}
use kv_replication_lab.Common.Storage.{KvStore, empty, get, put}
use kv_replication_lab.Common.Storage.Laws.{winner, get-put}

-- One replicated write: a key and the version for it.
abbrev pub Write : Type 0 → Type 0
Write V = String × VersionedValue V

module _ {V : Type 0} where
  unfoldable pub apply_write : KvStore V → Write V → KvStore V
  apply_write s (k, v) = (put s k v.value v.timestamp v.node_id).0

  unfoldable pub apply_all : KvStore V → List (Write V) → KvStore V
  apply_all s [] = s
  apply_all s (w ∷ ws) = apply_all (apply_write s w) ws

  -- Something is held, and the given version is not newer.
  abbrev pub AtLeast : VersionedValue V → Option (VersionedValue V) → Type 0
  AtLeast v none = ⊥
  AtLeast v (some u) = is_newer_than v u ≡ false

  -- One stamp names one write.
  abbrev pub OneValuePerStamp : List (Write V) → Type 0
  OneValuePerStamp ws =
      (k : String) (u v : VersionedValue V) → In (k, u) ws → In (k, v) ws → SameStamp u v → u ≡ v

module _ {V : Type 0} where
  AtLeast-trans :
      (u v : VersionedValue V) (o : Option (VersionedValue V))
      → is_newer_than u v ≡ false
      → AtLeast v o
      → AtLeast u o
  AtLeast-trans u v none h a = a
  AtLeast-trans u v (some w) h a = not_newer_trans u v w h a

  winner-AtLeast_old :
      (i v : VersionedValue V) (o : Option (VersionedValue V))
      → AtLeast v o
      → AtLeast v (some (winner i o))
  winner-AtLeast_old i v none a = absurd a
  winner-AtLeast_old i v (some c) a = ground (arith, newer_asymm i c, not_newer_trans v c i)

  winner-AtLeast_new :
      (i : VersionedValue V) (o : Option (VersionedValue V)) → AtLeast i (some (winner i o))
  winner-AtLeast_new i none = not_newer_self i
  winner-AtLeast_new i (some c) = ground (arith, not_newer_self i)

  get-apply_write :
      (s : KvStore V) (w : Write V) (j : String)
      → get (apply_write s w) j ≡ (if w.0 == j then some (winner w.1 (get s j)) else get s j)
  unfolding apply_write
  get-apply_write s (k, v) j =
      ground (arith, get-put s k v.value v.timestamp v.node_id j, eq_iff k j)

  AtLeast-if :
      (b : Bool) (v w : VersionedValue V) (o : Option (VersionedValue V))
      → AtLeast v o
      → AtLeast v (if b then some (winner w o) else o)
  AtLeast-if true v w o a = winner-AtLeast_old w v o a
  AtLeast-if false v w o a = a

  pub apply_write-AtLeast :
      (s : KvStore V) (w : Write V) (j : String) (v : VersionedValue V)
      → AtLeast v (get s j)
      → AtLeast v (get (apply_write s w) j)
  apply_write-AtLeast s w j v a =
      subst (AtLeast v) (sym (get-apply_write s w j)) (AtLeast-if (w.0 == j) v w.1 (get s j) a)

  pub apply_write-AtLeast_self :
      (s : KvStore V) (k : String) (v : VersionedValue V) → AtLeast v (get (apply_write s (k, v)) k)
  apply_write-AtLeast_self s k v =
      subst (AtLeast v) (sym (get-apply_write s (k, v) k))
        (rw (eq_refl k) (winner-AtLeast_new v (get s k)))

  -- Whatever writes a replica applies, in whatever order, no key ever goes back to an older
  -- version or becomes absent.
  pub apply_all-AtLeast :
      (s : KvStore V) (ws : List (Write V)) (j : String) (v : VersionedValue V)
      → AtLeast v (get s j)
      → AtLeast v (get (apply_all s ws) j)
  unfolding apply_all
  apply_all-AtLeast s [] j v a = a
  apply_all-AtLeast s (w ∷ ws) j v a =
      apply_all-AtLeast (apply_write s w) ws j v (apply_write-AtLeast s w j v a)

  -- A replica that has applied a write holds its version or a newer one.
  pub apply_all-AtLeast-In :
      (s : KvStore V) (ws : List (Write V)) (j : String) (v : VersionedValue V)
      → In (j, v) ws
      → AtLeast v (get (apply_all s ws) j)
  unfolding apply_all
  apply_all-AtLeast-In s [] j v m = absurd m
  apply_all-AtLeast-In s (w ∷ ws) j v (inl e) =
      apply_all-AtLeast (apply_write s w) ws j v
        (subst (λ x. AtLeast v (get (apply_write s x) j)) e (apply_write-AtLeast_self s j v))
  apply_all-AtLeast-In s (w ∷ ws) j v (inr m) = apply_all-AtLeast-In (apply_write s w) ws j v m

  apply_write-source :
      (s : KvStore V) (w : Write V) (j : String) (v : VersionedValue V)
      → get (apply_write s w) j ≡ some v
      → (get s j ≡ some v) ⊎ ((j, v) ≡ w)
  apply_write-source s (k, u) j v h = ground (arith, get-apply_write s (k, u) j, eq_iff k j)

  -- What a key holds after the writes, it held before or one of the writes carried it.
  pub apply_all-source :
      (s : KvStore V) (ws : List (Write V)) (j : String) (v : VersionedValue V)
      → get (apply_all s ws) j ≡ some v
      → (get s j ≡ some v) ⊎ In (j, v) ws
  unfolding apply_all
  apply_all-source s [] j v h = inl h
  apply_all-source s (w ∷ ws) j v h = elim (apply_all-source (apply_write s w) ws j v h) [
    | inl e ↦ elim (apply_write-source s w j v e) [ inl o ↦ inl o | inr q ↦ inr (inl q) ]
    | inr m ↦ inr (inr m)
  ]

  get-empty : (j : String) → get (empty {V = V}) j ≡ none
  unfolding get lookup
  get-empty j = refl

  pub source_of_empty :
      (ws : List (Write V)) (j : String) (v : VersionedValue V)
      → get (apply_all empty ws) j ≡ some v
      → In (j, v) ws
  source_of_empty ws j v h = elim (apply_all-source empty ws j v h) [
    | inl e ↦ cc (get-empty j, e)
    | inr m ↦ m
  ]

module _ {V : Type 0} (ws us : List (Write V)) (one : OneValuePerStamp ws)
    (into : (w : Write V) → In w ws → In w us) (back : (w : Write V) → In w us → In w ws)
    (j : String) where
  same_result :
      (a b : Option (VersionedValue V))
      → get (apply_all empty ws) j ≡ a
      → get (apply_all empty us) j ≡ b
      → a ≡ b
  same_result none none p q = refl
  same_result none (some v) p q = absurd (
      subst (AtLeast v) p
        (apply_all-AtLeast-In empty ws j v (back (j, v) (source_of_empty us j v q))))
  same_result (some u) none p q = absurd (
      subst (AtLeast u) q
        (apply_all-AtLeast-In empty us j u (into (j, u) (source_of_empty ws j u p))))
  same_result (some u) (some v) p q =
      let mu = source_of_empty ws j u p in
      let mv = back (j, v) (source_of_empty us j v q) in
      ap some (
        one j u v mu mv (
          SameStamp-of_not_newer u v
            (subst (AtLeast u) q (apply_all-AtLeast-In empty us j u (into (j, u) mu)))
            (subst (AtLeast v) p (apply_all-AtLeast-In empty ws j v mv))))

  -- Two replicas that start empty and apply the same writes hold the same versions, whatever the
  -- order and however often each write arrives, if no two writes to a key share a stamp and
  -- differ.
  pub apply_all_converges : get (apply_all empty ws) j ≡ get (apply_all empty us) j
  apply_all_converges = same_result _ _ refl refl

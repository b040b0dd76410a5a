-- ===== src/SmokeTest/Routing.antt =====
-- What `check_partition_routing` of experiments/kafka_smoke_test.py finds out.
use kv_replication_lab.Prelude.{
  ℕ, ◌≡◌, refl, ap, sym, subst, ◌∙◌, ◌↔◌, ◌⊎◌, inl, inr, String, Bool, true, List, [], ◌∷◌, map,
  keep, All, length, arith, nat_eq, ltb, ◌==◌, eq_iff, eq_refl, In, In-map, All-map, In-keep,
  In-keep_of, if_cases,
}
use kv_replication_lab.SmokeTest.{
  Received, insert_number, sorted_set, all_of, partitions_of, check_partition_routing,
}

In-insert_number : (x n : ℕ) (ks : List ℕ) → (x ≡ n) ⊎ In x ks → In x (insert_number n ks)
In-insert_number x n [] (inl e) = inl e
In-insert_number x n [] (inr m) = inr m
In-insert_number x n (k ∷ ks) m =
    if_cases (In x) (ltb n k) _ _ (λ h. m)
      (λ h.
        if_cases (In x) (nat_eq n k) _ _ (λ e. same e m) (λ e. other m (In-insert_number x n ks)))
  where
    same : nat_eq n k ≡ true → ((x ≡ n) ⊎ In x (k ∷ ks)) → In x (k ∷ ks)
    same e (inl h) = inl (ground (arith, h, e))
    same e (inr h) = h

    other :
        ((x ≡ n) ⊎ In x (k ∷ ks))
        → (((x ≡ n) ⊎ In x ks) → In x (insert_number n ks))
        → In x (k ∷ insert_number n ks)
    other (inl e) next = inr (next (inl e))
    other (inr (inl e)) next = inl e
    other (inr (inr h)) next = inr (next (inr h))

In-sorted_set : (x : ℕ) (ns : List ℕ) → In x ns → In x (sorted_set ns)
unfolding sorted_set
In-sorted_set x [] m = m
In-sorted_set x (n ∷ ns) (inl e) = In-insert_number x n (sorted_set ns) (inl e)
In-sorted_set x (n ∷ ns) (inr m) = In-insert_number x n (sorted_set ns) (inr (In-sorted_set x ns m))

-- What a set of one number comes from.
sorted_set-constant :
    (v : ℕ) (ns : List ℕ) → All (λ n. n ≡ v) ns → (sorted_set ns ≡ []) ⊎ (sorted_set ns ≡ v ∷ [])
unfolding sorted_set
sorted_set-constant v [] h = inl refl
sorted_set-constant v (n ∷ ns) (e, hs) = elim (sorted_set-constant v ns hs) [
  | inl none_yet ↦ inr (rw (none_yet, e) refl)
  | inr one ↦ inr (rw (one, e) (ground arith))
]

one_element : (x y : ℕ) (ks : List ℕ) → nat_eq (length ks) 1 ≡ true → In x ks → In y ks → x ≡ y
one_element x y [] h mx my = elim mx [ ]
one_element x y (k ∷ []) h (inl e) (inl f) = e ∙ sym f
one_element x y (k ∷ []) h (inl e) (inr m) = elim m [ ]
one_element x y (k ∷ []) h (inr m) my = elim m [ ]
one_element x y (k ∷ l ∷ ks) h mx my = ground (arith, h)

all_of-In :
    {A : Type 0} (p : A → Bool) (xs : List A) → all_of p xs ≡ true → (x : A) → In x xs → p x ≡ true
all_of-In p [] h x m = elim m [ ]
all_of-In p (y ∷ ys) h x (inl e) = ap p e ∙ ground (arith, h)
all_of-In p (y ∷ ys) h x (inr m) = all_of-In p ys (ground (arith, h)) x m

all_of_lem :
    {A : Type 0} (p : A → Bool) (xs : List A)
    → ((x : A) → In x xs → p x ≡ true)
    → all_of p xs ≡ true
all_of_lem p [] h = refl
all_of_lem p (y ∷ ys) h =
    let here = h y (inl refl) in
    let later = all_of_lem p ys (λ x m. h x (inr m)) in ground (arith, here, later)

All_lem : {A : Type 0} (P : A → Type 0) (xs : List A) → ((x : A) → In x xs → P x) → All P xs
All_lem P [] h = tt
All_lem P (x ∷ xs) h = (h x (inl refl), All_lem P xs (λ y m. h y (inr m)))

-- Messages with one key are in one partition.
abbrev pub IsRouted : List Received → Type 0
IsRouted sent = (m n : Received) → In m sent → In n sent → m.key ≡ n.key → m.partition ≡ n.partition

In-partitions_of :
    (m : Received) (sent : List Received) (key : String)
    → In m sent
    → (m.key == key) ≡ true
    → In m.partition (partitions_of sent key)
unfolding partitions_of
In-partitions_of m sent key there same =
    In-sorted_set m.partition _
      (In-map (λ k. k.partition) m _ (In-keep_of (λ k. k.key == key) m sent there same))

routed_one :
    (sent : List Received)
    → IsRouted sent
    → (m : Received) → In m sent
    → nat_eq (length (partitions_of sent m.key)) 1 ≡ true
unfolding partitions_of
routed_one sent routed m there =
    by_set _
      (sorted_set-constant m.partition (map (λ k. k.partition) (keep (λ k. k.key == m.key) sent)) (
        All-map (λ n. n ≡ m.partition) (λ (k : Received). k.partition ≡ m.partition)
          (λ k. k.partition) (λ k e. e) (keep (λ k. k.key == m.key) sent)
          (All_lem (λ k. k.partition ≡ m.partition) (keep (λ k. k.key == m.key) sent)
            (λ k kept.
              let (present, same) = In-keep (λ n. n.key == m.key) k sent kept in
              routed k m present there (key_same k same)))))
      (In-partitions_of m sent m.key there (eq_refl m.key))
  where
    key_same : (k : Received) → (k.key == m.key) ≡ true → k.key ≡ m.key
    key_same k e = ground (arith, eq_iff k.key m.key)

    by_set :
        (ks : List ℕ)
        → (ks ≡ []) ⊎ (ks ≡ m.partition ∷ [])
        → In m.partition ks
        → nat_eq (length ks) 1 ≡ true
    by_set ks (inl e) i = elim (subst (In m.partition) e i) [ ]
    by_set ks (inr e) i = rw e refl

-- The check of the routing succeeds just if any two messages with the same key are in the same
-- partition.
pub check_partition_routing_iff :
    (sent : List Received) → (check_partition_routing sent ≡ true) ↔ IsRouted sent
unfolding check_partition_routing
check_partition_routing_iff sent = (
  λ ok m n there present same.
      one_element m.partition n.partition (partitions_of sent m.key)
        (all_of-In (λ k. nat_eq (length (partitions_of sent k.key)) 1) sent ok m there)
        (In-partitions_of m sent m.key there (eq_refl m.key))
        (In-partitions_of n sent m.key present (ap (λ k. k == m.key) (sym same) ∙ eq_refl m.key)),
  λ routed. all_of_lem _ sent (routed_one sent routed),
)

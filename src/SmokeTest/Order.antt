-- ===== src/SmokeTest/Order.antt =====
-- What `check_order_preserved` (experiments/kafka_smoke_test.py) does not see.
use kv_replication_lab.Prelude.{
  ℕ, ◌≡◌, ◌≢◌, refl, ap, sym, ◌∙◌, inl, inr, String, Bool, true, false, ◌&&◌, List, [], ◌∷◌, ◌++◌,
  map, map-append, keep, nat_eq, arith, Bool-cases, ◌==◌,
}
use kv_replication_lab.SmokeTest.{
  Received, entries_of, insert_entry, sort_entries, insert_number, sorted_set, same_numbers,
  range_from, all_of, offsets_fine, seqs_of, key_fine, check_order_preserved,
}

insert_entry_swap :
    (a b : Received) (l : List Received)
    → a.offset ≢ b.offset
    → insert_entry a (insert_entry b l) ≡ insert_entry b (insert_entry a l)
insert_entry_swap a b [] h = ground (arith, h)
insert_entry_swap a b (c ∷ l) h = ground (arith, h, insert_entry_swap a b l h)

insert_number_swap :
    (a b : ℕ) (l : List ℕ)
    → insert_number a (insert_number b l) ≡ insert_number b (insert_number a l)
insert_number_swap a b [] = ground arith
insert_number_swap a b (c ∷ l) = ground (arith, insert_number_swap a b l)

sorted_set_swap :
    (xs : List ℕ) (a b : ℕ) (ys : List ℕ)
    → sorted_set (xs ++ (a ∷ b ∷ ys)) ≡ sorted_set (xs ++ (b ∷ a ∷ ys))
unfolding sorted_set
sorted_set_swap [] a b ys = insert_number_swap a b (sorted_set ys)
sorted_set_swap (x ∷ xs) a b ys = ap (insert_number x) (sorted_set_swap xs a b ys)

all_of_swap :
    {A : Type 0} (p : A → Bool) (xs : List A) (a b : A) (ys : List A)
    → all_of p (xs ++ (a ∷ b ∷ ys)) ≡ all_of p (xs ++ (b ∷ a ∷ ys))
all_of_swap p [] a b ys = swap_and (p a) (p b) (all_of p ys)
  where
    swap_and : (x y z : Bool) → (x && (y && z)) ≡ (y && (x && z))
    swap_and true y z = refl
    swap_and false true z = refl
    swap_and false false z = refl
all_of_swap p (x ∷ xs) a b ys = ap (◌&&◌ (p x)) (all_of_swap p xs a b ys)

module _ (a b : Received) (ys : List Received)
    (apart : a.partition ≡ b.partition → a.offset ≢ b.offset) where
  entries_swap :
      (p : ℕ) (xs : List Received)
      → sort_entries (entries_of p (xs ++ (a ∷ b ∷ ys)))
        ≡ sort_entries (entries_of p (xs ++ (b ∷ a ∷ ys)))
  unfolding sort_entries
  entries_swap p [] = elim (Bool-cases (nat_eq a.partition p)) [
    | inr a_not ↦ rw a_not refl
    | inl a_in ↦ elim (Bool-cases (nat_eq b.partition p)) [
      | inr b_not ↦ rw (a_in, b_not) refl
      | inl b_in ↦
          rw (a_in, b_in)
            (insert_entry_swap a b (sort_entries (entries_of p ys))
              (apart (same_partition a_in b_in)))
    ]
  ]
    where
      same_partition :
          nat_eq a.partition p ≡ true → nat_eq b.partition p ≡ true → a.partition ≡ b.partition
      same_partition h k = ground arith
  entries_swap p (x ∷ xs) = elim (Bool-cases (nat_eq x.partition p)) [
    | inl x_in ↦ rw x_in (ap (insert_entry x) (entries_swap p xs))
    | inr x_not ↦ rw x_not (entries_swap p xs)
  ]

  module _ (xs : List Received) where
    abbrev one_order : List Received
    one_order = xs ++ (a ∷ b ∷ ys)

    abbrev other_order : List Received
    other_order = xs ++ (b ∷ a ∷ ys)

    offsets_same : (p : ℕ) → offsets_fine one_order p ≡ offsets_fine other_order p
    unfolding offsets_fine
    offsets_same p =
        ap
          (λ (es : List Received).
            same_numbers (map (λ m. m.offset) es) (sorted_set (map (λ m. m.offset) es)))
          (entries_swap p xs)

    seqs_same : (key : String) (ps : List ℕ) → seqs_of one_order key ps ≡ seqs_of other_order key ps
    unfolding seqs_of
    seqs_same key [] = refl
    seqs_same key (p ∷ ps) =
        λ i. map (λ m. m.seq) (keep (λ m. m.key == key) (entries_swap p xs i)) ++ seqs_same key ps i

    partitions_same :
        sorted_set (map (λ (n : Received). n.partition) one_order)
        ≡ sorted_set (map (λ (n : Received). n.partition) other_order)
    partitions_same =
        ap sorted_set (map-append (λ (n : Received). n.partition) xs (a ∷ b ∷ ys))
        ∙ sorted_set_swap (map (λ (n : Received). n.partition) xs) a.partition b.partition
            (map (λ (n : Received). n.partition) ys)
        ∙ sym (ap sorted_set (map-append (λ (n : Received). n.partition) xs (b ∷ a ∷ ys)))

    keys_same : (n : ℕ) (m : Received) → key_fine n one_order m ≡ key_fine n other_order m
    unfolding key_fine
    keys_same n m =
        ap (λ seqs. same_numbers seqs (range_from 0 n))
          (seqs_same m.key _ ∙ ap (seqs_of other_order m.key) partitions_same)

    -- The check does not see in which order the messages of a partition were consumed: if two that
    -- were consumed one after the other, with different offsets where their partition is the same,
    -- change places, the result is the same.
    pub check_order_preserved_swap :
        (messages_per_key : ℕ)
        → check_order_preserved messages_per_key (xs ++ (a ∷ b ∷ ys))
          ≡ check_order_preserved messages_per_key (xs ++ (b ∷ a ∷ ys))
    unfolding check_order_preserved
    check_order_preserved_swap n =
        (λ i.
          all_of (λ (m : Received). offsets_same m.partition i) one_order
          && all_of (λ m. keys_same n m i) one_order)
        ∙ (λ i.
            all_of_swap (λ (m : Received). offsets_fine other_order m.partition) xs a b ys i
            && all_of_swap (key_fine n other_order) xs a b ys i)

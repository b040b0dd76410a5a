-- ===== src/Comparison/Clusters/Groups.antt =====
-- Node ids in the message-queue sweep of experiments/run_comparison.py: a follower's consumer group
-- is named by its node id (message_queue/follower.py).
use kv_replication_lab.Prelude.{
  ℕ, ◌≡◌, refl, ap, sym, ◌∙◌, Bool, true, [], ◌∷◌, ◌++◌, map, All, length, drop, arith, ltb, ◌+◌,
  ◌/◌, ◌%◌, if_cases, if◌then◌else◌,
}
use kv_replication_lab.Prelude.Chars.{
  Text, codes, decimal, decimal_in, rstrip, rstrip_step, starts_with, starts_with-delimited,
  Without, drop-front,
}
use kv_replication_lab.Prelude.Decimals.{is_digit, decimal-digits, decimal-injective}
use kv_replication_lab.Comparison.Clusters.{
  is_alnum, is_underscore, slug, workers_label, follower_id,
}

abbrev IsDigits : Text → Type 0
IsDigits t = All (λ c. is_digit c ≡ true) t

-- In a slug digits stay as they are.
cleaned-digits : (t : Text) → IsDigits t → map (λ c. if is_alnum c then c else 95) t ≡ t
cleaned-digits [] h = refl
cleaned-digits (c ∷ t) (h, hs) = ground (arith, h, cleaned-digits t hs)

digits-Without : (t : Text) → IsDigits t → Without 95 t
digits-Without [] h = tt
digits-Without (c ∷ t) (h, hs) = (ground (arith, h), digits-Without t hs)

rstrip-Without : (t : Text) → Without 95 t → rstrip is_underscore t ≡ t
rstrip-Without [] h = refl
rstrip-Without (c ∷ t) (h, hs) = rw (rstrip-Without t hs) (kept t)
  where
    kept : (u : Text) → rstrip_step (is_underscore c) c u ≡ c ∷ u
    kept [] = ground (arith, h)
    kept (d ∷ u) = refl

-- A number has at least one digit, so that what stands in front of it is not stripped.
before_decimal : (b : Bool) (c n : ℕ) → rstrip_step b c (decimal n) ≡ c ∷ decimal n
before_decimal b c n =
    if_cases (λ t. rstrip_step b c t ≡ c ∷ t) (ltb n 10) _ _ (λ small. refl)
      (λ large. ends (decimal_in n (n / 10)) (48 + (n % 10)))
  where
    ends : (s : Text) (d : ℕ) → rstrip_step b c (s ++ (d ∷ [])) ≡ c ∷ (s ++ (d ∷ []))
    ends [] d = refl
    ends (x ∷ s) d = refl

slug-workers_label : (n : ℕ) → slug (workers_label n) ≡ codes "workers_" ++ decimal n
unfolding slug
slug-workers_label n =
    rw
      (
        cleaned-digits (decimal n) (decimal-digits n),
        rstrip-Without (decimal n) (digits-Without (decimal n) (decimal-digits n)),
        before_decimal true 95 n,
      )
      refl

starts_with_self : (s : Text) → starts_with s s ≡ true
starts_with_self [] = refl
starts_with_self (c ∷ s) = ground (arith, starts_with_self s)

-- What is the same up to a delimiter, with neither part containing it, is the same before and after.
same_parts :
    (c : ℕ) (s t p r : Text)
    → Without c s
    → Without c t
    → s ++ (c ∷ p) ≡ t ++ (c ∷ r)
    → (s ≡ t) × (p ≡ r)
same_parts c s t p r hs ht e =
    let same =
      starts_with-delimited c s t p r hs ht
        (ap (starts_with (s ++ (c ∷ p))) (sym e) ∙ starts_with_self (s ++ (c ∷ p))) in
    (same, ap (drop 1) (sym (drop-front s (c ∷ p)) ∙ ap2 (ap length same) e ∙ drop-front t (c ∷ r)))
  where
    ap2 : {m n : ℕ} {u v : Text} → m ≡ n → u ≡ v → drop m u ≡ drop n v
    ap2 h k = rw (h, k) refl

-- Two followers of the message-queue sweep with the same node id are the same follower of the same
-- configuration, so that no two of the sweep's followers share a consumer group.
pub follower_id-injective :
    (num_workers i other_workers j : ℕ)
    → follower_id num_workers i ≡ follower_id other_workers j
    → (num_workers ≡ other_workers) × (i ≡ j)
unfolding follower_id
follower_id-injective n i m j e =
    let (ids, slugs) =
      same_parts 95 (decimal i) (decimal j) (slug (workers_label n)) (slug (workers_label m))
        (digits-Without (decimal i) (decimal-digits i))
        (digits-Without (decimal j) (decimal-digits j)) (ap (drop 8) e) in
    (
      decimal-injective n m
          (ap (drop 8) (sym (slug-workers_label n) ∙ slugs ∙ slug-workers_label m)),
      decimal-injective i j ids,
    )

-- ===== src/Prelude/Sorting.antt =====
-- Python's `sorted(xs, key=...)`: a stable sort, by a comparison of the keys.
use mathlib.Core.Path.{◌≡◌, refl, ◌∙◌}
use mathlib.Core.Bool.{Bool, true, false, ◌&&◌}
use mathlib.Core.List.{List, [], ◌∷◌}
use native.Mathlib.Omega.{arith}
use kv_replication_lab.Prelude.Tests.{if◌then◌else◌, if_cases}
use kv_replication_lab.Prelude.Lists.{All, keep}

module _ {A : Type 0} (le : A → A → Bool) where
  -- Before the first one that is not smaller: what came earlier stays first among equals.
  unfoldable pub insert_by : A → List A → List A
  insert_by x [] = x ∷ []
  insert_by x (y ∷ ys) = let rest = insert_by x ys in if le x y then x ∷ y ∷ ys else y ∷ rest

  unfoldable pub sorted_by : List A → List A
  sorted_by [] = []
  sorted_by (x ∷ xs) = insert_by x (sorted_by xs)

  abbrev pub Ascending : List A → Type 0
  Ascending [] = Unit
  Ascending (x ∷ xs) = All (λ y. le x y ≡ true) xs × Ascending xs

  -- Neither of the two is smaller.
  abbrev pub same_rank : A → A → Bool
  same_rank x y = le x y && le y x

  module _ (total : (x y : A) → le x y ≡ false → le y x ≡ true)
      (le_trans : (x y z : A) → le x y ≡ true → le y z ≡ true → le x z ≡ true) where
    All-insert_by : (P : A → Type 0) (x : A) (ys : List A) → P x → All P ys → All P (insert_by x ys)
    unfolding insert_by
    All-insert_by P x [] p ps = (p, tt)
    All-insert_by P x (y ∷ ys) p (q, qs) =
        if_cases (All P) (le x y) _ _ (λ h. (p, (q, qs))) (λ h. (q, All-insert_by P x ys p qs))

    below_all :
        (x y : A) (ys : List A)
        → le x y ≡ true
        → All (λ z. le y z ≡ true) ys
        → All (λ z. le x z ≡ true) ys
    below_all x y [] h hs = tt
    below_all x y (z ∷ ys) h (k, ks) = (le_trans x y z h k, below_all x y ys h ks)

    insert_by-Ascending : (x : A) (ys : List A) → Ascending ys → Ascending (insert_by x ys)
    unfolding insert_by
    insert_by-Ascending x [] h = (tt, tt)
    insert_by-Ascending x (y ∷ ys) (h, hs) =
        if_cases Ascending (le x y) _ _ (λ e. ((e, below_all x y ys e h), (h, hs)))
          (λ e.
            (All-insert_by (λ z. le y z ≡ true) x ys (total x y e) h, insert_by-Ascending x ys hs))

    keep-insert_by :
        (r x : A) (ys : List A) → keep (same_rank r) (insert_by x ys) ≡ keep (same_rank r) (x ∷ ys)
    unfolding insert_by
    keep-insert_by r x [] = refl
    keep-insert_by r x (y ∷ ys) =
        if_cases (λ l. keep (same_rank r) l ≡ keep (same_rank r) (x ∷ y ∷ ys)) (le x y) _ _
          (λ h. refl)
          (λ h.
            rw (keep-insert_by r x ys)
              (exchanged (same_rank r x) (same_rank r y) (keep (same_rank r) ys) (apart h)))
      where
        apart : le x y ≡ false → same_rank r x ≡ true → same_rank r y ≡ false
        apart h k = ground (arith, le_trans x r y)

        exchanged :
            (a b : Bool) (l : List A)
            → (a ≡ true → b ≡ false)
            → (if b then y ∷ (if a then x ∷ l else l) else (if a then x ∷ l else l))
              ≡ (if a then x ∷ (if b then y ∷ l else l) else (if b then y ∷ l else l))
        exchanged true true l h = cc (h refl)
        exchanged true false l h = refl
        exchanged false b l h = refl

    -- The result is in ascending order, and those of one rank are the same, in the same order.
    pub sorted_by-IsStable :
        (xs : List A)
        → Ascending (sorted_by xs)
          × ((r : A) → keep (same_rank r) (sorted_by xs) ≡ keep (same_rank r) xs)
    unfolding sorted_by
    sorted_by-IsStable [] = (tt, λ r. refl)
    sorted_by-IsStable (x ∷ xs) =
        let (ascending, stable) = sorted_by-IsStable xs in
        (
          insert_by-Ascending x _ ascending,
          λ r. keep-insert_by r x (sorted_by xs) ∙ rw (stable r) refl,
        )

-- ===== src/LoadTest/Plan/Split.antt =====
-- The chunks of `split_plan` (experiments/_load_test_common.py) and their sizes.
use Prim.Native.Nat.{◌/◌, ◌%◌, ◌*◌, min}
use native.Mathlib.Numerals.{unary_clauses}
use native.Mathlib.Nat.{div-add-mod, mod-lt}
use kv_replication_lab.Prelude.{
  ℕ, zero, suc, ◌+◌, ◌≤◌, ◌<◌, ◌≡◌, refl, sym, ap, ◌∙◌, List, [], ◌∷◌, ◌++◌, length, length-take,
  take, drop, arith,
}
use kv_replication_lab.LoadTest.Plan.{chunk_size, split_loop, split_plan}

abbrev pub concat : {A : Type 0} → List (List A) → List A
concat [] = []
concat (x ∷ xs) = x ++ concat xs

zero_add : {b : ℕ} → b ≡ 0 + b
zero_add = omega arith

suc_add : (a b : ℕ) → suc (a + b) ≡ suc a + b
suc_add a b = omega arith

module _ {A : Type 0} where
  take-take : (a b : ℕ) (xs : List A) → take a xs ++ take b (drop a xs) ≡ take (a + b) xs
  take-take zero b xs = ap (λ n. take n xs) zero_add
  take-take (suc a) zero [] = simp unary_clauses refl
  take-take (suc a) (suc b) [] = simp unary_clauses refl
  take-take (suc a) b (x ∷ xs) =
      ap (◌∷◌ x) (take-take a b xs) ∙ ap (λ n. take n (x ∷ xs)) (suc_add a b)

  drop-drop : (s a : ℕ) (xs : List A) → drop (s + a) xs ≡ drop a (drop s xs)
  drop-drop zero a xs = ap (λ n. drop n xs) (sym zero_add)
  drop-drop (suc s) zero [] = simp unary_clauses refl
  drop-drop (suc s) (suc a) [] = simp unary_clauses refl
  drop-drop (suc s) a (x ∷ xs) = ap (λ n. drop n (x ∷ xs)) (sym (suc_add s a)) ∙ drop-drop s a xs

  take_all : (n : ℕ) (xs : List A) → length xs ≤ n → take n xs ≡ xs
  take_all zero [] le = refl
  take_all zero (x ∷ xs) le = absurd (omega arith)
  take_all (suc n) [] le = refl
  take_all (suc n) (x ∷ xs) le = ap (◌∷◌ x) (take_all n xs (omega (arith, le)))

module _ {A : Type 0} (plan : List A) (base remainder : ℕ) where
  -- The sizes of the chunks of some workers, together.
  abbrev sizes : ℕ → ℕ → ℕ
  sizes zero i = 0
  sizes (suc w) i = chunk_size plan base remainder i + sizes w (i + 1)

  sizes_lem : (w i : ℕ) → sizes w i + min i remainder ≡ w * base + min (i + w) remainder
  sizes_lem zero i = omega arith
  sizes_lem (suc w) i = ground (arith, sizes_lem w (i + 1))

  concat-split_loop :
      (w i start : ℕ)
      → concat (split_loop plan base remainder w i start) ≡ take (sizes w i) (drop start plan)
  concat-split_loop zero i start = refl
  concat-split_loop (suc w) i start =
      let n = chunk_size plan base remainder i in
      ap (λ rest. take n (drop start plan) ++ rest)
        (concat-split_loop w (i + 1) (start + n)
          ∙ ap (take (sizes w (i + 1))) (drop-drop start n plan))
      ∙ take-take n (sizes w (i + 1)) (drop start plan)

  abbrev pub Sized : ℕ → List (List A) → Type 0
  Sized n [] = Unit
  Sized n (c ∷ cs) = (length c ≤ n + 1) × Sized n cs

  -- No chunk has more than one request more than the base.
  split_loop-Sized : (w i start : ℕ) → Sized base (split_loop plan base remainder w i start)
  split_loop-Sized zero i start = tt
  split_loop-Sized (suc w) i start = (
    ground (arith, length-take (chunk_size plan base remainder i) (drop start plan)),
    split_loop-Sized w (i + 1) (start + chunk_size plan base remainder i),
  )

  length-split_loop : (w i start : ℕ) → length (split_loop plan base remainder w i start) ≡ w
  length-split_loop zero i start = refl
  length-split_loop (suc w) i start = ap suc (length-split_loop w (i + 1) _)

-- For at least one worker, the split is into as many chunks as there are workers, which put
-- together in order are the plan; none has more than one request more than an equal share.
pub split_plan_lem :
    {A : Type 0} (plan : List A) (workers : ℕ)
    → 0 < workers
    → (length (split_plan plan workers) ≡ workers)
      × (concat (split_plan plan workers) ≡ plan)
      × Sized plan
          (length plan / workers)
          (length plan % workers)
          (length plan / workers)
          (split_plan plan workers)
unfolding split_plan
split_plan_lem plan workers lt =
    let base = length plan / workers in
    let remainder = length plan % workers in
    (
      length-split_loop plan base remainder workers 0 0,
      concat-split_loop plan base remainder workers 0 0
          ∙ take_all (sizes plan base remainder workers 0) plan (
              omega (
                arith,
                sizes_lem plan base remainder workers 0,
                div-add-mod (length plan) workers,
                mod-lt (length plan) lt,
              )),
      split_loop-Sized plan base remainder workers 0 0,
    )

-- ===== src/Prelude/Ids.antt =====
-- Lists of things with numbers as identities: distinctness, and the pigeonhole principle.
use Prim.Native.Nat.{ℕ, ◌+◌, ◌≤◌, ◌<◌}
use mathlib.Core.Path.{◌≡◌, refl, sym, subst}
use mathlib.Core.Logic.{◌⊎◌, inl, inr}
use mathlib.Core.List.{List, [], ◌∷◌, ◌++◌}
use native.Mathlib.Omega.{arith}
use native.Mathlib.Decide.{ℕ_discrete}
use kv_replication_lab.Prelude.Tests.{nat_eq, if◌then◌else◌}
use kv_replication_lab.Prelude.Lists.{length, In, Distinct, In-append, length-append}

-- `xs` lies within `ys`.
abbrev pub Within : List ℕ → List ℕ → Type 0
Within xs ys = (x : ℕ) → In x xs → In x ys

abbrev pub Apart : List ℕ → List ℕ → Type 0
Apart xs ys = (x : ℕ) → In x xs → ¬ In x ys

pub Distinct-append :
    (xs ys : List ℕ) → Distinct xs → Distinct ys → Apart xs ys → Distinct (xs ++ ys)
Distinct-append [] ys dx dy a = dy
Distinct-append (x ∷ xs) ys dx dy a = (
  λ m. elim (In-append x xs ys m) [ inl l ↦ dx.0 l | inr r ↦ a x (inl refl) r ],
  Distinct-append xs ys dx.1 dy (λ z m. a z (inr m)),
)

-- `ys` with the first `x` taken out
abbrev erase : ℕ → List ℕ → List ℕ
erase x [] = []
erase x (y ∷ ys) = let rest = erase x ys in if nat_eq x y then ys else y ∷ rest

length-erase : (x : ℕ) (ys : List ℕ) → In x ys → length (erase x ys) + 1 ≡ length ys
length-erase x [] m = absurd m
length-erase x (y ∷ ys) (inl e) = ground arith
length-erase x (y ∷ ys) (inr m) = ground (arith, length-erase x ys m)

In-erase : (x z : ℕ) (ys : List ℕ) → In z ys → ¬ (z ≡ x) → In z (erase x ys)
In-erase x z [] m n = m
In-erase x z (y ∷ ys) (inl e) n = ground arith
In-erase x z (y ∷ ys) (inr m) n = ground (arith, In-erase x z ys m n)

pub Distinct-length-le : (xs ys : List ℕ) → Distinct xs → Within xs ys → length xs ≤ length ys
Distinct-length-le [] ys d w = omega arith
Distinct-length-le (x ∷ xs) ys d w = omega (
  arith,
  length-erase x ys (w x (inl refl)),
  Distinct-length-le xs (erase x ys) d.1
      (λ z m. In-erase x z ys (w z (inr m)) (λ e. d.0 (subst (λ t. In t xs) e m))),
)

dec_In : (x : ℕ) (ys : List ℕ) → In x ys ⊎ (¬ In x ys)
dec_In x [] = inr (λ m. m)
dec_In x (y ∷ ys) = elim (ℕ_discrete x y) [
  | yes e ↦ inl (inl e)
  | no n ↦ elim (dec_In x ys) [
    | inl m ↦ inl (inr m)
    | inr k ↦ inr (λ m. elim m [ inl e ↦ n e | inr q ↦ k q ])
  ]
]

common_or_Apart : (xs ys : List ℕ) → ((x : ℕ) × In x xs × In x ys) ⊎ Apart xs ys
common_or_Apart [] ys = inr (λ x m. absurd m)
common_or_Apart (x ∷ xs) ys = elim (dec_In x ys) [
  | inl m ↦ inl (x, inl refl, m)
  | inr n ↦ elim (common_or_Apart xs ys) [
    | inl c ↦ inl (c.0, inr c.1, c.2)
    | inr a ↦ inr (λ z m. elim m [ inl e ↦ subst (λ t. ¬ In t ys) (sym e) n | inr q ↦ a z q ])
  ]
]

-- Two sets within a third that is smaller than both together have a common element.
pub pigeonhole :
    (xs ys zs : List ℕ)
    → Distinct xs
    → Distinct ys
    → Within xs zs
    → Within ys zs
    → length zs < length xs + length ys
    → (x : ℕ) × In x xs × In x ys
pigeonhole xs ys zs dx dy wx wy lt = elim (common_or_Apart xs ys) [
  | inl c ↦ c
  | inr a ↦ absurd (
      omega (
        arith,
        length-append xs ys,
        Distinct-length-le (xs ++ ys) zs (Distinct-append xs ys dx dy a)
            (λ z m. elim (In-append z xs ys m) [ inl l ↦ wx z l | inr r ↦ wy z r ]),
      ))
]

-- ===== src/Prelude/Text.antt =====
-- The order of texts by code points, as Python's `>` on `str`.
use Prim.Native.Nat.{ℕ, compare as compare_ℕ, Ordering}
use Prim.Native.Char.{code}
use Prim.Native.String.{String, compare, then, [], ◌∷◌}
use Prim.Native.String.compare
use text.Mathlib.TextEquality.{path_by_compare}
use text.Mathlib.TextPositions.{compare_refl}
use mathlib.Core.Path.{◌≡◌, refl, sym, ap, ◌∙◌}
use mathlib.Core.Bool.{Bool, true, false}
use native.Mathlib.Omega.{arith}

-- `s > t`
abbrev pub str_gt : String → String → Bool
str_gt s t = elim (compare s t) [ Ordering.gt ↦ true | _ ↦ false ]

abbrev flip : Ordering → Ordering
flip Ordering.lt = Ordering.gt
flip Ordering.eq = Ordering.eq
flip Ordering.gt = Ordering.lt

then-flip :
    (m n : ℕ) (o r : Ordering) → r ≡ flip o → then (compare_ℕ n m) r ≡ flip (then (compare_ℕ m n) o)
then-flip m n o r h = ground arith

compare-flip : (s t : String) → compare t s ≡ flip (compare s t)
compare-flip [] [] = refl
compare-flip [] (d ∷ t) = compare.cons-nil d t ∙ sym (ap flip (compare.nil-cons d t))
compare-flip (c ∷ s) [] = compare.nil-cons c s ∙ sym (ap flip (compare.cons-nil c s))
compare-flip (c ∷ s) (d ∷ t) =
    compare.cons-cons d c t s
    ∙ then-flip (code c) (code d) (compare s t) (compare t s) (compare-flip s t)
    ∙ sym (ap flip (compare.cons-cons c d s t))

then_trans :
    (m n p : ℕ) (o r q : Ordering)
    → (o ≡ Ordering.gt → r ≡ Ordering.gt → q ≡ Ordering.gt)
    → then (compare_ℕ m n) o ≡ Ordering.gt
    → then (compare_ℕ n p) r ≡ Ordering.gt
    → then (compare_ℕ m p) q ≡ Ordering.gt
then_trans m n p o r q h a b = ground arith

compare_trans :
    (s t u : String)
    → compare s t ≡ Ordering.gt
    → compare t u ≡ Ordering.gt
    → compare s u ≡ Ordering.gt
compare_trans [] [] u a b = cc
compare_trans [] (d ∷ t) u a b = cc (a, compare.nil-cons d t)
compare_trans (c ∷ s) t [] a b = compare.cons-nil c s
compare_trans (c ∷ s) [] (e ∷ u) a b = cc (b, compare.nil-cons e u)
compare_trans (c ∷ s) (d ∷ t) (e ∷ u) a b =
    compare.cons-cons c e s u
    ∙ then_trans (code c) (code d) (code e) (compare s t) (compare t u) (compare s u)
        (compare_trans s t u) (sym (compare.cons-cons c d s t) ∙ a)
        (sym (compare.cons-cons d e t u) ∙ b)

pub str_gt_irrefl : (s : String) → str_gt s s ≡ false
str_gt_irrefl s = rw (compare_refl s, str_gt)

pub str_gt_trans : (s t u : String) → str_gt s t ≡ true → str_gt t u ≡ true → str_gt s u ≡ true
str_gt_trans s t u a b = ground (arith, compare_trans s t u)

pub str_gt_asymm : (s t : String) → str_gt s t ≡ true → str_gt t s ≡ false
str_gt_asymm s t a = ground (arith, compare-flip s t)

-- Of two texts neither of which is greater, one is the other.
pub str_gt_total : (s t : String) → str_gt s t ≡ false → str_gt t s ≡ false → s ≡ t
str_gt_total s t a b = path_by_compare s t (ground (arith, compare-flip s t))

pub not_str_gt_trans :
    (s t u : String) → str_gt s t ≡ false → str_gt t u ≡ false → str_gt s u ≡ false
not_str_gt_trans s t u a b = ground (arith, str_gt_total s t, str_gt_trans t s u)

-- ===== src/Prelude/Decimals.antt =====
-- The decimal `str` of a number can be read back, and consists of digits.
use Prim.Native.Nat.{ℕ, zero, suc, ◌+◌, ◌-◌, ◌*◌, ◌/◌, ◌%◌, ◌<◌}
use mathlib.Core.Path.{◌≡◌, refl, ap, sym, ◌∙◌}
use mathlib.Core.Bool.{Bool, true, ◌&&◌}
use mathlib.Core.List.{[], ◌∷◌, ◌++◌}
use native.Mathlib.Omega.{arith}
use kv_replication_lab.Prelude.Tests.{leb, ltb, if_cases}
use kv_replication_lab.Prelude.Lists.{All, All-append}
use kv_replication_lab.Prelude.Chars.{Text, decimal, decimal_in}

-- `int(text)` of digits, from the value of the digits before
abbrev pub value_from : ℕ → Text → ℕ
value_from acc [] = acc
value_from acc (c ∷ t) = value_from (acc * 10 + (c - 48)) t

value_from-append :
    (s t : Text) (acc : ℕ) → value_from acc (s ++ t) ≡ value_from (value_from acc s) t
value_from-append [] t acc = refl
value_from-append (c ∷ s) t acc = value_from-append s t (acc * 10 + (c - 48))

value_from-decimal_in : (f n : ℕ) → n < f → value_from 0 (decimal_in f n) ≡ n
value_from-decimal_in zero n h = absurd (omega (arith, h))
value_from-decimal_in (suc f) n h =
    if_cases (λ t. value_from 0 t ≡ n) (ltb n 10) _ _ (λ small. omega arith)
      (λ large.
        value_from-append (decimal_in f (n / 10)) ((48 + (n % 10)) ∷ []) 0
        ∙ ap (λ v. v * 10 + (48 + (n % 10) - 48))
            (value_from-decimal_in f (n / 10) (ground (arith, h, large)))
        ∙ omega arith)

pub value_from-decimal : (n : ℕ) → value_from 0 (decimal n) ≡ n
value_from-decimal n = value_from-decimal_in (suc n) n (omega arith)

pub decimal-injective : (m n : ℕ) → decimal m ≡ decimal n → m ≡ n
decimal-injective m n e = sym (value_from-decimal m) ∙ ap (value_from 0) e ∙ value_from-decimal n

abbrev pub is_digit : ℕ → Bool
is_digit c = leb 48 c && leb c 57

decimal_in-digits : (f n : ℕ) → All (λ c. is_digit c ≡ true) (decimal_in f n)
decimal_in-digits zero n = tt
decimal_in-digits (suc f) n =
    if_cases (All (λ c. is_digit c ≡ true)) (ltb n 10) _ _ (λ small. (ground (arith, small), tt))
      (λ large.
        All-append (λ c. is_digit c ≡ true) (decimal_in f (n / 10)) _ (decimal_in-digits f (n / 10))
          (ground arith, tt))

pub decimal-digits : (n : ℕ) → All (λ c. is_digit c ≡ true) (decimal n)
decimal-digits n = decimal_in-digits (suc n) n

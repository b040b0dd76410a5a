-- ===== src/Common/Config/Checks.antt =====
-- What the checks of common/config.py accept.
use Prim.Native.Char.{Char}
use kv_replication_lab.Prelude.{
  ◌≡◌, refl, ◌≢◌, ◌↔◌, String, Bool, false, arith, eq_iff, Bool-cases, inl, inr,
}
use kv_replication_lab.Prelude.Int.{ℤ, pos, ◌≤ℤ◌}
use kv_replication_lab.Common.Config.{
  Seconds, finite, infinite, negative_infinite, not_a_number, ok, require_positive,
  require_in_range, require_nonempty_str, is_space, lstrip, rstrip, strip, cons_unless_blank,
}

-- The range check accepts exactly the integers from `lo` to `hi`, both included.
pub require_in_range_iff :
    (value lo hi : ℤ) → (require_in_range value lo hi ≡ ok tt) ↔ ((lo ≤ℤ value) × (value ≤ℤ hi))
unfolding require_in_range
require_in_range_iff value lo hi = (λ h. ground arith, λ h. ground arith)

-- Above zero, or not comparable with it.
abbrev pub IsPositiveOrNan : Seconds → Type 0
IsPositiveOrNan (finite z) = ¬ (z ≤ℤ pos 0)
IsPositiveOrNan infinite = Unit
IsPositiveOrNan negative_infinite = ⊥
IsPositiveOrNan not_a_number = Unit

-- The check for a positive number accepts NaN too.
pub require_positive_iff :
    (value : Seconds) → (require_positive value ≡ ok tt) ↔ IsPositiveOrNan value
unfolding require_positive
require_positive_iff (finite z) = (λ h. ground arith, λ h. ground arith)
require_positive_iff infinite = (λ h. tt, λ h. refl)
require_positive_iff negative_infinite = (λ h. absurd (ground arith), λ h. absurd h)
require_positive_iff not_a_number = (λ h. tt, λ h. refl)

-- Neither the first nor the last character is blank.
abbrev pub starts_blank : String → Bool
starts_blank String.[] = false
starts_blank (String.◌∷◌ c s) = is_space c

abbrev pub ends_blank : String → Bool
ends_blank String.[] = false
ends_blank (String.◌∷◌ c String.[]) = is_space c
ends_blank (String.◌∷◌ c (String.◌∷◌ d s)) = ends_blank (String.◌∷◌ d s)

lstrip_lem : (s : String) → starts_blank (lstrip s) ≡ false
unfolding lstrip
lstrip_lem String.[] = refl
lstrip_lem (String.◌∷◌ c s) = ground (arith, lstrip_lem s)

cons_unless_blank-ends :
    (c : Char) (s : String) → ends_blank s ≡ false → ends_blank (cons_unless_blank c s) ≡ false
cons_unless_blank-ends c String.[] h = elim (Bool-cases (is_space c)) [
  | inl e ↦ rw e
  | inr e ↦ rw e e
]
cons_unless_blank-ends c (String.◌∷◌ d s) h = h

rstrip_lem : (s : String) → ends_blank (rstrip s) ≡ false
unfolding rstrip
rstrip_lem String.[] = refl
rstrip_lem (String.◌∷◌ c s) = cons_unless_blank-ends c (rstrip s) (rstrip_lem s)

rstrip-starts : (s : String) → starts_blank s ≡ false → starts_blank (rstrip s) ≡ false
unfolding rstrip
rstrip-starts String.[] h = refl
rstrip-starts (String.◌∷◌ c s) h = go (rstrip s)
  where
    go : (t : String) → starts_blank (cons_unless_blank c t) ≡ false
    go String.[] = ground arith
    go (String.◌∷◌ d t) = h

-- An accepted text is the trimmed one, not empty, and begins and ends with characters that are not
-- blank.
pub require_nonempty_str_lem :
    (s t : String)
    → require_nonempty_str s ≡ ok t
    → (t ≡ strip s) × (t ≢ "") × (starts_blank t ≡ false) × (ends_blank t ≡ false)
unfolding require_nonempty_str
require_nonempty_str_lem s t h =
    let e : t ≡ strip s = ground arith in
    (
      e,
      ground (arith, eq_iff (strip s) ""),
      rw e (unfold strip in rstrip-starts (lstrip s) (lstrip_lem s)),
      rw e (unfold strip in rstrip_lem (lstrip s)),
    )

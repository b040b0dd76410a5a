-- ===== src/Prelude/Chars.antt =====
-- Text as the list of its code points: `str.startswith`, `str.find`, `str.strip`, `"\n".join` and
-- the decimal `str` of a number.
use Prim.Native.Nat.{ℕ, zero, suc, ◌+◌, ◌/◌, ◌%◌}
use Prim.Native.Char.{code}
use Prim.Native.String.{String}
use mathlib.Core.Path.{◌≡◌, refl, ap}
use mathlib.Core.Bool.{Bool, true, false, ◌||◌, ◌&&◌}
use mathlib.Core.List.{List, [], ◌∷◌, ◌++◌}
use mathlib.Core.Option.{Option, none, some, map}
use native.Mathlib.Omega.{arith}
use kv_replication_lab.Prelude.Tests.{nat_eq, ltb, leb, if◌then◌else◌, if_cases}
use kv_replication_lab.Prelude.Lists.{length, take, drop, is_empty, All}

abbrev pub Text : Type 0
Text = List ℕ

-- The code points of a literal. `String` has its own `[]` and `∷`.
abbrev pub codes : String → Text
codes String.[] = []
codes (String.◌∷◌ c s) = code c ∷ codes s

-- `text.startswith(prefix)`
abbrev pub starts_with : (prefix text : Text) → Bool
starts_with [] t = true
starts_with (c ∷ p) [] = false
starts_with (c ∷ p) (d ∷ t) = nat_eq c d && starts_with p t

-- `text.find(part)`, `none` for -1
abbrev pub find : (part text : Text) → Option ℕ
find p [] = if is_empty p then some 0 else none
find p (c ∷ t) = let later = map suc (find p t) in if starts_with p (c ∷ t) then some 0 else later

-- `str.isspace` of one character
abbrev pub is_space : ℕ → Bool
is_space c =
    (leb 9 c && leb c 13)
    || (leb 28 c && leb c 32)
    || nat_eq c 133
    || nat_eq c 160
    || nat_eq c 5760
    || (leb 8192 c && leb c 8202)
    || nat_eq c 8232
    || nat_eq c 8233
    || nat_eq c 8239
    || nat_eq c 8287
    || nat_eq c 12288

abbrev pub is_newline : ℕ → Bool
is_newline c = nat_eq c 10

-- `lstrip` and `rstrip` of the characters that satisfy a test
abbrev pub lstrip : (ℕ → Bool) → Text → Text
lstrip p [] = []
lstrip p (c ∷ t) = let rest = lstrip p t in if p c then rest else c ∷ t

abbrev pub rstrip_step : Bool → ℕ → Text → Text
rstrip_step blank c [] = if blank then [] else c ∷ []
rstrip_step blank c (d ∷ t) = c ∷ d ∷ t

abbrev pub rstrip : (ℕ → Bool) → Text → Text
rstrip p [] = []
rstrip p (c ∷ t) = rstrip_step (p c) c (rstrip p t)

-- `text.strip()`
abbrev pub strip : Text → Text
strip t = rstrip is_space (lstrip is_space t)

-- `"\n".join(lines)`
abbrev pub join_lines : List Text → Text
join_lines [] = []
join_lines (l ∷ []) = l
join_lines (l ∷ (m ∷ ls)) = l ++ (10 ∷ join_lines (m ∷ ls))

abbrev pub decimal_in : (fuel n : ℕ) → Text
decimal_in zero n = []
decimal_in (suc f) n =
    let leading = decimal_in f (n / 10) in
    if ltb n 10 then (48 + n) ∷ [] else leading ++ ((48 + (n % 10)) ∷ [])

-- `str(n)`: each digit uses up one of the fuel, and a number has no more digits than it is large.
abbrev pub decimal : ℕ → Text
decimal n = decimal_in (suc n) n

-- No character of the text is `c`.
abbrev pub Without : ℕ → Text → Type 0
Without c t = All (λ d. nat_eq c d ≡ false) t

abbrev pub lacks : ℕ → Text → Bool
lacks c [] = true
lacks c (d ∷ t) = let rest = lacks c t in if nat_eq c d then false else rest

module _ (c : ℕ) where
  pub Without-of_lacks : (t : Text) → lacks c t ≡ true → Without c t
  Without-of_lacks [] h = tt
  Without-of_lacks (d ∷ t) h = ground (arith, Without-of_lacks t)

  pub Without-append : (s t : Text) → Without c s → Without c t → Without c (s ++ t)
  Without-append [] t h k = k
  Without-append (d ∷ s) t (e, h) k = (e, Without-append s t h k)

  Without-lstrip : (p : ℕ → Bool) (t : Text) → Without c t → Without c (lstrip p t)
  Without-lstrip p [] h = tt
  Without-lstrip p (d ∷ t) (e, h) =
      if_cases (Without c) (p d) _ _ (λ _. Without-lstrip p t h) (λ _. (e, h))

  Without-rstrip_step :
      (b : Bool) (d : ℕ) (t : Text)
      → nat_eq c d ≡ false
      → Without c t
      → Without c (rstrip_step b d t)
  Without-rstrip_step true d [] e h = tt
  Without-rstrip_step false d [] e h = (e, tt)
  Without-rstrip_step b d (x ∷ t) e h = (e, h)

  Without-rstrip : (p : ℕ → Bool) (t : Text) → Without c t → Without c (rstrip p t)
  Without-rstrip p [] h = tt
  Without-rstrip p (d ∷ t) (e, h) = Without-rstrip_step (p d) d _ e (Without-rstrip p t h)

  pub Without-strip : (t : Text) → Without c t → Without c (strip t)
  Without-strip t h = Without-rstrip is_space _ (Without-lstrip is_space t h)

  -- A search for a part that begins with `c` passes over text without `c`.
  pub find-skip :
      (p s t : Text)
      → Without c s
      → find (c ∷ p) (s ++ t) ≡ map (λ k. length s + k) (find (c ∷ p) t)
  find-skip p [] t h = keeps (find (c ∷ p) t)
    where
      keeps : (o : Option ℕ) → o ≡ map (λ k. 0 + k) o
      keeps none = refl
      keeps (some k) = ap some (omega arith)
  find-skip p (d ∷ s) t (e, h) = rw (e, find-skip p s t h) (deeper (find (c ∷ p) t))
    where
      deeper :
          (o : Option ℕ) → map suc (map (λ k. length s + k) o) ≡ map (λ k. suc (length s) + k) o
      deeper none = refl
      deeper (some k) = ap some (omega arith)

pub starts_with-append : (p t : Text) → starts_with p (p ++ t) ≡ true
starts_with-append [] t = refl
starts_with-append (c ∷ p) t = ground (arith, starts_with-append p t)

-- A part that stands at the front is found there.
pub find-front : (c : ℕ) (p t : Text) → find (c ∷ p) ((c ∷ p) ++ t) ≡ some 0
find-front c p t = rw (starts_with-append (c ∷ p) t) refl

pub find-not_front :
    (p t : Text) (d : ℕ) → starts_with p (d ∷ t) ≡ false → find p (d ∷ t) ≡ map suc (find p t)
find-not_front p t d h = rw h refl

pub take-front : (s t : Text) → take (length s) (s ++ t) ≡ s
take-front [] t = refl
take-front (c ∷ s) t = ap (◌∷◌ c) (take-front s t)

pub drop-front : (s t : Text) → drop (length s) (s ++ t) ≡ t
drop-front [] t = refl
drop-front (c ∷ s) t = drop-front s t

-- Two texts without `c`, each followed by a `c`: one follows on the other only if they are equal.
pub starts_with-delimited :
    (c : ℕ) (s t p r : Text)
    → Without c s
    → Without c t
    → starts_with (s ++ (c ∷ p)) (t ++ (c ∷ r)) ≡ true
    → s ≡ t
starts_with-delimited c [] [] p r h k e = refl
starts_with-delimited c [] (d ∷ t) p r h (k, ks) e = ground arith
starts_with-delimited c (d ∷ s) [] p r (h, hs) k e = ground arith
starts_with-delimited c (d ∷ s) (b ∷ t) p r (h, hs) (k, ks) e =
    ground (arith, starts_with-delimited c s t p r hs ks)

-- Trailing newlines are stripped up to the last other character.
pub rstrip-last :
    (p : ℕ → Bool) (s : Text) (c d : ℕ)
    → p c ≡ false
    → p d ≡ true
    → rstrip p (s ++ (c ∷ d ∷ [])) ≡ s ++ (c ∷ [])
rstrip-last p [] c d h k = rw (h, k) refl
rstrip-last p (b ∷ s) c d h k = rw (rstrip-last p s c d h k) (step s)
  where
    step : (u : Text) → rstrip_step (p b) b (u ++ (c ∷ [])) ≡ b ∷ (u ++ (c ∷ []))
    step [] = refl
    step (x ∷ u) = refl

-- ===== src/ResultsDoc/Search.antt =====
-- Where the marks of a section are found (experiments/_results_doc.py).
use Prim.Native.String.{compare, then}
use Prim.Native.String.compare
use Prim.Native.Nat.{Ordering, compare as compare_ℕ}
use Prim.Native.Char.{code}
use text.Mathlib.TextEquality.{path_by_compare}
use text.Mathlib.TextPositions.{compare_refl}
use mathlib.Core.Option.{map}
use mathlib.Core.List.{append_assoc}
use kv_replication_lab.Prelude.{
  ℕ, suc, ◌+◌, ◌≡◌, ◌≢◌, refl, ap, sym, ◌∙◌, false, String, Option, none, some, List, [], ◌∷◌, ◌++◌,
  length, length-append, arith, Bool-cases, inl, inr,
}
use kv_replication_lab.Prelude.Chars.{
  Text, codes, find, starts_with, Without, Without-append, Without-of_lacks, find-skip,
  find-not_front, find-front, starts_with-delimited,
}
use kv_replication_lab.ResultsDoc.{begin_mark, end_mark, opening, section_text}

-- A marker has no space and no `<` in it.
pub record IsPlain (marker : String) : Type 0 where
  pub no_space : Without 32 (codes marker)
  pub no_angle : Without 60 (codes marker)

compare-codes : (s t : String) → codes s ≡ codes t → compare s t ≡ Ordering.eq
compare-codes String.[] String.[] e = compare_refl String.[]
compare-codes String.[] (String.◌∷◌ d t) e = cc e
compare-codes (String.◌∷◌ c s) String.[] e = cc e
compare-codes (String.◌∷◌ c s) (String.◌∷◌ d t) e =
    compare.cons-cons c d s t
    ∙ same (code c) (code d) (compare s t) (ap first e) (compare-codes s t (ap rest e))
  where
    first : List ℕ → ℕ
    first [] = 0
    first (x ∷ xs) = x

    rest : List ℕ → List ℕ
    rest [] = []
    rest (x ∷ xs) = xs

    same : (x y : ℕ) (o : Ordering) → x ≡ y → o ≡ Ordering.eq → then (compare_ℕ x y) o ≡ Ordering.eq
    same x y o e f = ground arith

codes-injective : (s t : String) → codes s ≡ codes t → s ≡ t
codes-injective s t e = path_by_compare s t (compare-codes s t e)

-- After a delimiter, a marker can only be followed by the same marker's mark.
delimited :
    (m k : String) (p r : Text)
    → IsPlain m
    → IsPlain k
    → k ≢ m
    → starts_with (codes m ++ (32 ∷ p)) (codes k ++ (32 ∷ r)) ≡ false
delimited m k p r hm hk differ =
    elim (Bool-cases (starts_with (codes m ++ (32 ∷ p)) (codes k ++ (32 ∷ r)))) [
      | inl same ↦ absurd (
          differ (
            sym (
              codes-injective m k
                (starts_with-delimited 32 (codes m) (codes k) p r hm.no_space hk.no_space same))))
      | inr other ↦ other
    ]

-- The characters of a mark, and of an opening, after the first `<`.
abbrev begin_rest : String → Text
begin_rest k = codes "!-- BEGIN:" ++ (codes k ++ codes " -->")

abbrev opening_rest : String → Text → Text
opening_rest k body = begin_rest k ++ (10 ∷ (body ++ (10 ∷ [])))

abbrev end_rest : String → Text
end_rest k = codes "!-- END:" ++ (codes k ++ codes " -->")

opening_rest-Without :
    (k : String) (body : Text) → IsPlain k → Without 60 body → Without 60 (opening_rest k body)
opening_rest-Without k body h w =
    Without-append 60 (codes "!-- BEGIN:" ++ (codes k ++ codes " -->")) (10 ∷ (body ++ (10 ∷ [])))
      (Without-append 60 (codes "!-- BEGIN:") (codes k ++ codes " -->")
        (Without-of_lacks 60 (codes "!-- BEGIN:") refl)
        (Without-append 60 (codes k) (codes " -->") h.no_angle
          (Without-of_lacks 60 (codes " -->") refl)))
      (refl, Without-append 60 body (10 ∷ []) w (refl, tt))

end_rest-Without : (k : String) → IsPlain k → Without 60 (end_rest k)
end_rest-Without k h =
    Without-append 60 (codes "!-- END:") (codes k ++ codes " -->")
      (Without-of_lacks 60 (codes "!-- END:") refl)
      (Without-append 60 (codes k) (codes " -->") h.no_angle
        (Without-of_lacks 60 (codes " -->") refl))

-- A search for what begins with `<` passes over a piece that begins with another `<`.
past :
    (p x t : Text)
    → Without 60 x
    → starts_with (60 ∷ p) (60 ∷ (x ++ t)) ≡ false
    → find (60 ∷ p) (60 ∷ (x ++ t)) ≡ map (λ k. suc (length x) + k) (find (60 ∷ p) t)
past p x t w h =
    find-not_front (60 ∷ p) (x ++ t) 60 h
    ∙ ap (map suc) (find-skip 60 p x t w)
    ∙ again (find (60 ∷ p) t)
  where
    again : (o : Option ℕ) → map suc (map (λ k. length x + k) o) ≡ map (λ k. suc (length x) + k) o
    again none = refl
    again (some k) = ap some (omega arith)

module _ (m : String) (hm : IsPlain m) where
  not_at_begin :
      (k : String) (x t : Text)
      → IsPlain k
      → k ≢ m
      → starts_with (begin_mark m) (((begin_mark k) ++ (10 ∷ x)) ++ t) ≡ false
  not_at_begin k x t hk differ =
      rw
        (
          append_assoc (codes k) (codes " -->") (10 ∷ x),
          append_assoc (codes k) (codes " -->" ++ (10 ∷ x)) t,
        )
        (delimited m k _ _ hm hk differ)

  not_at_end :
      (k : String) (t : Text)
      → IsPlain k
      → k ≢ m
      → starts_with (end_mark m) (end_mark k ++ t) ≡ false
  not_at_end k t hk differ =
      rw (append_assoc (codes k) (codes " -->") t) (delimited m k _ _ hm hk differ)

  module _ (k : String) (body t : Text) (hk : IsPlain k) (w : Without 60 body) where
    by_pieces :
        (p : Text)
        → starts_with (60 ∷ p) (opening k body ++ (end_mark k ++ t)) ≡ false
        → starts_with (60 ∷ p) (end_mark k ++ t) ≡ false
        → find (60 ∷ p) (section_text k body ++ t)
          ≡ map (λ n. length (section_text k body) + n) (find (60 ∷ p) t)
    by_pieces p h j =
        ap (find (60 ∷ p)) (append_assoc (opening k body) (end_mark k) t)
        ∙ past p (opening_rest k body) (end_mark k ++ t) (opening_rest-Without k body hk w) h
        ∙ ap (map (λ n. length (opening k body) + n))
            (past p (end_rest k) t (end_rest-Without k hk) j)
        ∙ together (find (60 ∷ p) t)
      where
        together :
            (o : Option ℕ)
            → map (λ n. length (opening k body) + n) (map (λ n. length (end_mark k) + n) o)
              ≡ map (λ n. length (section_text k body) + n) o
        together none = refl
        together (some n) = ap some (omega (arith, length-append (opening k body) (end_mark k)))

    -- The section of another marker is passed over by both searches.
    pub find_begin-other :
        k ≢ m
        → find (begin_mark m) (section_text k body ++ t)
          ≡ map (λ n. length (section_text k body) + n) (find (begin_mark m) t)
    find_begin-other differ =
        by_pieces (begin_rest m) (not_at_begin k (body ++ (10 ∷ [])) (end_mark k ++ t) hk differ)
          refl

    pub find_end-other :
        k ≢ m
        → find (end_mark m) (section_text k body ++ t)
          ≡ map (λ n. length (section_text k body) + n) (find (end_mark m) t)
    find_end-other differ = by_pieces (end_rest m) refl (not_at_end k t hk differ)

  module _ (body t : Text) where
    -- The section of the marker itself is found at once, and its end after its body.
    pub find_begin-own : find (begin_mark m) (section_text m body ++ t) ≡ some 0
    find_begin-own =
        ap (find (begin_mark m)) (
          append_assoc (opening m body) (end_mark m) t
          ∙ append_assoc (begin_mark m) _ (end_mark m ++ t))
        ∙ find-front 60 (begin_rest m) _

    pub find_end-own :
        Without 60 body
        → find (end_mark m) (section_text m body ++ t) ≡ some (length (opening m body))
    find_end-own w =
        ap (find (end_mark m)) (append_assoc (opening m body) (end_mark m) t)
        ∙ past (end_rest m) (opening_rest m body) (end_mark m ++ t)
            (opening_rest-Without m body hm w) refl
        ∙ ap (map (λ n. length (opening m body) + n)) (find-front 60 (end_rest m) t)
        ∙ ap some (omega arith)

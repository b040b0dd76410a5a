-- ===== src/ResultsDoc/Appending.antt =====
-- What a document without a section for a marker shows, and what appending one comes to.
use mathlib.Core.Option.{map}
use mathlib.Core.List.{append_assoc}
use kv_replication_lab.Prelude.{
  suc, ◌+◌, ◌≡◌, refl, ap, sym, ◌∙◌, false, String, none, [], ◌∷◌, ◌++◌, length, drop, is_empty,
  arith, insert, has, All, ◌==◌, eq_iff,
}
use kv_replication_lab.Prelude.Chars.{
  Text, codes, find, strip, rstrip, rstrip_step, is_newline, is_space, rstrip-last,
}
use kv_replication_lab.ResultsDoc.{begin_mark, opening, section_text, appended}
use kv_replication_lab.ResultsDoc.Search.{IsPlain, find_begin-other}
use kv_replication_lab.ResultsDoc.Document.{
  Document, render, render_rest, IsPlainSection, render_rest-insert, insert-other, has-other,
}

module _ (m : String) (hm : IsPlain m) where
  differs : (k : String) → (k == m) ≡ false → ¬ (k ≡ m)
  differs k other e = ground (arith, eq_iff k m)

  other_key :
      (k : String) (body : Text) (d : Document) → has m ((k, body) ∷ d) ≡ false → (k == m) ≡ false
  unfolding has
  other_key k body d h = ground arith

  rest_missing :
      (d : Document)
      → All IsPlainSection d
      → has m d ≡ false
      → find (begin_mark m) (render_rest d) ≡ none
  rest_missing [] h absent = refl
  rest_missing ((k, body) ∷ d) (h, hs) absent =
      let other = other_key k body d absent in
      ap (map suc) (
        ap (map suc) (
          find_begin-other m hm k body (render_rest d) h.0 h.1 (differs k other)
          ∙ ap (map (λ n. length (section_text k body) + n))
              (rest_missing d hs (sym (has-other m body k d other) ∙ absent))))

  -- A document without a section for the marker has no mark of one.
  pub missing :
      (d : Document)
      → All IsPlainSection d
      → has m d ≡ false
      → find (begin_mark m) (render d) ≡ none
  missing [] h absent = refl
  missing ((k, body) ∷ d) (h, hs) absent =
      let other = other_key k body d absent in
      find_begin-other m hm k body (render_rest d) h.0 h.1 (differs k other)
      ∙ ap (map (λ n. length (section_text k body) + n))
          (rest_missing d hs (sym (has-other m body k d other) ∙ absent))

  -- The last section of a text, and what the text is with one more.
  record Ends (text : Text) (with : Text → Text) : Type 0 where
    stem : Text
    is_text : text ≡ stem ++ (62 ∷ 10 ∷ [])
    is_with :
        (new : Text)
        → with new ≡ (stem ++ (62 ∷ [])) ++ (10 ∷ 10 ∷ (section_text m new ++ (10 ∷ [])))

  later-Ends :
      (s text : Text) (with other : Text → Text)
      → ((new : Text) → other new ≡ s ++ with new)
      → Ends text with
      → Ends (s ++ text) other
  later-Ends s text with other same e = record {
    stem = s ++ e.stem;
    is_text = ap (λ t. s ++ t) e.is_text ∙ sym (append_assoc s e.stem _);
    is_with = λ new.
        same new
        ∙ ap (λ t. s ++ t) (e.is_with new)
        ∙ sym (append_assoc s (e.stem ++ (62 ∷ [])) _)
        ∙ ap (λ t. t ++ (10 ∷ 10 ∷ (section_text m new ++ (10 ∷ []))))
            (sym (append_assoc s e.stem (62 ∷ [])));
  }

  insert_last :
      (new body : Text) (k : String)
      → (k == m) ≡ false
      → insert m new ((k, body) ∷ []) ≡ (k, body) ∷ ((m, new) ∷ [])
  unfolding insert
  insert_last new body k other = insert-other m new body k [] other

  render-Ends :
      (k : String) (body : Text) (d : Document)
      → has m ((k, body) ∷ d) ≡ false
      → Ends (render ((k, body) ∷ d)) (λ new. render (insert m new ((k, body) ∷ d)))
  render-Ends k body [] absent = record {
    stem = stem;
    is_text = ap (λ s. s ++ (10 ∷ [])) shown ∙ append_assoc stem (62 ∷ []) (10 ∷ []);
    is_with = λ new.
        ap render (insert_last new body k (other_key k body [] absent))
        ∙ ap (λ s. s ++ (10 ∷ 10 ∷ (section_text m new ++ (10 ∷ [])))) shown;
  }
    where
      stem : Text
      stem = opening k body ++ (codes "<!-- END:" ++ (codes k ++ codes " --"))

      shown : section_text k body ≡ stem ++ (62 ∷ [])
      shown =
          ap (λ s. opening k body ++ (codes "<!-- END:" ++ s))
            (sym (append_assoc (codes k) (codes " --") (62 ∷ [])))
          ∙ sym (
              append_assoc (opening k body) (codes "<!-- END:" ++ (codes k ++ codes " --"))
                (62 ∷ []))
  render-Ends k body ((j, c) ∷ d) absent =
      let other = other_key k body ((j, c) ∷ d) absent in
      later-Ends (section_text k body) (10 ∷ 10 ∷ render ((j, c) ∷ d))
        (λ new. 10 ∷ 10 ∷ render (insert m new ((j, c) ∷ d)))
        (λ new. render (insert m new ((k, body) ∷ (j, c) ∷ d)))
        (λ new.
          ap render (insert-other m new body k ((j, c) ∷ d) other)
          ∙ ap (λ s. section_text k body ++ s) (render_rest-insert m new (j, c) d))
        (later-Ends (10 ∷ 10 ∷ []) (render ((j, c) ∷ d)) (λ new. render (insert m new ((j, c) ∷ d)))
          _ (λ new. refl)
          (render-Ends j c d (sym (has-other m body k ((j, c) ∷ d) other) ∙ absent)))

  -- A file that has sections, and none for the marker, gets one after the others.
  appended-Ends :
      (new text : Text) (with : Text → Text)
      → is_empty (strip text) ≡ false
      → Ends text with
      → appended (section_text m new) text ≡ with new
  appended-Ends new text with more e = rw more (
      ap (λ s. s ++ (10 ∷ 10 ∷ (section_text m new ++ (10 ∷ []))))
        (ap (rstrip is_newline) e.is_text ∙ rstrip-last is_newline e.stem 62 10 refl refl)
      ∙ sym (e.is_with new))

  not_blank : (t : Text) → is_empty (strip (60 ∷ t)) ≡ false
  not_blank t = stays (rstrip is_space t)
    where
      stays : (u : Text) → is_empty (rstrip_step false 60 u) ≡ false
      stays [] = refl
      stays (c ∷ u) = refl

  insert-empty : (new : Text) → insert m new [] ≡ (m, new) ∷ []
  unfolding insert
  insert-empty new = refl

  pub absent-appended :
      (new : Text) (d : Document)
      → All IsPlainSection d
      → has m d ≡ false
      → appended (section_text m new) (render d) ≡ render (insert m new d)
  absent-appended new [] h absent = sym (ap render (insert-empty new))
  absent-appended new ((k, body) ∷ d) h absent =
      appended-Ends new (render ((k, body) ∷ d)) _ (not_blank (drop 1 (render ((k, body) ∷ d))))
        (render-Ends k body d absent)

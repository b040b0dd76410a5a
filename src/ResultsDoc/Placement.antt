-- ===== src/ResultsDoc/Placement.antt =====
-- Where a document shows the section of a marker, and what replacing it comes to.
use mathlib.Core.Option.{map}
use mathlib.Core.List.{append_assoc}
use kv_replication_lab.Prelude.{
  ℕ, suc, ◌+◌, ◌<◌, ◌≡◌, refl, ap, sym, subst, ◌∙◌, Bool, true, false, String, Option, none, some,
  [], ◌∷◌, ◌++◌, length, drop, length-append, arith, Bool-cases, inl, inr, insert, has, All, ltb,
  ◌==◌, eq_iff, if◌then◌else◌,
}
use kv_replication_lab.Prelude.Chars.{Text, find, Without, take-front, drop-front}
use kv_replication_lab.ResultsDoc.{begin_mark, end_mark, opening, section_text, replaced}
use kv_replication_lab.ResultsDoc.Search.{
  IsPlain, find_begin-other, find_end-other, find_begin-own, find_end-own,
}
use kv_replication_lab.ResultsDoc.Document.{
  Document, render, render_rest, IsPlainSection, render_rest-insert, insert-same, insert-other,
  has-other,
}

-- What stands between two texts is replaced.
spliced :
    (b o e a section : Text)
    → 0 < length o
    → replaced section
        (b ++ ((o ++ e) ++ a))
        (length e)
        (some (length b))
        (some (length b + length o))
      ≡ b ++ (section ++ a)
spliced b o e a section h =
    if_true (ltb (length b) (length b + length o)) _ _ (ground (arith, h))
    ∙ ap2 (take-front b ((o ++ e) ++ a)) (
        ap2_drop (omega (arith, length-append b (o ++ e), length-append o e))
          (sym (append_assoc b (o ++ e) a))
        ∙ drop-front (b ++ (o ++ e)) a)
  where
    if_true : (c : Bool) (x y : Text) → c ≡ true → (if c then x else y) ≡ x
    if_true c x y h = rw h refl

    ap2 : {s t u v : Text} → s ≡ t → u ≡ v → s ++ (section ++ u) ≡ t ++ (section ++ v)
    ap2 p q = rw (p, q) refl

    ap2_drop : {n k : ℕ} {s t : Text} → n ≡ k → s ≡ t → drop n s ≡ drop k t
    ap2_drop p q = rw (p, q) refl

module _ (m : String) (hm : IsPlain m) where
  -- Where the section of `m` stands in a text, and what the text is with another body in it.
  pub record Located (text : Text) (with : Text → Text) : Type 0 where
    pub before : Text
    body : Text
    after : Text
    is_text : text ≡ before ++ (section_text m body ++ after)
    is_with : (new : Text) → with new ≡ before ++ (section_text m new ++ after)
    begin_found : find (begin_mark m) text ≡ some (length before)
    end_found : find (end_mark m) text ≡ some (length before + length (opening m body))

  own-Located :
      (body after : Text)
      → Without 60 body
      → Located (section_text m body ++ after) (λ new. section_text m new ++ after)
  own-Located body after w = record {
    before = [];
    body = body;
    after = after;
    is_text = refl;
    is_with = λ new. refl;
    begin_found = find_begin-own m hm body after;
    end_found = find_end-own m hm body after w ∙ ap some (omega arith);
  }

  -- Both searches pass over a text that stands in front.
  abbrev PassesOver : Text → Text → Type 0
  PassesOver s t =
      (find (begin_mark m) (s ++ t) ≡ map (λ n. length s + n) (find (begin_mark m) t))
      × (find (end_mark m) (s ++ t) ≡ map (λ n. length s + n) (find (end_mark m) t))

  later-Located :
      (s text : Text) (with : Text → Text)
      → PassesOver s text
      → Located text with
      → Located (s ++ text) (λ new. s ++ with new)
  later-Located s text with (b, e) l = record {
    before = s ++ l.before;
    body = l.body;
    after = l.after;
    is_text = ap (λ t. s ++ t) l.is_text ∙ sym (append_assoc s l.before _);
    is_with = λ new. ap (λ t. s ++ t) (l.is_with new) ∙ sym (append_assoc s l.before _);
    begin_found =
        b
        ∙ ap (map (λ n. length s + n)) l.begin_found
        ∙ ap some (omega (arith, length-append s l.before));
    end_found =
        e
        ∙ ap (map (λ n. length s + n)) l.end_found
        ∙ ap some (omega (arith, length-append s l.before));
  }

  newlines-PassesOver : (t : Text) → PassesOver (10 ∷ 10 ∷ []) t
  newlines-PassesOver t = (twice (find (begin_mark m) t), twice (find (end_mark m) t))
    where
      twice : (o : Option ℕ) → map suc (map suc o) ≡ map (λ n. 2 + n) o
      twice none = refl
      twice (some n) = ap some (omega arith)

  other-PassesOver :
      (k : String) (body t : Text)
      → IsPlainSection (k, body)
      → (k == m) ≡ false
      → PassesOver (section_text k body) t
  other-PassesOver k body t (hk, w) other = (
    find_begin-other m hm k body t hk w (λ e. differs e),
    find_end-other m hm k body t hk w (λ e. differs e),
  )
    where
      differs : ¬ (k ≡ m)
      differs e = ground (arith, eq_iff k m)

  Located-with :
      (text : Text) (with other : Text → Text)
      → ((new : Text) → other new ≡ with new)
      → Located text with
      → Located text other
  Located-with text with other same l = record {
    before = l.before;
    body = l.body;
    after = l.after;
    is_text = l.is_text;
    is_with = λ new. same new ∙ l.is_with new;
    begin_found = l.begin_found;
    end_found = l.end_found;
  }

  front-Located :
      (k : String) (body : Text) (d : Document)
      → IsPlainSection (k, body)
      → ((k == m) ≡ false → Located (render_rest d) (λ new. render_rest (insert m new d)))
      → Located (render ((k, body) ∷ d)) (λ new. render (insert m new ((k, body) ∷ d)))
  front-Located k body d h below = elim (Bool-cases (k == m)) [
    | inl same ↦
        Located-with _ (λ new. section_text k new ++ render_rest d) _
          (λ new. ap render (insert-same m new body k d same))
          (subst
            (λ j.
              Located (section_text j body ++ render_rest d)
                (λ new. section_text j new ++ render_rest d))
            (sym (is_same same)) (own-Located body (render_rest d) h.1))
    | inr other ↦
        Located-with _ (λ new. section_text k body ++ render_rest (insert m new d)) _
          (λ new. ap render (insert-other m new body k d other))
          (later-Located (section_text k body) (render_rest d) _
            (other-PassesOver k body (render_rest d) h other) (below other))
  ]
    where
      is_same : (k == m) ≡ true → k ≡ m
      is_same e = ground (arith, eq_iff k m)

  rest-Located :
      (d : Document)
      → All IsPlainSection d
      → has m d ≡ true
      → Located (render_rest d) (λ new. render_rest (insert m new d))
  unfolding has
  rest-Located [] h absent = cc absent
  rest-Located ((k, body) ∷ d) (h, hs) there =
      Located-with _ (λ new. 10 ∷ 10 ∷ render (insert m new ((k, body) ∷ d))) _
        (λ new. render_rest-insert m new (k, body) d)
        (later-Located (10 ∷ 10 ∷ []) (render ((k, body) ∷ d)) _
          (newlines-PassesOver (render ((k, body) ∷ d)))
          (front-Located k body d h
            (λ other. rest-Located d hs (sym (has-other m body k d other) ∙ there))))

  -- A document that has a section for the marker shows it between two texts.
  pub render-Located :
      (d : Document)
      → All IsPlainSection d
      → has m d ≡ true
      → Located (render d) (λ new. render (insert m new d))
  unfolding has
  render-Located [] h absent = cc absent
  render-Located ((k, body) ∷ d) (h, hs) there =
      front-Located k body d h
        (λ other. rest-Located d hs (sym (has-other m body k d other) ∙ there))

  -- A located section is the one that is replaced.
  pub replaced-Located :
      (new text : Text) (with : Text → Text)
      → Located text with
      → replaced
          (section_text m new)
          text
          (length (end_mark m))
          (find (begin_mark m) text)
          (find (end_mark m) text)
        ≡ with new
  replaced-Located new text with l =
      ap (λ i. replaced (section_text m new) text (length (end_mark m)) i (find (end_mark m) text))
        l.begin_found
      ∙ ap (replaced (section_text m new) text (length (end_mark m)) (some (length l.before)))
          l.end_found
      ∙ ap
          (λ s.
            replaced (section_text m new) s (length (end_mark m)) (some (length l.before))
              (some (length l.before + length (opening m l.body))))
          l.is_text
      ∙ spliced l.before (opening m l.body) (end_mark m) l.after (section_text m new) (omega arith)
      ∙ sym (l.is_with new)

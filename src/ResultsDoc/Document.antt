-- ===== src/ResultsDoc/Document.antt =====
-- A results file as an ordered dictionary from markers to texts, and the file that shows one.
use kv_replication_lab.Prelude.{
  ◌≡◌, refl, true, false, String, [], ◌∷◌, ◌++◌, arith, Dict, insert, has, ◌==◌,
}
use kv_replication_lab.Prelude.Chars.{Text, Without}
use kv_replication_lab.ResultsDoc.{section_text}
use kv_replication_lab.ResultsDoc.Search.{IsPlain}

abbrev pub Document : Type 0
Document = Dict Text

abbrev pub render_rest : Document → Text
render_rest [] = 10 ∷ []
render_rest ((k, body) ∷ d) = 10 ∷ 10 ∷ (section_text k body ++ render_rest d)

-- The sections in their order, with an empty line between two of them.
abbrev pub render : Document → Text
render [] = []
render ((k, body) ∷ d) = section_text k body ++ render_rest d

abbrev pub IsPlainSection : String × Text → Type 0
IsPlainSection s = IsPlain s.0 × Without 60 s.1

module _ (m : String) where
  -- A new or changed section leaves the document with one section at least.
  pub render_rest-insert :
      (new : Text) (s : String × Text) (d : Document)
      → render_rest (insert m new (s ∷ d)) ≡ 10 ∷ 10 ∷ render (insert m new (s ∷ d))
  unfolding insert
  render_rest-insert new (j, body) d = ground arith

  pub insert-same :
      (new body : Text) (k : String) (d : Document)
      → (k == m) ≡ true
      → insert m new ((k, body) ∷ d) ≡ (k, new) ∷ d
  unfolding insert
  insert-same new body k d h = rw h refl

  pub insert-other :
      (new body : Text) (k : String) (d : Document)
      → (k == m) ≡ false
      → insert m new ((k, body) ∷ d) ≡ (k, body) ∷ insert m new d
  unfolding insert
  insert-other new body k d h = rw h refl

  pub has-other :
      (body : Text) (k : String) (d : Document) → (k == m) ≡ false → has m ((k, body) ∷ d) ≡ has m d
  unfolding has
  has-other body k d h = rw h refl

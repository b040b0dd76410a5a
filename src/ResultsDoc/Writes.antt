-- ===== src/ResultsDoc/Writes.antt =====
-- What a sequence of calls of `replace_section` makes of docs/results.md
-- (experiments/_results_doc.py).
use kv_replication_lab.Prelude.{
  ◌≡◌, refl, ap, ◌∙◌, String, Option, none, some, List, [], ◌∷◌, length, Bool-cases, inl, inr,
  insert, lookup, lookup-insert, if_cases, has, All, ◌==◌, if◌then◌else◌,
}
use kv_replication_lab.Prelude.Chars.{Text, find, Without, Without-strip, strip}
use kv_replication_lab.ResultsDoc.{
  begin_mark, end_mark, section_text, replaced, text_of, replace_section,
}
use kv_replication_lab.ResultsDoc.Search.{IsPlain}
use kv_replication_lab.ResultsDoc.Document.{Document, render, IsPlainSection}
use kv_replication_lab.ResultsDoc.Placement.{render-Located, replaced-Located}
use kv_replication_lab.ResultsDoc.Appending.{missing, absent-appended}

module _ (m : String) (hm : IsPlain m) where
  -- One call on the file that shows a document.
  pub replace_section-render :
      (file : Option Text) (d : Document) (content : Text)
      → All IsPlainSection d
      → text_of file ≡ render d
      → replace_section file m content ≡ render (insert m (strip content) d)
  unfolding replace_section
  replace_section-render file d content h e =
      ap
        (λ text.
          replaced (section_text m (strip content)) text (length (end_mark m))
            (find (begin_mark m) text) (find (end_mark m) text))
        e
      ∙ elim (Bool-cases (has m d)) [
        | inl present ↦
            replaced-Located m hm (strip content) (render d) _ (render-Located m hm d h present)
        | inr absent ↦
            ap
              (λ i.
                replaced (section_text m (strip content)) (render d) (length (end_mark m)) i
                  (find (end_mark m) (render d)))
              (missing m hm d h absent)
            ∙ absent-appended m hm (strip content) d h absent
      ]

-- The calls of one or more scripts, one after the other: a marker and a content each.
abbrev pub write_all : Option Text → List (String × Text) → Option Text
write_all file [] = file
write_all file ((marker, content) ∷ rest) =
    write_all (some (replace_section file marker content)) rest

-- The same on documents.
abbrev pub document_after : Document → List (String × Text) → Document
document_after d [] = d
document_after d ((marker, content) ∷ rest) = document_after (insert marker (strip content) d) rest

-- The content of the last call for a marker, if there is one.
abbrev pub last_content : String → Option Text → List (String × Text) → Option Text
last_content k held [] = held
last_content k held ((marker, content) ∷ rest) =
    last_content k (if marker == k then some (strip content) else held) rest

insert-Plain :
    (m : String) (body : Text) (d : Document)
    → IsPlain m
    → Without 60 body
    → All IsPlainSection d
    → All IsPlainSection (insert m body d)
unfolding insert
insert-Plain m body [] hm w h = ((hm, w), tt)
insert-Plain m body ((k, c) ∷ d) hm w (h, hs) =
    if_cases (All IsPlainSection) (k == m) _ _ (λ same. ((h.0, w), hs))
      (λ other. (h, insert-Plain m body d hm w hs))

pub render_after :
    (writes : List (String × Text)) (file : Option Text) (d : Document)
    → All IsPlainSection writes
    → All IsPlainSection d
    → text_of file ≡ render d
    → text_of (write_all file writes) ≡ render (document_after d writes)
render_after [] file d h plain e = e
render_after ((m, content) ∷ rest) file d ((hm, w), hs) plain e =
    render_after rest _ (insert m (strip content) d) hs
      (insert-Plain m _ d hm (Without-strip 60 content w) plain)
      (replace_section-render m hm file d content plain e)

pub lookup-document_after :
    (k : String) (d : Document) (writes : List (String × Text))
    → lookup k (document_after d writes) ≡ last_content k (lookup k d) writes
lookup-document_after k d [] = refl
lookup-document_after k d ((m, content) ∷ rest) =
    lookup-document_after k (insert m (strip content) d) rest
    ∙ ap (λ held. last_content k held rest) (lookup-insert m k (strip content) d)

-- Whatever calls the scripts have made, on a file that they have started, the file shows one
-- section for each marker, in the order in which the markers came first: the stripped content of
-- the last call for the marker. No call changes the section of another marker.
--
-- Each marker is free of spaces and of `<`, and each content of `<`.
pub write_all-render :
    (writes : List (String × Text))
    → All IsPlainSection writes
    → (text_of (write_all none writes) ≡ render (document_after [] writes))
      × ((k : String) → lookup k (document_after [] writes) ≡ last_content k none writes)
unfolding lookup
write_all-render writes h =
    (render_after writes none [] h tt refl, λ k. lookup-document_after k [] writes)

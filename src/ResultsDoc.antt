-- ===== src/ResultsDoc.antt =====
-- The writer of docs/results.md (experiments/_results_doc.py): the text of the file before and
-- after one call. Creating the directory, and translating newlines, is left to the file system.
pub mod Search
pub mod Document
pub mod Placement
pub mod Appending
pub mod Writes
use kv_replication_lab.Prelude.{
  ℕ, ◌+◌, String, Option, none, some, List, [], ◌∷◌, ◌++◌, length, take, drop, is_empty, ltb,
  if◌then◌else◌,
}
use kv_replication_lab.Prelude.Chars.{Text, codes, find, strip, rstrip, is_newline}

abbrev pub results_header_marker : String
results_header_marker = "header"

abbrev pub results_header : Text
results_header =
    codes
      "# Replication strategy comparison results\n\n> **Auto-generated -- do not hand-edit.** This file is rebuilt by three scripts, each owning one or more sections marked below: `experiments/run_comparison.py` (main sweep and message-queue sweep), `experiments/leaderless_boundary_case_demo.py` (boundary-case demo), and `experiments/mq_lag_demo.py` (message-queue lag demo). Manual edits inside any marked section are overwritten the next time that section's script runs. For the hand-maintained interpretation of these numbers -- why they look the way they do -- see the top-level `README.md`'s \"Results\" section."

abbrev pub begin_mark : String → Text
begin_mark marker = codes "<!-- BEGIN:" ++ (codes marker ++ codes " -->")

abbrev pub end_mark : String → Text
end_mark marker = codes "<!-- END:" ++ (codes marker ++ codes " -->")

-- `f"{begin}\n{body}\n"`
abbrev pub opening : String → Text → Text
opening marker body = begin_mark marker ++ (10 ∷ (body ++ (10 ∷ [])))

-- `section`, of the stripped content
abbrev pub section_text : String → Text → Text
section_text marker body = opening marker body ++ end_mark marker

-- A section that the file does not have yet
abbrev pub appended : (section text : Text) → Text
appended section text =
    if is_empty (strip text)
    then section ++ (10 ∷ [])
    else rstrip is_newline text ++ (10 ∷ 10 ∷ (section ++ (10 ∷ [])))

-- `new_text`, from where `find` has found the two marks
abbrev pub replaced : (section text : Text) (end_length : ℕ) → (start_idx end_idx : Option ℕ) → Text
replaced section text end_length (some start) (some stop) =
    if ltb start stop
    then take start text ++ (section ++ drop (stop + end_length) text)
    else appended section text
replaced section text end_length (some start) none = appended section text
replaced section text end_length none end_idx = appended section text

-- `path.read_text() if path.exists() else ""`
abbrev pub text_of : Option Text → Text
text_of none = []
text_of (some text) = text

-- `replace_section`: what is written, for the file as it is, `none` if there is none.
unfoldable pub replace_section : Option Text → (marker : String) (content : Text) → Text
replace_section file marker content =
    replaced (section_text marker (strip content)) (text_of file) (length (end_mark marker))
      (find (begin_mark marker) (text_of file)) (find (end_mark marker) (text_of file))

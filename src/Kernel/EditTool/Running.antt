-- ===== src/Kernel/EditTool/Running.antt =====
-- What a run of the edit tool leaves.
use axl_raja.Prelude.{
  ℕ, zero, suc, String, Option, ◌<◌, true, false, none, some, List, [], ◌∷◌, ◌++◌, ◌≡◌, refl, ap,
  ◌∙◌, arith, length, Outcome, ok, err, Option-cases, Bool-cases, inl, inr,
}
use mathlib.Core.Path.{subst}
use axl_raja.Kernel.EditTool.{
  Text, cut, count_from, count_occurrences, split, join, expand, replace, replace_cut,
}
use axl_raja.Kernel.EditTool.Execution.{
  EditInput, Answers, Utf8, Files, EditError, is_empty, check_input, check_occurrences, updated,
  edit_file, execute_edit, replacements_of, report,
}
use axl_raja.Kernel.EditTool.Pieces.{
  Omits, IsSplit, cut_sound, cut_first, rest-shorter, split_from-IsSplit, count_from-split_from,
}
use axl_raja.Kernel.EditTool.Written.{Ends, IsWrite, is_kept, is_written, write_atomically-IsWrite}

-- What the tool does to the file.
pub data IsEdit (utf8 : Utf8) (rm_error : Option String) (input : EditInput) (files : Files)
    (r : Outcome EditError ℕ × Files) : Type 0 where
  refused :
      (e : EditError) → r.0 ≡ err e → r.1.target ≡ files.target → IsEdit utf8 rm_error input files r
  edited_all :
      (replacements : ℕ) (pieces : List Text)
      → input.replace_all ≡ true
      → Ends rm_error replacements r.0
      → IsSplit input.old_text (utf8.decode files.target) pieces
      → suc replacements ≡ length pieces
      → r.1.target ≡ utf8.encode (join input.new_text pieces)
      → IsEdit utf8 rm_error input files r
  edited_one :
      (before behind : Text)
      → input.replace_all ≡ false
      → Ends rm_error 1 r.0
      → utf8.decode files.target ≡ before ++ input.old_text ++ behind
      → Omits input.old_text before
      → Omits input.old_text behind
      → r.1.target
        ≡ utf8.encode (before ++ expand before input.old_text behind input.new_text ++ behind)
      → IsEdit utf8 rm_error input files r

count_from-zero :
    (needle : Text) (fuel : ℕ) (s : Text) → count_from needle (suc fuel) s ≡ 0 → Omits needle s
unfolding count_from
count_from-zero needle fuel s h = elim (Option-cases (cut needle s)) [
  | inl missing ↦ missing
  | inr ((before, rest), found) ↦ absurd (ground (arith, found))
]

-- Where the text occurs once, it does not occur behind that.
one_occurrence :
    (needle content : Text)
    → 0 < length needle
    → count_occurrences content needle ≡ 1
    → (before : Text) × (behind : Text) × (cut needle content ≡ some (before, behind))
      × Omits needle behind
unfolding count_occurrences count_from
one_occurrence needle content positive h = elim (Option-cases (cut needle content)) [
  | inl missing ↦ absurd (ground (arith, missing))
  | inr ((before, behind), found) ↦
      let shorter = rest-shorter needle positive content before behind found in
      let counted : count_from needle (length content) behind ≡ 0 = ground (arith, found) in
      (before, behind, found, omits-behind needle (length content) behind (omega arith) counted)
]
  where
    omits-behind :
        (needle : Text) (n : ℕ) (behind : Text)
        → 0 < n
        → count_from needle n behind ≡ 0
        → Omits needle behind
    omits-behind needle zero behind positive h = absurd (omega arith)
    omits-behind needle (suc n) behind positive h = count_from-zero needle n behind h

module _ (utf8 : Utf8) (input : EditInput) (files : Files)
    (filled : 0 < length input.old_text) where
  abbrev content : Text
  content = utf8.decode files.target

  abbrev occurrences : ℕ
  occurrences = count_occurrences content input.old_text

  -- The text that the tool writes.
  data IsUpdate (replacements : ℕ) (text : Text) : Type 0 where
    all_replaced :
        (pieces : List Text)
        → input.replace_all ≡ true
        → IsSplit input.old_text content pieces
        → suc replacements ≡ length pieces
        → text ≡ join input.new_text pieces
        → IsUpdate replacements text
    one_replaced :
        (before behind : Text)
        → input.replace_all ≡ false
        → replacements ≡ 1
        → content ≡ before ++ input.old_text ++ behind
        → Omits input.old_text before
        → Omits input.old_text behind
        → text ≡ before ++ expand before input.old_text behind input.new_text ++ behind
        → IsUpdate replacements text

  updated-IsUpdate :
      (answers : Answers)
      → check_occurrences occurrences input.replace_all ≡ none
      → IsUpdate (replacements_of answers input occurrences) (updated input content)
  unfolding check_occurrences updated count_occurrences split replace
  updated-IsUpdate answers h = elim (Bool-cases input.replace_all) [
    | inl every ↦
        all_replaced (split content input.old_text) every
          (split_from-IsSplit input.old_text filled (suc (length content)) content (omega arith))
          (rw every (count_from-split_from input.old_text filled (suc (length content)) content))
          (rw every refl)
    | inr single ↦
        let once : occurrences ≡ 1 = ground (arith, single) in
        let (before, behind, found, omits) = one_occurrence input.old_text content filled once in
        one_replaced before behind single (rw single refl)
          (cut_sound input.old_text content before behind found)
          (cut_first input.old_text content before behind filled found) omits
          (rw single (ap (replace_cut content input.old_text input.new_text) found))
  ]

  Ends-report :
      (answers : Answers) (replacements : ℕ) (r : Outcome EditError (Unit {0}) × Files)
      → Ends answers.rm_error tt r.0
      → Ends answers.rm_error replacements (report answers replacements r).0
  Ends-report answers replacements (ok _, files') (inl done) = inl refl
  Ends-report answers replacements (err e, files') (inl done) = cc
  Ends-report answers replacements (ok _, files') (inr (code, broke, same)) = cc
  Ends-report answers replacements (err e, files') (inr (code, broke, same)) =
      inr (code, broke, ground (arith, same))

  report_target :
      (answers : Answers) (replacements : ℕ) (r : Outcome EditError (Unit {0}) × Files)
      → (report answers replacements r).1 ≡ r.1
  report_target answers replacements (ok _, files') = refl
  report_target answers replacements (err e, files') = refl

  report-IsEdit :
      (answers : Answers) (replacements : ℕ) (text : Text)
      (r : Outcome EditError (Unit {0}) × Files)
      → IsUpdate replacements text
      → IsWrite answers (utf8.encode text) files r
      → IsEdit utf8 answers.rm_error input files (report answers replacements r)
  report-IsEdit answers replacements text (outcome, files') update (is_kept e fails same) =
      rw fails (refused e refl same)
  report-IsEdit answers replacements text r (all_replaced pieces every pieces_of counted joined)
        (is_written done new) =
      edited_all replacements pieces every (Ends-report answers replacements r done) pieces_of
        counted
        (ap (λ f. f.target) (report_target answers replacements r) ∙ new ∙ ap utf8.encode joined)
  report-IsEdit answers replacements text r
        (one_replaced before behind single one whole omits omits' joined) (is_written done new) =
      edited_one before behind single
        (subst (λ n. Ends answers.rm_error n (report answers replacements r).0) one
          (Ends-report answers replacements r done))
        whole omits omits'
        (ap (λ f. f.target) (report_target answers replacements r) ∙ new ∙ ap utf8.encode joined)

filled_of : (text : Text) → is_empty text ≡ false → 0 < length text
filled_of [] h = absurd (ground arith)
filled_of (x ∷ text) h = omega arith

input-filled : (input : EditInput) → check_input input ≡ none → is_empty input.old_text ≡ false
unfolding check_input
input-filled input h = ground arith

-- A run of the tool has one of three outcomes, whatever the file system and the abort signal answer.
-- It throws, and the bytes of the file are as they were. Or it was asked to replace all: the decoded
-- file is the pieces between the occurrences of oldText, none of which has an occurrence, the file is
-- the encoding of these pieces with newText between them, and one replacement fewer is reported than
-- there are pieces. Or it was not: oldText stood in the decoded file once, and the file is the
-- encoding of that text with newText, its dollar signs expanded, in its place. In the last two it
-- reports its result, unless the removal of the temporary file fails: then it throws that error.
pub execute_edit-IsEdit :
    (utf8 : Utf8) (answers : Answers) (input : EditInput) (files : Files)
    → IsEdit utf8 answers.rm_error input files (execute_edit answers utf8 input files)
unfolding execute_edit edit_file
execute_edit-IsEdit utf8 answers input files = elim (Option-cases (check_input input)) [
  | inr (e, wrong) ↦ rw wrong (refused e refl refl)
  | inl fine ↦ elim (Bool-cases answers.aborted_at_start) [
    | inl stopped ↦ rw (fine, stopped) (refused _ refl refl)
    | inr on ↦ elim (Option-cases answers.read_error) [
      | inr (code, fails) ↦ rw (fine, on, fails) (refused _ refl refl)
      | inl was_read ↦
          let filled = filled_of input.old_text (input-filled input fine) in
          elim (Option-cases
            (check_occurrences (occurrences utf8 input files filled) input.replace_all)) [
              | inr (e, wrong) ↦ rw (fine, on, was_read, wrong) (refused e refl refl)
              | inl right ↦
                  rw (fine, on, was_read, right)
                    (report-IsEdit utf8 input files filled answers _ _ _
                      (updated-IsUpdate utf8 input files filled answers right)
                      (write_atomically-IsWrite answers
                        (utf8.encode (updated input (utf8.decode files.target))) files))
            ]
    ]
  ]
]

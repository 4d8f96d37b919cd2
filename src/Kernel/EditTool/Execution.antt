-- ===== src/Kernel/EditTool/Execution.antt =====
-- `execute` of the edit tool: its tests, and the write to a temporary file that is renamed.
use axl_raja.Prelude.{
  ℕ, String, Bool, true, false, not, ◌&&◌, Option, none, some, List, [], eqb, ltb, Outcome, ok, err,
  if◌then◌else◌,
}
use axl_raja.Kernel.EditTool.{Text, same_text, count_occurrences, split, join, replace}

pub record EditInput : Type 0 where
  pub old_text : Text
  pub new_text : Text
  pub replace_all : Bool

-- What "utf8" does in `readFile` and `writeFile`: bytes to code units and back. Neither undoes the
-- other, since bytes that are no UTF-8 and surrogates without their other half are replaced.
pub record Utf8 : Type 0 where
  pub decode : List ℕ → Text
  pub encode : Text → List ℕ

-- What the file system and the abort signal answer: the error of a call, if it fails, and whether
-- the signal is aborted at each look.
pub record Answers : Type 0 where
  pub aborted_at_start : Bool
  pub read_error : Option String
  pub aborted_in_read : Bool
  pub stat_error : Option String
  pub aborted_after_stat : Bool
  -- what the failed write has left in the temporary file
  pub write_error : Option (String × List ℕ)
  pub aborted_after_write : Bool
  pub rename_error : Option String
  -- of `rm` in the `finally` block
  pub rm_error : Option String

-- The bytes of the files.
pub record Files : Type 0 where
  pub target : List ℕ
  pub temporary : Option (List ℕ)

pub data EditError : Type 0 where
  empty_old_text identical aborted target_changed : EditError
  ambiguous : (occurrences : ℕ) → EditError
  cannot_read failed : (code : String) → EditError

abbrev pub is_empty : Text → Bool
is_empty [] = true
is_empty _ = false

-- requiredString of oldText, and the test that the texts differ
unfoldable pub check_input : EditInput → Option EditError
check_input input =
    if is_empty input.old_text
    then some empty_old_text
    else if same_text input.old_text input.new_text
    then some identical
    else none

-- the tests of the number of occurrences
unfoldable pub check_occurrences : ℕ → (replace_all : Bool) → Option EditError
check_occurrences occurrences replace_all =
    if eqb occurrences 0
    then some target_changed
    else if ltb 1 occurrences && not replace_all
    then some (ambiguous occurrences)
    else none

unfoldable pub updated : EditInput → Text → Text
unfolding split join replace
updated input content =
    if input.replace_all
    then join input.new_text (split content input.old_text)
    else replace content input.old_text input.new_text

module _ (answers : Answers) where
  abbrev pub rename_temporary :
      List ℕ → Option String → Files → Outcome EditError (Unit {0}) × Files
  rename_temporary bytes none files = (ok tt, record { target = bytes; temporary = none })
  rename_temporary bytes (some code) files = (err (failed code), files)

  abbrev pub written :
      List ℕ → Option (String × List ℕ) → Files → Outcome EditError (Unit {0}) × Files
  written bytes (some (code, left)) files =
      (err (failed code), record files { temporary = some left })
  written bytes none files =
      let files' = record files { temporary = some bytes } in
      if answers.aborted_after_write
      then (err aborted, files')
      else rename_temporary bytes answers.rename_error files'

  abbrev pub after_stat : List ℕ → Option String → Files → Outcome EditError (Unit {0}) × Files
  after_stat bytes (some code) files = (err (failed code), files)
  after_stat bytes none files =
      if answers.aborted_after_stat
      then (err aborted, files)
      else written bytes answers.write_error files

  -- finally: the temporary file is removed; an error of `rm` replaces how the `try` block ended
  abbrev pub remove_temporary :
      Option String → Outcome EditError (Unit {0}) × Files → Outcome EditError (Unit {0}) × Files
  remove_temporary none (outcome, files) = (outcome, record files { temporary = none })
  remove_temporary (some code) (outcome, files) = (err (failed code), files)

  -- the `try` and `finally` blocks
  unfoldable pub write_atomically : List ℕ → Files → Outcome EditError (Unit {0}) × Files
  write_atomically bytes files =
      remove_temporary answers.rm_error (after_stat bytes answers.stat_error files)

  abbrev pub replacements_of : EditInput → ℕ → ℕ
  replacements_of input occurrences = if input.replace_all then occurrences else 1

  abbrev pub report : ℕ → Outcome EditError (Unit {0}) × Files → Outcome EditError ℕ × Files
  report replacements (ok _, files) = (ok replacements, files)
  report replacements (err e, files) = (err e, files)

  abbrev pub unless :
      {A : Type 0}
      → Option EditError
      → Outcome EditError A × Files
      → Files
      → Outcome EditError A × Files
  unless none next files = next
  unless (some e) next files = (err e, files)

  abbrev pub read_failure : Option String → Option EditError
  read_failure none = none
  read_failure (some code) = some (if answers.aborted_in_read then aborted else cannot_read code)

  -- the callback of `withFileMutationQueue`
  unfoldable pub edit_file : Utf8 → EditInput → Files → Outcome EditError ℕ × Files
  unfolding count_occurrences check_occurrences updated write_atomically
  edit_file utf8 input files =
      let content = utf8.decode files.target in
      let occurrences = count_occurrences content input.old_text in
      if answers.aborted_at_start
      then (err aborted, files)
      else unless (read_failure answers.read_error)
          (unless (check_occurrences occurrences input.replace_all)
            (report (replacements_of input occurrences)
              (write_atomically (utf8.encode (updated input content)) files))
            files)
          files

  unfoldable pub execute_edit : Utf8 → EditInput → Files → Outcome EditError ℕ × Files
  unfolding check_input edit_file
  execute_edit utf8 input files = unless (check_input input) (edit_file utf8 input files) files

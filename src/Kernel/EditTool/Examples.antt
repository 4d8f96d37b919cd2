-- ===== src/Kernel/EditTool/Examples.antt =====
-- The theorems on the edit tool, at concrete texts.
use axl_raja.Prelude.{Bool, true, false, none, [], ◌∷◌, ◌≡◌, refl, ok, err}
use axl_raja.Kernel.EditTool.{Text, cut, split, replace}
use axl_raja.Kernel.EditTool.Execution.{
  EditInput, Answers, Utf8, Files, identical, ambiguous, execute_edit,
}
use axl_raja.Kernel.EditTool.Replacing.{has_dollar, replace-cut}
use axl_raja.Kernel.EditTool.Running.{IsEdit, execute_edit-IsEdit}

-- "abcab", "ab" and "x"
abbrev content : Text
content = 97 ∷ 98 ∷ 99 ∷ 97 ∷ 98 ∷ []

abbrev ab : Text
ab = 97 ∷ 98 ∷ []

abbrev x : Text
x = 120 ∷ []

abbrev fine : Answers
fine = record {
  aborted_at_start = false;
  read_error = none;
  aborted_in_read = false;
  stat_error = none;
  aborted_after_stat = false;
  write_error = none;
  aborted_after_write = false;
  rename_error = none;
  rm_error = none;
}

-- Every code unit is a byte.
abbrev ascii : Utf8
ascii = record { decode = λ bytes. bytes; encode = λ text. text }

abbrev file : Files
file = record { target = content; temporary = none }

abbrev edit : Bool → EditInput
edit every = record { old_text = ab; new_text = x; replace_all = every }

two_pieces : split content ab ≡ [] ∷ (99 ∷ []) ∷ [] ∷ []
unfolding split
two_pieces = refl

edits_all :
    execute_edit fine ascii (edit true) file
    ≡ (ok 2, record { target = 120 ∷ 99 ∷ 120 ∷ []; temporary = none })
unfolding execute_edit
edits_all = refl

refuses_two : execute_edit fine ascii (edit false) file ≡ (err (ambiguous 2), file)
unfolding execute_edit
refuses_two = refl

refuses_same :
    execute_edit fine ascii (record { old_text = ab; new_text = ab; replace_all = true }) file
    ≡ (err identical, file)
unfolding execute_edit
refuses_same = refl

execute_edit-IsEdit_example :
    IsEdit ascii none (edit true) file (execute_edit fine ascii (edit true) file)
execute_edit-IsEdit_example = execute_edit-IsEdit ascii fine (edit true) file

replace-cut_example :
    (has_dollar x ≡ false → replace (99 ∷ ab) ab x ≡ 99 ∷ 120 ∷ [])
    × (has_dollar x ≡ false → replace (99 ∷ ab) ab (36 ∷ 36 ∷ x) ≡ 99 ∷ 36 ∷ 120 ∷ [])
unfolding cut
replace-cut_example = replace-cut (99 ∷ ab) ab x (99 ∷ []) [] refl

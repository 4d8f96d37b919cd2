-- ===== src/Kernel/EditTool.antt =====
-- The edit tool (packages/kernel/src/tools/edit.ts) behind the checks of its input's types and the
-- queue of the file. A text is the list of its UTF-16 code units.
pub mod Execution
pub mod Pieces
pub mod Replacing
pub mod Written
pub mod Running
mod Examples
use axl_raja.Prelude.{
  ℕ, zero, suc, String, Bool, true, false, not, ◌&&◌, Option, none, some, List, [], ◌∷◌, ◌++◌, eqb,
  ltb, Outcome, ok, err, if◌then◌else◌, length,
}

abbrev pub Text : Type 0
Text = List ℕ

abbrev pub same_text : Text → Text → Bool
same_text [] [] = true
same_text (x ∷ s) (y ∷ t) = eqb x y && same_text s t
same_text _ _ = false

-- What follows `prefix` in a text that starts with it.
unfoldable pub strip : Text → Text → Option Text
strip [] s = some s
strip (x ∷ prefix) [] = none
strip (x ∷ prefix) (y ∷ s) = let rest = strip prefix s in if eqb x y then rest else none

abbrev pub push_before : ℕ → Option (Text × Text) → Option (Text × Text)
push_before x none = none
push_before x (some (before, rest)) = some (x ∷ before, rest)

abbrev pub or_else : Option Text → Option (Text × Text) → Option (Text × Text)
or_else none later = later
or_else (some rest) later = some ([], rest)

-- indexOf: what is before the first occurrence, and what is behind it
unfoldable pub cut : Text → Text → Option (Text × Text)
unfolding strip
cut needle [] = or_else (strip needle []) none
cut needle (x ∷ s) = or_else (strip needle (x ∷ s)) (push_before x (cut needle s))

module _ (needle : Text) where
  abbrev pub count_in : (Text → ℕ) → Option (Text × Text) → ℕ
  count_in count none = 0
  count_in count (some (before, rest)) = suc (count rest)

  -- the loop of `countOccurrences`
  unfoldable pub count_from : ℕ → Text → ℕ
  unfolding cut
  count_from zero haystack = 0
  count_from (suc fuel) haystack = count_in (count_from fuel) (cut needle haystack)

  abbrev pub split_in : (Text → List Text) → Text → Option (Text × Text) → List Text
  split_in split haystack none = haystack ∷ []
  split_in split haystack (some (before, rest)) = before ∷ split rest

  -- content.split(oldText)
  unfoldable pub split_from : ℕ → Text → List Text
  unfolding cut
  split_from zero haystack = haystack ∷ []
  split_from (suc fuel) haystack = split_in (split_from fuel) haystack (cut needle haystack)

-- pieces.join(newText)
unfoldable pub join : Text → List Text → Text
join glue [] = []
join glue (piece ∷ []) = piece
join glue (piece ∷ next ∷ pieces) = piece ++ glue ++ join glue (next ∷ pieces)

-- The fuel is enough: each occurrence takes a letter at least.
unfoldable pub count_occurrences : Text → Text → ℕ
unfolding count_from
count_occurrences haystack needle = count_from needle (suc (length haystack)) haystack

unfoldable pub split : Text → Text → List Text
unfolding split_from
split haystack needle = split_from needle (suc (length haystack)) haystack

-- `String.prototype.replace` with a text: what stands for the pattern behind a `$` (36). No
-- capture groups exist, so that `$1` and `$<name>` stand for themselves.
abbrev pub dollar : ℕ
dollar = 36

abbrev pub reference : Text → Text → Text → ℕ → Option Text
reference before matched behind sign =
    if eqb sign 36
    then some (36 ∷ [])
    else if eqb sign 38
    then some matched
    else if eqb sign 96
    then some before
    else if eqb sign 39
    then some behind
    else none

abbrev pub put_reference : Option Text → ℕ → Text → Text → Text
put_reference none sign with_sign without = 36 ∷ with_sign
put_reference (some text) sign with_sign without = text ++ without

unfoldable pub expand : Text → Text → Text → Text → Text
expand before matched behind [] = []
expand before matched behind (x ∷ []) = x ∷ []
expand before matched behind (x ∷ y ∷ template) =
    let without = expand before matched behind template in
    let with_sign = expand before matched behind (y ∷ template) in
    if eqb x 36
    then put_reference (reference before matched behind y) y with_sign without
    else x ∷ with_sign

abbrev pub replace_cut : Text → Text → Text → Option (Text × Text) → Text
replace_cut content old_text new_text none = content
replace_cut content old_text new_text (some (before, behind)) =
    before ++ expand before old_text behind new_text ++ behind

-- content.replace(oldText, newText)
unfoldable pub replace : Text → Text → Text → Text
unfolding cut expand
replace content old_text new_text = replace_cut content old_text new_text (cut old_text content)

-- ===== src/Kernel/EditTool/Replacing.antt =====
-- One replacement.
use axl_raja.Prelude.{Bool, false, some, [], ◌∷◌, ◌++◌, ◌≡◌, refl, ap, ◌∙◌, eqb, arith, any}
use axl_raja.Kernel.EditTool.{Text, cut, expand, replace, replace_cut}

abbrev pub has_dollar : Text → Bool
has_dollar = any (λ x. eqb x 36)

module _ (before matched behind : Text) where
  expand-plain :
      (template : Text)
      → has_dollar template ≡ false
      → expand before matched behind template ≡ template
  unfolding expand
  expand-plain [] h = refl
  expand-plain (x ∷ []) h = refl
  expand-plain (x ∷ y ∷ template) h = ground (arith, expand-plain (y ∷ template))

-- One replacement puts newText in the place of the first occurrence as it is, if newText has no
-- dollar sign. It does not, if newText begins with two dollar signs and has no other: of these it
-- puts one.
pub replace-cut :
    (content old_text new_text before behind : Text)
    → cut old_text content ≡ some (before, behind)
    → (has_dollar new_text ≡ false
        → replace content old_text new_text ≡ before ++ new_text ++ behind)
      × (has_dollar new_text ≡ false
          → replace content old_text (36 ∷ 36 ∷ new_text) ≡ before ++ 36 ∷ new_text ++ behind)
unfolding replace
replace-cut content old_text new_text before behind h = (
  λ plain.
      ap (replace_cut content old_text new_text) h
      ∙ ap (λ t. before ++ t ++ behind) (expand-plain before old_text behind new_text plain),
  λ plain.
      ap (replace_cut content old_text (36 ∷ 36 ∷ new_text)) h
      ∙ ap (λ t. before ++ 36 ∷ t ++ behind) (expand-plain before old_text behind new_text plain),
)

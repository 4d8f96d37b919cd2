-- ===== src/Kernel/EditTool/Pieces.antt =====
-- What `indexOf`, `split` and `countOccurrences` find.
use axl_raja.Prelude.{
  ℕ, zero, suc, ◌<◌, Option, none, some, List, [], ◌∷◌, ◌++◌, ◌≡◌, refl, sym, ap, ◌∙◌, eqb→eq,
  arith, length, All, length-append, Option-cases, inl, inr,
}
use axl_raja.Kernel.EditTool.{Text, strip, cut, or_else, push_before, count_from, split_from, join}

strip_sound : (prefix s rest : Text) → strip prefix s ≡ some rest → s ≡ prefix ++ rest
unfolding strip
strip_sound [] s rest h = ground arith
strip_sound (x ∷ prefix) [] rest h = absurd (ground arith)
strip_sound (x ∷ prefix) (y ∷ s) rest h = ground (arith, strip_sound prefix s rest, eqb→eq x y)

-- A text in which `indexOf` finds nothing.
abbrev pub Omits : Text → Text → Type 0
Omits needle s = cut needle s ≡ none

or_else-some :
    (needle s : Text) (found : Option Text) (later : Option (Text × Text)) (before rest : Text)
    → strip needle s ≡ found
    → ((b r : Text) → later ≡ some (b, r) → s ≡ b ++ needle ++ r)
    → or_else found later ≡ some (before, rest)
    → s ≡ before ++ needle ++ rest
or_else-some needle s none later before rest h later_sound e = later_sound before rest e
or_else-some needle s (some r) later before rest h later_sound e =
    ground (arith, strip_sound needle s r h)

push_before-some :
    (x : ℕ) (o : Option (Text × Text)) (before rest : Text)
    → push_before x o ≡ some (before, rest)
    → (tail : Text) × (before ≡ x ∷ tail) × (o ≡ some (tail, rest))
push_before-some x none before rest h = absurd (ground arith)
push_before-some x (some (b, r)) before rest h = (b, ground arith, ground arith)

-- `indexOf` finds an occurrence.
pub cut_sound :
    (needle s before rest : Text)
    → cut needle s ≡ some (before, rest)
    → s ≡ before ++ needle ++ rest
unfolding cut
cut_sound needle [] before rest h =
    or_else-some needle [] (strip needle []) none before rest refl (λ b r e. absurd (ground arith))
      h
cut_sound needle (x ∷ s) before rest h =
    or_else-some needle (x ∷ s) (strip needle (x ∷ s)) (push_before x (cut needle s)) before rest
      refl
      (λ b r e.
        let (tail, same, found) = push_before-some x (cut needle s) b r e in
        ground (arith, cut_sound needle s tail r))
      h

strip-append :
    (needle s u rest : Text) → strip needle s ≡ some rest → strip needle (s ++ u) ≡ some (rest ++ u)
unfolding strip
strip-append [] s u rest h = ground arith
strip-append (x ∷ needle) [] u rest h = absurd (ground arith)
strip-append (x ∷ needle) (y ∷ s) u rest h = ground (arith, strip-append needle s u rest)

strip-none_of_append : (needle s u : Text) → strip needle (s ++ u) ≡ none → strip needle s ≡ none
strip-none_of_append needle s u h = elim (Option-cases (strip needle s)) [
  | inl missing ↦ missing
  | inr (rest, found) ↦ absurd (ground (arith, strip-append needle s u rest found))
]

omits-start :
    (needle : Text) (x : ℕ) (s tail rest : Text)
    → s ≡ tail ++ needle ++ rest
    → strip needle (x ∷ s) ≡ none
    → strip needle (x ∷ tail) ≡ none
omits-start needle x s tail rest whole missing =
    strip-none_of_append needle (x ∷ tail) needle
      (strip-none_of_append needle (x ∷ tail ++ needle) rest (rw whole at missing))

-- The text before the first occurrence has none itself.
pub cut_first :
    (needle s before rest : Text)
    → 0 < length needle
    → cut needle s ≡ some (before, rest)
    → Omits needle before
unfolding cut strip
cut_first [] s before rest positive h = absurd (omega arith)
cut_first (n ∷ needle) [] before rest positive h = absurd (ground arith)
cut_first (n ∷ needle) (x ∷ s) before rest positive h =
    elim (Option-cases (strip (n ∷ needle) (x ∷ s))) [
      | inr (r, found) ↦ ground arith
      | inl missing ↦
          let (tail, same, later) =
            push_before-some x (cut (n ∷ needle) s) before rest (rw missing at h) in
          let none_here =
            omits-start (n ∷ needle) x s tail rest (cut_sound (n ∷ needle) s tail rest later)
              missing in
          rw same (rw none_here (rw (cut_first (n ∷ needle) s tail rest positive later) refl))
    ]

-- The pieces between the occurrences.
pub record IsSplit (needle s : Text) (pieces : List Text) : Type 0 where
  pub joined : s ≡ join needle pieces
  pub omits : All (Omits needle) pieces
  pub filled : 0 < length pieces

join-cons :
    (glue piece : Text) (pieces : List Text)
    → 0 < length pieces
    → join glue (piece ∷ pieces) ≡ piece ++ glue ++ join glue pieces
unfolding join
join-cons glue piece [] positive = absurd (omega arith)
join-cons glue piece (next ∷ pieces) positive = refl

module _ (needle : Text) (positive : 0 < length needle) where
  pub rest-shorter :
      (s before rest : Text) → cut needle s ≡ some (before, rest) → length rest < length s
  rest-shorter s before rest h =
      rw (cut_sound needle s before rest h)
        (omega (arith, length-append (before ++ needle) rest, length-append before needle))

  pub split_from-IsSplit :
      (fuel : ℕ) (s : Text) → length s < fuel → IsSplit needle s (split_from needle fuel s)
  unfolding split_from join
  split_from-IsSplit zero s enough = absurd (omega arith)
  split_from-IsSplit (suc fuel) s enough = elim (Option-cases (cut needle s)) [
    | inl missing ↦
        rw missing (record { joined = refl; omits = (missing, tt); filled = omega arith })
    | inr ((before, rest), found) ↦
        let shorter = rest-shorter s before rest found in
        let later = split_from-IsSplit fuel rest (omega arith) in
        rw found (record {
          joined =
              cut_sound needle s before rest found
              ∙ ap (λ r. before ++ needle ++ r) later.joined
              ∙ sym (join-cons needle before (split_from needle fuel rest) later.filled);
          omits = (cut_first needle s before rest positive found, later.omits);
          filled = omega arith;
        })
  ]

  pub count_from-split_from :
      (fuel : ℕ) (s : Text) → suc (count_from needle fuel s) ≡ length (split_from needle fuel s)
  unfolding count_from split_from
  count_from-split_from zero s = omega arith
  count_from-split_from (suc fuel) s = elim (Option-cases (cut needle s)) [
    | inl missing ↦ rw missing refl
    | inr ((before, rest), found) ↦ rw found (ap suc (count_from-split_from fuel rest))
  ]

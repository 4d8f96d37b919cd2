-- ===== src/Kernel/PathPolicy/Inside.antt =====
-- What `isWithin` and the loop over the protected paths decide.
use axl_raja.Prelude.{
  String, true, List, [], ◌∷◌, ◌++◌, ◌≡◌, refl, ◌⊎◌, inl, inr, ok, All, Any, here, there, any,
  arith, Bool-cases, eqb→eq, eqb_refl, append_assoc,
}
use axl_raja.Kernel.PathPolicy.{FilePath, sep, same, starts_with, is_within, check_protected}

-- The root itself, or a path with the root's segments before its own.
abbrev pub IsInside : FilePath → FilePath → Type 0
IsInside candidate root =
    (candidate ≡ root) ⊎ ((rest : FilePath) × (candidate ≡ root ++ sep ∷ rest))

pub same→eq : (p q : FilePath) → same p q ≡ true → p ≡ q
unfolding same
same→eq [] [] h = refl
same→eq [] (b ∷ q) h = cc
same→eq (a ∷ p) [] h = cc
same→eq (a ∷ p) (b ∷ q) h = ground (arith, same→eq p q)

pub same_refl : (p : FilePath) → same p p ≡ true
unfolding same
same_refl [] = refl
same_refl (a ∷ p) = ground (arith, eqb_refl a, same_refl p)

starts_with→append :
    (prefix text : FilePath)
    → starts_with prefix text ≡ true
    → (rest : FilePath) × (text ≡ prefix ++ rest)
unfolding starts_with
starts_with→append [] text h = (text, refl)
starts_with→append (a ∷ prefix) [] h = cc
starts_with→append (a ∷ prefix) (b ∷ text) h =
    let (rest, e) = starts_with→append prefix text (ground arith) in
    (rest, ground (arith, eqb→eq a b))

starts_with-append : (prefix rest : FilePath) → starts_with prefix (prefix ++ rest) ≡ true
unfolding starts_with
starts_with-append [] rest = refl
starts_with-append (a ∷ prefix) rest = ground (arith, eqb_refl a, starts_with-append prefix rest)

pub is_within→IsInside : (c root : FilePath) → is_within c root ≡ true → IsInside c root
unfolding is_within
is_within→IsInside c root h = elim (Bool-cases (same c root)) [
  | inl e ↦ inl (same→eq c root e)
  | inr e ↦
      let (rest, split) = starts_with→append (root ++ sep ∷ []) c (ground arith) in
      inr (rest, rw (split, append_assoc root (sep ∷ []) rest))
]

pub IsInside→is_within : (c root : FilePath) → IsInside c root → is_within c root ≡ true
unfolding is_within
IsInside→is_within c root (inl e) = rw (e, same_refl root)
IsInside→is_within c root (inr (rest, e)) =
    let there = starts_with-append (root ++ sep ∷ []) rest in
    ground (arith, append_assoc root (sep ∷ []) rest)

pub check_protected→All :
    (capability : String) (c : FilePath) (paths : List FilePath)
    → check_protected capability c paths ≡ ok tt
    → All (λ q. ¬ IsInside c q) paths
unfolding check_protected
check_protected→All capability c [] h = tt
check_protected→All capability c (q ∷ paths) h = elim (Bool-cases (is_within c q)) [
  | inl e ↦ absurd (ground arith)
  | inr e ↦ (
    λ inside. ground (arith, IsInside→is_within c q inside),
    check_protected→All capability c paths (ground arith),
  )
]

pub All→check_protected :
    (capability : String) (c : FilePath) (paths : List FilePath)
    → All (λ q. ¬ IsInside c q) paths
    → check_protected capability c paths ≡ ok tt
unfolding check_protected
All→check_protected capability c [] h = refl
All→check_protected capability c (q ∷ paths) (outside, h) = elim (Bool-cases (is_within c q)) [
  | inl e ↦ absurd (outside (is_within→IsInside c q e))
  | inr e ↦ rw e (All→check_protected capability c paths h)
]

pub any→Any :
    (c : FilePath) (roots : List FilePath) → any (is_within c) roots ≡ true → Any (IsInside c) roots
any→Any c [] h = cc
any→Any c (root ∷ roots) h = elim (Bool-cases (is_within c root)) [
  | inl e ↦ here (is_within→IsInside c root e)
  | inr e ↦ there (any→Any c roots (ground arith))
]

pub Any→any :
    (c : FilePath) (roots : List FilePath) → Any (IsInside c) roots → any (is_within c) roots ≡ true
Any→any c [] a = elim a [ ]
Any→any c (root ∷ roots) (here i) = rw (IsInside→is_within c root i)
Any→any c (root ∷ roots) (there a) = ground (arith, Any→any c roots a)

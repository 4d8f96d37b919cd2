-- ===== src/Kernel/PathPolicy/Canonical.antt =====
-- What `canonicalizeForPolicy` returns, for a file system whose `dirname` behaves.
use axl_raja.Prelude.{
  ℕ, suc, ◌+◌, ◌-◌, ◌≤◌, ◌<◌, false, List, [], ◌∷◌, ◌++◌, ◌≡◌, refl, ap, ◌⊎◌, inl, inr, ◌∙◌, ok,
  err, arith, Bool-cases, length, drop, length-append, append_assoc, append-nil,
}
use axl_raja.Kernel.PathPolicy.{
  FilePath, sep, same, enoent, Platform, ascend, canonicalize_for_policy,
}
use axl_raja.Kernel.PathPolicy.Inside.{same→eq}

-- The parent of a path is shorter than the path, but for a root, which is its own parent.
abbrev pub IsShortening : Platform → Type 0
IsShortening platform =
    (path : FilePath)
    → (platform.dirname path ≡ path) ⊎ (length (platform.dirname path) < length path)

-- the segments `names` below a path
abbrev pub below : FilePath → List FilePath → FilePath
below path [] = path
below path (name ∷ names) = below (path ++ sep ∷ name) names

abbrev pub joined : List FilePath → FilePath
joined [] = []
joined (name ∷ names) = (sep ∷ name) ++ joined names

-- Nothing exists below `path` along `names`, and `dirname` leads back to it.
abbrev pub AreMissing : Platform → FilePath → List FilePath → Type 0
AreMissing platform path [] = Unit
AreMissing platform path (name ∷ names) =
    let child = path ++ sep ∷ name in
    (platform.realpath child ≡ err enoent)
    × (platform.dirname child ≡ path)
    × AreMissing platform child names

-- A missing entry of the root directory.
abbrev pub IsMissingTop : Platform → FilePath → Type 0
IsMissingTop platform path =
    (platform.resolve path ≡ path)
    × (platform.realpath path ≡ err enoent)
    × (platform.dirname path ≡ sep ∷ [])

drop-below : (path name : FilePath) → drop (suc (length path)) (path ++ sep ∷ name) ≡ name
drop-below [] name = refl
drop-below (c ∷ path) name = drop-below path name

same-child : (path name : FilePath) → same path (path ++ sep ∷ name) ≡ false
same-child path name = elim (Bool-cases (same path (path ++ sep ∷ name))) [
  | inl e ↦
      let equal = same→eq path (path ++ sep ∷ name) e in
      absurd (omega (arith, length-append path (sep ∷ name), ap length equal))
  | inr e ↦ e
]

length-below :
    (path : FilePath) (names : List FilePath)
    → length path + length names ≤ length (below path names)
length-below path [] = omega arith
length-below path (name ∷ names) =
    omega (arith, length-below (path ++ sep ∷ name) names, length-append path (sep ∷ name))

-- the fuel that is left before the steps over `names`
more : List FilePath → ℕ → ℕ
more [] fuel = fuel
more (name ∷ names) fuel = more names (suc fuel)

more-eq : (names : List FilePath) (fuel : ℕ) → more names fuel ≡ length names + fuel
unfolding more
more-eq [] fuel = omega arith
more-eq (name ∷ names) fuel = omega (arith, more-eq names (suc fuel))

more-length :
    (names : List FilePath) (n : ℕ) → length names ≤ n → (k : ℕ) × (suc n ≡ more names (suc k))
more-length names n h = (n - length names, omega (arith, more-eq names (suc (n - length names))))

module _ (platform : Platform) where
  ascend-child :
      (fuel : ℕ) (path name rest remainder : FilePath)
      → platform.realpath (path ++ sep ∷ name) ≡ err enoent
      → platform.dirname (path ++ sep ∷ name) ≡ path
      → ascend platform (suc fuel) (path ++ sep ∷ name) (rest ++ remainder)
        ≡ ascend platform fuel path (((sep ∷ name) ++ rest) ++ remainder)
  unfolding ascend
  ascend-child fuel path name rest remainder absent parent =
      simp (
        absent,
        parent,
        same-child path name,
        drop-below path name,
        append_assoc name rest remainder,
      )

  ascend-below :
      (fuel : ℕ) (path : FilePath) (names : List FilePath) (remainder : FilePath)
      → AreMissing platform path names
      → ascend platform (more names fuel) (below path names) remainder
        ≡ ascend platform fuel path (joined names ++ remainder)
  unfolding more
  ascend-below fuel path [] remainder missing = refl
  ascend-below fuel path (name ∷ names) remainder (absent, parent, missing) =
      let child = path ++ sep ∷ name in
      let up : ascend platform (suc fuel) child (joined names ++ remainder)
          ≡ ascend platform fuel path (joined (name ∷ names) ++ remainder) =
        ascend-child fuel path name (joined names) remainder absent parent in
      ascend-below (suc fuel) child names remainder missing ∙ up

  ascend-there :
      (fuel : ℕ) (directory real rest : FilePath)
      → platform.realpath directory ≡ ok real
      → ascend platform (suc fuel) directory (rest ++ []) ≡ ok (real ++ rest)
  unfolding ascend
  ascend-there fuel directory real rest there = simp (there, append-nil rest)

  canonicalize_for_policy-eq :
      (path start : FilePath)
      → platform.resolve path ≡ start
      → canonicalize_for_policy platform path ≡ ascend platform (suc (length start)) start []
  unfolding canonicalize_for_policy
  canonicalize_for_policy-eq path start asked = simp asked

  -- A path below a directory along missing names gets the real path of the directory, and the names
  -- after it, where `dirname` leads from each path back to the one before. The root directory is not
  -- among the directories: its path ends in the separator that is put before the first name.
  pub canonicalize_for_policy-below :
      (path directory real : FilePath) (names : List FilePath)
      → platform.resolve path ≡ below directory names
      → platform.realpath directory ≡ ok real
      → AreMissing platform directory names
      → canonicalize_for_policy platform path ≡ ok (real ++ joined names)
  canonicalize_for_policy-below path directory real names asked there missing =
      let start = below directory names in
      let (k, fuel) =
        more-length names (length start) (omega (arith, length-below directory names)) in
      canonicalize_for_policy-eq path start asked
      ∙ ap (λ n. ascend platform n start []) fuel
      ∙ ascend-below (suc k) directory names [] missing
      ∙ ascend-there k directory real (joined names) there

  -- Two missing entries of the root directory that differ in the first letter of their names only
  -- are the same path for the policy.
  pub canonicalize_for_policy-IsMissingTop :
      (a b : ℕ) (name : FilePath)
      → platform.realpath (sep ∷ []) ≡ ok (sep ∷ [])
      → IsMissingTop platform (sep ∷ a ∷ name)
      → IsMissingTop platform (sep ∷ b ∷ name)
      → canonicalize_for_policy platform (sep ∷ a ∷ name)
        ≡ canonicalize_for_policy platform (sep ∷ b ∷ name)
  unfolding canonicalize_for_policy ascend same
  canonicalize_for_policy-IsMissingTop a b name root (r, m, d) (r', m', d') =
      simp (r, m, d, r', m', d', root)

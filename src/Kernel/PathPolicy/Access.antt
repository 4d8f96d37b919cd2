-- ===== src/Kernel/PathPolicy/Access.antt =====
-- Which paths the two assertions grant.
use axl_raja.Prelude.{sym, ◌≡◌, inl, inr, ◌↔◌, ok, All, Any, any, arith, Bool-cases, >>=-eq-ok}
use axl_raja.Kernel.PathPolicy.{
  FilePath, is_within, check_protected, decide_read, decide_write, WorkspacePolicy, Platform,
  canonicalize_for_policy, canonical_policy, assert_read_allowed, assert_write_allowed,
}
use axl_raja.Kernel.PathPolicy.Inside.{
  IsInside, check_protected→All, All→check_protected, any→Any, Any→any, is_within→IsInside,
  IsInside→is_within,
}

-- The path is inside some readable root and inside no protected path.
abbrev pub IsReadable : WorkspacePolicy → FilePath → Type 0
IsReadable resolved c =
    All (λ q. ¬ IsInside c q) resolved.protected_paths × Any (IsInside c) resolved.readable_roots

decide_read→IsReadable :
    (asked c : FilePath) (r : WorkspacePolicy)
    → decide_read asked r ≡ ok c
    → (asked ≡ c) × IsReadable r asked
unfolding decide_read
decide_read→IsReadable asked c r h =
    let (_, passed, granted) =
      >>=-eq-ok (check_protected "filesystem.read" asked r.protected_paths) _ h in
    elim (Bool-cases (any (is_within asked) r.readable_roots)) [
      | inl e ↦ (
        ground arith,
        (
          check_protected→All "filesystem.read" asked r.protected_paths passed,
          any→Any asked r.readable_roots e,
        ),
      )
      | inr e ↦ absurd (ground arith)
    ]

IsReadable→decide_read :
    (c : FilePath) (r : WorkspacePolicy) → IsReadable r c → decide_read c r ≡ ok c
unfolding decide_read
IsReadable→decide_read c r (outside, inside) = simp (
  All→check_protected "filesystem.read" c r.protected_paths outside,
  Any→any c r.readable_roots inside,
)

decide_write→IsReadable :
    (asked c : FilePath) (r : WorkspacePolicy)
    → decide_write asked r ≡ ok c
    → (asked ≡ c) × IsReadable r asked × IsInside asked r.workspace
unfolding decide_write
decide_write→IsReadable asked c r h =
    let (_, passed, granted) =
      >>=-eq-ok (check_protected "filesystem.write" asked r.protected_paths) _ h in
    let outside = check_protected→All "filesystem.write" asked r.protected_paths passed in
    elim (Bool-cases (is_within asked r.workspace)) [
      | inr e ↦ absurd (ground arith)
      | inl w ↦ elim (Bool-cases (any (is_within asked) r.readable_roots)) [
        | inl e ↦ (
          ground arith,
          (outside, any→Any asked r.readable_roots e),
          is_within→IsInside asked r.workspace w,
        )
        | inr e ↦ absurd (ground arith)
      ]
    ]

IsReadable→decide_write :
    (c : FilePath) (r : WorkspacePolicy)
    → IsReadable r c
    → IsInside c r.workspace
    → decide_write c r ≡ ok c
unfolding decide_write
IsReadable→decide_write c r (outside, inside) within = simp (
  All→check_protected "filesystem.write" c r.protected_paths outside,
  IsInside→is_within c r.workspace within,
  Any→any c r.readable_roots inside,
)

-- What a decision on the canonical path and policy is taken for.
abbrev Resolves : Platform → WorkspacePolicy → FilePath → FilePath → WorkspacePolicy → Type 0
Resolves platform policy path c resolved =
    (canonicalize_for_policy platform path ≡ ok c)
    × (canonical_policy platform policy ≡ ok resolved)

module _ (platform : Platform) (policy : WorkspacePolicy) (path c : FilePath) where
  -- `assertReadAllowed` returns a path exactly when that is the canonical form of its argument, and
  -- in the canonical policy some readable root holds it and no protected path does.
  pub assert_read_allowed_iff : (assert_read_allowed platform policy path ≡ ok c) ↔ (
      (resolved : WorkspacePolicy) × Resolves platform policy path c resolved
      × IsReadable resolved c)
  unfolding assert_read_allowed
  assert_read_allowed_iff = (
    λ h.
        let (asked, found, h') = >>=-eq-ok (canonicalize_for_policy platform path) _ h in
        let (r, made, h'') = >>=-eq-ok (canonical_policy platform policy) _ h' in
        let (same, readable) = decide_read→IsReadable asked c r h'' in
        (r, (rw (sym same) found, made), rw (sym same) readable),
    λ (r, (found, made), readable). simp (found, made, IsReadable→decide_read c r readable),
  )

  -- `assertWriteAllowed` returns a path exactly when that is the canonical form of its argument, and
  -- in the canonical policy the workspace and some readable root hold it and no protected path does.
  pub assert_write_allowed_iff : (assert_write_allowed platform policy path ≡ ok c) ↔ (
      (resolved : WorkspacePolicy) × Resolves platform policy path c resolved
      × IsReadable resolved c
      × IsInside c resolved.workspace)
  unfolding assert_write_allowed
  assert_write_allowed_iff = (
    λ h.
        let (asked, found, h') = >>=-eq-ok (canonicalize_for_policy platform path) _ h in
        let (r, made, h'') = >>=-eq-ok (canonical_policy platform policy) _ h' in
        let (same, readable, within) = decide_write→IsReadable asked c r h'' in
        (r, (rw (sym same) found, made), rw (sym same) readable, rw (sym same) within),
    λ (r, (found, made), readable, within).
        simp (found, made, IsReadable→decide_write c r readable within),
  )

  -- A path that may be written may be read, and both assertions return the same path for it.
  pub assert_write_allowed→assert_read_allowed :
      assert_write_allowed platform policy path ≡ ok c
      → assert_read_allowed platform policy path ≡ ok c
  assert_write_allowed→assert_read_allowed h =
      let (r, resolves, readable, _) = assert_write_allowed_iff.0 h in
      assert_read_allowed_iff.1 (r, resolves, readable)

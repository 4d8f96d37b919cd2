-- ===== src/Kernel/PathPolicy/Examples.antt =====
-- The file policy at a small file system: `/w` is the workspace, with a link that leaves it.
use axl_raja.Prelude.{false, [], ◌∷◌, ◌++◌, ◌≡◌, refl, ◌↔◌, Outcome, ok, err, if◌then◌else◌}
use axl_raja.Kernel.PathPolicy.{
  FilePath, sep, same, Errno, enoent, inside_protected_path, outside_readable_roots, Platform,
  WorkspacePolicy, canonicalize_for_policy, canonical_policy, is_within, assert_read_allowed,
  assert_write_allowed,
}
use axl_raja.Kernel.PathPolicy.Inside.{IsInside}
use axl_raja.Kernel.PathPolicy.Canonical.{
  AreMissing, IsMissingTop, joined, canonicalize_for_policy-below,
  canonicalize_for_policy-IsMissingTop,
}
use axl_raja.Kernel.PathPolicy.Access.{
  IsReadable, assert_read_allowed_iff, assert_write_allowed_iff,
  assert_write_allowed→assert_read_allowed,
}

-- the letters a, s, w and x
abbrev root : FilePath
root = sep ∷ []

abbrev workspace : FilePath
workspace = sep ∷ 119 ∷ []

abbrev secrets : FilePath
secrets = workspace ++ sep ∷ 115 ∷ []

abbrev link : FilePath
link = workspace ++ sep ∷ 97 ∷ []

abbrev missing : FilePath
missing = workspace ++ sep ∷ 120 ∷ []

-- `/w/a` is a link to `/`; `/`, `/w` and `/w/s` are directories.
abbrev real_path : FilePath → Outcome Errno FilePath
real_path path =
    if same path link
    then ok root
    else if same path root
    then ok root
    else if same path workspace
    then ok workspace
    else if same path secrets
    then ok secrets
    else err enoent

-- The parent of a path with two letters at most.
abbrev parent : FilePath → FilePath
parent (s ∷ c ∷ t ∷ rest) = s ∷ c ∷ []
parent (s ∷ c ∷ []) = root
parent path = path

abbrev platform : Platform
platform = record { realpath = real_path; resolve = λ path. path; dirname = parent }

abbrev policy : WorkspacePolicy
policy = record {
  workspace = workspace;
  readable_roots = workspace ∷ [];
  protected_paths = secrets ∷ [];
}

-- A link out of the workspace and a protected path are refused; a new file is not.
policy_tests :
    (assert_read_allowed platform policy link
      ≡ err (outside_readable_roots "filesystem.read" root (workspace ∷ [])))
    × (assert_write_allowed platform policy secrets
        ≡ err (inside_protected_path "filesystem.write" secrets secrets))
    × (assert_write_allowed platform policy missing ≡ ok missing)
unfolding assert_read_allowed assert_write_allowed same
policy_tests = (refl, refl, refl)

-- `/` holds itself only, since `//` precedes no other path.
root_test : is_within workspace root ≡ false
unfolding is_within
root_test = refl

missing_written : assert_write_allowed platform policy missing ≡ ok missing
unfolding assert_write_allowed same
missing_written = refl

assert_write_allowed→assert_read_allowed_example :
    assert_read_allowed platform policy missing ≡ ok missing
assert_write_allowed→assert_read_allowed_example =
    assert_write_allowed→assert_read_allowed platform policy missing missing missing_written

assert_read_allowed_iff_example : (assert_read_allowed platform policy missing ≡ ok missing) ↔ (
    (resolved : WorkspacePolicy) × ((canonicalize_for_policy platform missing ≡ ok missing)
      × (canonical_policy platform policy ≡ ok resolved))
    × IsReadable resolved missing)
assert_read_allowed_iff_example = assert_read_allowed_iff platform policy missing missing

assert_write_allowed_iff_example : (assert_write_allowed platform policy missing ≡ ok missing) ↔ (
    (resolved : WorkspacePolicy) × ((canonicalize_for_policy platform missing ≡ ok missing)
      × (canonical_policy platform policy ≡ ok resolved))
    × IsReadable resolved missing
    × IsInside missing resolved.workspace)
assert_write_allowed_iff_example = assert_write_allowed_iff platform policy missing missing

missing-AreMissing : AreMissing platform workspace ((120 ∷ []) ∷ [])
unfolding same
missing-AreMissing = (refl, refl, tt)

workspace_there : real_path workspace ≡ ok workspace
unfolding same
workspace_there = refl

canonicalize_for_policy-below_example :
    canonicalize_for_policy platform missing ≡ ok (workspace ++ joined ((120 ∷ []) ∷ []))
canonicalize_for_policy-below_example =
    canonicalize_for_policy-below platform missing workspace workspace ((120 ∷ []) ∷ []) refl
      workspace_there missing-AreMissing

a-IsMissingTop : IsMissingTop platform (sep ∷ 97 ∷ [])
unfolding same
a-IsMissingTop = (refl, refl, refl)

x-IsMissingTop : IsMissingTop platform (sep ∷ 120 ∷ [])
unfolding same
x-IsMissingTop = (refl, refl, refl)

root_there : real_path root ≡ ok root
unfolding same
root_there = refl

canonicalize_for_policy-IsMissingTop_example :
    canonicalize_for_policy platform (sep ∷ 97 ∷ [])
    ≡ canonicalize_for_policy platform (sep ∷ 120 ∷ [])
canonicalize_for_policy-IsMissingTop_example =
    canonicalize_for_policy-IsMissingTop platform 97 120 [] root_there a-IsMissingTop x-IsMissingTop

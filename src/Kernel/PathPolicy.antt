-- ===== src/Kernel/PathPolicy.antt =====
-- The file policy of the tools (packages/kernel/src/path-policy.ts). A path is the list of its
-- characters' codes. The file system and node:path are a parameter, as they are at the moment of
-- the call: nothing changes the links while a path is made canonical.
pub mod Inside
pub mod Canonical
pub mod Access
mod Examples
use axl_raja.Prelude.{
  ℕ, zero, suc, String, Bool, true, false, not, ◌&&◌, ◌||◌, List, [], ◌∷◌, ◌++◌, Outcome, ok, err,
  ◌>>=◌, if◌then◌else◌, length, drop, any, eqb,
}

abbrev pub FilePath : Type 0
FilePath = List ℕ

-- `sep` of node:path
abbrev pub sep : ℕ
sep = 0x2f

-- the `code` of an error of `realpath`
pub data Errno : Type 0 where
  enoent : Errno
  errno : String → Errno

pub record Platform : Type 0 where
  pub realpath : FilePath → Outcome Errno FilePath
  pub resolve : FilePath → FilePath
  pub dirname : FilePath → FilePath

pub record WorkspacePolicy : Type 0 where
  pub workspace : FilePath
  pub readable_roots : List FilePath
  pub protected_paths : List FilePath

-- What the functions throw: a SandboxViolationError with its capability, a TypeError, or the error
-- of `realpath`. No call throws `unfinished`: it says that the loop's fuel ran out.
pub data PolicyError : Type 0 where
  inside_protected_path : (capability : String) (canonical root : FilePath) → PolicyError
  outside_readable_roots :
      (capability : String) (canonical : FilePath) (roots : List FilePath) → PolicyError
  outside_workspace : (capability : String) (canonical workspace : FilePath) → PolicyError
  no_readable_roots workspace_not_readable : PolicyError
  unresolved : Errno → PolicyError
  unfinished : PolicyError

-- `===` on paths
unfoldable pub same : FilePath → FilePath → Bool
same [] [] = true
same (a ∷ p) (b ∷ q) = eqb a b && same p q
same _ _ = false

-- text.startsWith(prefix)
unfoldable pub starts_with : (prefix text : FilePath) → Bool
starts_with [] text = true
starts_with (a ∷ prefix) [] = false
starts_with (a ∷ prefix) (b ∷ text) = eqb a b && starts_with prefix text

unfoldable pub is_within : (candidate root : FilePath) → Bool
unfolding same starts_with
is_within candidate root = same candidate root || starts_with (root ++ sep ∷ []) candidate

-- one round of the loop of `canonicalizeForPolicy`, for what `realpath` answers; `rest` is what the
-- rounds after it return, from the parent on
abbrev pub round :
    (existing remainder parent : FilePath)
    → Outcome PolicyError FilePath
    → Outcome Errno FilePath
    → Outcome PolicyError FilePath
round existing remainder parent rest (ok real) = ok (real ++ remainder)
round existing remainder parent rest (err (errno code)) = err (unresolved (errno code))
round existing remainder parent rest (err enoent) =
    if same parent existing then ok (existing ++ remainder) else rest

module _ (platform : Platform) where
  unfoldable pub ascend : ℕ → (existing remainder : FilePath) → Outcome PolicyError FilePath
  unfolding same
  ascend zero existing remainder = err unfinished
  ascend (suc fuel) existing remainder =
      let parent = platform.dirname existing in
      let rest = ascend fuel parent ((sep ∷ drop (suc (length parent)) existing) ++ remainder) in
      round existing remainder parent rest (platform.realpath existing)

  -- The path gets shorter in each round.
  unfoldable pub canonicalize_for_policy : FilePath → Outcome PolicyError FilePath
  unfolding ascend
  canonicalize_for_policy path =
      let existing = platform.resolve path in ascend (suc (length existing)) existing []

  unfoldable pub canonicalize_all : List FilePath → Outcome PolicyError (List FilePath)
  unfolding canonicalize_for_policy
  canonicalize_all [] = ok []
  canonicalize_all (path ∷ paths) = do
    canonical ← canonicalize_for_policy path
    rest ← canonicalize_all paths
    ok (canonical ∷ rest)

  -- Promise.all rejects with one of the errors: here the first in order.
  unfoldable pub canonical_policy : WorkspacePolicy → Outcome PolicyError WorkspacePolicy
  unfolding canonicalize_for_policy canonicalize_all
  canonical_policy policy = elim policy.readable_roots [
    | [] ↦ err no_readable_roots
    | first ∷ others ↦ do
      workspace ← canonicalize_for_policy policy.workspace
      readable_roots ← canonicalize_all (first ∷ others)
      protected_paths ← canonicalize_all policy.protected_paths
      ok (record {
        workspace = workspace;
        readable_roots = readable_roots;
        protected_paths = protected_paths;
      })
  ]

-- the loop over the protected paths
unfoldable pub check_protected :
    (capability : String) (canonical : FilePath) → List FilePath → Outcome PolicyError (Unit {0})
unfolding is_within
check_protected capability canonical [] = ok tt
check_protected capability canonical (path ∷ paths) =
    if is_within canonical path
    then err (inside_protected_path capability canonical path)
    else check_protected capability canonical paths

-- what `assertReadAllowed` does with the canonical path and policy
unfoldable pub decide_read : FilePath → WorkspacePolicy → Outcome PolicyError FilePath
unfolding check_protected is_within
decide_read canonical resolved = do
  _ ← check_protected "filesystem.read" canonical resolved.protected_paths
  if any (is_within canonical) resolved.readable_roots
      then ok canonical
      else err (outside_readable_roots "filesystem.read" canonical resolved.readable_roots)

unfoldable pub decide_write : FilePath → WorkspacePolicy → Outcome PolicyError FilePath
unfolding check_protected is_within
decide_write canonical resolved = do
  _ ← check_protected "filesystem.write" canonical resolved.protected_paths
  if not (is_within canonical resolved.workspace)
      then err (outside_workspace "filesystem.write" canonical resolved.workspace)
      else if any (is_within canonical) resolved.readable_roots
      then ok canonical
      else err workspace_not_readable

module _ (platform : Platform) where
  unfoldable pub assert_read_allowed : WorkspacePolicy → FilePath → Outcome PolicyError FilePath
  unfolding canonicalize_for_policy canonical_policy decide_read
  assert_read_allowed policy path = do
    canonical ← canonicalize_for_policy platform path
    resolved ← canonical_policy platform policy
    decide_read canonical resolved

  unfoldable pub assert_write_allowed : WorkspacePolicy → FilePath → Outcome PolicyError FilePath
  unfolding canonicalize_for_policy canonical_policy decide_write
  assert_write_allowed policy path = do
    canonical ← canonicalize_for_policy platform path
    resolved ← canonical_policy platform policy
    decide_write canonical resolved

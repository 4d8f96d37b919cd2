-- ===== src/Kernel/Replay/Branches.antt =====
-- The check of every branch of a tree.
use axl_raja.Prelude.{
  String, Bool, true, some, List, [], ◌∷◌, ◌≡◌, refl, ◌↔◌, Outcome, ok, err, contains, keep, arith,
  All, Bool-cases, inl, inr, eq_iff, Outcome-cases,
}
use axl_raja.Protocol.Event.{CanonicalEvent}
use axl_raja.Kernel.SessionTree.{SessionTree, from_events, leaves, lineage}
use axl_raja.Kernel.SessionTree.Log.{ids, IsLineage, is_tip}
use axl_raja.Kernel.SessionTree.Views.{events-and-leaves_of_log}
use axl_raja.Kernel.SessionTree.Lineage.{lineage_total}
use axl_raja.Kernel.Replay.{
  ReplayError, verify_branch, verify_lineage, verify_leaves, verify_tool_call_integrity,
}
use axl_raja.Kernel.Replay.Pairing.{IsPaired, verify_branch_iff}

-- The branch that ends at `id` is paired.
pub record IsPairedBranch (log : List CanonicalEvent) (t : SessionTree) (id : String) : Type 0 where
  pub path : List CanonicalEvent
  pub returned : lineage id t ≡ some (ok path)
  pub branch : IsLineage log id path
  pub paired : IsPaired [] path

contains-keep :
    (p : CanonicalEvent → Bool) (log : List CanonicalEvent) (id : String)
    → contains id (ids (keep p log)) ≡ true
    → contains id (ids log) ≡ true
contains-keep p [] id h = cc
contains-keep p (e ∷ log) id h = ground (arith, contains-keep p log id)

-- All leaves are ids of the log.
abbrev Known : List CanonicalEvent → List String → Type 0
Known log = All (λ id. contains id (ids log) ≡ true)

Known-cons_event :
    (e : CanonicalEvent) (log : List CanonicalEvent) (l : List String)
    → Known log l
    → Known (e ∷ log) l
Known-cons_event e log [] h = tt
Known-cons_event e log (id ∷ l) (k, h) = (ground arith, Known-cons_event e log l h)

Known-keep : (p : CanonicalEvent → Bool) (log : List CanonicalEvent) → Known log (ids (keep p log))
Known-keep p [] = tt
Known-keep p (e ∷ log) = elim (Bool-cases (p e)) [
  | inl kept ↦
      rw kept (ground (arith, eq_iff e.id e.id), Known-cons_event e log _ (Known-keep p log))
  | inr dropped ↦ rw dropped (Known-cons_event e log _ (Known-keep p log))
]

module _ (session_id : String) (log : List CanonicalEvent) (t : SessionTree)
    (accepted : from_events session_id log ≡ ok t) where
  verify_leaves_iff :
      (l : List String)
      → Known log l
      → (verify_leaves l t ≡ some (ok tt)) ↔ All (IsPairedBranch log t) l
  unfolding verify_leaves verify_lineage
  verify_leaves_iff [] h = (λ _. tt, λ _. refl)
  verify_leaves_iff (id ∷ l) (known, h) =
      let (path, returned, branch) = lineage_total session_id log t id accepted known in
      let (sound, total) = verify_leaves_iff l h in
      let (paired, passes) = verify_branch_iff path in
      (
        λ e. (
          record {
            path = path;
            returned = returned;
            branch = branch;
            paired = paired (ground (arith, returned));
          },
          sound (ground (arith, returned)),
        ),
        λ (first, rest).
            ground
              (arith, first.returned, (verify_branch_iff first.path).1 first.paired, total rest),
      )

-- On the tree of an accepted log the check of tool calls passes exactly where the branch of every leaf is paired: each call has a new id on its branch, and each result answers one
-- earlier call of its branch, by id and tool name, that no earlier result of the branch answered.
pub verify_tool_call_integrity_iff :
    (session_id : String) (log : List CanonicalEvent) (t : SessionTree)
    → from_events session_id log ≡ ok t
    → (verify_tool_call_integrity t ≡ some (ok tt)) ↔ All (IsPairedBranch log t) (leaves t)
unfolding verify_tool_call_integrity
verify_tool_call_integrity_iff session_id log t h =
    verify_leaves_iff session_id log t h (leaves t)
      (rw ((events-and-leaves_of_log session_id log t h).1) (Known-keep (λ e. is_tip log e.id) log))

verify_leaves_ends :
    (session_id : String) (log : List CanonicalEvent) (t : SessionTree) (l : List String)
    → from_events session_id log ≡ ok t
    → Known log l
    → (result : Outcome ReplayError (Unit {0})) × (verify_leaves l t ≡ some result)
unfolding verify_leaves verify_lineage
verify_leaves_ends session_id log t [] accepted h = (ok tt, refl)
verify_leaves_ends session_id log t (id ∷ l) accepted (known, h) =
    let (path, returned, branch) = lineage_total session_id log t id accepted known in
    let (later, ends) = verify_leaves_ends session_id log t l accepted h in
    elim (Outcome-cases (verify_branch path)) [
      | inl (_, passed) ↦ (later, ground (arith, returned, passed, ends))
      | inr (e, thrown) ↦ (err e, ground (arith, returned, thrown))
    ]

-- On the tree of an accepted log the check of tool calls always ends, with or without an error.
verify_tool_call_integrity_ends :
    (session_id : String) (log : List CanonicalEvent) (t : SessionTree)
    → from_events session_id log ≡ ok t
    → (result : Outcome ReplayError (Unit {0})) × (verify_tool_call_integrity t ≡ some result)
unfolding verify_tool_call_integrity
verify_tool_call_integrity_ends session_id log t h =
    verify_leaves_ends session_id log t (leaves t) h
      (rw ((events-and-leaves_of_log session_id log t h).1) (Known-keep (λ e. is_tip log e.id) log))

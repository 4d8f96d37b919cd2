-- ===== src/Kernel/Compaction/Groups.antt =====
-- What a compaction hides of the message groups: whole groups, at the beginning.
use axl_raja.Prelude.{
  ◌≤◌, ◌<◌, String, Bool, true, false, not, ◌||◌, some, List, [], ◌∷◌, ◌++◌, ◌≡◌, refl, sym, ap,
  ◌∙◌, append-nil, append_assoc, inl, inr, ltb, Outcome, ok, >>=-eq-ok, length, All, arith,
  Bool-cases, Option-cases,
}
use axl_raja.Protocol.Event.{CanonicalEvent}
use axl_raja.Kernel.Compaction.{
  ContextGroup, CompactionError, Compacted, last_compaction, replacement_closure,
}
use axl_raja.Kernel.Compaction.Projection.{
  Projection, project_events, hidden_count, is_empty, select_groups, ProjectedContext, check_found,
  project_hidden, project_from, project_closed, project_context, empty,
}

-- Every event of the group is hidden, and it has one.
abbrev pub IsHidden : List String → ContextGroup → Type 0
IsHidden hidden group =
    (hidden_count hidden group.event_ids ≡ length group.event_ids)
    × (0 < hidden_count hidden group.event_ids)

-- No event of the group is hidden.
abbrev pub IsShown : List String → ContextGroup → Type 0
IsShown hidden group = hidden_count hidden group.event_ids ≡ 0

hidden_count-le : (hidden ids : List String) → hidden_count hidden ids ≤ length ids
hidden_count-le hidden [] = omega arith
hidden_count-le hidden (id ∷ ids) = ground (arith, hidden_count-le hidden ids)

module _ (id : String) (hidden : List String) where
  -- Behind the first group that is shown all groups are.
  select-IsShown :
      (groups : List ContextGroup) (first : ContextGroup) (visible result : List ContextGroup)
      (found found' : Bool)
      → select_groups id hidden groups (first ∷ visible) found ≡ ok (result, found')
      → (result ≡ (first ∷ visible) ++ groups) × (found' ≡ found) × All (IsShown hidden) groups
  unfolding select_groups
  select-IsShown [] first visible result found found' h = (cc (h, append-nil visible), cc h, tt)
  select-IsShown (group ∷ groups) first visible result found found' h =
      elim (Bool-cases (ltb 0 (hidden_count hidden group.event_ids))) [
        | inl e ↦ absurd (ground (arith, hidden_count-le hidden group.event_ids))
        | inr e ↦
            let (all, same, shown) =
              select-IsShown groups first (visible ++ group ∷ []) result found found'
                (ground arith) in
            (
              all ∙ ap (λ l. first ∷ l) (append_assoc visible (group ∷ []) groups),
              same,
              (ground arith, shown),
            )
      ]

  select-IsHidden :
      (groups result : List ContextGroup) (found found' : Bool)
      → select_groups id hidden groups [] found ≡ ok (result, found')
      → (before : List ContextGroup) × (groups ≡ before ++ result)
        × All (IsHidden hidden) before
        × All (IsShown hidden) result
        × (found' ≡ (found || not (is_empty before)))
  unfolding select_groups
  select-IsHidden [] result found found' h =
      let e : result ≡ [] = cc h in ([], sym e, tt, rw e tt, ground arith)
  select-IsHidden (group ∷ groups) result found found' h =
      elim (Bool-cases (ltb 0 (hidden_count hidden group.event_ids))) [
        | inl e ↦
            let (before, split, gone, shown, same) =
              select-IsHidden groups result true found'
                (ground (arith, hidden_count-le hidden group.event_ids)) in
            (
              group ∷ before,
              ap (λ l. group ∷ l) split,
              (
                (
                  ground (arith, hidden_count-le hidden group.event_ids),
                  ground (arith, hidden_count-le hidden group.event_ids),
                ),
                gone,
              ),
              shown,
              ground arith,
            )
        | inr e ↦
            let (all, same, shown) =
              select-IsShown groups group [] result found found' (ground arith) in
            ([], sym all, tt, rw all (ground arith, shown), ground arith)
      ]

-- The groups before the visible ones, and what hides them.
abbrev pub IsReplaced : List CanonicalEvent → Compacted → List ContextGroup → Type 0
IsReplaced events compaction visible =
    (hidden : List String) × (projection : Projection) × (group : ContextGroup) × (before : List
      ContextGroup)
    × (replacement_closure events compaction ≡ some (ok hidden))
    × (project_events events empty ≡ ok projection)
    × (projection.groups ≡ (group ∷ before) ++ visible)
    × All (IsHidden hidden) (group ∷ before)
    × All (IsShown hidden) visible

check_found→ :
    (compaction : Compacted) (visible : List ContextGroup) (found : Bool)
    (context : ProjectedContext)
    → check_found compaction (visible, found) ≡ ok context
    → (found ≡ true) × (context.groups ≡ visible) × (context.previous_compaction ≡ some compaction)
check_found→ compaction visible true context h = (refl, cc h, cc h)
check_found→ compaction visible false context h = cc

project_context-eq :
    (events : List CanonicalEvent) (compaction : Compacted)
    → last_compaction events ≡ some compaction
    → project_context events
      ≡ project_closed events compaction (replacement_closure events compaction)
unfolding project_context
project_context-eq events compaction last = ap (project_from events) last

project_closed→ :
    (events : List CanonicalEvent) (compaction : Compacted)
    (closure : Outcome CompactionError (List String)) (context : ProjectedContext)
    → project_closed events compaction (some closure) ≡ some (ok context)
    → project_hidden events compaction closure ≡ ok context
project_closed→ events compaction closure context h = cc h

IsReplaced-split :
    (events : List CanonicalEvent) (compaction : Compacted) (hidden : List String)
    (projection : Projection) (before visible : List ContextGroup)
    → replacement_closure events compaction ≡ some (ok hidden)
    → project_events events empty ≡ ok projection
    → projection.groups ≡ before ++ visible
    → All (IsHidden hidden) before
    → All (IsShown hidden) visible
    → not (is_empty before) ≡ true
    → IsReplaced events compaction visible
IsReplaced-split events compaction hidden projection [] visible c p split gone shown nonempty = cc
IsReplaced-split events compaction hidden projection (group ∷ before) visible c p split gone shown
      nonempty =
    (hidden, projection, group, before, c, p, split, gone, shown)

project_hidden-IsReplaced :
    (events : List CanonicalEvent) (compaction : Compacted)
    (closure : Outcome CompactionError (List String)) (context : ProjectedContext)
    → replacement_closure events compaction ≡ some closure
    → project_hidden events compaction closure ≡ ok context
    → IsReplaced events compaction context.groups × (context.previous_compaction ≡ some compaction)
project_hidden-IsReplaced events compaction closure context closes h =
    let (hidden, closed, h1) = >>=-eq-ok closure _ h in
    let (projection, projected, h2) = >>=-eq-ok (project_events events empty) _ h1 in
    let ((visible, found), selected, h3) =
      >>=-eq-ok (select_groups compaction.id hidden projection.groups [] false) _ h2 in
    let (there, same, previous) = check_found→ compaction visible found context h3 in
    let (before, split, gone, shown, some_gone) =
      select-IsHidden compaction.id hidden projection.groups visible false found selected in
    (
      rw same (
          IsReplaced-split events compaction hidden projection before visible
            (closes ∙ ap (λ o. some o) closed) projected split gone shown (ground arith)),
      previous,
    )

-- Where the branch has a compaction and `projectContext` returns, the visible groups are the end of
-- the branch's groups. The groups before them are one at least; the last compaction and those that
-- it replaces hide every event of these groups, and no event of a visible group.
pub project_context-IsReplaced :
    (events : List CanonicalEvent) (compaction : Compacted) (context : ProjectedContext)
    → last_compaction events ≡ some compaction
    → project_context events ≡ some (ok context)
    → IsReplaced events compaction context.groups × (context.previous_compaction ≡ some compaction)
project_context-IsReplaced events compaction context last h =
    elim (Option-cases (replacement_closure events compaction)) [
      | inl e ↦ absurd (cc (e, project_context-eq events compaction last, h))
      | inr (closure, e) ↦ project_hidden-IsReplaced events compaction closure context e (
          project_closed→ events compaction closure context (
            sym (ap (project_closed events compaction) e)
            ∙ sym (project_context-eq events compaction last)
            ∙ h))
    ]

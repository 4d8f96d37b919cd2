-- ===== src/Kernel/AgentSession/Overlap.antt =====
-- Two appends of which the second begins before the log has stored the event of the first, as
-- `recordQueueEvent` may during a turn.
use axl_raja.Prelude.{
  suc, String, true, false, Option, none, some, List, [], ◌∷◌, ◌++◌, ◌≡◌, refl, sym, ap, ◌∙◌, ◌==◌,
  eq_iff, ok, arith, contains, any, All, is_some_of, append_assoc, append-nil, any-append, eq_refl,
}
use axl_raja.Protocol.Event.{Payload, CanonicalEvent}
use axl_raja.Kernel.SessionTree.{SessionTree, from_events}
use axl_raja.Kernel.SessionTree.Log.{
  ids, find, is_tip, children_in, IsLog, IsPlaced, IsChain, last_id, IsLineage,
}
use axl_raja.Kernel.SessionTree.Table.{IsSound, IsSound-snoc}
use axl_raja.Kernel.SessionTree.Build.{from_events_iff, IsSound-nil}
use axl_raja.Kernel.AgentSession.{World, AgentSession, new_event, accept_stored}
use axl_raja.Kernel.AgentSession.Recorded.{IsHonest}

-- The first append computes its event, then the second; the log stores them in this order.
unfoldable pub append_overlapping :
    World → Option String → Payload → Option String → Payload → AgentSession → AgentSession
append_overlapping w operation_id payload operation_id' payload' s =
    let first = new_event w operation_id payload s in
    let s₁ = record s { calls = suc s.calls } in
    let second = new_event w operation_id' payload' s₁ in
    let s₂ = record s₁ { calls = suc s₁.calls } in
    (accept_stored (w.store s₁.calls second) (accept_stored (w.store s.calls first) s₂).1).1

IsSound-append :
    (session_id : String) (before events : List CanonicalEvent)
    → IsSound before
    → IsLog session_id before events
    → IsSound (before ++ events)
IsSound-append session_id before [] sound log = rw append-nil sound
IsSound-append session_id before (e ∷ events) sound (_, new, placed, log) =
    rw (sym (append_assoc before (e ∷ []) events)) (
      IsSound-append session_id (before ++ e ∷ []) events (IsSound-snoc before e sound new placed)
        log)

any-children :
    (log : List CanonicalEvent) (id : String)
    → children_in log id ≡ []
    → any (λ e. is_some_of id e.parent_id) log ≡ false
any-children [] id h = refl
any-children (e ∷ log) id h = ground (arith, any-children log id)

any-find :
    (log : List CanonicalEvent) (x : CanonicalEvent) (id k : String)
    → find id log ≡ some x
    → is_some_of k x.parent_id ≡ true
    → any (λ e. is_some_of k e.parent_id) log ≡ true
any-find [] x id k h parent = absurd (ground arith)
any-find (e ∷ log) x id k h parent = ground (arith, any-find log x id k)

module _ (log : List CanonicalEvent) (k id : String) (tip : is_tip log k ≡ true)
    (other : (k == id) ≡ false) where
  -- A path never goes through an event that has no children, except at its end.
  omits-tip :
      (parent : Option String) (path : List CanonicalEvent)
      → IsChain parent path
      → last_id parent path ≡ some id
      → All (λ e. find e.id log ≡ some e) path
      → contains k (ids path) ≡ false
  omits-tip parent [] chain last recorded = refl
  omits-tip parent (x ∷ []) chain last recorded =
      ground (arith, eq_iff k id, eq_iff x.id k, eq_iff k x.id)
  omits-tip parent (x ∷ y ∷ path) (p, (q, chain)) last (r, (found, recorded)) =
      let later = omits-tip (some x.id) (y ∷ path) (q, chain) last (found, recorded) in
      ground (arith, later, any-find log y y.id k found, eq_iff k x.id, eq_iff x.id k, eq_refl k)

tip-unused :
    (old : List CanonicalEvent) (tip : Option String) (id : String)
    → IsPlaced old tip
    → contains id (ids old) ≡ false
    → is_some_of id tip ≡ false
tip-unused old none id placed new = refl
tip-unused old (some tip) id placed new = ground (arith, eq_iff tip id)

-- Two appends overlap, from the end of an accepted log with distinct new ids, and the log stores both
-- events. Both have the old tip as their parent, so they are no chain, the session goes on from the
-- second, and the branch on which it goes on never contains the first.
pub append_overlapping_forks :
    (w : World) (old : List CanonicalEvent) (t : SessionTree) (s : AgentSession)
    (operation_id operation_id' : Option String) (payload payload' : Payload)
    (first second : CanonicalEvent)
    → IsHonest w old
    → from_events w.session_id old ≡ ok t
    → IsPlaced old s.tip
    → w.store s.calls (new_event w operation_id payload s) ≡ some first
    → w.store (suc s.calls) (new_event w operation_id' payload' (record s { calls = suc s.calls }))
      ≡ some second
    → let s' = append_overlapping w operation_id payload operation_id' payload' s in
      (s'.observed ≡ s.observed ++ first ∷ second ∷ [])
      × (s'.tip ≡ some second.id)
      × (first.parent_id ≡ s.tip)
      × (second.parent_id ≡ s.tip)
      × ((path : List CanonicalEvent)
          → IsLineage (old ++ first ∷ second ∷ []) second.id path
          → contains first.id (ids path) ≡ false)
unfolding append_overlapping
append_overlapping_forks w old t s op op' payload payload' first second honest accepted placed
      stored stored' =
    let both = record s { calls = suc (suc s.calls) } in
    let done : append_overlapping w op payload op' payload' s
        ≡ (accept_stored (some second) (accept_stored (some first) both).1).1 =
      λ i. (accept_stored (stored' i) (accept_stored (stored i) both).1).1 in
    let parent = honest.stored_parent s.calls _ first stored in
    let parent' = honest.stored_parent (suc s.calls) _ second stored' in
    let id = honest.stored_id s.calls _ first stored in
    let id' = honest.stored_id (suc s.calls) _ second stored' in
    let distinct = honest.unlike s.calls (suc s.calls) (omega arith) in
    let new = honest.unused s.calls in
    let sound =
      IsSound-append w.session_id [] old IsSound-nil
        ((from_events_iff w.session_id old t).0 accepted).0 in
    let quiet = any-children old first.id (sound.no_orphan first.id (rw id new)) in
    let elsewhere = tip-unused old s.tip first.id placed (rw id new) in
    let tip : is_tip (old ++ first ∷ second ∷ []) first.id ≡ true = ground (
      arith,
      any-append (λ e. is_some_of first.id e.parent_id) old (first ∷ second ∷ []),
      quiet,
      elsewhere,
      parent,
      parent',
    ) in
    (
      ap (λ o. o.observed) done ∙ append_assoc s.observed (first ∷ []) (second ∷ []),
      ap (λ o. o.tip) done,
      parent,
      parent',
      λ path lineage.
          omits-tip (old ++ first ∷ second ∷ []) first.id second.id tip (rw (id, id') distinct) none
            path lineage.linked lineage.ends lineage.recorded,
    )

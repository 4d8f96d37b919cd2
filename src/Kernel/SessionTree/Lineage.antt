-- ===== src/Kernel/SessionTree/Lineage.antt =====
-- `lineage` ends, on every tree that `fromEvents` built, and returns the path from the root.
use axl_raja.Prelude.{
  ℕ, zero, suc, ◌+◌, ◌<◌, String, true, false, Option, none, some, List, [], ◌∷◌, ◌++◌, map, ◌≡◌,
  refl, ap, ◌∙◌, ◌==◌, ok, contains, length, length-append, append_assoc, append-nil, sym,
  All-append, if◌then◌else◌, arith, Bool-cases, Option-cases, inl, inr,
}
use mathlib.Core.Path.{subst}
use axl_raja.Protocol.Event.{CanonicalEvent}
use axl_raja.Kernel.SessionTree.{SessionTree, size, climb, lineage, from_events}
use axl_raja.Kernel.SessionTree.Log.{ids, IsLog, IsPlaced, find, IsChain, last_id, IsLineage}
use axl_raja.Kernel.SessionTree.Table.{entry, table, built, contains-snoc}
use axl_raja.Kernel.SessionTree.Build.{from_events_iff}
use axl_raja.Kernel.SessionTree.Views.{find-contains, find_node-built}

-- The number of events before the one with the id.
index_of : String → List CanonicalEvent → ℕ
index_of id [] = 0
index_of id (e ∷ l) = if e.id == id then 0 else suc (index_of id l)

index_of-append_lt :
    (id : String) (l m : List CanonicalEvent)
    → contains id (ids l) ≡ true
    → index_of id (l ++ m) < length l
unfolding index_of
index_of-append_lt id [] m h = cc
index_of-append_lt id (e ∷ l) m h = ground (arith, index_of-append_lt id l m)

index_of-lt :
    (id : String) (l : List CanonicalEvent) → contains id (ids l) ≡ true → index_of id l < length l
unfolding index_of
index_of-lt id [] h = cc
index_of-lt id (e ∷ l) h = ground (arith, index_of-lt id l)

contains-append_left :
    (id : String) (l m : List CanonicalEvent)
    → contains id (ids l) ≡ true
    → contains id (ids (l ++ m)) ≡ true
contains-append_left id [] m h = cc
contains-append_left id (e ∷ l) m h = ground (arith, contains-append_left id l m)

placed_parent :
    (before : List CanonicalEvent) (parent : Option String) (p : String)
    → IsPlaced before parent
    → parent ≡ some p
    → contains p (ids before) ≡ true
placed_parent before none p placed h = cc
placed_parent before (some q) p placed h = ground arith

-- In a log the parent of an event stands before it.
parent_first :
    (session_id : String) (before events : List CanonicalEvent) (id p : String) (e : CanonicalEvent)
    → IsLog session_id before events
    → contains id (ids before) ≡ false
    → find id events ≡ some e
    → e.parent_id ≡ some p
    → (contains p (ids (before ++ events)) ≡ true)
      × (index_of p (before ++ events) < length before + index_of id events)
unfolding index_of
parent_first session_id before [] id p e log new found h = cc
parent_first session_id before (x ∷ events) id p e (same, fresh, placed, rest) new found h =
    elim (Bool-cases (x.id == id)) [
      | inl this ↦
          let there : contains p (ids before) ≡ true =
            placed_parent before x.parent_id p placed (ground arith) in
          (
            contains-append_left p before (x ∷ events) there,
            rw this (omega (arith, index_of-append_lt p before (x ∷ events) there)),
          )
      | inr later ↦
          let up =
            parent_first session_id (before ++ x ∷ []) events id p e rest
              (rw contains-snoc (ground arith)) (ground arith) h in
          (
            rw append_assoc at (up.0),
            rw later (omega (arith, rw (append_assoc, length-append) at (up.1))),
          )
    ]

last_id-snoc :
    (before : Option String) (path : List CanonicalEvent) (e : CanonicalEvent)
    → last_id before (path ++ e ∷ []) ≡ some e.id
last_id-snoc before [] e = refl
last_id-snoc before (x ∷ path) e = last_id-snoc (some x.id) path e

IsChain-snoc :
    (before : Option String) (path : List CanonicalEvent) (e : CanonicalEvent)
    → IsChain before path
    → e.parent_id ≡ last_id before path
    → IsChain before (path ++ e ∷ [])
IsChain-snoc before [] e chain h = (h, tt)
IsChain-snoc before (x ∷ path) e (here, chain) h = (here, IsChain-snoc (some x.id) path e chain h)

IsLineage-snoc :
    (log path : List CanonicalEvent) (p : String) (e : CanonicalEvent)
    → IsLineage log p path
    → e.parent_id ≡ some p
    → find e.id log ≡ some e
    → IsLineage log e.id (path ++ e ∷ [])
IsLineage-snoc log path p e h parent found = record {
  linked = IsChain-snoc none path e h.linked (cc (parent, h.ends));
  ends = last_id-snoc none path e;
  recorded = All-append (λ x. find x.id log ≡ some x) path (e ∷ []) h.recorded (found, tt);
}

-- What the loop adds in front of the path that it has.
record IsClimb (session_id : String) (log : List CanonicalEvent) (fuel : ℕ) (id : String)
    (path above : List CanonicalEvent) : Type 0 where
  returns : climb fuel (some id) path (built session_id log) ≡ some (ok (above ++ path))
  lineage : IsLineage log id above

climb_step :
    (session_id : String) (log : List CanonicalEvent) (fuel : ℕ) (id : String)
    (path : List CanonicalEvent) (e : CanonicalEvent)
    → find id log ≡ some e
    → climb (suc fuel) (some id) path (built session_id log)
      ≡ climb fuel e.parent_id (e ∷ path) (built session_id log)
unfolding climb
climb_step session_id log fuel id path e found = ground (arith, find_node-built session_id log id)

climb_done :
    (session_id : String) (log : List CanonicalEvent) (fuel : ℕ) (path : List CanonicalEvent)
    → climb fuel none path (built session_id log) ≡ some (ok path)
unfolding climb
climb_done session_id log zero path = refl
climb_done session_id log (suc fuel) path = refl

IsClimb-root :
    (session_id : String) (log : List CanonicalEvent) (fuel : ℕ) (id : String)
    (path : List CanonicalEvent) (e : CanonicalEvent)
    → find id log ≡ some e
    → e.id ≡ id
    → e.parent_id ≡ none
    → IsClimb session_id log (suc fuel) id path (e ∷ [])
IsClimb-root session_id log fuel id path e found named root = record {
  returns =
      climb_step session_id log fuel id path e found
      ∙ ap (λ parent. climb fuel parent (e ∷ path) (built session_id log)) root
      ∙ climb_done session_id log fuel (e ∷ path);
  lineage = record {
    linked = (root, tt);
    ends = ap some named;
    recorded = (ap (λ k. find k log) named ∙ found, tt);
  };
}

IsClimb-up :
    (session_id : String) (log : List CanonicalEvent) (fuel : ℕ) (id p : String)
    (path above : List CanonicalEvent) (e : CanonicalEvent)
    → find id log ≡ some e
    → e.id ≡ id
    → e.parent_id ≡ some p
    → IsClimb session_id log fuel p (e ∷ path) above
    → IsClimb session_id log (suc fuel) id path (above ++ e ∷ [])
IsClimb-up session_id log fuel id p path above e found named parent up = record {
  returns =
      climb_step session_id log fuel id path e found
      ∙ ap (λ q. climb fuel q (e ∷ path) (built session_id log)) parent
      ∙ up.returns
      ∙ ap (λ l. some (ok l)) (sym (append_assoc above (e ∷ []) path));
  lineage =
      subst (λ k. IsLineage log k (above ++ e ∷ [])) named
        (IsLineage-snoc log above p e up.lineage parent (ap (λ k. find k log) named ∙ found));
}

module _ (session_id : String) (log : List CanonicalEvent) (ordered : IsLog session_id [] log) where
  IsClimb-total :
      (fuel : ℕ) (id : String) (path : List CanonicalEvent)
      → contains id (ids log) ≡ true
      → index_of id log < fuel
      → (above : List CanonicalEvent) × IsClimb session_id log fuel id path above
  IsClimb-total zero id path there h = absurd (omega arith)
  IsClimb-total (suc fuel) id path there h =
      let (e, found, named) = find-contains log id there in
      elim (Option-cases e.parent_id) [
        | inl root ↦ (e ∷ [], IsClimb-root session_id log fuel id path e found named root)
        | inr (p, parent) ↦
            let (known, earlier) =
              parent_first session_id [] log id p e ordered refl found parent in
            let (above, up) = IsClimb-total fuel p (e ∷ path) known (omega arith) in
            (
              above ++ e ∷ [],
              IsClimb-up session_id log fuel id p path above e found named parent up,
            )
      ]

length-map {ℓ κ} : {A : Type ℓ} {B : Type κ} (f : A → B) (l : List A) → length (map f l) ≡ length l
length-map f [] = refl
length-map f (x ∷ l) = ap suc (length-map f l)

-- On the tree of an accepted log, for every id of the log, `lineage` ends within as many rounds as
-- there are events and returns a path of recorded events that begins at a root, goes from each
-- event to one that names it as its parent, and ends at the id.
pub lineage_total :
    (session_id : String) (log : List CanonicalEvent) (t : SessionTree) (id : String)
    → from_events session_id log ≡ ok t
    → contains id (ids log) ≡ true
    → (path : List CanonicalEvent) × (lineage id t ≡ some (ok path)) × IsLineage log id path
unfolding lineage size
lineage_total session_id log t id h there =
    let (ordered, same) = (from_events_iff session_id log t).0 h in
    let (above, up) =
      IsClimb-total session_id log ordered (length (table log)) id [] there
        (omega (arith, index_of-lt id log there, length-map (entry log) log)) in
    (above, rw same (up.returns ∙ ap (λ l. some (ok l)) (append-nil above)), up.lineage)

-- ===== src/Kernel/SessionTree/Table.antt =====
-- The nodes that `fromEvents` builds are the log itself, each event beside its children.
use axl_raja.Prelude.{
  String, true, false, Option, none, some, List, [], ◌∷◌, ◌++◌, map, ◌≡◌, refl, ◌==◌, eq_iff,
  contains, contains-append, append-nil, ◌||◌, is_some_of, if◌then◌else◌, arith,
}
use mathlib.Core.List.{map-append}
use axl_raja.Maps
use axl_raja.Maps.Laws.{set-new}
use axl_raja.Protocol.Event.{CanonicalEvent}
use axl_raja.Kernel.SessionTree.{Node, SessionTree, push_child, add_node}
use axl_raja.Kernel.SessionTree.Log.{ids, IsPlaced, children_in}

abbrev pub entry : List CanonicalEvent → CanonicalEvent → String × Node
entry log e = (e.id, record { event = e; children = children_in log e.id })

abbrev pub table : List CanonicalEvent → List (String × Node)
table log = map (entry log) log

abbrev pub first_id : List CanonicalEvent → Option String
first_id [] = none
first_id (e ∷ events) = some e.id

abbrev pub built : String → List CanonicalEvent → SessionTree
built session_id log = record { session_id = session_id; nodes = table log; root = first_id log }

pub has-table :
    (log events : List CanonicalEvent) (id : String)
    → Maps.has id (map (entry log) events) ≡ contains id (ids events)
unfolding Maps.has
has-table log [] id = refl
has-table log (e ∷ events) id = ground (arith, has-table log events id)

-- The ids of a list differ from each other.
abbrev pub AreDistinct : List CanonicalEvent → Type 0
AreDistinct [] = Unit
AreDistinct (e ∷ events) = (contains e.id (ids events) ≡ false) × AreDistinct events

children_in-snoc :
    (log : List CanonicalEvent) (e : CanonicalEvent) (id : String)
    → children_in (log ++ e ∷ []) id
      ≡ children_in log id ++ (if is_some_of id e.parent_id then e.id ∷ [] else [])
children_in-snoc [] e id = ground arith
children_in-snoc (f ∷ log) e id = ground (arith, children_in-snoc log e id)

-- An event without a parent among `events` changes none of their entries.
entry-snoc_absent :
    (log events : List CanonicalEvent) (e : CanonicalEvent) (p : String)
    → e.parent_id ≡ some p
    → contains p (ids events) ≡ false
    → map (entry log) events ≡ map (entry (log ++ e ∷ [])) events
entry-snoc_absent log [] e p h absent = refl
entry-snoc_absent log (x ∷ events) e p h absent = ground (
  arith,
  children_in-snoc log e x.id,
  entry-snoc_absent log events e p h,
  eq_iff x.id p,
  eq_iff p x.id,
  append-nil (children_in log x.id),
)

pub entry-snoc_root :
    (log events : List CanonicalEvent) (e : CanonicalEvent)
    → e.parent_id ≡ none
    → map (entry log) events ≡ map (entry (log ++ e ∷ [])) events
entry-snoc_root log [] e h = refl
entry-snoc_root log (x ∷ events) e h = ground (
  arith,
  children_in-snoc log e x.id,
  entry-snoc_root log events e h,
  append-nil (children_in log x.id),
)

-- The push to the parent's children is what the new log demands.
pub modify-entry :
    (log events : List CanonicalEvent) (e : CanonicalEvent) (p : String)
    → e.parent_id ≡ some p
    → contains p (ids events) ≡ true
    → AreDistinct events
    → Maps.modify p (push_child e.id) (map (entry log) events) ≡ map (entry (log ++ e ∷ [])) events
unfolding Maps.modify push_child
modify-entry log [] e p h there d = cc
modify-entry log (x ∷ events) e p h there d = ground (
  arith,
  children_in-snoc log e x.id,
  entry-snoc_absent log events e p h,
  modify-entry log events e p h,
  eq_iff x.id p,
  eq_iff p x.id,
  append-nil (children_in log x.id),
)

-- What a log that was accepted gives the events after it.
pub record IsSound (log : List CanonicalEvent) : Type 0 where
  pub distinct : AreDistinct log
  pub no_orphan : (id : String) → contains id (ids log) ≡ false → children_in log id ≡ []

AreDistinct-snoc :
    (log : List CanonicalEvent) (e : CanonicalEvent)
    → AreDistinct log
    → contains e.id (ids log) ≡ false
    → AreDistinct (log ++ e ∷ [])
AreDistinct-snoc [] e d new = (refl, tt)
AreDistinct-snoc (x ∷ log) e (d, ds) new =
    let rest = AreDistinct-snoc log e ds in
    (
      rw (map-append, contains-append) (ground (arith, eq_iff x.id e.id, eq_iff e.id x.id)),
      rest (ground arith),
    )

pub contains-snoc :
    (log : List CanonicalEvent) (e : CanonicalEvent) (id : String)
    → contains id (ids (log ++ e ∷ [])) ≡ (contains id (ids log) || e.id == id)
contains-snoc [] e id = ground arith
contains-snoc (x ∷ log) e id = ground (arith, contains-snoc log e id)

no_orphan-snoc :
    (log : List CanonicalEvent) (e : CanonicalEvent) (parent : Option String) (id : String)
    → IsSound log
    → e.parent_id ≡ parent
    → IsPlaced log parent
    → contains id (ids (log ++ e ∷ [])) ≡ false
    → children_in (log ++ e ∷ []) id ≡ []
no_orphan-snoc log e none id s h placed absent =
    ground (arith, children_in-snoc log e id, s.no_orphan id, contains-snoc log e id)
no_orphan-snoc log e (some p) id s h placed absent =
    ground (arith, children_in-snoc log e id, s.no_orphan id, contains-snoc log e id, eq_iff p id)

pub IsSound-snoc :
    (log : List CanonicalEvent) (e : CanonicalEvent)
    → IsSound log
    → contains e.id (ids log) ≡ false
    → IsPlaced log e.parent_id
    → IsSound (log ++ e ∷ [])
IsSound-snoc log e s new placed = record {
  distinct = AreDistinct-snoc log e s.distinct new;
  no_orphan = λ id absent. no_orphan-snoc log e e.parent_id id s refl placed absent;
}

-- The new event has no children yet: a child would precede its parent.
pub childless :
    (log : List CanonicalEvent) (e : CanonicalEvent) (parent : Option String)
    → IsSound log
    → e.parent_id ≡ parent
    → IsPlaced log parent
    → contains e.id (ids log) ≡ false
    → children_in (log ++ e ∷ []) e.id ≡ []
childless log e none s h placed new = ground (arith, children_in-snoc log e e.id, s.no_orphan e.id)
childless log e (some p) s h placed new =
    ground (arith, children_in-snoc log e e.id, s.no_orphan e.id, eq_iff p e.id)

-- The table of the longer log: the entries of the old events, and the new one last.
table-snoc :
    (log : List CanonicalEvent) (e : CanonicalEvent)
    → children_in (log ++ e ∷ []) e.id ≡ []
    → table (log ++ e ∷ [])
      ≡ map (entry (log ++ e ∷ [])) log ++ (e.id, record { event = e; children = [] }) ∷ []
table-snoc log e h = rw (map-append, h)

-- `add_node` completes the table, once the parent has its new child.
pub add_node-eq :
    (session_id : String) (log : List CanonicalEvent) (e : CanonicalEvent) (root : Option String)
    → contains e.id (ids log) ≡ false
    → children_in (log ++ e ∷ []) e.id ≡ []
    → add_node e
        (record { session_id = session_id; nodes = map (entry (log ++ e ∷ [])) log; root = root })
      ≡ record { session_id = session_id; nodes = table (log ++ e ∷ []); root = root }
unfolding add_node
add_node-eq session_id log e root new childless = ground (
  arith,
  set-new e.id (record { event = e; children = [] }) (map (entry (log ++ e ∷ [])) log),
  has-table (log ++ e ∷ []) log e.id,
  table-snoc log e childless,
)

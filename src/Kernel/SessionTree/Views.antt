-- ===== src/Kernel/SessionTree/Views.antt =====
-- What the accessors of a tree return, as functions of the log that it was built from.
use axl_raja.Prelude.{
  String, true, false, Option, none, some, List, [], ◌∷◌, map, ◌≡◌, refl, ap, ◌∙◌, ◌==◌, eq_iff, ok,
  err, contains, keep, if◌then◌else◌, arith, Bool-cases, inl, inr,
}
use axl_raja.Maps
use axl_raja.Protocol.Event.{CanonicalEvent}
use axl_raja.Kernel.SessionTree.{
  Node, SessionTree, not_in_tree, find_node, children_of, events, leaves, is_leaf, from_events,
}
use axl_raja.Kernel.SessionTree.Log.{ids, children_in, find, is_tip}
use axl_raja.Kernel.SessionTree.Table.{entry, built}
use axl_raja.Kernel.SessionTree.Build.{from_events_iff}

abbrev pub node_in : List CanonicalEvent → CanonicalEvent → Node
node_in log e = record { event = e; children = children_in log e.id }

abbrev map_option {ℓ κ} : {A : Type ℓ} {B : Type κ} → (A → B) → Option A → Option B
map_option f none = none
map_option f (some a) = some (f a)

get-table :
    (log l : List CanonicalEvent) (id : String)
    → Maps.get id (map (entry log) l) ≡ map_option (node_in log) (find id l)
unfolding Maps.get
get-table log [] id = refl
get-table log (e ∷ l) id = ground (arith, get-table log l id)

pub find-contains :
    (l : List CanonicalEvent) (id : String)
    → contains id (ids l) ≡ true
    → (e : CanonicalEvent) × (find id l ≡ some e) × (e.id ≡ id)
find-contains [] id h = cc
find-contains (e ∷ l) id h = elim (Bool-cases (e.id == id)) [
  | inl same ↦ (e, rw same, (eq_iff e.id id).0 same)
  | inr other ↦
      let (f, found, named) = find-contains l id (ground arith) in (f, rw other found, named)
]

find-absent :
    (l : List CanonicalEvent) (id : String) → contains id (ids l) ≡ false → find id l ≡ none
find-absent [] id h = refl
find-absent (e ∷ l) id h = ground (arith, find-absent l id)

pub values-table :
    (log l : List CanonicalEvent) → Maps.values (map (entry log) l) ≡ map (node_in log) l
unfolding Maps.values
values-table log [] = refl
values-table log (e ∷ l) = ap (λ r. node_in log e ∷ r) (values-table log l)

events-nodes : (log l : List CanonicalEvent) → map (λ n. n.event) (map (node_in log) l) ≡ l
events-nodes log [] = refl
events-nodes log (e ∷ l) = ap (λ r. e ∷ r) (events-nodes log l)

-- A node has no children exactly when no event names it as parent.
is_leaf-eq :
    (log : List CanonicalEvent) (e : CanonicalEvent)
    → is_leaf (record { event = e; children = children_in log e.id }) ≡ is_tip log e.id
unfolding is_leaf
is_leaf-eq [] e = refl
is_leaf-eq (f ∷ log) e = ground (arith, is_leaf-eq log e)

leaves-nodes :
    (log l : List CanonicalEvent)
    → map (λ n. n.event.id) (keep is_leaf (map (node_in log) l))
      ≡ ids (keep (λ e. is_tip log e.id) l)
leaves-nodes log [] = refl
leaves-nodes log (e ∷ l) = ground (arith, is_leaf-eq log e, leaves-nodes log l)

module _ (session_id : String) (log : List CanonicalEvent) where
  pub find_node-built :
      (id : String)
      → find_node id (built session_id log) ≡ elim (find id log) [
        | none ↦ err (record { index = none; event_id = id; reason = not_in_tree })
        | some e ↦ ok (node_in log e)
      ]
  unfolding find_node
  find_node-built id = ground (arith, get-table log log id)

  events-built : events (built session_id log) ≡ log
  unfolding events
  events-built = ap (map (λ n. n.event)) (values-table log log) ∙ events-nodes log log

  leaves-built : leaves (built session_id log) ≡ ids (keep (λ e. is_tip log e.id) log)
  unfolding leaves
  leaves-built =
      ap (λ l. map (λ n. n.event.id) (keep is_leaf l)) (values-table log log) ∙ leaves-nodes log log

  children_of-built :
      (id : String)
      → children_of id (built session_id log) ≡ (
          if contains id (ids log)
          then ok (children_in log id)
          else err (record { index = none; event_id = id; reason = not_in_tree }))
  unfolding children_of
  children_of-built id = elim (Bool-cases (contains id (ids log))) [
    | inl there ↦
        let (e, found, named) = find-contains log id there in
        rw (find_node-built id, found, there) (ap (λ k. ok (children_in log k)) named)
    | inr absent ↦ rw (find_node-built id, find-absent log id absent, absent)
  ]

-- The tree of an accepted log returns the log itself as its events, in the same order, and as its
-- leaves, in log order, the ids that no event of the log names as its parent.
pub events-and-leaves_of_log :
    (session_id : String) (log : List CanonicalEvent) (t : SessionTree)
    → from_events session_id log ≡ ok t
    → (events t ≡ log) × (leaves t ≡ ids (keep (λ e. is_tip log e.id) log))
events-and-leaves_of_log session_id log t h =
    let built_t = (from_events_iff session_id log t).0 h in
    rw (built_t.1) (events-built session_id log, leaves-built session_id log)

-- For every id of an accepted log the tree returns as its children the ids of the events that name
-- it as their parent, in log order; for any other id it reports that it is not part of the tree.
children_of_log :
    (session_id : String) (log : List CanonicalEvent) (t : SessionTree) (id : String)
    → from_events session_id log ≡ ok t
    → children_of id t ≡ (
        if contains id (ids log)
        then ok (children_in log id)
        else err (record { index = none; event_id = id; reason = not_in_tree }))
children_of_log session_id log t id h =
    let built_t = (from_events_iff session_id log t).0 h in
    rw (built_t.1) (children_of-built session_id log id)

-- ===== src/Kernel/SessionTree.antt =====
-- The tree of a session's events (packages/kernel/src/session-tree.ts).
use axl_raja.Prelude.{
  ℕ, zero, suc, ◌+◌, String, Bool, true, false, Option, none, some, List, [], ◌∷◌, ◌++◌, map, ◌==◌,
  not, Outcome, ok, err, ◌>>=◌, if◌then◌else◌, length, keep,
}
pub mod Log
pub mod Table
pub mod Build
pub mod Views
pub mod Lineage
use axl_raja.Maps
use axl_raja.Protocol.Event.{CanonicalEvent}

pub record Node : Type 0 where
  pub event : CanonicalEvent
  pub children : List String

pub record SessionTree : Type 0 where
  pub session_id : String
  pub nodes : List (String × Node)
  pub root : Option String

-- the message of a SessionTreeIntegrityError
pub data Reason : Type 0 where
  other_session duplicate_id second_root missing_parent not_in_tree : Reason

-- The index is none for -1, an event that is not in the tree.
pub record IntegrityError : Type 0 where
  pub index : Option ℕ
  pub event_id : String
  pub reason : Reason

abbrev integrity_error : ℕ → CanonicalEvent → Reason → IntegrityError
integrity_error index event reason = record {
  index = some index;
  event_id = event.id;
  reason = reason;
}

-- parent.children.push(event.id), on the node that the map holds
pub push_child : String → Node → Node
push_child id node = record node { children = node.children ++ id ∷ [] }

-- nodes.set(event.id, { event, children: [] })
pub add_node : CanonicalEvent → SessionTree → SessionTree
add_node event t = record t {
  nodes = Maps.set event.id (record { event = event; children = [] }) t.nodes;
}

-- the branch on `event.parentId`
link : ℕ → CanonicalEvent → Option String → SessionTree → Outcome IntegrityError SessionTree
link index event none t = elim t.root [
  | none ↦ ok (record t { root = some event.id })
  | some _ ↦ err (integrity_error index event second_root)
]
link index event (some parent_id) t = elim (Maps.get parent_id t.nodes) [
  | none ↦ err (integrity_error index event missing_parent)
  | some _ ↦ ok (record t { nodes = Maps.modify parent_id (push_child event.id) t.nodes })
]

-- one round of the loop of `fromEvents`
insert : ℕ → CanonicalEvent → SessionTree → Outcome IntegrityError SessionTree
insert index event t =
    if not (event.session_id == t.session_id)
    then err (integrity_error index event other_session)
    else if Maps.has event.id t.nodes
    then err (integrity_error index event duplicate_id)
    else do linked ← link index event event.parent_id t; ok (add_node event linked)

insert_all : ℕ → List CanonicalEvent → SessionTree → Outcome IntegrityError SessionTree
insert_all index [] t = ok t
insert_all index (event ∷ events) t = do t' ← insert index event t; insert_all (index + 1) events t'

abbrev pub empty : String → SessionTree
empty session_id = record { session_id = session_id; nodes = []; root = none }

-- SessionTree.fromEvents, after `parseSessionId`
unfoldable pub from_events : String → List CanonicalEvent → Outcome IntegrityError SessionTree
unfolding insert_all insert link add_node push_child Maps.get Maps.set Maps.has Maps.modify
from_events session_id events = insert_all 0 events (empty session_id)

unfoldable pub find_node : String → SessionTree → Outcome IntegrityError Node
unfolding Maps.get
find_node id t = elim (Maps.get id t.nodes) [
  | none ↦ err (record { index = none; event_id = id; reason = not_in_tree })
  | some node ↦ ok node
]

unfoldable pub event : String → SessionTree → Outcome IntegrityError CanonicalEvent
unfolding find_node
event id t = do node ← find_node id t; ok node.event

unfoldable pub children_of : String → SessionTree → Outcome IntegrityError (List String)
unfolding find_node
children_of id t = do node ← find_node id t; ok node.children

unfoldable pub has : String → SessionTree → Bool
unfolding Maps.has
has id t = Maps.has id t.nodes

unfoldable pub size : SessionTree → ℕ
size t = length t.nodes

-- every event in log-append order
unfoldable pub events : SessionTree → List CanonicalEvent
unfolding Maps.values
events t = map (λ node. node.event) (Maps.values t.nodes)

pub is_leaf : Node → Bool
is_leaf node = elim node.children [ [] ↦ true | _ ∷ _ ↦ false ]

-- every branch tip in log-append order
unfoldable pub leaves : SessionTree → List String
unfolding is_leaf Maps.values
leaves t = map (λ node. node.event.id) (keep is_leaf (Maps.values t.nodes))

-- The loop of `lineage` pushes to `path` and reverses it at the end: here the path grows at its
-- head. None says that the fuel ran out, that is, that the loop went on.
pub climb :
    ℕ
    → Option String
    → List CanonicalEvent
    → SessionTree
    → Option (Outcome IntegrityError (List CanonicalEvent))
climb fuel none path t = some (ok path)
climb zero (some id) path t = none
climb (suc fuel) (some id) path t = elim (find_node id t) [
  | err e ↦ some (err e)
  | ok node ↦ climb fuel node.event.parent_id (node.event ∷ path) t
]

-- The path from the root to `id`; the number of nodes is fuel enough on a tree that was built.
unfoldable pub lineage :
    String → SessionTree → Option (Outcome IntegrityError (List CanonicalEvent))
unfolding climb find_node size
lineage id t = climb (size t) (some id) [] t

-- ===== src/Kernel/SessionTree/Log.antt =====
-- The order that an event log owes to its readers, and the views of a tree as functions of the log.
use axl_raja.Prelude.{
  String, Bool, true, false, not, Option, none, some, List, [], ◌∷◌, ◌++◌, map, ◌≡◌, ◌==◌, contains,
  is_some_of, keep, any, All, if◌then◌else◌,
}
use axl_raja.Protocol.Event.{CanonicalEvent}

abbrev pub ids : List CanonicalEvent → List String
ids = map (λ e. e.id)

-- Only the first event is a root, and every other event follows its parent.
abbrev pub IsPlaced : List CanonicalEvent → Option String → Type 0
IsPlaced before none = before ≡ []
IsPlaced before (some parent_id) = contains parent_id (ids before) ≡ true

-- What `events` may follow in the log of `session_id` after `before`.
abbrev pub IsLog : String → List CanonicalEvent → List CanonicalEvent → Type 0
IsLog session_id before [] = Unit
IsLog session_id before (e ∷ events) =
    (e.session_id ≡ session_id)
    × (contains e.id (ids before) ≡ false)
    × IsPlaced before e.parent_id
    × IsLog session_id (before ++ e ∷ []) events

-- The events whose parent is `id`, in log order.
abbrev pub children_in : List CanonicalEvent → String → List String
children_in log id = ids (keep (λ e. is_some_of id e.parent_id) log)

-- The event with an id.
abbrev pub find : String → List CanonicalEvent → Option CanonicalEvent
find id [] = none
find id (e ∷ log) = if e.id == id then some e else find id log

-- No event of the log has `id` as its parent.
abbrev pub is_tip : List CanonicalEvent → String → Bool
is_tip log id = not (any (λ e. is_some_of id e.parent_id) log)

-- Each event is the parent of the next; the first has the given parent.
abbrev pub IsChain : Option String → List CanonicalEvent → Type 0
IsChain parent [] = Unit
IsChain parent (e ∷ path) = (e.parent_id ≡ parent) × IsChain (some e.id) path

abbrev pub last_id : Option String → List CanonicalEvent → Option String
last_id before [] = before
last_id before (e ∷ path) = last_id (some e.id) path

-- A path of the log from a root down to `id`.
pub record IsLineage (log : List CanonicalEvent) (id : String) (path : List CanonicalEvent)
    : Type 0 where
  pub linked : IsChain none path
  pub ends : last_id none path ≡ some id
  pub recorded : All (λ e. find e.id log ≡ some e) path

-- ===== src/Kernel/Compaction.antt =====
-- Which messages the model sees after compactions, and what the next compaction replaces
-- (packages/kernel/src/compaction.ts; the token estimate is of packages/protocol/src/model-request.ts).
pub mod Closure
pub mod Projection
pub mod Planning
pub mod Groups
pub mod Plans
mod Examples
use axl_raja.Prelude.{
  ℕ, zero, suc, ◌+◌, ◌/◌, String, Bool, true, false, not, ◌&&◌, ◌||◌, Option, none, some, List, [],
  ◌∷◌, ◌++◌, map, ◌==◌, ltb, leb, eqb, Outcome, ok, err, ◌>>=◌, if◌then◌else◌, length, take, drop,
  keep, contains, concat,
}
use axl_raja.Protocol.Json.{Json, Members}
use axl_raja.Protocol.Event.{
  Content, text, thinking, blob, Payload, user_message, user_shell, assistant_message, tool_call,
  tool_result, context_injected, context_compacted, other, CanonicalEvent,
}

pub record ToolCallRequest : Type 0 where
  pub call_id : String
  pub name : String
  pub input : Members

pub data ModelMessage : Type 0 where
  user : (content : List Content) → ModelMessage
  assistant : (content : List Content) (tool_calls : List ToolCallRequest) → ModelMessage
  tool : (call_id name : String) (content : List Content) (is_error : Bool) → ModelMessage

pub record ContextGroup : Type 0 where
  pub message : ModelMessage
  pub event_ids : List String

-- a ReplayError, by its message
pub data CompactionError : Type 0 where
  replaces_non_ancestor : (compaction_id id : String) → CompactionError
  no_assistant_turn : (event_id : String) → CompactionError
  splits_group replaces_non_prefix replaces_nothing : (compaction_id : String) → CompactionError
  invalid_keep_recent_tokens : CompactionError

-- the `id`, the summary and the replaced ids of an event context.compacted
pub record Compacted : Type 0 where
  pub id : String
  pub summary : String
  pub replaced_event_ids : List String

unfoldable pub compacted_of : CanonicalEvent → Option Compacted
compacted_of event = elim event.payload [
  | context_compacted summary replaced ↦
      some (record { id = event.id; summary = summary; replaced_event_ids = replaced })
  | _ ↦ none
]

abbrev pub or_else {ℓ} : {A : Type ℓ} → Option A → Option A → Option A
or_else none o = o
or_else (some a) o = some a

-- byId.get(id): the last event with the id, and its index
unfoldable pub find_by_id : String → ℕ → List CanonicalEvent → Option (CanonicalEvent × ℕ)
find_by_id id index [] = none
find_by_id id index (event ∷ events) =
    let later = find_by_id id (suc index) events in
    or_else later (if event.id == id then some (event, index) else none)

-- events.findLast of type context.compacted
unfoldable pub last_compaction : List CanonicalEvent → Option Compacted
unfolding compacted_of
last_compaction [] = none
last_compaction (event ∷ events) = or_else (last_compaction events) (compacted_of event)

abbrev pub reverse_onto {ℓ} : {A : Type ℓ} → List A → List A → List A
reverse_onto [] l = l
reverse_onto (x ∷ xs) l = reverse_onto xs (x ∷ l)

abbrev pub ids_replaced : Option Compacted → List String
ids_replaced none = []
ids_replaced (some compaction) = compaction.replaced_event_ids

abbrev pub replaced_ids : CanonicalEvent → List String
replaced_ids event = ids_replaced (compacted_of event)

abbrev pub is_before : ℕ → Option (CanonicalEvent × ℕ) → Option CanonicalEvent
is_before limit none = none
is_before limit (some (event, index)) = if leb limit index then none else some event

-- the lookup `byId.get(id)` of the closure, with its test of the index
unfoldable pub ancestor : List CanonicalEvent → (limit : ℕ) → String → Option CanonicalEvent
unfolding find_by_id
ancestor events limit id = is_before limit (find_by_id id 0 events)

module _ (events : List CanonicalEvent) (compaction_id : String) (limit : ℕ) where
  abbrev pub after_lookup :
      (List String → List String → Option (Outcome CompactionError (List String)))
      → String
      → List String
      → List String
      → Option CanonicalEvent
      → Option (Outcome CompactionError (List String))
  after_lookup continue id pending hidden none = some (err (replaces_non_ancestor compaction_id id))
  after_lookup continue id pending hidden (some event) =
      continue (reverse_onto (replaced_ids event) pending) (hidden ++ id ∷ [])

  -- The loop of `replacementClosure`; the next id to pop is the head of `pending`. None says that
  -- the fuel ran out.
  unfoldable pub close_over :
      ℕ → (pending hidden : List String) → Option (Outcome CompactionError (List String))
  unfolding ancestor
  close_over fuel [] hidden = some (ok hidden)
  close_over zero (id ∷ pending) hidden = none
  close_over (suc fuel) (id ∷ pending) hidden =
      let skipped = close_over fuel pending hidden in
      if contains id hidden
      then skipped
      else after_lookup (close_over fuel) id pending hidden (ancestor events limit id)

abbrev pub all_replaced : List CanonicalEvent → ℕ
all_replaced [] = 0
all_replaced (event ∷ events) = length (replaced_ids event) + all_replaced events

abbrev pub index_or_zero : Option (CanonicalEvent × ℕ) → ℕ
index_or_zero none = 0
index_or_zero (some (event, index)) = index

-- The fuel is every id that a compaction replaces. (An index -1 admits no ancestor, as 0 does.)
unfoldable pub replacement_closure :
    List CanonicalEvent → Compacted → Option (Outcome CompactionError (List String))
unfolding close_over find_by_id compacted_of
replacement_closure events compaction =
    close_over events compaction.id (index_or_zero (find_by_id compaction.id 0 events))
      (length compaction.replaced_event_ids + all_replaced events)
      (reverse_onto compaction.replaced_event_ids []) []

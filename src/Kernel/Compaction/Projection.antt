-- ===== src/Kernel/Compaction/Projection.antt =====
-- The model's view of a branch: `projectContext` and `messagesFromCompactedLineage`.
use axl_raja.Prelude.{
  ℕ, zero, suc, String, Bool, true, false, ◌&&◌, Option, none, some, List, [], ◌∷◌, ◌++◌, ◌==◌, ltb,
  Outcome, ok, err, ◌>>=◌, if◌then◌else◌, length, keep, contains, concat,
}
use axl_raja.Protocol.Event.{
  Content, text, Payload, user_message, user_shell, assistant_message, tool_call, tool_result,
  context_injected, context_compacted, CanonicalEvent,
}
use axl_raja.Kernel.Compaction.{
  ToolCallRequest, ModelMessage, user, assistant, tool, ContextGroup, CompactionError,
  no_assistant_turn, splits_group, replaces_non_prefix, replaces_nothing, Compacted,
  last_compaction, replacement_closure,
}

-- The groups so far. `toolCallingAssistant` is one of them, or none: its index, since a push to its
-- calls is seen in the list.
pub record Projection : Type 0 where
  pub groups : List ContextGroup
  pub caller : Option ℕ

abbrev pub tool_name : String → String
tool_name name = if name == "shell" then "bash" else name

-- the texts of a shell's output
abbrev texts : List Content → List String
texts [] = []
texts (text s ∷ content) = s ∷ texts content
texts (_ ∷ content) = texts content

abbrev modify_at {ℓ} : {A : Type ℓ} → ℕ → (A → A) → List A → List A
modify_at n f [] = []
modify_at zero f (x ∷ xs) = f x ∷ xs
modify_at (suc n) f (x ∷ xs) = x ∷ modify_at n f xs

abbrev with_call : ToolCallRequest → ModelMessage → ModelMessage
with_call call (assistant content calls) = assistant content (calls ++ call ∷ [])
with_call call message = message

unfoldable pub add_call : ToolCallRequest → String → ContextGroup → ContextGroup
add_call call id group = record {
  message = with_call call group.message;
  event_ids = group.event_ids ++ id ∷ [];
}

-- groups.push({ message, eventIds: [id] }), with the assistant that gets the next calls
abbrev pub push_group : Option ℕ → String → ModelMessage → Projection → Projection
push_group caller id message p = record {
  groups = p.groups ++ record { message = message; event_ids = id ∷ [] } ∷ [];
  caller = caller;
}

-- the branches of the loop of `projectContext` on the event's type
unfoldable pub project_payload : String → Payload → Projection → Outcome CompactionError Projection
unfolding add_call
project_payload id (user_message content) p = ok (push_group none id (user content) p)
project_payload id (user_shell command content is_error excluded) p =
    if excluded
    then ok (record p { caller = none })
    else ok (
        push_group none id
          (user (text (concat ("[shell]\n$ " ∷ command ∷ "\n" ∷ texts content)) ∷ [])) p)
project_payload id (assistant_message content stop_reason usage error_message) p =
    ok (push_group (some (length p.groups)) id (assistant content []) p)
project_payload id (tool_call call_id name input) p = elim p.caller [
  | none ↦ err (no_assistant_turn id)
  | some index ↦
      let call : ToolCallRequest = record {
        call_id = call_id;
        name = tool_name name;
        input = input;
      } in
      ok (record p { groups = modify_at index (add_call call id) p.groups })
]
project_payload id (tool_result call_id name content is_error details) p =
    ok (push_group p.caller id (tool call_id (tool_name name) content is_error) p)
project_payload id (context_injected source content) p =
    ok (push_group none id (user (text (concat ("[" ∷ source ∷ "]\n" ∷ content ∷ [])) ∷ [])) p)
project_payload id (context_compacted summary replaced) p = ok (record p { caller = none })
project_payload id _ p = ok p

unfoldable pub project_events :
    List CanonicalEvent → Projection → Outcome CompactionError Projection
unfolding project_payload
project_events [] p = ok p
project_events (event ∷ events) p = do
  next ← project_payload event.id event.payload p
  project_events events next

abbrev pub hidden_count : (hidden ids : List String) → ℕ
hidden_count hidden ids = length (keep (λ id. contains id hidden) ids)

abbrev pub is_empty {ℓ} : {A : Type ℓ} → List A → Bool
is_empty [] = true
is_empty (x ∷ xs) = false

-- The loop over the groups; `visible` and `found` are what the rounds so far made of them.
unfoldable pub select_groups :
    (id : String) (hidden : List String)
    → List ContextGroup
    → (visible : List ContextGroup) (found : Bool)
    → Outcome CompactionError (List ContextGroup × Bool)
select_groups id hidden [] visible found = ok (visible, found)
select_groups id hidden (group ∷ groups) visible found =
    let count = hidden_count hidden group.event_ids in
    let replaced = select_groups id hidden groups visible true in
    let kept = select_groups id hidden groups (visible ++ group ∷ []) found in
    if ltb 0 count && ltb count (length group.event_ids)
    then err (splits_group id)
    else if ltb 0 count
    then (if is_empty visible then replaced else err (replaces_non_prefix id))
    else kept

pub record ProjectedContext : Type 0 where
  pub previous_compaction : Option Compacted
  pub groups : List ContextGroup

-- what follows the loop: a compaction has to hide something
abbrev pub check_found :
    Compacted → List ContextGroup × Bool → Outcome CompactionError ProjectedContext
check_found compaction (visible, found) =
    if found
    then ok (record { previous_compaction = some compaction; groups = visible })
    else err (replaces_nothing compaction.id)

abbrev pub empty : Projection
empty = record { groups = []; caller = none }

abbrev pub project_hidden :
    List CanonicalEvent
    → Compacted
    → Outcome CompactionError (List String)
    → Outcome CompactionError ProjectedContext
project_hidden events compaction closure = do
  hidden ← closure
  projection ← project_events events empty
  selected ← select_groups compaction.id hidden projection.groups [] false
  check_found compaction selected

abbrev pub project_closed :
    List CanonicalEvent
    → Compacted
    → Option (Outcome CompactionError (List String))
    → Option (Outcome CompactionError ProjectedContext)
project_closed events compaction none = none
project_closed events compaction (some closure) = some (project_hidden events compaction closure)

-- the projection for the last compaction; without one nothing is hidden
abbrev pub project_from :
    List CanonicalEvent → Option Compacted → Option (Outcome CompactionError ProjectedContext)
project_from events none = some (do
  projection ← project_events events empty
  ok (record { previous_compaction = none; groups = projection.groups }))
project_from events (some compaction) =
    project_closed events compaction (replacement_closure events compaction)

-- projectContext; none says that the fuel of the closure ran out
unfoldable pub project_context :
    List CanonicalEvent → Option (Outcome CompactionError ProjectedContext)
unfolding last_compaction replacement_closure project_events select_groups
project_context events = project_from events (last_compaction events)

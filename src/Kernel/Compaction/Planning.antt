-- ===== src/Kernel/Compaction/Planning.antt =====
-- What the next compaction replaces: `prepareCompaction`, and the messages that the model gets.
use axl_raja.Prelude.{
  ℕ, suc, ◌+◌, ◌/◌, String, Bool, true, false, Option, none, some, List, [], ◌∷◌, ◌++◌, map, leb,
  eqb, ltb, Outcome, ok, err, if◌then◌else◌, take, drop, ◌||◌,
}
use axl_raja.Protocol.Json.{Members}
use axl_raja.Protocol.Event.{Content, text, thinking, blob, CanonicalEvent}
use axl_raja.Kernel.Compaction.{
  ToolCallRequest, ModelMessage, user, assistant, tool, ContextGroup, CompactionError, Compacted,
  invalid_keep_recent_tokens, compacted_of,
}
use axl_raja.Kernel.Compaction.Projection.{ProjectedContext, project_context}

-- JavaScript's `length` of a text and of the JSON text of an object.
pub record Measure : Type 0 where
  pub text_length : String → ℕ
  pub json_length : Members → ℕ

module _ (measure : Measure) where
  abbrev content_length : List Content → ℕ
  content_length [] = 0
  content_length (blob reference ∷ content) = 4800 + content_length content
  content_length (text s ∷ content) = measure.text_length s + content_length content
  content_length (thinking s ∷ content) = measure.text_length s + content_length content

  abbrev calls_length : List ToolCallRequest → ℕ
  calls_length [] = 0
  calls_length (call ∷ calls) =
      measure.text_length call.name + measure.json_length call.input + calls_length calls

  abbrev message_length : ModelMessage → ℕ
  message_length (user content) = content_length content
  message_length (assistant content calls) = content_length content + calls_length calls
  message_length (tool call_id name content is_error) =
      content_length content + measure.text_length name

  -- Math.ceil(characters / 4)
  unfoldable pub estimate_model_message_tokens : ModelMessage → ℕ
  estimate_model_message_tokens message = (message_length message + 3) / 4

-- a group that may stand first in the kept context
unfoldable pub starts_turn : ContextGroup → Bool
starts_turn group = elim group.message [
  | user _ ↦ true
  | assistant _ _ ↦ true
  | tool _ _ _ _ ↦ false
]

unfoldable pub is_assistant : ContextGroup → Bool
is_assistant group = elim group.message [
  | user _ ↦ false
  | assistant _ _ ↦ true
  | tool _ _ _ _ ↦ false
]

abbrev pub total : (ContextGroup → ℕ) → List ContextGroup → ℕ
total tokens [] = 0
total tokens (group ∷ groups) = total tokens groups + tokens group

abbrev pub crossed_before : Option ℕ → Bool → Option ℕ
crossed_before (some index) crosses = some (suc index)
crossed_before none true = some 0
crossed_before none false = none

-- The first loop runs from the last group back, and has accumulated the tokens of the groups behind
-- the one that it looks at; none is the index -1.
unfoldable pub crossed_at : (tokens : ContextGroup → ℕ) (limit : ℕ) → List ContextGroup → Option ℕ
crossed_at tokens limit [] = none
crossed_at tokens limit (group ∷ groups) =
    crossed_before (crossed_at tokens limit groups) (leb limit (total tokens groups + tokens group))

abbrev pub next_index : Option ℕ → Option ℕ
next_index none = none
next_index (some n) = some (suc n)

-- The second loop, from the group where the first one stopped.
unfoldable pub first_turn : List ContextGroup → Option ℕ
unfolding starts_turn
first_turn [] = none
first_turn (group ∷ groups) =
    let later = first_turn groups in if starts_turn group then some 0 else next_index later

pub record CompactionPlan : Type 0 where
  pub messages_to_summarize : List ModelMessage
  pub previous_summary : Option String
  pub replaced_event_ids : List String
  pub split_turn : Bool

abbrev pub ids_of : List ContextGroup → List String
ids_of [] = []
ids_of (group ∷ groups) = group.event_ids ++ ids_of groups

abbrev pub own_id : Option Compacted → List String
own_id none = []
own_id (some compaction) = compaction.id ∷ []

abbrev pub summary_of : Option Compacted → Option String
summary_of none = none
summary_of (some compaction) = some compaction.summary

abbrev pub splits : List ContextGroup → Bool
splits [] = false
splits (group ∷ groups) = is_assistant group

-- the plan for `firstKeptIndex`
unfoldable pub plan_at : ℕ → ProjectedContext → CompactionPlan
unfolding is_assistant
plan_at first_kept projected = record {
  messages_to_summarize = map (λ group. group.message) (take first_kept projected.groups);
  previous_summary = summary_of projected.previous_compaction;
  replaced_event_ids =
      own_id projected.previous_compaction ++ ids_of (take first_kept projected.groups);
  split_turn = splits (drop first_kept projected.groups);
}

-- `firstKeptIndex <= 0`, or the plan
abbrev pub plan_from : ProjectedContext → ℕ → Option ℕ → Option CompactionPlan
plan_from projected crossed none = none
plan_from projected crossed (some n) =
    if eqb (crossed + n) 0 then none else some (plan_at (crossed + n) projected)

abbrev pub plan_crossed : ProjectedContext → Option ℕ → Option CompactionPlan
plan_crossed projected none = none
plan_crossed projected (some crossed) =
    plan_from projected crossed (first_turn (drop crossed projected.groups))

-- `prepareCompaction`, for a projected context
unfoldable pub plan_of :
    (tokens : ContextGroup → ℕ) (limit : ℕ) → ProjectedContext → Option CompactionPlan
unfolding crossed_at first_turn plan_at
plan_of tokens limit projected = plan_crossed projected (crossed_at tokens limit projected.groups)

-- Number.MAX_SAFE_INTEGER
abbrev pub max_safe_integer : ℕ
max_safe_integer = 9_007_199_254_740_991

abbrev pub default_compaction_keep_recent_tokens : ℕ
default_compaction_keep_recent_tokens = 20_000

-- events.at(-1)?.type === "context.compacted"
unfoldable pub ends_compacted : List CanonicalEvent → Bool
unfolding compacted_of
ends_compacted [] = false
ends_compacted (event ∷ []) = elim (compacted_of event) [ none ↦ false | some _ ↦ true ]
ends_compacted (event ∷ events) = ends_compacted events

abbrev pub plan_projected :
    (ContextGroup → ℕ)
    → ℕ
    → Option (Outcome CompactionError ProjectedContext)
    → Option (Outcome CompactionError (Option CompactionPlan))
plan_projected tokens limit none = none
plan_projected tokens limit (some (err e)) = some (err e)
plan_projected tokens limit (some (ok projected)) = some (ok (plan_of tokens limit projected))

-- prepareCompaction; the outer none says that the fuel of the closure ran out
unfoldable pub prepare_compaction :
    Measure → List CanonicalEvent → ℕ → Option (Outcome CompactionError (Option CompactionPlan))
unfolding ends_compacted plan_of project_context estimate_model_message_tokens
prepare_compaction measure events keep_recent_tokens =
    if ltb keep_recent_tokens 1 || ltb max_safe_integer keep_recent_tokens
    then some (err invalid_keep_recent_tokens)
    else if ends_compacted events
    then some (ok none)
    else plan_projected (λ group. estimate_model_message_tokens measure group.message)
        keep_recent_tokens (project_context events)

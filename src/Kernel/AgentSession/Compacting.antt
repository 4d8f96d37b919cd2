-- ===== src/Kernel/AgentSession/Compacting.antt =====
-- `compact`, and `summarizeCompaction` of packages/kernel/src/compaction.ts, with the model's stream
-- and the log as the session sees them.
use axl_raja.Prelude.{
  String, Bool, Option, none, some, List, [], ◌∷◌, ok, concat, ◌==◌, if◌then◌else◌,
}
use axl_raja.Protocol.Event.{StopReason, request_configured, context_compacted, CanonicalEvent}
use axl_raja.Kernel.Compaction.{ModelMessage}
use axl_raja.Kernel.AgentSession.{
  StreamEvent, text_delta, thinking_delta, tool_call, progress, configured, completed, failed,
  aborted, World, not_compacted, Run, return, throw, ◌>>=◌, next_call, append, check_aborted,
}

-- What `compact` gets from elsewhere: the trimmed instructions are empty; the ids that the plan of the
-- stored branch of a tip replaces, or none where reading the log throws or no plan is made;
-- `String.prototype.trim`; and the messages of the branch with the new event.
pub record CompactInput : Type 0 where
  pub has_empty_instructions : Bool
  pub plan : Option String → Option (List String)
  pub trim : String → String
  pub messages : CanonicalEvent → List ModelMessage

module _ (w : World) where
  abbrev pub unless_aborted : {A : Type 0} → Run A → Run A
  unless_aborted method = do
    is_aborted ← check_aborted w
    if is_aborted then throw not_compacted else method

  abbrev pub unless_empty : String → Run String
  unless_empty summary = if summary == "" then throw not_compacted else return summary

  -- what follows the loop over the stream
  abbrev pub trimmed_summary : (String → String) → String → Run String
  trimmed_summary trim summary = unless_aborted (unless_empty (trim summary))

  -- the loop over the stream
  abbrev pub summarize :
      String → (String → String) → List StreamEvent → (summary : String) → Run String
  summarize operation_id trim [] summary = throw not_compacted
  summarize operation_id trim (text_delta t ∷ events) summary =
      summarize operation_id trim events (concat (summary ∷ t ∷ []))
  summarize operation_id trim (thinking_delta t ∷ events) summary =
      summarize operation_id trim events summary
  summarize operation_id trim (progress ∷ events) summary =
      summarize operation_id trim events summary
  summarize operation_id trim (configured configuration ∷ events) summary =
      append w (some operation_id) (request_configured configuration) >>= λ _.
      summarize operation_id trim events summary
  summarize operation_id trim (completed StopReason.stop usage ∷ events) summary =
      trimmed_summary trim summary
  summarize operation_id trim (completed _ usage ∷ events) summary = throw not_compacted
  summarize operation_id trim (tool_call call ∷ events) summary = throw not_compacted
  summarize operation_id trim (failed error ∷ events) summary = throw not_compacted
  summarize operation_id trim (aborted ∷ events) summary = throw not_compacted

  -- summarizeCompaction; whether a stream that has not completed ends or throws, `compact` throws
  unfoldable pub summarize_compaction : String → (String → String) → Run String
  unfolding append
  summarize_compaction operation_id trim =
      unless_aborted do n ← next_call; summarize operation_id trim (w.model n).events ""

  abbrev pub show_compacted : CompactInput → CanonicalEvent → Run CanonicalEvent
  show_compacted input event s =
      (ok event, record s { messages = input.messages event; context_usage = none })

  abbrev pub compact_planned : String → CompactInput → Option (List String) → Run CanonicalEvent
  compact_planned operation_id input none = throw not_compacted
  compact_planned operation_id input (some replaced) = do
    summary ← summarize_compaction operation_id input.trim
    unless_aborted do
      event ← append w (some operation_id) (context_compacted summary replaced)
      show_compacted input event

  -- the `try` block of `compact`
  unfoldable pub compact_owned : String → CompactInput → Run CanonicalEvent
  unfolding append summarize_compaction
  compact_owned operation_id input s = compact_planned operation_id input (input.plan s.tip) s

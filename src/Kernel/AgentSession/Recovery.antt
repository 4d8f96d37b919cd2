-- ===== src/Kernel/AgentSession/Recovery.antt =====
-- How `AgentSession.open` ends the tool calls that a crash left without a result.
pub mod Closing
pub mod Recovered
use axl_raja.Prelude.{String, Bool, true, Option, none, some, List, [], ◌∷◌, Outcome, ok, err}
use axl_raja.Maps
use axl_raja.Protocol.Json.{Json, obj, str, end, member}
use axl_raja.Protocol.Event.{Content, text, Payload, tool_call, tool_result, CanonicalEvent}
use axl_raja.Kernel.Compaction.{tool}
use axl_raja.Kernel.AgentSession.{World, Run, return, ◌>>=◌, push_message, append, content_of}

-- what is read of an event tool.call
pub record UnansweredCall : Type 0 where
  pub operation_id : Option String
  pub call_id : String
  pub name : String

-- the body of the loop of `unansweredToolCalls`
unfoldable pub note_call :
    Option String → Payload → List (String × UnansweredCall) → List (String × UnansweredCall)
unfolding Maps.set Maps.delete
note_call operation_id (tool_call call_id name _) pending =
    Maps.set call_id (record { operation_id = operation_id; call_id = call_id; name = name })
      pending
note_call operation_id (tool_result call_id _ _ _ _) pending = Maps.delete call_id pending
note_call operation_id _ pending = pending

-- the map `pending`, behind more events
unfoldable pub pending_calls :
    List CanonicalEvent → List (String × UnansweredCall) → List (String × UnansweredCall)
unfolding note_call
pending_calls [] pending = pending
pending_calls (event ∷ events) pending =
    pending_calls events (note_call event.operation_id event.payload pending)

-- unansweredToolCalls
unfoldable pub unanswered_tool_calls : List CanonicalEvent → List UnansweredCall
unfolding pending_calls Maps.values
unanswered_tool_calls events = Maps.values (pending_calls events [])

abbrev pub restart_content : List Content
restart_content =
    text "Tool execution was aborted because the daemon stopped before recording a result." ∷ []

abbrev pub restart_details : Json
restart_details = obj (member "endedBy" (str "abort") (member "reason" (str "daemon_restart") end))

module _ (w : World) where
  unfoldable pub end_call : UnansweredCall → Run (Unit {0})
  unfolding append
  end_call call = do
    result ←
        append w call.operation_id
          (tool_result call.call_id call.name restart_content true (some restart_details))
    push_message (tool call.call_id call.name (content_of result.payload) true)

  unfoldable pub end_calls : List UnansweredCall → Run (Unit {0})
  unfolding end_call
  end_calls [] = return tt
  end_calls (call ∷ calls) = do _ ← end_call call; end_calls calls

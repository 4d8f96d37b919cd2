-- ===== src/Kernel/AgentSession.antt =====
-- The agent session (packages/kernel/src/agent-session.ts): its state, and what it asks of the
-- world. Activity frames are not durable and not modelled; a usage keeps the counts that are read.
pub mod Model
pub mod Turn
pub mod Invariants
pub mod Recorded
pub mod Reported
pub mod Overlap
pub mod Stops
pub mod Compacting
pub mod Commands
pub mod Compacted
pub mod Sequences
pub mod Queues
pub mod Extended
pub mod Unanswered
pub mod Calls
pub mod Recovery
mod Examples
use axl_raja.Prelude.{
  ℕ, suc, String, Bool, true, false, Option, none, some, List, [], ◌∷◌, ◌++◌, Outcome, ok, err,
  if◌then◌else◌,
}
use axl_raja.Protocol.Json.{Json}
use axl_raja.Protocol.Event.{
  Content, StopReason, Usage, Payload, user_message, CanonicalEvent, context_injected, text,
}
use axl_raja.Kernel.Compaction.{ToolCallRequest, ModelMessage, user}

-- ModelRequestPhase and ModelStreamError of packages/protocol/src/model-stream.ts
pub data ModelRequestPhase : Type 0 where
  before_dispatch awaiting_response streaming unknown : ModelRequestPhase

pub record ModelStreamError : Type 0 where
  pub code : String
  pub message : String
  pub retryable : Bool
  pub request_phase : Option ModelRequestPhase

-- ModelStreamEvent; `progress` stands for the events that the session skips, and `configured` for a
-- call of `onRequestConfigured` that the port makes and awaits.
pub data StreamEvent : Type 0 where
  text_delta thinking_delta : String → StreamEvent
  tool_call : ToolCallRequest → StreamEvent
  progress : StreamEvent
  configured : Json → StreamEvent
  completed : StopReason → Usage → StreamEvent
  failed : ModelStreamError → StreamEvent
  aborted : StreamEvent

-- A stream ends by itself, or the port throws.
pub data Ending : Type 0 where
  ends : Ending
  throws : (message : String) → Ending

pub record Stream : Type 0 where
  pub events : List StreamEvent
  pub ending : Ending

-- What `executeTool` meets: no tool of the name, a result, or an error, which may be a
-- SandboxViolationError with its capability and reason.
pub data ToolAnswer : Type 0 where
  unregistered : ToolAnswer
  returned : (content : List Content) (is_error : Bool) (details : Option Json) → ToolAnswer
  threw : (message : String) (violation : Option (String × String)) → ToolAnswer

-- A call of `requestInteraction` or `resolveInteraction` that a tool or its surroundings make while the
-- tool runs, with the operation id that the second may bring.
pub data Interaction : Type 0 where
  requests : (payload : Json) → Interaction
  answers : (operation_id : Option String) (payload : Json) → Interaction

pub data Sleep : Type 0 where
  slept : Sleep
  sleep_failed : (message : String) → Sleep

-- The answers of everything outside the session. Each call is numbered, so that an answer may
-- differ from call to call: the random ids, the clock, `log.append` (none where it throws), the
-- model port, the tools and the interactions while they run, the abort signal, the input that arrived for the queues since the last
-- look at them, the delay that `modelRetryDelay` computes from a random number, and its timer.
pub record World : Type 0 where
  pub session_id : String
  pub ids : ℕ → String
  pub clock : ℕ → ℕ
  pub store : ℕ → CanonicalEvent → Option CanonicalEvent
  -- the message of the error where `log.append` throws
  pub refusal : ℕ → String
  pub model : ℕ → Stream
  pub tool : ℕ → ToolCallRequest → ToolAnswer
  pub interactions : ℕ → ToolCallRequest → List Interaction
  pub is_aborted : ℕ → Bool
  pub steered : ℕ → List (List Content)
  pub followed_up : ℕ → List (List Content)
  pub delay : ℕ → ModelStreamError → (attempt : ℕ) → ℕ
  pub sleep : ℕ → Sleep
  -- `retry.maxAttempts`, or none for `retry: false`
  pub max_attempts : Option ℕ

-- The fields of an AgentSession that change. `observed` is what `onEvent` was given; `appended` is
-- the list of that name of the current turn; `calls` numbers the calls of the world.
pub record AgentSession : Type 0 where
  pub tip : Option String
  pub messages : List ModelMessage
  pub context_usage : Option (ℕ × ℕ)
  pub active_operation : Option String
  pub accepting_queued_messages : Bool
  pub steering_messages : List (List Content)
  pub follow_up_messages : List (List Content)
  pub appended : List CanonicalEvent
  pub observed : List CanonicalEvent
  pub calls : ℕ

-- What a method throws.
pub data Thrown : Type 0 where
  operation_conflict : (active : Option String) → Thrown
  not_stored : Thrown
  no_tool : (name : String) → Thrown
  tool_failed : (message : String) → Thrown
  no_operation not_compacted : Thrown

-- A method: a change of the session that stays when the method throws.
abbrev pub Run {ℓ} : Type ℓ → Type ℓ
Run A = AgentSession → Outcome Thrown A × AgentSession

module _ {ℓ} {A : Type ℓ} where
  abbrev pub return : A → Run A
  return a s = (ok a, s)

  abbrev pub throw : Thrown → Run A
  throw e s = (err e, s)

module _ {ℓ κ} {A : Type ℓ} {B : Type κ} where
  abbrev pub proceed :
      (A → Run B) → Outcome Thrown A × AgentSession → Outcome Thrown B × AgentSession
  proceed next (ok a, s) = next a s
  proceed next (err e, s) = (err e, s)

  infixl 5 ◌>>=◌
  abbrev pub ◌>>=◌ : Run A → (A → Run B) → Run B
  ◌>>=◌ method next s = proceed next (method s)

-- the number of this call of the world
abbrev pub next_call : Run ℕ
next_call s = (ok s.calls, record s { calls = suc s.calls })

abbrev pub push_message : ModelMessage → Run (Unit {0})
push_message message s = (ok tt, record s { messages = s.messages ++ message ∷ [] })

abbrev pub push_appended : CanonicalEvent → Run (Unit {0})
push_appended event s = (ok tt, record s { appended = s.appended ++ event ∷ [] })

-- this.tip = stored.id; this.onEvent?.(stored)
abbrev pub accept_stored : Option CanonicalEvent → Run CanonicalEvent
accept_stored none s = (err not_stored, s)
accept_stored (some stored) s =
    (ok stored, record s { tip = some stored.id; observed = s.observed ++ stored ∷ [] })

-- `event.payload.content`, where the event has one
abbrev pub content_of : Payload → List Content
content_of (user_message content) = content
content_of (Payload.assistant_message content _ _ _) = content
content_of (Payload.tool_result _ _ content _ _) = content
content_of _ = []

module _ (w : World) where
  abbrev pub new_event : Option String → Payload → AgentSession → CanonicalEvent
  new_event operation_id payload s = record {
    id = w.ids s.calls;
    session_id = w.session_id;
    operation_id = operation_id;
    parent_id = s.tip;
    timestamp = w.clock s.calls;
    payload = payload;
  }

  -- append
  unfoldable pub append : Option String → Payload → Run CanonicalEvent
  append operation_id payload s =
      accept_stored (w.store s.calls (new_event operation_id payload s))
        (record s { calls = suc s.calls })

  -- appended.push(await this.append(…))
  unfoldable pub append_pushed : Option String → Payload → Run CanonicalEvent
  unfolding append
  append_pushed operation_id payload = do
    stored ← append operation_id payload
    _ ← push_appended stored
    return stored

  abbrev pub check_aborted : Run Bool
  check_aborted = do n ← next_call; return (w.is_aborted n)

  unfoldable pub append_user_message : String → List Content → Run (Unit {0})
  unfolding append_pushed
  append_user_message operation_id content = do
    stored ← append_pushed (some operation_id) (user_message content)
    push_message (user (content_of stored.payload))

-- the guard of a method that needs the branch for itself
module _ {ℓ} {A : Type ℓ} where
  abbrev pub when_idle : Option String → Run A → Run A
  when_idle none method = method
  when_idle (some active) method = throw (operation_conflict (some active))

  abbrev pub guard_idle : Run A → Run A
  guard_idle method s = when_idle s.active_operation method s

unfoldable pub steer : List Content → Run (Unit {0})
steer content s =
    if s.accepting_queued_messages
    then (ok tt, record s { steering_messages = s.steering_messages ++ content ∷ [] })
    else (err (operation_conflict none), s)

unfoldable pub follow_up : List Content → Run (Unit {0})
follow_up content s =
    if s.accepting_queued_messages
    then (ok tt, record s { follow_up_messages = s.follow_up_messages ++ content ∷ [] })
    else (err (operation_conflict none), s)

-- ===== src/Kernel/AgentSession/Turn.antt =====
-- One turn of a session: `runTurn` with its tool calls and queues, and the other methods that append.
use axl_raja.Prelude.{
  ℕ, zero, suc, ◌+◌, String, Bool, true, false, Option, none, some, List, [], ◌∷◌, ◌++◌, ltb, ok,
  if◌then◌else◌, length, concat,
}
use axl_raja.Protocol.Json.{Json}
use axl_raja.Protocol.Event.{
  Content, text, StopReason, Usage, Payload, assistant_message, tool_result, sandbox_violation,
  session_error, other, CanonicalEvent,
}
use axl_raja.Kernel.Compaction.{ToolCallRequest, assistant, tool}
use axl_raja.Kernel.AgentSession.{
  ModelStreamError, Interaction, requests, answers, append, ToolAnswer, unregistered, returned,
  threw, World, AgentSession, Run, return, ◌>>=◌, next_call, push_message, append_pushed,
  check_aborted, append_user_message, content_of, guard_idle,
}
use axl_raja.Kernel.AgentSession.Model.{TurnOutcome, model_turn}

-- the results of `executeTool`
pub record ToolResult : Type 0 where
  pub content : List Content
  pub is_error : Bool
  pub details : Option Json
  pub violation : Option (String × String)

unfoldable pub tool_result_of : String → ToolAnswer → ToolResult
tool_result_of name unregistered = record {
  content = text (concat ("Tool " ∷ name ∷ " is not registered" ∷ [])) ∷ [];
  is_error = true;
  details = none;
  violation = none;
}
tool_result_of name (returned content is_error details) = record {
  content = content;
  is_error = is_error;
  details = details;
  violation = none;
}
tool_result_of name (threw message violation) = record {
  content = text message ∷ [];
  is_error = true;
  details = none;
  violation = violation;
}

abbrev pub error_message_of : Option ModelStreamError → Option String
error_message_of none = none
error_message_of (some error) = some (concat (error.code ∷ ": " ∷ error.message ∷ []))

-- the tokens of a usage, and the number of messages that they count
abbrev pub context_usage_of : ℕ → Option Usage → Option (ℕ × ℕ) → Option (ℕ × ℕ)
context_usage_of count none old = old
context_usage_of count (some usage) old =
    let tokens =
      usage.input_tokens + usage.output_tokens + usage.cache_read_tokens
      + usage.cache_write_tokens in
    if ltb 0 tokens then some (tokens, count) else old

abbrev pub count_usage : Option Usage → Run (Unit {0})
count_usage usage s =
    (ok tt, record s { context_usage = context_usage_of (length s.messages) usage s.context_usage })

pub data Queue : Type 0 where
  steering follow_ups : Queue

abbrev pub queue_of : Queue → AgentSession → List (List Content)
queue_of steering s = s.steering_messages
queue_of follow_ups s = s.follow_up_messages

abbrev pub with_queue : Queue → List (List Content) → AgentSession → AgentSession
with_queue steering queue s = record s { steering_messages = queue }
with_queue follow_ups queue s = record s { follow_up_messages = queue }

abbrev pub tail {ℓ} : {A : Type ℓ} → List A → List A
tail [] = []
tail (x ∷ xs) = xs

-- queue.shift()
abbrev pub shift : Queue → Run (Unit {0})
shift q s = (ok tt, with_queue q (tail (queue_of q s)) s)

-- What the body of the loop does behind the assistant's message: the turn returns with a stop
-- reason, or the loop goes on.
pub data Round : Type 0 where
  returns : StopReason → Round
  continues : Round

pub record TurnResult : Type 0 where
  pub events : List CanonicalEvent
  pub stop_reason : StopReason

module _ (w : World) where
  abbrev pub arrived : Queue → ℕ → List (List Content)
  arrived steering = w.steered
  arrived follow_ups = w.followed_up

  -- the input that `steer` and `followUp` have queued meanwhile
  abbrev pub receive : Queue → Run (List (List Content))
  receive q s =
      let queue = queue_of q s ++ arrived q s.calls in
      (ok queue, record (with_queue q queue s) { calls = suc s.calls })

  abbrev pub deliver : Queue → String → List (List Content) → Run Bool
  deliver q operation_id [] = return false
  deliver q operation_id (content ∷ rest) = do
    _ ← append_user_message w operation_id content
    _ ← shift q
    return true

  -- appendNextQueuedMessage
  unfoldable pub append_next_queued_message : Queue → String → Run Bool
  unfolding append_user_message
  append_next_queued_message q operation_id = do queue ← receive q; deliver q operation_id queue

  abbrev pub report_violation : String → Option (String × String) → Run (Unit {0})
  report_violation operation_id none = return tt
  report_violation operation_id (some (capability, reason)) = do
    _ ← append_pushed w (some operation_id) (sandbox_violation capability reason)
    return tt

  abbrev pub or_own : String → Option String → Option String
  or_own active none = some active
  or_own active (some operation_id) = some operation_id

  -- requestInteraction and resolveInteraction, whose error the tool meets
  unfoldable pub interact : String → Interaction → AgentSession → AgentSession
  unfolding append
  interact active (requests payload) s =
      (append w (some active) (other "interaction.requested" payload) s).1
  interact active (answers operation_id payload) s =
      (append w (or_own active operation_id) (other "interaction.resolved" payload) s).1

  unfoldable pub interact_all : String → List Interaction → AgentSession → AgentSession
  unfolding interact
  interact_all active [] s = s
  interact_all active (interaction ∷ rest) s =
      interact_all active rest (interact active interaction s)

  abbrev pub interacting : String → List Interaction → Run (Unit {0})
  interacting active interactions s = (ok tt, interact_all active interactions s)

  -- one round of the loop of `executeToolCalls`
  unfoldable pub execute_tool_call : String → ToolCallRequest → Run (Unit {0})
  unfolding append_pushed tool_result_of interact_all
  execute_tool_call operation_id call = do
    _ ← append_pushed w (some operation_id) (Payload.tool_call call.call_id call.name call.input)
    n ← next_call
    _ ← interacting operation_id (w.interactions n call)
    let result = tool_result_of call.name (w.tool n call)
    _ ← report_violation operation_id result.violation
    stored ←
        append_pushed w (some operation_id)
          (tool_result call.call_id call.name result.content result.is_error result.details)
    push_message (tool call.call_id call.name (content_of stored.payload) result.is_error)

  -- executeToolCalls; true says that the signal is aborted
  unfoldable pub execute_tool_calls : String → List ToolCallRequest → Run Bool
  unfolding execute_tool_call
  execute_tool_calls operation_id [] = return false
  execute_tool_calls operation_id (call ∷ calls) = do
    _ ← execute_tool_call operation_id call
    is_aborted ← check_aborted w
    if is_aborted then return true else execute_tool_calls operation_id calls

  -- the assistant's message of a model turn
  unfoldable pub append_assistant_message : String → TurnOutcome → Run (Unit {0})
  unfolding append_pushed
  append_assistant_message operation_id outcome = do
    stored ← append_pushed w (some operation_id) (
        assistant_message outcome.content outcome.stop_reason outcome.usage
          (error_message_of outcome.error))
    push_message (assistant (content_of stored.payload) outcome.tool_calls)

  abbrev pub next_follow_up : String → StopReason → Run Round
  next_follow_up operation_id reason = do
    delivered ← append_next_queued_message follow_ups operation_id
    if delivered then return continues else return (returns reason)

  -- if (outcome.stopReason === "tool_use") continue;
  abbrev pub unless_tool_use : String → StopReason → Run Round
  unless_tool_use operation_id StopReason.tool_use = return continues
  unless_tool_use operation_id reason = next_follow_up operation_id reason

  -- from the look at the steering queue on
  abbrev pub next_input : String → StopReason → Run Round
  next_input operation_id reason = do
    delivered ← append_next_queued_message steering operation_id
    if delivered then return continues else unless_tool_use operation_id reason

  abbrev pub after_tools : String → Bool → Run Round
  after_tools operation_id true = return continues
  after_tools operation_id false = next_input operation_id StopReason.tool_use

  abbrev pub use_tools : String → List ToolCallRequest → Run Round
  use_tools operation_id [] = do
    _ ← append_pushed w (some operation_id) (
        session_error "missing_tool_call" "Model ended with tool_use but supplied no tool call"
          false)
    return (returns StopReason.error)
  use_tools operation_id (call ∷ calls) = do
    is_aborted ← execute_tool_calls operation_id (call ∷ calls)
    after_tools operation_id is_aborted

  -- the tests of the stop reason, in their order
  unfoldable pub follow_outcome : String → TurnOutcome → StopReason → Run Round
  unfolding append_pushed execute_tool_calls append_next_queued_message
  follow_outcome operation_id outcome StopReason.error = return (returns StopReason.error)
  follow_outcome operation_id outcome StopReason.aborted = return (returns StopReason.aborted)
  follow_outcome operation_id outcome StopReason.tool_use = do
    _ ← count_usage outcome.usage
    use_tools operation_id outcome.tool_calls
  follow_outcome operation_id outcome reason = do
    _ ← count_usage outcome.usage
    next_input operation_id reason

  -- the body of the loop of `runTurn`
  unfoldable pub run_round : String → Run Round
  unfolding model_turn append_assistant_message follow_outcome
  run_round operation_id = do
    outcome ← model_turn w operation_id
    _ ← append_assistant_message operation_id outcome
    follow_outcome operation_id outcome outcome.stop_reason

  abbrev pub loop_or_return : Run (Option StopReason) → Round → Run (Option StopReason)
  loop_or_return rest (returns reason) = return (some reason)
  loop_or_return rest continues = rest

  -- the loop of `runTurn`; none says that the fuel ran out
  unfoldable pub rounds : ℕ → String → Run (Option StopReason)
  unfolding run_round
  rounds zero operation_id = return none
  rounds (suc fuel) operation_id = do
    next ← run_round operation_id
    loop_or_return (rounds fuel operation_id) next

  abbrev pub turn_result : Option StopReason → Run (Option TurnResult)
  turn_result none s = (ok none, s)
  turn_result (some reason) s =
      (ok (some (record { events = s.appended; stop_reason = reason })), s)

  -- the `try` block of `runTurn`
  unfoldable pub turn_body : ℕ → String → List Content → Run (Option TurnResult)
  unfolding append_user_message rounds
  turn_body fuel operation_id content = do
    _ ← append_user_message w operation_id content
    reason ← rounds fuel operation_id
    turn_result reason

  -- the `finally` block
  abbrev pub release {ℓ} : {A : Type ℓ} → A × AgentSession → A × AgentSession
  release (result, s) =
      (result, record s { accepting_queued_messages = false; active_operation = none })

  -- before the `try` block
  abbrev pub begin : String → AgentSession → AgentSession
  begin operation_id s = record s {
    active_operation = some operation_id;
    accepting_queued_messages = true;
    appended = [];
  }

  -- runTurn; `fuel` bounds the rounds of its loop
  unfoldable pub run_turn : ℕ → String → List Content → Run (Option TurnResult)
  unfolding turn_body
  run_turn fuel operation_id content =
      guard_idle λ s. release (turn_body fuel operation_id content (begin operation_id s))

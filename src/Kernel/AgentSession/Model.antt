-- ===== src/Kernel/AgentSession/Model.antt =====
-- One model turn: `modelAttempt`, and the retries of `modelTurn`.
use axl_raja.Prelude.{
  ℕ, zero, suc, ◌-◌, String, Bool, true, false, not, ◌&&◌, Option, none, some, List, [], ◌∷◌, ◌++◌,
  ◌==◌, Outcome, ok, err, if◌then◌else◌, concat,
}
use axl_raja.Protocol.Event.{
  Content, text, thinking, StopReason, Usage, request_configured, retry_scheduled, CanonicalEvent,
}
use axl_raja.Kernel.Compaction.{ToolCallRequest}
use axl_raja.Kernel.AgentSession.{
  ModelRequestPhase, before_dispatch, ModelStreamError, StreamEvent, text_delta, thinking_delta,
  tool_call, progress, configured, completed, failed, aborted, Ending, ends, throws, Sleep, slept,
  sleep_failed, World, Thrown, AgentSession, Run, return, ◌>>=◌, next_call, check_aborted,
  append_pushed,
}

-- the locals of `modelAttempt`
pub record Output : Type 0 where
  pub thinking : String
  pub text : String
  pub tool_calls : List ToolCallRequest
  pub exposed_output : Bool

pub data Terminal : Type 0 where
  completes : StopReason → Usage → Terminal
  fails : ModelStreamError → Terminal
  aborts : Terminal

-- how the loop over the stream was left
pub data Left : Type 0 where
  terminal : Terminal → Left
  truncated : Left
  thrown : (message : String) → Left

pub record TurnOutcome : Type 0 where
  pub content : List Content
  pub tool_calls : List ToolCallRequest
  pub stop_reason : StopReason
  pub usage : Option Usage
  pub error : Option ModelStreamError
  pub exposed_output : Bool

abbrev pub no_output : Output
no_output = record { thinking = ""; text = ""; tool_calls = []; exposed_output = false }

abbrev pub left_by : Ending → Left
left_by ends = truncated
left_by (throws message) = thrown message

-- The callback's error reaches the port, which throws it.
abbrev pub or_thrown :
    (message : String)
    → Output
    → Run (Output × Left)
    → Outcome Thrown CanonicalEvent × AgentSession
    → Outcome Thrown (Output × Left) × AgentSession
or_thrown message output rest (ok _, s) = rest s
or_thrown message output rest (err _, s) = (ok (output, thrown message), s)

module _ (w : World) (operation_id : String) where
  -- the loop over the stream
  unfoldable pub consume : List StreamEvent → Ending → Output → Run (Output × Left)
  unfolding append_pushed
  consume [] ending output = return (output, left_by ending)
  consume (text_delta delta ∷ events) ending output =
      consume events ending
        (record output { exposed_output = true; text = concat (output.text ∷ delta ∷ []) })
  consume (thinking_delta delta ∷ events) ending output =
      consume events ending
        (record output { exposed_output = true; thinking = concat (output.thinking ∷ delta ∷ []) })
  consume (tool_call call ∷ events) ending output =
      consume events ending
        (record output { exposed_output = true; tool_calls = output.tool_calls ++ call ∷ [] })
  consume (progress ∷ events) ending output = consume events ending output
  consume (configured configuration ∷ events) ending output = λ s.
      or_thrown (w.refusal s.calls) output (consume events ending output)
        (append_pushed w (some operation_id) (request_configured configuration) s)
  consume (completed reason usage ∷ events) ending output =
      return (output, terminal (completes reason usage))
  consume (failed error ∷ events) ending output = return (output, terminal (fails error))
  consume (aborted ∷ events) ending output = return (output, terminal aborts)

abbrev pub port_failure : (code message : String) → ModelStreamError
port_failure code message = record {
  code = code;
  message = message;
  retryable = false;
  request_phase = none;
}

-- what stands for the terminal event where the stream has none
unfoldable pub terminal_of : Left → (is_aborted : Bool) → Terminal
terminal_of (terminal t) is_aborted = t
terminal_of truncated is_aborted =
    if is_aborted
    then aborts
    else fails (port_failure "model_stream_truncated" "model stream ended without a terminal event")
terminal_of (thrown message) is_aborted =
    if is_aborted then aborts else fails (port_failure "model_port_failure" message)

abbrev pub needs_check : Left → Bool
needs_check (terminal t) = false
needs_check _ = true

unfoldable pub content_blocks : Output → List Content
content_blocks output =
    (if output.thinking == "" then [] else thinking output.thinking ∷ [])
    ++ (if output.text == "" then [] else text output.text ∷ [])

unfoldable pub outcome_of : Output → Terminal → TurnOutcome
unfolding content_blocks
outcome_of output (completes reason usage) = record {
  content = content_blocks output;
  tool_calls = output.tool_calls;
  stop_reason = reason;
  usage = some usage;
  error = none;
  exposed_output = output.exposed_output;
}
outcome_of output aborts = record {
  content = content_blocks output;
  tool_calls = [];
  stop_reason = StopReason.aborted;
  usage = none;
  error = none;
  exposed_output = output.exposed_output;
}
outcome_of output (fails error) = record {
  content = content_blocks output;
  tool_calls = [];
  stop_reason = StopReason.error;
  usage = none;
  error = some error;
  exposed_output = output.exposed_output;
}

abbrev pub nothing : StopReason → Option ModelStreamError → TurnOutcome
nothing reason error = record {
  content = [];
  tool_calls = [];
  stop_reason = reason;
  usage = none;
  error = error;
  exposed_output = false;
}

abbrev pub is_known_phase : Option ModelRequestPhase → Bool
is_known_phase none = false
is_known_phase (some ModelRequestPhase.unknown) = false
is_known_phase (some _) = true

-- the error that may be tried again; the number of attempts is the caller's test
unfoldable pub retryable_error : TurnOutcome → Option ModelStreamError
retryable_error outcome = elim outcome.error [
  | none ↦ none
  | some error ↦
      if error.retryable && is_known_phase error.request_phase && not outcome.exposed_output
      then some error
      else none
]

module _ (w : World) (operation_id : String) where
  unfoldable pub model_attempt : Run TurnOutcome
  unfolding consume terminal_of outcome_of
  model_attempt = do
    n ← next_call
    (output, left) ← consume w operation_id (w.model n).events (w.model n).ending no_output
    is_aborted ← (if needs_check left then check_aborted w else return false)
    return (outcome_of output (terminal_of left is_aborted))

  -- after `retrySleep`, in the `try` and behind it
  unfoldable pub after_sleep : Sleep → Bool → Option TurnOutcome
  after_sleep slept true = some (nothing StopReason.aborted none)
  after_sleep slept false = none
  after_sleep (sleep_failed message) true = some (nothing StopReason.aborted none)
  after_sleep (sleep_failed message) false = some (
      nothing StopReason.error (
        some (record {
          code = "retry_scheduler_failed";
          message = message;
          retryable = false;
          request_phase = some before_dispatch;
        })))

  abbrev pub or_next : Run TurnOutcome → Option TurnOutcome → Run TurnOutcome
  or_next rest none = rest
  or_next rest (some outcome) = return outcome

  -- `retry_scheduled`, the sleep and what follows it
  unfoldable pub schedule_retry :
      (attempt max_attempts : ℕ) → ModelStreamError → Run (Option TurnOutcome)
  unfolding append_pushed after_sleep
  schedule_retry attempt max_attempts error = do
    n ← next_call
    let payload = retry_scheduled (suc attempt) max_attempts (w.delay n error attempt) error.code
    _ ← append_pushed w (some operation_id) payload
    m ← next_call
    is_aborted ← check_aborted w
    return (after_sleep (w.sleep m) is_aborted)

  abbrev pub retry_or_return :
      (Run TurnOutcome)
      → (attempt max_attempts : ℕ) → TurnOutcome
      → Option ModelStreamError
      → Run TurnOutcome
  retry_or_return rest attempt max_attempts outcome none = return outcome
  retry_or_return rest attempt max_attempts outcome (some error) = do
    stopped ← schedule_retry attempt max_attempts error
    or_next rest stopped

  -- The loop of `modelTurn`, for the attempts that are left behind this one.
  unfoldable pub attempt_from : (left attempt max_attempts : ℕ) → Run TurnOutcome
  unfolding model_attempt retryable_error schedule_retry
  attempt_from zero attempt max_attempts = model_attempt
  attempt_from (suc left) attempt max_attempts = do
    outcome ← model_attempt
    retry_or_return (attempt_from left (suc attempt) max_attempts) attempt max_attempts outcome
        (retryable_error outcome)

  abbrev pub attempts_behind_first : Option ℕ → ℕ
  attempts_behind_first none = 0
  attempts_behind_first (some max_attempts) = max_attempts - 1

  abbrev pub or_one : Option ℕ → ℕ
  or_one none = 1
  or_one (some max_attempts) = max_attempts

  unfoldable pub model_turn : Run TurnOutcome
  unfolding attempt_from
  model_turn = do
    is_aborted ← check_aborted w
    if is_aborted
        then return (nothing StopReason.aborted none)
        else attempt_from (attempts_behind_first w.max_attempts) 1 (or_one w.max_attempts)

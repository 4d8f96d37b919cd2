-- ===== src/Kernel/AgentSession/Commands.antt =====
-- The other methods that change a session, and runs of several. Not modelled: `dispose`.
use axl_raja.Prelude.{
  ℕ, String, Bool, true, false, Option, none, some, List, [], ◌∷◌, ok, concat, keep, if◌then◌else◌,
}
use axl_raja.Protocol.Event.{
  Content, text, blob, StopReason, Payload, user_shell, assistant_message, context_injected,
  CanonicalEvent,
}
use axl_raja.Kernel.Compaction.{ToolCallRequest, user}
use axl_raja.Kernel.AgentSession.{
  ToolAnswer, unregistered, returned, threw, World, AgentSession, no_tool, tool_failed,
  no_operation, not_compacted, Run, return, throw, ◌>>=◌, next_call, push_message, append,
  append_user_message, guard_idle, steer, follow_up,
}
use axl_raja.Kernel.AgentSession.Turn.{run_turn}
use axl_raja.Kernel.AgentSession.Compacting.{CompactInput, compact_owned}

-- the filter, the map and the join of `shellModelContent`
abbrev pub texts_of : List Content → List String
texts_of [] = []
texts_of (text t ∷ content) = t ∷ texts_of content
texts_of (_ ∷ content) = texts_of content

abbrev pub is_blob : Content → Bool
is_blob (blob _) = true
is_blob _ = false

unfoldable pub shell_model_content : String → List Content → List Content
shell_model_content command content =
    text (concat ("[shell]\n$ " ∷ command ∷ "\n" ∷ concat (texts_of content) ∷ []))
    ∷ keep is_blob content

-- the `try` and `finally` of a method that owns the branch
abbrev pub own {ℓ} : {A : Type ℓ} → String → Run A → Run A
own operation_id method s =
    let (outcome, s') = method (record s { active_operation = some operation_id }) in
    (outcome, record s' { active_operation = none })

abbrev pub push_shell : (excluded : Bool) → String → Payload → Run (Unit {0})
push_shell false command (user_shell _ content _ _) =
    push_message (user (shell_model_content command content))
push_shell _ command _ = return tt

-- `const queue = … ; queue.shift()`
abbrev pub shift_queued : List (List Content) → List (List Content) → Run (Option (List Content))
shift_queued (content ∷ rest) _ s = (ok (some content), record s { steering_messages = rest })
shift_queued [] (content ∷ rest) s = (ok (some content), record s { follow_up_messages = rest })
shift_queued [] [] s = (ok none, s)

module _ (w : World) where
  unfoldable pub inject_context : (source content : String) → Run CanonicalEvent
  unfolding append
  inject_context source content = guard_idle do
    event ← append w none (context_injected source content)
    _ ← push_message (user (text (concat ("[" ∷ source ∷ "]\n" ∷ content ∷ [])) ∷ []))
    return event

  abbrev pub run_queued : ℕ → String → Option (List Content) → Run (Unit {0})
  run_queued fuel operation_id none = return tt
  run_queued fuel operation_id (some content) = do
    _ ← run_turn w fuel operation_id content
    return tt

  unfoldable pub continue_queued : ℕ → String → Run (Unit {0})
  unfolding run_turn
  continue_queued fuel operation_id s =
      (shift_queued s.steering_messages s.follow_up_messages >>= run_queued fuel operation_id) s

  -- the answer of `shell.execute`, in the `try` block
  abbrev pub record_shell : String → String → (excluded : Bool) → ToolAnswer → Run (Unit {0})
  record_shell operation_id command excluded unregistered = throw (no_tool "bash")
  record_shell operation_id command excluded (threw message _) = throw (tool_failed message)
  record_shell operation_id command excluded (returned content is_error _) = do
    event ← append w (some operation_id) (user_shell command content is_error excluded)
    push_shell excluded command event.payload

  -- runShell; `unregistered` says that the session has no tool bash
  unfoldable pub run_shell : String → String → (excluded : Bool) → ToolCallRequest → Run (Unit {0})
  unfolding append shell_model_content
  run_shell operation_id command excluded call = guard_idle do
    n ← next_call
    own operation_id (record_shell operation_id command excluded (w.tool n call))

  unfoldable pub abort_recovered_turn : String → Run CanonicalEvent
  unfolding append
  abort_recovered_turn operation_id = guard_idle (
      append w (some operation_id) (
        assistant_message [] StopReason.aborted none
          (some "Operation was aborted because the daemon restarted before recording completion.")))

  unfoldable pub abort_recovered_delivery : String → List Content → Run CanonicalEvent
  unfolding append_user_message abort_recovered_turn
  abort_recovered_delivery operation_id content =
      guard_idle
        do _ ← append_user_message w operation_id content; abort_recovered_turn operation_id

  -- `close` and `rename`, whose payloads the session does not read
  unfoldable pub append_idle : String → Payload → Run CanonicalEvent
  unfolding append
  append_idle operation_id payload = guard_idle (append w (some operation_id) payload)

  abbrev pub or_throw_idle : Option String → Payload → Option String → Run CanonicalEvent
  or_throw_idle operation_id payload none = throw no_operation
  or_throw_idle none payload (some active) = append w (some active) payload
  or_throw_idle (some operation_id) payload (some active) = append w (some operation_id) payload

  -- requestInteraction, and resolveInteraction with its own operation id
  unfoldable pub append_active : Option String → Payload → Run CanonicalEvent
  unfolding append
  append_active operation_id payload s = or_throw_idle operation_id payload s.active_operation s

module _ (w : World) where
  abbrev pub compact_idle : String → CompactInput → Run CanonicalEvent
  compact_idle operation_id input =
      if input.has_empty_instructions
      then throw not_compacted
      else own operation_id (compact_owned w operation_id input)

  -- compact
  unfoldable pub compact : String → CompactInput → Run CanonicalEvent
  unfolding compact_owned
  compact operation_id input = guard_idle (compact_idle operation_id input)

-- A call of a method, with what its caller chooses.
pub data Command : Type 0 where
  run_turn_with : (fuel : ℕ) (operation_id : String) (content : List Content) → Command
  continue_with : (fuel : ℕ) (operation_id : String) → Command
  inject_with : (source content : String) → Command
  run_shell_with :
      (operation_id command : String) (excluded : Bool) (call : ToolCallRequest) → Command
  abort_turn_with : (operation_id : String) → Command
  abort_delivery_with : (operation_id : String) (content : List Content) → Command
  append_idle_with append_any_with : (operation_id : String) (payload : Payload) → Command
  append_active_with : (operation_id : Option String) (payload : Payload) → Command
  compact_with : (operation_id : String) (input : CompactInput) → Command
  steer_with follow_up_with : (content : List Content) → Command

-- The session behind an awaited call, whether it returns or throws.
unfoldable pub carry_out : World → Command → AgentSession → AgentSession
unfolding run_turn continue_queued inject_context run_shell abort_recovered_turn
    abort_recovered_delivery append_idle append_active append steer follow_up compact
carry_out w (run_turn_with fuel operation_id content) s = (run_turn w fuel operation_id content s).1
carry_out w (continue_with fuel operation_id) s = (continue_queued w fuel operation_id s).1
carry_out w (inject_with source content) s = (inject_context w source content s).1
carry_out w (run_shell_with operation_id command excluded call) s =
    (run_shell w operation_id command excluded call s).1
carry_out w (abort_turn_with operation_id) s = (abort_recovered_turn w operation_id s).1
carry_out w (abort_delivery_with operation_id content) s =
    (abort_recovered_delivery w operation_id content s).1
carry_out w (append_idle_with operation_id payload) s = (append_idle w operation_id payload s).1
-- recordQueueEvent, recordInterruptEvent and recordSessionError
carry_out w (append_any_with operation_id payload) s = (append w (some operation_id) payload s).1
carry_out w (append_active_with operation_id payload) s = (append_active w operation_id payload s).1
carry_out w (compact_with operation_id input) s = (compact w operation_id input s).1
carry_out w (steer_with content) s = (steer content s).1
carry_out w (follow_up_with content) s = (follow_up content s).1

unfoldable pub carry_out_all : World → List Command → AgentSession → AgentSession
unfolding carry_out
carry_out_all w [] s = s
carry_out_all w (command ∷ commands) s = carry_out_all w commands (carry_out w command s)

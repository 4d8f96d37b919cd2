-- ===== src/Kernel/AgentSession/Invariants.antt =====
-- A property of a session that every append keeps, and that reads only the tip, the observed and the
-- appended events and the number of calls, is kept by the parts of a turn, whether they return or
-- throw.
use axl_raja.Prelude.{
  ℕ, zero, suc, ◌≤◌, String, Bool, true, false, Option, none, some, List, [], ◌∷◌, ◌≡◌, refl,
  Outcome, ok, err, arith, if◌then◌else◌,
}
use axl_raja.Protocol.Event.{Content, StopReason, Payload, CanonicalEvent}
use axl_raja.Kernel.Compaction.{ToolCallRequest}
use axl_raja.Kernel.AgentSession.{
  ModelStreamError, StreamEvent, text_delta, thinking_delta, tool_call, progress, configured,
  completed, failed, aborted, Ending, World, AgentSession, Thrown, Run, return, proceed, next_call,
  append, Interaction, requests, answers, append_pushed, check_aborted, append_user_message,
  when_idle,
}
use axl_raja.Kernel.AgentSession.Model.{
  Output, Left, consume, or_thrown, model_attempt, needs_check, schedule_retry, or_next,
  retry_or_return, attempt_from, model_turn, attempts_behind_first, or_one, TurnOutcome,
  retryable_error, no_output, nothing,
}
use axl_raja.Kernel.AgentSession.Turn.{
  Queue, steering, follow_ups, append_next_queued_message, receive, deliver, report_violation,
  interact, interact_all, execute_tool_call, execute_tool_calls, append_assistant_message, Round,
  returns, continues, next_follow_up, unless_tool_use, next_input, after_tools, use_tools,
  follow_outcome, run_round, loop_or_return, rounds, turn_body, run_turn, release, begin,
  tool_result_of, count_usage, shift, turn_result,
}

abbrev pub Keeps {ℓ} : {A : Type ℓ} → (AgentSession → Type 0) → Run A → Type 0
Keeps I method = (s : AgentSession) → I s → I (method s).1

pub record IsInvariant (w : World) (I : AgentSession → Type 0) : Type 0 where
  pub kept_by_append :
      (operation_id : Option String) (payload : Payload)
      → Keeps I (append_pushed w operation_id payload)
  pub kept_by_event :
      (operation_id : Option String) (payload : Payload) → Keeps I (append w operation_id payload)
  pub framed :
      (s s' : AgentSession)
      → s'.tip ≡ s.tip
      → s'.observed ≡ s.observed
      → s'.appended ≡ s.appended
      → s.calls ≤ s'.calls
      → I s
      → I s'

module _ {ℓ κ} {A : Type ℓ} {B : Type κ} (I : AgentSession → Type 0) where
  pub proceed-Keeps :
      (next : A → Run B) (r : Outcome Thrown A × AgentSession)
      → I r.1
      → ((a : A) → Keeps I (next a))
      → I (proceed next r).1
  proceed-Keeps next (ok a, s) i keeps = keeps a s i
  proceed-Keeps next (err e, s) i keeps = i

pub when_idle-Keeps {ℓ} :
    {A : Type ℓ} (I : AgentSession → Type 0) (active : Option String) (method : Run A)
    (s : AgentSession)
    → I s
    → I (method s).1
    → I (when_idle active method s).1
when_idle-Keeps I none method s i kept = kept
when_idle-Keeps I (some active) method s i kept = i

module _ (w : World) (I : AgentSession → Type 0) (inv : IsInvariant w I) where
  pub append_user_message-Keeps :
      (operation_id : String) (content : List Content)
      → Keeps I (append_user_message w operation_id content)
  unfolding append_user_message
  append_user_message-Keeps op content s i =
      proceed-Keeps I _ (append_pushed w (some op) _ s) (inv.kept_by_append (some op) _ s i)
        λ stored t j. inv.framed t _ refl refl refl (omega arith) j

  or_thrown-Keeps :
      (message : String) (output : Output) (rest : Run (Output × Left))
      (r : Outcome Thrown CanonicalEvent × AgentSession)
      → I r.1
      → Keeps I rest
      → I (or_thrown message output rest r).1
  or_thrown-Keeps message output rest (ok e, s) i keeps = keeps s i
  or_thrown-Keeps message output rest (err e, s) i keeps = i

  consume-Keeps :
      (operation_id : String) (events : List StreamEvent) (ending : Ending) (output : Output)
      → Keeps I (consume w operation_id events ending output)
  unfolding consume
  consume-Keeps op [] ending output s i = i
  consume-Keeps op (text_delta d ∷ events) ending output s i = consume-Keeps op events ending _ s i
  consume-Keeps op (thinking_delta d ∷ events) ending output s i =
      consume-Keeps op events ending _ s i
  consume-Keeps op (tool_call c ∷ events) ending output s i = consume-Keeps op events ending _ s i
  consume-Keeps op (progress ∷ events) ending output s i = consume-Keeps op events ending output s i
  consume-Keeps op (configured c ∷ events) ending output s i =
      or_thrown-Keeps (w.refusal s.calls) output (consume w op events ending output)
        (append_pushed w (some op) _ s) (inv.kept_by_append (some op) _ s i)
        (consume-Keeps op events ending output)
  consume-Keeps op (completed r u ∷ events) ending output s i = i
  consume-Keeps op (failed e ∷ events) ending output s i = i
  consume-Keeps op (aborted ∷ events) ending output s i = i

  pub check_aborted-Keeps : Keeps I (check_aborted w)
  check_aborted-Keeps s i = inv.framed s _ refl refl refl (omega arith) i

  pub unless_false-Keeps :
      {A : Type 0} (b : Bool) (m n : Run A) → Keeps I m → Keeps I n → Keeps I (if b then m else n)
  unless_false-Keeps true m n kept kept' = kept
  unless_false-Keeps false m n kept kept' = kept'

  model_attempt-Keeps : (operation_id : String) → Keeps I (model_attempt w operation_id)
  unfolding model_attempt
  model_attempt-Keeps op s i =
      proceed-Keeps I _
        (consume w op (w.model s.calls).events (w.model s.calls).ending no_output (next_call s).1)
        (consume-Keeps op (w.model s.calls).events (w.model s.calls).ending no_output
          (next_call s).1 (check_aborted-Keeps s i))
        λ (output, left) t j.
          proceed-Keeps I _ ((if needs_check left then check_aborted w else return false) t)
            (unless_false-Keeps (needs_check left) (check_aborted w) (return false)
              check_aborted-Keeps (λ u k. k) t j)
            λ b u k. k

  schedule_retry-Keeps :
      (operation_id : String) (attempt max_attempts : ℕ) (error : ModelStreamError)
      → Keeps I (schedule_retry w operation_id attempt max_attempts error)
  unfolding schedule_retry
  schedule_retry-Keeps op attempt max_attempts error s i =
      proceed-Keeps I _ (append_pushed w (some op) _ (next_call s).1)
        (inv.kept_by_append (some op) _ (next_call s).1 (check_aborted-Keeps s i))
        λ stored t j. inv.framed t _ refl refl refl (omega arith) j

  or_next-Keeps :
      (operation_id : String) (rest : Run TurnOutcome) (stopped : Option TurnOutcome)
      → Keeps I rest
      → Keeps I (or_next w operation_id rest stopped)
  or_next-Keeps op rest none keeps = keeps
  or_next-Keeps op rest (some outcome) keeps = λ s i. i

  retry_or_return-Keeps :
      (operation_id : String) (rest : Run TurnOutcome) (attempt max_attempts : ℕ)
      (outcome : TurnOutcome) (error : Option ModelStreamError)
      → Keeps I rest
      → Keeps I (retry_or_return w operation_id rest attempt max_attempts outcome error)
  retry_or_return-Keeps op rest attempt max_attempts outcome none keeps s i = i
  retry_or_return-Keeps op rest attempt max_attempts outcome (some error) keeps s i =
      proceed-Keeps I _ (schedule_retry w op attempt max_attempts error s)
        (schedule_retry-Keeps op attempt max_attempts error s i)
        λ stopped. or_next-Keeps op rest stopped keeps

  pub attempt_from-Keeps :
      (operation_id : String) (left attempt max_attempts : ℕ)
      → Keeps I (attempt_from w operation_id left attempt max_attempts)
  unfolding attempt_from
  attempt_from-Keeps op zero attempt max_attempts s i = model_attempt-Keeps op s i
  attempt_from-Keeps op (suc left) attempt max_attempts s i =
      proceed-Keeps I _ (model_attempt w op s) (model_attempt-Keeps op s i) λ outcome t j.
        retry_or_return-Keeps op (attempt_from w op left (suc attempt) max_attempts) attempt
          max_attempts outcome (retryable_error outcome)
          (attempt_from-Keeps op left (suc attempt) max_attempts) t j

  model_turn-Keeps : (operation_id : String) → Keeps I (model_turn w operation_id)
  unfolding model_turn
  model_turn-Keeps op s i =
      let behind = attempts_behind_first w op w.max_attempts in
      let all = or_one w op w.max_attempts in
      unless_false-Keeps (w.is_aborted s.calls) (return (nothing StopReason.aborted none))
        (attempt_from w op behind 1 all) (λ t j. j) (attempt_from-Keeps op behind 1 all)
        (check_aborted w s).1 (check_aborted-Keeps s i)

  shift-Keeps : (q : Queue) → Keeps I (shift q)
  shift-Keeps steering s i = inv.framed s _ refl refl refl (omega arith) i
  shift-Keeps follow_ups s i = inv.framed s _ refl refl refl (omega arith) i

  receive-Keeps : (q : Queue) → Keeps I (receive w q)
  receive-Keeps steering s i = inv.framed s _ refl refl refl (omega arith) i
  receive-Keeps follow_ups s i = inv.framed s _ refl refl refl (omega arith) i

  deliver-Keeps :
      (q : Queue) (operation_id : String) (queue : List (List Content))
      → Keeps I (deliver w q operation_id queue)
  deliver-Keeps q op [] s i = i
  deliver-Keeps q op (content ∷ rest) s i =
      proceed-Keeps I _ (append_user_message w op content s)
        (append_user_message-Keeps op content s i) λ _. shift-Keeps q

  append_next_queued_message-Keeps :
      (q : Queue) (operation_id : String) → Keeps I (append_next_queued_message w q operation_id)
  unfolding append_next_queued_message
  append_next_queued_message-Keeps q op s i =
      proceed-Keeps I (λ queue. deliver w q op queue) (receive w q s) (receive-Keeps q s i)
        λ queue t j. deliver-Keeps q op queue t j

  report_violation-Keeps :
      (operation_id : String) (violation : Option (String × String))
      → Keeps I (report_violation w operation_id violation)
  report_violation-Keeps op none s i = i
  report_violation-Keeps op (some (capability, reason)) s i =
      proceed-Keeps I _ (append_pushed w (some op) _ s) (inv.kept_by_append (some op) _ s i)
        λ _ t j. j

  interact_all-Keeps :
      (operation_id : String) (interactions : List Interaction) (s : AgentSession)
      → I s
      → I (interact_all w operation_id interactions s)
  unfolding interact_all interact
  interact_all-Keeps op [] s i = i
  interact_all-Keeps op (requests payload ∷ rest) s i =
      interact_all-Keeps op rest _ (inv.kept_by_event _ _ s i)
  interact_all-Keeps op (answers id payload ∷ rest) s i =
      interact_all-Keeps op rest _ (inv.kept_by_event _ _ s i)

  execute_tool_call-Keeps :
      (operation_id : String) (call : ToolCallRequest)
      → Keeps I (execute_tool_call w operation_id call)
  unfolding execute_tool_call
  execute_tool_call-Keeps op call s i =
      proceed-Keeps I _ (append_pushed w (some op) _ s) (inv.kept_by_append (some op) _ s i)
        λ _ t j.
          let u = interact_all w op (w.interactions t.calls call) (next_call t).1 in
          let result = tool_result_of call.name (w.tool t.calls call) in
          proceed-Keeps I _ (report_violation w op result.violation u)
            (report_violation-Keeps op result.violation u (
              interact_all-Keeps op (w.interactions t.calls call) (next_call t).1
                (check_aborted-Keeps t j)))
            λ _ u k.
              proceed-Keeps I _ (append_pushed w (some op) _ u) (inv.kept_by_append (some op) _ u k)
                λ stored v l. inv.framed v _ refl refl refl (omega arith) l

  execute_tool_calls-Keeps :
      (operation_id : String) (calls : List ToolCallRequest)
      → Keeps I (execute_tool_calls w operation_id calls)
  unfolding execute_tool_calls
  execute_tool_calls-Keeps op [] s i = i
  execute_tool_calls-Keeps op (call ∷ calls) s i =
      proceed-Keeps I _ (execute_tool_call w op call s) (execute_tool_call-Keeps op call s i)
        λ _ t j.
          proceed-Keeps I
            (λ stopped. if stopped then return true else execute_tool_calls w op calls)
            (check_aborted w t) (check_aborted-Keeps t j)
            λ stopped.
              unless_false-Keeps stopped (return true) (execute_tool_calls w op calls) (λ u k. k)
                (execute_tool_calls-Keeps op calls)

  pub append_assistant_message-Keeps :
      (operation_id : String) (outcome : TurnOutcome)
      → Keeps I (append_assistant_message w operation_id outcome)
  unfolding append_assistant_message
  append_assistant_message-Keeps op outcome s i =
      proceed-Keeps I _ (append_pushed w (some op) _ s) (inv.kept_by_append (some op) _ s i)
        λ stored t j. inv.framed t _ refl refl refl (omega arith) j

  next_follow_up-Keeps :
      (operation_id : String) (reason : StopReason) → Keeps I (next_follow_up w operation_id reason)
  next_follow_up-Keeps op reason s i =
      proceed-Keeps I _ (append_next_queued_message w follow_ups op s)
        (append_next_queued_message-Keeps follow_ups op s i)
        λ delivered. unless_false-Keeps delivered _ _ (λ t j. j) λ t j. j

  unless_tool_use-Keeps :
      (operation_id : String) (reason : StopReason)
      → Keeps I (unless_tool_use w operation_id reason)
  unless_tool_use-Keeps op StopReason.tool_use = λ s i. i
  unless_tool_use-Keeps op reason = next_follow_up-Keeps op reason

  next_input-Keeps :
      (operation_id : String) (reason : StopReason) → Keeps I (next_input w operation_id reason)
  next_input-Keeps op reason s i =
      proceed-Keeps I _ (append_next_queued_message w steering op s)
        (append_next_queued_message-Keeps steering op s i)
        λ delivered. unless_false-Keeps delivered _ _ (λ t j. j) (unless_tool_use-Keeps op reason)

  after_tools-Keeps :
      (operation_id : String) (stopped : Bool) → Keeps I (after_tools w operation_id stopped)
  after_tools-Keeps op true = λ s i. i
  after_tools-Keeps op false = next_input-Keeps op StopReason.tool_use

  use_tools-Keeps :
      (operation_id : String) (calls : List ToolCallRequest)
      → Keeps I (use_tools w operation_id calls)
  use_tools-Keeps op [] s i =
      proceed-Keeps I _ (append_pushed w (some op) _ s) (inv.kept_by_append (some op) _ s i)
        λ _ t j. j
  use_tools-Keeps op (call ∷ calls) s i =
      proceed-Keeps I _ (execute_tool_calls w op (call ∷ calls) s)
        (execute_tool_calls-Keeps op (call ∷ calls) s i) λ stopped. after_tools-Keeps op stopped

  pub follow_outcome-Keeps :
      (operation_id : String) (outcome : TurnOutcome) (reason : StopReason)
      → Keeps I (follow_outcome w operation_id outcome reason)
  unfolding follow_outcome
  follow_outcome-Keeps op outcome StopReason.error s i = i
  follow_outcome-Keeps op outcome StopReason.aborted s i = i
  follow_outcome-Keeps op outcome StopReason.tool_use s i =
      use_tools-Keeps op outcome.tool_calls _
        (inv.framed s (count_usage outcome.usage s).1 refl refl refl (omega arith) i)
  follow_outcome-Keeps op outcome reason s i =
      next_input-Keeps op reason _
        (inv.framed s (count_usage outcome.usage s).1 refl refl refl (omega arith) i)

  run_round-Keeps : (operation_id : String) → Keeps I (run_round w operation_id)
  unfolding run_round
  run_round-Keeps op s i =
      proceed-Keeps I _ (model_turn w op s) (model_turn-Keeps op s i) λ outcome t j.
        proceed-Keeps I _ (append_assistant_message w op outcome t)
          (append_assistant_message-Keeps op outcome t j)
          λ _. follow_outcome-Keeps op outcome outcome.stop_reason

  loop_or_return-Keeps :
      (rest : Run (Option StopReason)) (next : Round)
      → Keeps I rest
      → Keeps I (loop_or_return w rest next)
  loop_or_return-Keeps rest (returns reason) keeps = λ s i. i
  loop_or_return-Keeps rest continues keeps = keeps

  rounds-Keeps : (fuel : ℕ) (operation_id : String) → Keeps I (rounds w fuel operation_id)
  unfolding rounds
  rounds-Keeps zero op s i = i
  rounds-Keeps (suc fuel) op s i =
      proceed-Keeps I _ (run_round w op s) (run_round-Keeps op s i)
        λ next. loop_or_return-Keeps (rounds w fuel op) next (rounds-Keeps fuel op)

  turn_result-Keeps : (reason : Option StopReason) → Keeps I (turn_result w reason)
  turn_result-Keeps none s i = i
  turn_result-Keeps (some reason) s i = i

  pub turn_body-Keeps :
      (fuel : ℕ) (operation_id : String) (content : List Content)
      → Keeps I (turn_body w fuel operation_id content)
  unfolding turn_body
  turn_body-Keeps fuel op content s i =
      proceed-Keeps I _ (append_user_message w op content s)
        (append_user_message-Keeps op content s i)
        λ _ t j.
          proceed-Keeps I (turn_result w) (rounds w fuel op t) (rounds-Keeps fuel op t j)
            turn_result-Keeps

  -- What holds at the start of a turn holds at its end, whether it returns, throws or runs out of
  -- fuel.
  pub run_turn-Keeps :
      (fuel : ℕ) (operation_id : String) (content : List Content) (s : AgentSession)
      → I s
      → I (begin w operation_id s)
      → I (run_turn w fuel operation_id content s).1
  unfolding run_turn
  run_turn-Keeps fuel op content s i begun =
      when_idle-Keeps I s.active_operation
        (λ t. release w (turn_body w fuel op content (begin w op t))) s i
        (inv.framed (turn_body w fuel op content (begin w op s)).1 _ refl refl refl (omega arith)
          (turn_body-Keeps fuel op content (begin w op s) begun))

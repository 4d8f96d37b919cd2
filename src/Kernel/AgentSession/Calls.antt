-- ===== src/Kernel/AgentSession/Calls.antt =====
-- What `executeToolCalls` adds to a branch.
use axl_raja.Prelude.{
  ℕ, suc, String, Bool, true, false, Option, none, some, List, [], ◌∷◌, ◌++◌, ◌≡◌, refl, ap, ◌∙◌,
  ok, arith, if◌then◌else◌,
}
use mathlib.Core.Path.{subst}
use axl_raja.Protocol.Json.{Json, Members}
use axl_raja.Protocol.Event.{tool_call, tool_result, sandbox_violation, other, CanonicalEvent}
use axl_raja.Kernel.Compaction.{ToolCallRequest, tool}
use axl_raja.Kernel.Replay.{verify_branch}
use axl_raja.Kernel.Replay.Pairing.{verify_branch_iff}
use axl_raja.Kernel.AgentSession.{
  Interaction, requests, answers, accept_stored, World, AgentSession, Run, proceed, return,
  new_event, push_message, content_of, append_pushed, append, check_aborted,
}
use axl_raja.Kernel.AgentSession.Turn.{
  interact, interact_all, or_own, execute_tool_call, execute_tool_calls, report_violation,
  tool_result_of, ToolResult,
}
use axl_raja.Kernel.AgentSession.Recovery.Closing.{
  pending_calls-IsPending, IsPaired-append, IsFaithful, AreAnswered,
}
use axl_raja.Kernel.AgentSession.Extended.{
  next-IsExtended, IsExtended, returned-IsExtended, pushed-IsExtended, proceed_assoc,
  same-IsExtended,
}
use axl_raja.Kernel.AgentSession.Unanswered.{
  other-IsOpen, AreNew, IsReady, IsOpen, call-IsOpen, violation-IsOpen, answer-IsReady,
}

-- The log keeps what the check of tool calls reads: the id and the tool of a call and of a result, and
-- that a violation and an event of an interaction are neither.
pub record IsHonestCall (w : World) : Type 0 where
  pub faithful : IsFaithful w
  pub keeps_call :
      (n : ℕ) (e stored : CanonicalEvent) (call_id name : String) (input : Members)
      → w.store n e ≡ some stored
      → e.payload ≡ tool_call call_id name input
      → (kept : Members) × (stored.payload ≡ tool_call call_id name kept)
  pub keeps_violation :
      (n : ℕ) (e stored : CanonicalEvent) (capability reason : String)
      → w.store n e ≡ some stored
      → e.payload ≡ sandbox_violation capability reason
      → (kept : String) × (kept_reason : String) × (stored.payload
          ≡ sandbox_violation kept kept_reason)
  pub keeps_other :
      (n : ℕ) (e stored : CanonicalEvent) (type : String) (payload : Json)
      → w.store n e ≡ some stored
      → e.payload ≡ other type payload
      → (kept_type : String) × (kept : Json) × (stored.payload ≡ other kept_type kept)

module _ (w : World) (honest : IsHonestCall w) (operation_id : String) (call : ToolCallRequest)
    (calls : List ToolCallRequest) (rest : Run Bool)
    (goes_on : (before : List CanonicalEvent) (s : AgentSession)
      → IsReady calls before
      → IsExtended AreAnswered before s (rest s)) where
  abbrev finish : ToolResult → Run (Unit {0})
  finish result t =
      proceed
        (λ stored.
          push_message (tool call.call_id call.name (content_of stored.payload) result.is_error))
        (append_pushed w (some operation_id)
          (tool_result call.call_id call.name result.content result.is_error result.details) t)

  finish-IsExtended :
      (result : ToolResult) (before : List CanonicalEvent) (t : AgentSession)
      → IsOpen call calls before
      → IsExtended AreAnswered before t (proceed (λ _. rest) (finish result t))
  unfolding append_pushed append
  finish-IsExtended result before t opened =
      let answer =
        tool_result call.call_id call.name result.content result.is_error result.details in
      let message = λ (stored : CanonicalEvent).
        push_message (tool call.call_id call.name (content_of stored.payload) result.is_error) in
      subst (IsExtended AreAnswered before t)
        (proceed_assoc (λ _. rest) message (append_pushed w (some operation_id) answer t))
        (pushed-IsExtended AreAnswered before t (λ stored u. proceed (λ _. rest) (message stored u))
          (record t { calls = suc t.calls })
          (w.store t.calls (new_event w (some operation_id) answer t)) refl
          λ stored h.
            let (content, is_error, details, same) =
              honest.faithful.keeps_answer t.calls _ stored call.call_id call.name result.content
                result.is_error result.details h refl in
            (
              rw same (opened.was_called, opened.waits),
              λ u grown. same-IsExtended AreAnswered (before ++ stored ∷ []) u _ _ refl (
                  goes_on (before ++ stored ∷ []) _
                    (answer-IsReady before stored call calls content is_error details opened same)),
            ))

  report-IsExtended :
      (result : ToolResult) (violation : Option (String × String)) (before : List CanonicalEvent)
      (t : AgentSession)
      → IsOpen call calls before
      → IsExtended AreAnswered before t (
          proceed
            (λ _. rest)
            (proceed (λ _. finish result) (report_violation w operation_id violation t)))
  unfolding append_pushed append
  report-IsExtended result none before t opened = finish-IsExtended result before t opened
  report-IsExtended result (some (capability, reason)) before t opened =
      let violation = sandbox_violation capability reason in
      let stop = λ (stored : CanonicalEvent). return tt in
      let pushed = append_pushed w (some operation_id) violation t in
      subst (IsExtended AreAnswered before t)
        (proceed_assoc (λ _. rest)
            (λ (stored : CanonicalEvent) u. proceed (λ _. finish result) (stop stored u)) pushed
          ∙ ap (proceed (λ _. rest)) (proceed_assoc (λ _. finish result) stop pushed))
        (pushed-IsExtended AreAnswered before t (λ stored u. proceed (λ _. rest) (finish result u))
          (record t { calls = suc t.calls })
          (w.store t.calls (new_event w (some operation_id) violation t)) refl
          λ stored h.
            let (kept, kept_reason, same) =
              honest.keeps_violation t.calls _ stored capability reason h refl in
            (
              rw same tt,
              λ u grown.
                  finish-IsExtended result (before ++ stored ∷ []) u
                    (violation-IsOpen before stored call calls kept kept_reason opened same),
            ))

  -- Interactions, and a method that may follow on every open branch.
  module _ (next : Run Bool)
      (follows : (before : List CanonicalEvent) (t : AgentSession)
        → IsOpen call calls before
        → IsExtended AreAnswered before t (next t)) where
    stored-IsExtended :
        (interactions : List Interaction) (type : String) (payload : Json) (id : Option String)
        (answer : Option CanonicalEvent) (before : List CanonicalEvent) (t : AgentSession)
        → IsOpen call calls before
        → w.store t.calls (new_event w id (other type payload) t) ≡ answer
        → ((before : List CanonicalEvent) (u : AgentSession)
            → IsOpen call calls before
            → IsExtended AreAnswered before u (next (interact_all w operation_id interactions u)))
        → IsExtended AreAnswered before t (
            next (
              interact_all w operation_id interactions
                (accept_stored answer (record t { calls = suc t.calls })).1))
    stored-IsExtended interactions type payload id none before t opened h later =
        same-IsExtended AreAnswered before t (record t { calls = suc t.calls }) _ refl
          (later before (record t { calls = suc t.calls }) opened)
    stored-IsExtended interactions type payload id (some stored) before t opened h later =
        let (kept_type, kept, same) = honest.keeps_other t.calls _ stored type payload h refl in
        next-IsExtended AreAnswered before t stored _ _ (rw same tt) refl (
          later (before ++ stored ∷ []) _
            (other-IsOpen before stored call calls kept_type kept opened same))

    interact_all-IsExtended :
        (interactions : List Interaction) (before : List CanonicalEvent) (t : AgentSession)
        → IsOpen call calls before
        → IsExtended AreAnswered before t (next (interact_all w operation_id interactions t))
    unfolding interact_all interact append
    interact_all-IsExtended [] before t opened = follows before t opened
    interact_all-IsExtended (requests payload ∷ rest) before t opened =
        stored-IsExtended rest "interaction.requested" payload (some operation_id) _ before t opened
          refl (interact_all-IsExtended rest)
    interact_all-IsExtended (answers id payload ∷ rest) before t opened =
        stored-IsExtended rest "interaction.resolved" payload (or_own w operation_id id) _ before t
          opened refl (interact_all-IsExtended rest)

  call-IsExtended :
      (before : List CanonicalEvent) (t : AgentSession)
      → IsReady (call ∷ calls) before
      → IsExtended AreAnswered before t
          (proceed (λ _. rest) (execute_tool_call w operation_id call t))
  unfolding execute_tool_call append_pushed append
  call-IsExtended before t ready =
      let asked = tool_call call.call_id call.name call.input in
      let result = λ (u : AgentSession). tool_result_of call.name (w.tool u.calls call) in
      let then_on = λ (stored : CanonicalEvent) (u : AgentSession).
        proceed (λ _. finish (result u))
          (report_violation w operation_id (result u).violation (
            interact_all w operation_id (w.interactions u.calls call)
              (record u { calls = suc u.calls }))) in
      subst (IsExtended AreAnswered before t)
        (proceed_assoc (λ _. rest) then_on (append_pushed w (some operation_id) asked t))
        (pushed-IsExtended AreAnswered before t (λ stored u. proceed (λ _. rest) (then_on stored u))
          (record t { calls = suc t.calls })
          (w.store t.calls (new_event w (some operation_id) asked t)) refl
          λ stored h.
            let (kept, same) =
              honest.keeps_call t.calls _ stored call.call_id call.name call.input h refl in
            (
              rw same (ready.new).0,
              λ u grown.
                  same-IsExtended AreAnswered (before ++ stored ∷ []) u
                    (record u { calls = suc u.calls }) _ refl
                    (interact_all-IsExtended
                      (λ v.
                        proceed (λ _. rest)
                          (proceed (λ _. finish (result u))
                            (report_violation w operation_id (result u).violation v)))
                      (report-IsExtended (result u) (result u).violation)
                      (w.interactions u.calls call) (before ++ stored ∷ [])
                      (record u { calls = suc u.calls })
                      (call-IsOpen before stored call calls kept ready same)),
            ))

execute_tool_calls-IsExtended :
    (w : World) (operation_id : String) (calls : List ToolCallRequest)
    (before : List CanonicalEvent) (s : AgentSession)
    → IsHonestCall w
    → IsReady calls before
    → IsExtended AreAnswered before s (execute_tool_calls w operation_id calls s)
unfolding execute_tool_calls
execute_tool_calls-IsExtended w op [] before s honest ready =
    returned-IsExtended AreAnswered before s false s refl ready.closed
execute_tool_calls-IsExtended w op (call ∷ calls) before s honest ready =
    call-IsExtended w honest op call calls
      (λ t.
        proceed (λ stopped. if stopped then return true else execute_tool_calls w op calls)
          (check_aborted w t))
      (λ before t ready. stop-or-rest before t (w.is_aborted t.calls) ready (
        same-IsExtended AreAnswered before t (record t { calls = suc t.calls }) _ refl
          (execute_tool_calls-IsExtended w op calls before (record t { calls = suc t.calls }) honest
            ready)))
      before s ready
  where
    stop-or-rest :
        (before : List CanonicalEvent) (t : AgentSession) (stopped : Bool)
        → IsReady calls before
        → IsExtended AreAnswered before t
            (execute_tool_calls w op calls (record t { calls = suc t.calls }))
        → IsExtended AreAnswered before t (
            (if stopped then return true else execute_tool_calls w op calls)
              (record t { calls = suc t.calls }))
    stop-or-rest before t true ready later =
        returned-IsExtended AreAnswered before t true _ refl ready.closed
    stop-or-rest before t false ready later = later

-- On a branch whose tool calls pass the check and all have results, tool calls with new and distinct
-- ids are executed, with interactions while they run. Where the log keeps what the check reads, the branch passes the check behind
-- each way out, an abort and a refused event included; and where `executeToolCalls` returns, aborted
-- or not, every call on the branch has a result.
pub execute_tool_calls-IsPaired :
    (w : World) (operation_id : String) (calls : List ToolCallRequest)
    (lineage : List CanonicalEvent) (s : AgentSession)
    → IsHonestCall w
    → verify_branch lineage ≡ ok tt
    → AreAnswered lineage
    → AreNew lineage calls
    → let (outcome, s') = execute_tool_calls w operation_id calls s in
      (added : List CanonicalEvent) × (s'.observed ≡ s.observed ++ added)
      × (verify_branch (lineage ++ added) ≡ ok tt)
      × ((aborted : Bool) → outcome ≡ ok aborted → AreAnswered (lineage ++ added))
execute_tool_calls-IsPaired w op calls lineage s honest checked closed new =
    let paired = (verify_branch_iff lineage).0 checked in
    let pending =
      pending_calls-IsPending [] lineage []
        (record {
          entries = tt;
          complete = λ id name h absent. absurd (ground arith);
          known = λ id h. refl;
        })
        paired in
    let r =
      execute_tool_calls-IsExtended w op calls lineage s honest
        (record { new = new; known = pending.known; closed = closed }) in
    (
      r.added,
      r.observed,
      (verify_branch_iff (lineage ++ r.added)).1
          (IsPaired-append [] lineage r.added paired r.paired),
      r.done,
    )

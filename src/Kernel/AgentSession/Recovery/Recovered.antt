-- ===== src/Kernel/AgentSession/Recovery/Recovered.antt =====
-- The loop of `AgentSession.open` over the calls without a result, from any branch.
use axl_raja.Prelude.{
  suc, String, true, Option, none, some, List, [], ◌∷◌, ◌++◌, ◌≡◌, refl, sym, eq_iff, ok, arith,
  append-nil,
}
use axl_raja.Maps
use axl_raja.Protocol.Event.{Payload, tool_result, CanonicalEvent}
use axl_raja.Kernel.Compaction.{tool}
use axl_raja.Kernel.Replay.{verify_branch}
use axl_raja.Kernel.Replay.Pairing.{Fits, verify_branch_iff}
use axl_raja.Kernel.AgentSession.{
  World, AgentSession, proceed, push_message, content_of, append, accept_stored, new_event,
}
use axl_raja.Kernel.AgentSession.Recovery.{
  UnansweredCall, note_call, unanswered_tool_calls, end_call, end_calls, restart_content,
  restart_details,
}
use axl_raja.Kernel.AgentSession.Recovery.Closing.{
  IsPending, note_call-IsPending, pending_calls-IsPending, IsPaired-append, IsFaithful, AreAnswered,
  IsClosing, IsClosing-stopped, IsClosing-next,
}

delete-first :
    (id : String) (call : UnansweredCall) (pending : List (String × UnansweredCall))
    → call.call_id ≡ id
    → Maps.delete call.call_id ((id, call) ∷ pending) ≡ pending
unfolding Maps.delete
delete-first id call pending h = ground (arith, eq_iff id call.call_id)

module _ (w : World) (faithful : IsFaithful w) where
  abbrev answer_of : UnansweredCall → Payload
  answer_of call = tool_result call.call_id call.name restart_content true (some restart_details)

  abbrev IsLoop : List (String × UnansweredCall) → Type 0
  IsLoop pending =
      (before : List CanonicalEvent) (s : AgentSession)
      → IsPending before pending
      → IsClosing before s (end_calls w (Maps.values pending) s)

  end_call-IsClosing :
      (before : List CanonicalEvent) (s : AgentSession) (id : String) (call : UnansweredCall)
      (pending : List (String × UnansweredCall)) (answer : Option CanonicalEvent)
      → w.store s.calls (new_event w call.operation_id (answer_of call) s) ≡ answer
      → IsPending before ((id, call) ∷ pending)
      → IsLoop pending
      → IsClosing before s (
          proceed
            (λ _. end_calls w (Maps.values pending))
            (proceed
              (λ result.
                push_message (tool call.call_id call.name (content_of result.payload) true))
              (accept_stored answer (record s { calls = suc s.calls }))))
  unfolding note_call
  end_call-IsClosing before s id call pending none h i loop = IsClosing-stopped before s _ refl
  end_call-IsClosing before s id call pending (some stored) h i loop =
      let (its, was_called, waits, _, _) = i.entries in
      let (kept, kept_error, kept_details, same) =
        faithful.keeps_answer s.calls _ stored call.call_id call.name restart_content true
          (some restart_details) h refl in
      let fits : Fits before (tool_result call.call_id call.name kept kept_error kept_details) =
        (rw its was_called, rw its waits) in
      let next = note_call-IsPending before stored ((id, call) ∷ pending) i _ same fits in
      IsClosing-next before stored s _ _ (rw same fits) refl
        (loop (before ++ stored ∷ []) _ (rw (delete-first id call pending its) at next))

  end_calls-IsClosing : (pending : List (String × UnansweredCall)) → IsLoop pending
  unfolding end_calls end_call append Maps.values Maps.has
  end_calls-IsClosing [] before s i = record {
    added = [];
    observed = sym (append-nil s.observed);
    paired = tt;
    total = λ _ id name h. rw append-nil (i.complete id name (rw append-nil at h) refl);
  }
  end_calls-IsClosing ((id, call) ∷ pending) before s i =
      end_call-IsClosing before s id call pending
        (w.store s.calls (new_event w call.operation_id (answer_of call) s)) refl i
        (end_calls-IsClosing pending)

-- `open` ends what a crash left open: on a branch whose tool calls pass the check, where the log
-- keeps the id and the tool of a stored result, the events that the loop appends leave a branch that
-- passes the check again, also where the log refuses one of them; and if it refuses none, every call
-- of the branch has a result then.
pub end_calls-IsPaired :
    (w : World) (lineage : List CanonicalEvent) (s : AgentSession)
    → IsFaithful w
    → verify_branch lineage ≡ ok tt
    → let (outcome, s') = end_calls w (unanswered_tool_calls lineage) s in
      (added : List CanonicalEvent) × (s'.observed ≡ s.observed ++ added)
      × (verify_branch (lineage ++ added) ≡ ok tt)
      × (outcome ≡ ok tt → AreAnswered (lineage ++ added))
unfolding unanswered_tool_calls
end_calls-IsPaired w lineage s faithful checked =
    let paired = (verify_branch_iff lineage).0 checked in
    let pending =
      pending_calls-IsPending [] lineage []
        (record {
          entries = tt;
          complete = λ id name h absent. absurd (ground arith);
          known = λ id h. refl;
        })
        paired in
    let r = end_calls-IsClosing w faithful _ lineage s pending in
    (
      r.added,
      r.observed,
      (verify_branch_iff (lineage ++ r.added)).1
          (IsPaired-append [] lineage r.added paired r.paired),
      r.total,
    )

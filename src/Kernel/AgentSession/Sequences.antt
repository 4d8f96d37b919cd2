-- ===== src/Kernel/AgentSession/Sequences.antt =====
-- Runs of a session's methods, each awaited before the next.
use axl_raja.Prelude.{
  ℕ, ◌≤◌, String, Bool, true, false, Option, none, some, List, [], ◌∷◌, ◌++◌, ◌≡◌, refl, ok, arith,
  append-nil, err, if◌then◌else◌,
}
use axl_raja.Protocol.Event.{Content, Payload, user_shell, CanonicalEvent}
use axl_raja.Kernel.SessionTree.{SessionTree, from_events}
use axl_raja.Kernel.SessionTree.Log.{IsPlaced, IsChain, last_id}
use axl_raja.Kernel.SessionTree.Table.{built}
use axl_raja.Kernel.SessionTree.Build.{from_events-eq, from_events_iff}
use axl_raja.Kernel.AgentSession.{
  ToolAnswer, unregistered, returned, threw, World, AgentSession, Run, guard_idle, append,
  append_user_message, steer, follow_up, next_call, operation_conflict,
}
use axl_raja.Kernel.AgentSession.{not_compacted, throw}
use axl_raja.Kernel.AgentSession.Compacting.{CompactInput, compact_owned}
use axl_raja.Kernel.AgentSession.Turn.{run_turn}
use axl_raja.Kernel.AgentSession.Commands.{
  Command, run_turn_with, continue_with, inject_with, run_shell_with, abort_turn_with,
  abort_delivery_with, append_idle_with, append_any_with, append_active_with, steer_with,
  follow_up_with, compact_with, compact_idle, compact, carry_out, carry_out_all, inject_context,
  continue_queued, run_shell, abort_recovered_turn, abort_recovered_delivery, append_idle,
  append_active, own, push_shell, record_shell, or_throw_idle, run_queued, shift_queued,
}
use axl_raja.Kernel.AgentSession.Invariants.{
  Keeps, proceed-Keeps, when_idle-Keeps, run_turn-Keeps, append_user_message-Keeps,
}
use axl_raja.Kernel.AgentSession.Recorded.{
  IsHonest, IsRecorded, framed-IsRecorded, append-IsRecorded, recorded, IsLog-append,
}
use axl_raja.Kernel.AgentSession.Compacted.{compact_planned-kept}

module _ (w : World) (old : List CanonicalEvent) (tip : Option String)
    (honest : IsHonest w old) where
  abbrev I : AgentSession → Type 0
  I = IsRecorded w old tip

  guarded : {A : Type 0} (method : Run A) → Keeps I method → Keeps I (guard_idle method)
  guarded method keeps s i = when_idle-Keeps I s.active_operation method s i (keeps s i)

  same :
      (s s' : AgentSession)
      → s'.tip ≡ s.tip
      → s'.observed ≡ s.observed
      → s.calls ≤ s'.calls
      → I s
      → I s'
  same = framed-IsRecorded w old tip

  kept :
      (operation_id : Option String) (payload : Payload) → Keeps I (append w operation_id payload)
  kept op payload = append-IsRecorded w old tip op payload honest

  run_turn-kept :
      (fuel : ℕ) (operation_id : String) (content : List Content)
      → Keeps I (run_turn w fuel operation_id content)
  run_turn-kept fuel op content s i =
      run_turn-Keeps w I (recorded w old tip honest) fuel op content s i
        (same s _ refl refl (omega arith) i)

  run_queued-kept :
      (fuel : ℕ) (operation_id : String) (content : Option (List Content))
      → Keeps I (run_queued w fuel operation_id content)
  run_queued-kept fuel op none s i = i
  run_queued-kept fuel op (some content) s i =
      proceed-Keeps I _ (run_turn w fuel op content s) (run_turn-kept fuel op content s i)
        λ _ t j. j

  shift_queued-kept :
      (steered followed : List (List Content)) → Keeps I (shift_queued steered followed)
  shift_queued-kept (content ∷ rest) followed s i = same s _ refl refl (omega arith) i
  shift_queued-kept [] (content ∷ rest) s i = same s _ refl refl (omega arith) i
  shift_queued-kept [] [] s i = i

  push_shell-kept :
      (excluded : Bool) (command : String) (payload : Payload)
      → Keeps I (push_shell excluded command payload)
  push_shell-kept false command (user_shell _ content _ _) s i = same s _ refl refl (omega arith) i
  push_shell-kept true command payload s i = i
  push_shell-kept false command payload s i = i

  record_shell-kept :
      (operation_id command : String) (excluded : Bool) (answer : ToolAnswer)
      → Keeps I (record_shell w operation_id command excluded answer)
  record_shell-kept op command excluded unregistered s i = i
  record_shell-kept op command excluded (threw _ _) s i = i
  record_shell-kept op command excluded (returned content is_error _) s i =
      proceed-Keeps I _ (append w (some op) _ s) (kept (some op) _ s i)
        λ event. push_shell-kept excluded command event.payload

  own-kept :
      {A : Type 0} (operation_id : String) (method : Run A)
      → Keeps I method
      → Keeps I (own operation_id method)
  own-kept op method keeps s i =
      same (method (record s { active_operation = some op })).1 _ refl refl (omega arith)
        (keeps (record s { active_operation = some op }) (same s _ refl refl (omega arith) i))

  compact_idle-kept :
      (operation_id : String) (input : CompactInput) → Keeps I (compact_idle w operation_id input)
  unfolding compact_owned
  compact_idle-kept op input = on-instructions input.has_empty_instructions
    where
      on-instructions :
          (wrong : Bool)
          → Keeps I (if wrong then throw not_compacted else own op (compact_owned w op input))
      on-instructions true s i = i
      on-instructions false s i =
          own-kept op (compact_owned w op input)
            (λ s i. compact_planned-kept w I kept same op input (input.plan s.tip) s i) s i

  append_active-kept :
      (operation_id : Option String) (payload : Payload) (active : Option String)
      → Keeps I (or_throw_idle w operation_id payload active)
  append_active-kept op payload none = λ s i. i
  append_active-kept none payload (some active) = kept (some active) payload
  append_active-kept (some op) payload (some active) = kept (some op) payload

  if-kept :
      {A : Type 0} (accepting : Bool) (taken refused : A × AgentSession)
      → I taken.1
      → I refused.1
      → I (if accepting then taken else refused).1
  if-kept true taken refused i j = i
  if-kept false taken refused i j = j

  carry_out-IsRecorded : (command : Command) (s : AgentSession) → I s → I (carry_out w command s)
  unfolding carry_out inject_context continue_queued run_shell abort_recovered_turn
      abort_recovered_delivery append_idle append_active steer follow_up compact
  carry_out-IsRecorded (run_turn_with fuel op content) s i = run_turn-kept fuel op content s i
  carry_out-IsRecorded (continue_with fuel op) s i =
      proceed-Keeps I (run_queued w fuel op)
        (shift_queued s.steering_messages s.follow_up_messages s)
        (shift_queued-kept s.steering_messages s.follow_up_messages s i) (run_queued-kept fuel op)
  carry_out-IsRecorded (inject_with source content) s i =
      guarded _
        (λ t j.
          proceed-Keeps I _ (append w none _ t) (kept none _ t j)
            λ event u k. same u _ refl refl (omega arith) k)
        s i
  carry_out-IsRecorded (run_shell_with op command excluded call) s i =
      guarded _
        (λ t j.
          own-kept op (record_shell w op command excluded (w.tool t.calls call))
            (record_shell-kept op command excluded (w.tool t.calls call)) (next_call t).1
            (same t _ refl refl (omega arith) j))
        s i
  carry_out-IsRecorded (abort_turn_with op) s i = guarded _ (kept (some op) _) s i
  carry_out-IsRecorded (abort_delivery_with op content) s i =
      guarded _
        (λ t j.
          proceed-Keeps I _ (append_user_message w op content t)
            (append_user_message-Keeps w I (recorded w old tip honest) op content t j)
            λ _. guarded _ (kept (some op) _))
        s i
  carry_out-IsRecorded (append_idle_with op payload) s i = guarded _ (kept (some op) payload) s i
  carry_out-IsRecorded (append_any_with op payload) s i = kept (some op) payload s i
  carry_out-IsRecorded (append_active_with op payload) s i =
      append_active-kept op payload s.active_operation s i
  carry_out-IsRecorded (compact_with op input) s i = guarded _ (compact_idle-kept op input) s i
  carry_out-IsRecorded (steer_with content) s i =
      if-kept s.accepting_queued_messages _ (err (operation_conflict none), s)
        (same s _ refl refl (omega arith) i) i
  carry_out-IsRecorded (follow_up_with content) s i =
      if-kept s.accepting_queued_messages _ (err (operation_conflict none), s)
        (same s _ refl refl (omega arith) i) i

  carry_out_all-IsRecorded :
      (commands : List Command) (s : AgentSession) → I s → I (carry_out_all w commands s)
  unfolding carry_out_all
  carry_out_all-IsRecorded [] s i = i
  carry_out_all-IsRecorded (command ∷ commands) s i =
      carry_out_all-IsRecorded commands (carry_out w command s) (carry_out-IsRecorded command s i)

-- Where the log keeps an event's id, session and parent, and new ids are unlike each other and
-- those in the log: any run of a session's methods (turns with the interactions that are requested
-- and answered while a tool runs, queued turns, shells, compactions, injections, recoveries and single
-- appends), each awaited before the next, that starts at the end of an accepted log leaves an accepted
-- log, whichever of them return, throw or do not end. The events that they append form one chain from
-- the old tip, and the session's tip is the last of them.
pub carry_out_all-IsLog :
    (w : World) (old : List CanonicalEvent) (t : SessionTree) (s : AgentSession)
    (commands : List Command)
    → IsHonest w old
    → from_events w.session_id old ≡ ok t
    → IsPlaced old s.tip
    → s.observed ≡ []
    → let s' = carry_out_all w commands s in
      (from_events w.session_id (old ++ s'.observed) ≡ ok (built w.session_id (old ++ s'.observed)))
      × IsChain s.tip s'.observed
      × (s'.tip ≡ last_id s.tip s'.observed)
carry_out_all-IsLog w old t s commands honest accepted placed none_yet =
    let start : IsRecorded w old s.tip s = record {
      log = rw none_yet tt;
      linked = rw none_yet tt;
      at_end = rw none_yet refl;
      placed = rw (none_yet, append-nil old) placed;
      fresh = λ n _. rw (none_yet, append-nil old) (honest.unused n);
    } in
    let kept = carry_out_all-IsRecorded w old s.tip honest commands s start in
    let log =
      IsLog-append w.session_id [] old _ ((from_events_iff w.session_id old t).0 accepted).0
        kept.log in
    (from_events-eq w.session_id _ log, kept.linked, kept.at_end)

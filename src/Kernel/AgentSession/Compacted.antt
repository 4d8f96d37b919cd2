-- ===== src/Kernel/AgentSession/Compacted.antt =====
-- What every append of a session keeps, a compaction keeps.
use axl_raja.Prelude.{
  suc, ◌≤◌, Bool-cases, inl, inr, ◌==◌, String, Bool, true, false, Option, none, some, List, [],
  ◌∷◌, ◌≡◌, refl, arith, if◌then◌else◌,
}
use axl_raja.Protocol.Event.{StopReason, Payload}
use axl_raja.Kernel.AgentSession.{World, AgentSession, Run, append}
use axl_raja.Kernel.AgentSession.{
  StreamEvent, text_delta, thinking_delta, tool_call, progress, configured, completed, failed,
  aborted, not_compacted, throw,
}
use axl_raja.Kernel.AgentSession.Compacting.{
  CompactInput, unless_aborted, unless_empty, summarize, summarize_compaction, compact_planned,
  show_compacted,
}
use axl_raja.Kernel.AgentSession.Invariants.{Keeps, proceed-Keeps}

module _ (w : World) (I : AgentSession → Type 0)
    (kept : (operation_id : Option String) (payload : Payload)
      → Keeps I (append w operation_id payload))
    (same : (s s' : AgentSession)
      → s'.tip ≡ s.tip
      → s'.observed ≡ s.observed
      → s.calls ≤ s'.calls
      → I s
      → I s') where
  unless_aborted-kept :
      {A : Type 0} (method : Run A) → Keeps I method → Keeps I (unless_aborted w method)
  unless_aborted-kept method keeps s i = on-abort (w.is_aborted s.calls)
    where
      on-abort :
          (stopped : Bool)
          → I
              ((if stopped then throw not_compacted else method)
                (record s { calls = suc s.calls })).1
      on-abort true = same s _ refl refl (omega arith) i
      on-abort false =
          keeps (record s { calls = suc s.calls })
            (same s (record s { calls = suc s.calls }) refl refl (omega arith) i)

  unless_empty-kept : (summary : String) → Keeps I (unless_empty w summary)
  unless_empty-kept summary s i = elim (Bool-cases (summary == "")) [
    | inl e ↦ rw e i
    | inr e ↦ rw e i
  ]

  summarize-kept :
      (operation_id : String) (trim : String → String) (events : List StreamEvent)
      (summary : String)
      → Keeps I (summarize w operation_id trim events summary)
  summarize-kept op trim [] summary s i = i
  summarize-kept op trim (text_delta t ∷ events) summary s i = summarize-kept op trim events _ s i
  summarize-kept op trim (thinking_delta t ∷ events) summary s i =
      summarize-kept op trim events summary s i
  summarize-kept op trim (progress ∷ events) summary s i = summarize-kept op trim events summary s i
  summarize-kept op trim (configured c ∷ events) summary s i =
      proceed-Keeps I _ (append w (some op) _ s) (kept (some op) _ s i)
        λ _. summarize-kept op trim events summary
  summarize-kept op trim (completed StopReason.stop usage ∷ events) summary s i =
      unless_aborted-kept (unless_empty w (trim summary)) (unless_empty-kept (trim summary)) s i
  summarize-kept op trim (completed _ usage ∷ events) summary s i = i
  summarize-kept op trim (tool_call call ∷ events) summary s i = i
  summarize-kept op trim (failed error ∷ events) summary s i = i
  summarize-kept op trim (aborted ∷ events) summary s i = i

  summarize_compaction-kept :
      (operation_id : String) (trim : String → String)
      → Keeps I (summarize_compaction w operation_id trim)
  unfolding summarize_compaction
  summarize_compaction-kept op trim = unless_aborted-kept _ λ s i.
      summarize-kept op trim (w.model s.calls).events "" (record s { calls = suc s.calls })
        (same s _ refl refl (omega arith) i)

  pub compact_planned-kept :
      (operation_id : String) (input : CompactInput) (plan : Option (List String))
      → Keeps I (compact_planned w operation_id input plan)
  compact_planned-kept op input none s i = i
  compact_planned-kept op input (some replaced) s i =
      proceed-Keeps I _ (summarize_compaction w op input.trim s)
        (summarize_compaction-kept op input.trim s i)
        λ summary. unless_aborted-kept _ λ t j.
          proceed-Keeps I (show_compacted w input) (append w (some op) _ t) (kept (some op) _ t j)
            λ event u k. same u _ refl refl (omega arith) k

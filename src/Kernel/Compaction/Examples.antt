-- ===== src/Kernel/Compaction/Examples.antt =====
-- Compaction at a short branch.
use axl_raja.Prelude.{
  ℕ, String, true, none, some, List, [], ◌∷◌, ◌≡◌, refl, Outcome, ok, err, arith,
}
use axl_raja.Protocol.Event.{
  CanonicalEvent, Payload, user_message, assistant_message, context_compacted, stop,
}
use axl_raja.Kernel.Compaction.{
  user, assistant, ContextGroup, CompactionError, Compacted, replaces_non_ancestor, last_compaction,
  replacement_closure,
}
use axl_raja.Kernel.Compaction.Closure.{replacement_closure_ends}
use axl_raja.Kernel.Compaction.Projection.{ProjectedContext, project_context}
use axl_raja.Kernel.Compaction.Groups.{IsReplaced, project_context-IsReplaced}
use axl_raja.Kernel.Compaction.Planning.{CompactionPlan, plan_of}
use axl_raja.Kernel.Compaction.Plans.{IsCut, plan_of-IsCut}

abbrev event_at : String → Payload → CanonicalEvent
event_at id payload = record {
  id = id;
  session_id = "s";
  operation_id = none;
  parent_id = none;
  timestamp = 1;
  payload = payload;
}

abbrev summary : Compacted
summary = record { id = "k"; summary = "so far"; replaced_event_ids = "a" ∷ "b" ∷ [] }

-- A question, its answer, the next question, and a compaction of the first two.
abbrev branch : List CanonicalEvent
branch =
    event_at "a" (user_message [])
    ∷ event_at "b" (assistant_message [] stop none none)
    ∷ event_at "c" (user_message [])
    ∷ event_at "k" (context_compacted "so far" ("a" ∷ "b" ∷ []))
    ∷ []

abbrev question : ContextGroup
question = record { message = user []; event_ids = "c" ∷ [] }

abbrev visible : ProjectedContext
visible = record { previous_compaction = some summary; groups = question ∷ [] }

branch_compacted : last_compaction branch ≡ some summary
unfolding last_compaction
branch_compacted = refl

branch_projected : project_context branch ≡ some (ok visible)
unfolding project_context
branch_projected = refl

project_context-IsReplaced_example :
    IsReplaced branch summary (question ∷ []) × (some summary ≡ some summary)
project_context-IsReplaced_example =
    project_context-IsReplaced branch summary visible branch_compacted branch_projected

-- A compaction that replaces an event behind it is refused.
closure_test :
    replacement_closure branch (record { id = "a"; summary = ""; replaced_event_ids = "c" ∷ [] })
    ≡ some (err (replaces_non_ancestor "a" "c"))
unfolding replacement_closure
closure_test = refl

replacement_closure_ends_example :
    (result : Outcome CompactionError (List String)) × (replacement_closure branch summary
      ≡ some result)
replacement_closure_ends_example = replacement_closure_ends branch summary

abbrev answer : ContextGroup
answer = record { message = assistant [] []; event_ids = "d" ∷ [] }

abbrev context : ProjectedContext
context = record { previous_compaction = some summary; groups = question ∷ answer ∷ [] }

abbrev plan : CompactionPlan
plan = record {
  messages_to_summarize = user [] ∷ [];
  previous_summary = some "so far";
  replaced_event_ids = "k" ∷ "c" ∷ [];
  split_turn = true;
}

abbrev one : ContextGroup → ℕ
one group = 1

planned : plan_of one 1 context ≡ some plan
unfolding plan_of
planned = refl

plan_of-IsCut_example : IsCut one 1 context plan
plan_of-IsCut_example = plan_of-IsCut one 1 context plan (omega arith) planned

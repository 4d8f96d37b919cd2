-- ===== src/Kernel/Examples.antt =====
-- The kernel's theorems and tests at concrete events.
use axl_raja.Prelude.{
  String, true, false, Option, none, some, List, [], ◌∷◌, ◌≡◌, refl, ◌↔◌, ok, err, All, keep,
}
use axl_raja.Protocol.Json.{null, end}
use axl_raja.Protocol.Event.{
  CanonicalEvent, Payload, text, user_message, tool_call, tool_result, other,
}
use axl_raja.Kernel.SessionTree.{
  second_root, missing_parent, from_events, children_of, events, leaves, lineage,
}
use axl_raja.Kernel.SessionTree.Log.{ids, IsLog, IsLineage, is_tip}
use axl_raja.Kernel.SessionTree.Table.{built}
use axl_raja.Kernel.SessionTree.Build.{from_events_iff}
use axl_raja.Kernel.SessionTree.Views.{events-and-leaves_of_log}
use axl_raja.Kernel.SessionTree.Lineage.{lineage_total}
use axl_raja.Kernel.Replay.{second_answer, verify_branch, verify_tool_call_integrity}
use axl_raja.Kernel.Replay.Branches.{IsPairedBranch, verify_tool_call_integrity_iff}

abbrev event_at : String → Option String → Payload → CanonicalEvent
event_at id parent payload = record {
  id = id;
  session_id = "s";
  operation_id = none;
  parent_id = parent;
  timestamp = 1;
  payload = payload;
}

abbrev asked : CanonicalEvent
asked = event_at "a" none (user_message (text "list" ∷ []))

abbrev called : CanonicalEvent
called = event_at "b" (some "a") (tool_call "c1" "bash" end)

abbrev replied : CanonicalEvent
replied = event_at "c" (some "b") (tool_result "c1" "bash" [] false none)

abbrev retried : CanonicalEvent
retried = event_at "d" (some "b") (tool_result "c1" "bash" [] true none)

-- Two branches below the call.
abbrev forked : List CanonicalEvent
forked = asked ∷ called ∷ replied ∷ retried ∷ []

forked-IsLog : IsLog "s" [] forked
forked-IsLog = (refl, refl, refl, (refl, refl, refl, (refl, refl, refl, (refl, refl, refl, tt))))

forked_accepted : from_events "s" forked ≡ ok (built "s" forked)
unfolding from_events
forked_accepted = refl

from_events_refuses :
    (from_events "s" (asked ∷ replied ∷ [])
      ≡ err (record { index = some 1; event_id = "c"; reason = missing_parent }))
    × (from_events "s" (asked ∷ event_at "z" none (other "session.resumed" null) ∷ [])
        ≡ err (record { index = some 1; event_id = "z"; reason = second_root }))
unfolding from_events
from_events_refuses = (refl, refl)

tree_tests :
    (leaves (built "s" forked) ≡ "c" ∷ "d" ∷ [])
    × (children_of "b" (built "s" forked) ≡ ok ("c" ∷ "d" ∷ []))
    × (lineage "d" (built "s" forked) ≡ some (ok (asked ∷ called ∷ retried ∷ [])))
unfolding leaves children_of lineage
tree_tests = (refl, refl, refl)

from_events_iff_example :
    (from_events "s" forked ≡ ok (built "s" forked))
    ↔ (IsLog "s" [] forked × (built "s" forked ≡ built "s" forked))
from_events_iff_example = from_events_iff "s" forked (built "s" forked)

events-and-leaves_of_log_example :
    (events (built "s" forked) ≡ forked)
    × (leaves (built "s" forked) ≡ ids (keep (λ e. is_tip forked e.id) forked))
events-and-leaves_of_log_example =
    events-and-leaves_of_log "s" forked (built "s" forked) forked_accepted

lineage_total_example :
    (path : List CanonicalEvent) × (lineage "d" (built "s" forked) ≡ some (ok path))
    × IsLineage forked "d" path
lineage_total_example = lineage_total "s" forked (built "s" forked) "d" forked_accepted refl

-- Two answers to one call are refused on one branch, and accepted on two.
replay_tests :
    (verify_branch forked ≡ err (second_answer "d" "c1"))
    × (verify_tool_call_integrity (built "s" forked) ≡ some (ok tt))
unfolding verify_branch verify_tool_call_integrity
replay_tests = (refl, refl)

verify_tool_call_integrity_iff_example :
    (verify_tool_call_integrity (built "s" forked) ≡ some (ok tt))
    ↔ All (IsPairedBranch forked (built "s" forked)) (leaves (built "s" forked))
verify_tool_call_integrity_iff_example =
    verify_tool_call_integrity_iff "s" forked (built "s" forked) forked_accepted

-- ===== src/Kernel/Replay.antt =====
-- The pairing of tool calls and results (packages/kernel/src/replay.ts, verifyToolCallIntegrity).
pub mod Pairing
pub mod Branches
use axl_raja.Prelude.{
  String, Bool, true, false, not, Option, none, some, List, [], ◌∷◌, ◌==◌, Outcome, ok, err, ◌>>=◌,
  if◌then◌else◌,
}
use axl_raja.Maps
use axl_raja.Protocol.Event.{CanonicalEvent, Payload, tool_call, tool_result}
use axl_raja.Kernel.SessionTree.{SessionTree, IntegrityError, leaves, lineage}

-- the value of the map `calls`
pub record Call : Type 0 where
  pub name : String
  pub answered : Bool

-- the message of a ReplayError; `tree` is an error that `lineage` throws
pub data ReplayError : Type 0 where
  reused no_call second_answer : (event_id call_id : String) → ReplayError
  other_name : (event_id call_id name : String) → ReplayError
  tree : IntegrityError → ReplayError

-- call.answered = true
mark_answered : Call → Call
mark_answered call = record call { answered = true }

answer :
    CanonicalEvent
    → String
    → String
    → Option Call
    → List (String × Call)
    → Outcome ReplayError (List (String × Call))
answer event call_id name none calls = err (no_call event.id call_id)
answer event call_id name (some call) calls =
    if call.answered
    then err (second_answer event.id call_id)
    else if not (call.name == name)
    then err (other_name event.id call_id call.name)
    else ok (Maps.modify call_id mark_answered calls)

-- the body of the inner loop
check_payload :
    CanonicalEvent → Payload → List (String × Call) → Outcome ReplayError (List (String × Call))
check_payload event (tool_call call_id name input) calls =
    if Maps.has call_id calls
    then err (reused event.id call_id)
    else ok (Maps.set call_id (record { name = name; answered = false }) calls)
check_payload event (tool_result call_id name content is_error details) calls =
    answer event call_id name (Maps.get call_id calls) calls
check_payload event _ calls = ok calls

verify_events : List CanonicalEvent → List (String × Call) → Outcome ReplayError (Unit {0})
verify_events [] calls = ok tt
verify_events (event ∷ events) calls = do
  calls' ← check_payload event event.payload calls
  verify_events events calls'

-- one branch, from its root to its tip
unfoldable pub verify_branch : List CanonicalEvent → Outcome ReplayError (Unit {0})
unfolding verify_events check_payload answer mark_answered Maps.has Maps.get Maps.set Maps.modify
verify_branch events = verify_events events []

-- the call of `lineage` and the inner loop; none says that `lineage` did not end
verify_lineage :
    Option (Outcome IntegrityError (List CanonicalEvent)) → Option (Outcome ReplayError (Unit {0}))
verify_lineage none = none
verify_lineage (some (err e)) = some (err (tree e))
verify_lineage (some (ok events)) = some (verify_branch events)

-- the outer loop: the first error ends it
verify_leaves : List String → SessionTree → Option (Outcome ReplayError (Unit {0}))
verify_leaves [] t = some (ok tt)
verify_leaves (leaf ∷ rest) t = elim (verify_lineage (lineage leaf t)) [
  | none ↦ none
  | some result ↦ elim result [ err e ↦ some (err e) | ok _ ↦ verify_leaves rest t ]
]

unfoldable pub verify_tool_call_integrity : SessionTree → Option (Outcome ReplayError (Unit {0}))
unfolding verify_leaves verify_lineage verify_branch lineage leaves
verify_tool_call_integrity t = verify_leaves (leaves t) t

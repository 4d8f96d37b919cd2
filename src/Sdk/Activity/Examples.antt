-- ===== src/Sdk/Activity/Examples.antt =====
-- The activity of a session at concrete frames.
use axl_raja.Prelude.{ℕ, String, false, none, some, List, [], ◌∷◌, ◌≡◌, refl, ok, err, arith}
use axl_raja.Sdk.Activity.{
  text_delta, SessionActivityFrame, State, gap, apply_activity, Step, receive, clear_with, run,
}
use axl_raja.Sdk.Activity.Bounds.{IsBounded, run-IsBounded}

abbrev empty_state : State
empty_state = record {
  activity = none;
  activity_sequences = [];
  retired_activity_operations = [];
  latest_activity_operation_id = none;
}

abbrev frame : String → ℕ → SessionActivityFrame
frame id sequence = record { operation_id = id; sequence = sequence; body = text_delta (97 ∷ []) }

-- Two operations, of which the second retires the first.
abbrev steps : List Step
steps =
    receive (frame "a" 1)
    ∷ receive (frame "a" 2)
    ∷ receive (frame "b" 1)
    ∷ receive (frame "a" 3)
    ∷ clear_with none
    ∷ []

refuses_gap :
    (apply_activity (frame "a" 3) (run (receive (frame "a" 1) ∷ []) empty_state)).0
    ≡ err (gap (some 2) 3)
unfolding apply_activity run
refuses_gap = refl

passes_retired :
    (apply_activity
      (frame "a" 3)
      (run (receive (frame "a" 1) ∷ receive (frame "b" 1) ∷ []) empty_state)).0
    ≡ ok false
unfolding apply_activity run
passes_retired = refl

run-IsBounded_example : IsBounded (run steps empty_state)
run-IsBounded_example =
    run-IsBounded steps empty_state
      (record { sized = tt; few = omega arith; known = λ id h. absurd (ground arith) })

-- ===== src/Sdk/Activity.antt =====
-- The transient activity of the projector (packages/sdk/src/projector.ts): text that streams in before
-- its event is stored. A text is the list of its UTF-16 code units.
pub mod Bounds
mod Examples
use axl_raja.Prelude.{
  ℕ, zero, suc, ◌+◌, ◌-◌, String, Bool, true, false, not, ◌&&◌, ◌||◌, Option, none, some, List, [],
  ◌∷◌, ◌++◌, ◌==◌, eqb, leb, ltb, any, keep, contains, Outcome, ok, err, if◌then◌else◌, length,
  drop, is_some_of,
}
use axl_raja.Maps

abbrev pub Text : Type 0
Text = List ℕ

pub record TransientToolCall : Type 0 where
  pub call_id : String
  pub name : String

-- the fields of a SessionActivityFrame that depend on its type
pub data Body : Type 0 where
  text_delta thinking_delta : Text → Body
  tool_call : TransientToolCall → Body
  snapshot : (text thinking : Text) (tool_calls : List TransientToolCall) → Body
  clear : Body

pub record SessionActivityFrame : Type 0 where
  pub operation_id : String
  pub sequence : ℕ
  pub body : Body

pub record ProjectedActivity : Type 0 where
  pub operation_id : String
  pub sequence : ℕ
  pub text : Text
  pub thinking : Text
  pub tool_calls : List TransientToolCall

-- the fields of the projector that belong to activity
pub record State : Type 0 where
  pub activity : Option ProjectedActivity
  pub activity_sequences : List (String × ℕ)
  pub retired_activity_operations : List String
  pub latest_activity_operation_id : Option String

-- a ProjectionError activity_sequence_gap, with the sequence that was expected, if one was
pub record SequenceGap : Type 0 where
  pub expected : Option ℕ
  pub received : ℕ

abbrev pub max_projected_activity_characters : ℕ
max_projected_activity_characters = 131072

abbrev pub activity_trim_batch_characters : ℕ
activity_trim_batch_characters = 16384

-- combined.slice(-MAX_PROJECTED_ACTIVITY_CHARACTERS) keeps the end
unfoldable pub bounded_activity_text : Text → Text → Text
bounded_activity_text current addition =
    let combined = current ++ addition in
    if leb (length combined) (max_projected_activity_characters + activity_trim_batch_characters)
    then combined
    else drop (length combined - max_projected_activity_characters) combined

abbrev pub remove : String → List String → List String
remove id = keep (λ j. not (j == id))

-- the loop of `rememberActivitySequence`
unfoldable pub evict : List (String × ℕ) → List String → List (String × ℕ) × List String
evict [] retired = ([], retired)
evict ((oldest, sequence) ∷ sequences) retired =
    let evicted = evict sequences (remove oldest retired) in
    if ltb 128 (suc (length sequences)) then evicted else ((oldest, sequence) ∷ sequences, retired)

abbrev pub with_sequences : State → List (String × ℕ) × List String → State
with_sequences s (sequences, retired) = record s {
  activity_sequences = sequences;
  retired_activity_operations = retired;
}

unfoldable pub remember_activity_sequence : String → ℕ → State → State
unfolding evict Maps.set Maps.delete
remember_activity_sequence operation_id sequence s = with_sequences s (
    evict (Maps.set operation_id sequence (Maps.delete operation_id s.activity_sequences))
      s.retired_activity_operations)

abbrev pub add : String → List String → List String
add id retired = if contains id retired then retired else retired ++ id ∷ []

abbrev pub known_sequence : Option ℕ → Option ProjectedActivity → ℕ
known_sequence (some sequence) activity = sequence
known_sequence none (some activity) = activity.sequence
known_sequence none none = 0

unfoldable pub retire_activity : String → State → State
unfolding remember_activity_sequence Maps.get
retire_activity operation_id s =
    remember_activity_sequence operation_id
      (known_sequence (Maps.get operation_id s.activity_sequences) s.activity)
      (record s { retired_activity_operations = add operation_id s.retired_activity_operations })

abbrev pub reset_activity : State → State
reset_activity s = record {
  activity = none;
  activity_sequences = [];
  retired_activity_operations = [];
  latest_activity_operation_id = none;
}

abbrev pub is_of : String → Option ProjectedActivity → Bool
is_of operation_id none = false
is_of operation_id (some activity) = activity.operation_id == operation_id

-- where another operation was the latest, it is retired
abbrev pub retire_other : String → Option String → State → State
retire_other operation_id none s = s
retire_other operation_id (some latest) s =
    if latest == operation_id then s else retire_activity latest s

abbrev pub drop_if : Bool → State → State
drop_if true s = record s { activity = none }
drop_if false s = s

-- the tests of the frame's sequence: `true` goes on
abbrev pub starts_well : SessionActivityFrame → Bool
starts_well frame = elim frame.body [
  | snapshot _ _ _ ↦ true
  | _ ↦ eqb frame.sequence 0 || eqb frame.sequence 1
]

abbrev pub new_activity : SessionActivityFrame → ProjectedActivity
new_activity frame = record {
  operation_id = frame.operation_id;
  sequence = frame.sequence - 1;
  text = [];
  thinking = [];
  tool_calls = [];
}

abbrev pub base_of : SessionActivityFrame → Option ProjectedActivity → ProjectedActivity
base_of frame none = new_activity frame
base_of frame (some activity) =
    if activity.operation_id == frame.operation_id then activity else new_activity frame

-- the branches on the frame's type
unfoldable pub next_activity : Body → ℕ → ProjectedActivity → Option ProjectedActivity
unfolding bounded_activity_text
next_activity clear sequence base = none
next_activity (snapshot text thinking tool_calls) sequence base = some (record {
  operation_id = base.operation_id;
  sequence = sequence;
  text = bounded_activity_text [] text;
  thinking = bounded_activity_text [] thinking;
  tool_calls = tool_calls;
})
next_activity (text_delta text) sequence base =
    some (record base { sequence = sequence; text = bounded_activity_text base.text text })
next_activity (thinking_delta text) sequence base =
    some (record base { sequence = sequence; thinking = bounded_activity_text base.thinking text })
next_activity (tool_call call) sequence base =
    if any (λ c. c.call_id == call.call_id) base.tool_calls
    then some (record base { sequence = sequence })
    else some (record base { sequence = sequence; tool_calls = base.tool_calls ++ call ∷ [] })

-- applyActivity behind the tests
unfoldable pub accept : SessionActivityFrame → State → State
unfolding retire_activity remember_activity_sequence next_activity
accept frame s =
    let s₁ = retire_other frame.operation_id s.latest_activity_operation_id s in
    let base = base_of frame s₁.activity in
    let s₂ = record s₁ {
      latest_activity_operation_id = some frame.operation_id;
      activity = some base;
    } in
    let s₃ = remember_activity_sequence frame.operation_id frame.sequence s₂ in
    record s₃ { activity = next_activity frame.body frame.sequence base }

abbrev pub gap : Option ℕ → ℕ → SequenceGap
gap expected received = record { expected = expected; received = received }

abbrev pub check_sequence :
    SessionActivityFrame → Option ℕ → State → Outcome SequenceGap Bool × State
check_sequence frame none s =
    if starts_well frame
    then (ok true, accept frame s)
    else (err (gap none frame.sequence), record s { activity = none })
check_sequence frame (some prior) s =
    if leb frame.sequence prior
    then (ok false, s)
    else if eqb frame.sequence (suc prior)
    then (ok true, accept frame s)
    else (
      err (gap (some (suc prior)) frame.sequence),
      drop_if (is_of frame.operation_id s.activity) s,
    )

unfoldable pub apply_activity : SessionActivityFrame → State → Outcome SequenceGap Bool × State
unfolding accept Maps.get
apply_activity frame s =
    if contains frame.operation_id s.retired_activity_operations
    then (ok false, s)
    else check_sequence frame (Maps.get frame.operation_id s.activity_sequences) s

abbrev pub retire_latest : Option String → State → State
retire_latest none s = s
retire_latest (some latest) s = retire_activity latest s

abbrev pub clear_latest : Bool → State → State
clear_latest true s = record s { latest_activity_operation_id = none }
clear_latest false s = s

unfoldable pub clear_activity : Option String → State → State
unfolding retire_activity
clear_activity none s = record (retire_latest s.latest_activity_operation_id s) {
  activity = none;
  latest_activity_operation_id = none;
}
clear_activity (some operation_id) s =
    let s₁ = retire_activity operation_id (drop_if (is_of operation_id s.activity) s) in
    clear_latest (is_some_of operation_id s₁.latest_activity_operation_id) s₁

-- What the subscription calls: a frame, which may throw, a clear, or a reset.
pub data Step : Type 0 where
  receive : SessionActivityFrame → Step
  clear_with : Option String → Step
  reset : Step

unfoldable pub step : Step → State → State
unfolding apply_activity clear_activity
step (receive frame) s = (apply_activity frame s).1
step (clear_with operation_id) s = clear_activity operation_id s
step reset s = reset_activity s

unfoldable pub run : List Step → State → State
unfolding step
run [] s = s
run (first ∷ steps) s = run steps (step first s)

-- ===== src/Sdk/Activity/Bounds.antt =====
-- Bounds on the texts of an activity and on the operations that are remembered. Its list of tool calls
-- has no bound.
use axl_raja.Prelude.{
  ℕ, suc, ◌-◌, ◌≤◌, String, Bool, true, false, not, ◌&&◌, ◌||◌, Option, none, some, List, [], ◌∷◌,
  ◌++◌, ◌≡◌, refl, ◌==◌, eq_iff, arith, leb, ltb, length, length-drop, contains, contains-append,
  Bool-cases, inl, inr, if◌then◌else◌, Outcome, ok, any, eqb,
}
use axl_raja.Maps
use axl_raja.Maps.Laws.{has-set, has-delete}
use axl_raja.Sdk.Activity.{
  Text, Body, text_delta, thinking_delta, tool_call, snapshot, clear, SessionActivityFrame,
  ProjectedActivity, State, bounded_activity_text, remove, evict, remember_activity_sequence, add,
  retire_activity, retire_other, drop_if, base_of, next_activity, accept, check_sequence,
  apply_activity, retire_latest, clear_latest, clear_activity, Step, receive, clear_with, reset,
  step, run, is_of, starts_well, SequenceGap,
}

-- The text and the thinking of an activity have at most 147456 code units each.
abbrev pub IsSized : Option ProjectedActivity → Type 0
IsSized none = Unit
IsSized (some activity) = (length activity.text ≤ 147456) × (length activity.thinking ≤ 147456)

-- At most 128 operations are remembered, and all that are retired are among them.
pub record IsBounded (s : State) : Type 0 where
  pub sized : IsSized s.activity
  pub few : length s.activity_sequences ≤ 128
  pub known :
      (id : String)
      → contains id s.retired_activity_operations ≡ true
      → Maps.has id s.activity_sequences ≡ true

bounded_activity_text-length :
    (current addition : Text) → length (bounded_activity_text current addition) ≤ 147456
unfolding bounded_activity_text
bounded_activity_text-length current addition =
    elim (Bool-cases (leb (length (current ++ addition)) 147456)) [
      | inl short ↦ rw short (ground arith)
      | inr long ↦
          rw long (
            omega
              (arith, length-drop (length (current ++ addition) - 131072) (current ++ addition)))
    ]

contains-remove :
    (id k : String) (retired : List String)
    → contains id (remove k retired) ≡ (contains id retired && not (k == id))
contains-remove id k [] = refl
contains-remove id k (j ∷ retired) =
    ground (arith, contains-remove id k retired, eq_iff j k, eq_iff k j, eq_iff j id, eq_iff k id)

evict-few :
    (sequences : List (String × ℕ)) (retired : List String)
    → length (evict sequences retired).0 ≤ 128
unfolding evict
evict-few [] retired = omega arith
evict-few ((id, n) ∷ sequences) retired = elim (Bool-cases (ltb 128 (suc (length sequences)))) [
  | inl many ↦ rw many (evict-few sequences (remove id retired))
  | inr few ↦ rw few (ground arith)
]

evict-known :
    (sequences : List (String × ℕ)) (retired : List String)
    → ((id : String) → contains id retired ≡ true → Maps.has id sequences ≡ true)
    → (id : String) → contains id (evict sequences retired).1 ≡ true
    → Maps.has id (evict sequences retired).0 ≡ true
unfolding evict Maps.has
evict-known [] retired known = known
evict-known ((k, n) ∷ sequences) retired known =
    elim (Bool-cases (ltb 128 (suc (length sequences)))) [
      | inl many ↦ rw many (
          evict-known sequences (remove k retired)
            λ id h. ground (arith, contains-remove id k retired, known id))
      | inr few ↦ rw few known
    ]

-- An operation is remembered, where the others that are retired are known already.
remember-IsBounded :
    (id : String) (sequence : ℕ) (s : State)
    → IsSized s.activity
    → ((j : String)
        → contains j s.retired_activity_operations ≡ true
        → (id == j || Maps.has j s.activity_sequences) ≡ true)
    → IsBounded (remember_activity_sequence id sequence s)
unfolding remember_activity_sequence
remember-IsBounded id sequence s sized known =
    let sequences = Maps.set id sequence (Maps.delete id s.activity_sequences) in
    record {
      sized = sized;
      few = evict-few sequences s.retired_activity_operations;
      known = evict-known sequences s.retired_activity_operations λ j h. ground (
        arith,
        known j h,
        has-set id j sequence (Maps.delete id s.activity_sequences),
        has-delete id j s.activity_sequences,
      );
    }

contains-add :
    (id j : String) (retired : List String)
    → contains j (add id retired) ≡ true
    → (id == j || contains j retired) ≡ true
contains-add id j retired h = ground (arith, contains-append j retired (id ∷ []), eq_iff id j)

retire-IsBounded : (id : String) (s : State) → IsBounded s → IsBounded (retire_activity id s)
unfolding retire_activity
retire-IsBounded id s b =
    remember-IsBounded id _
      (record s { retired_activity_operations = add id s.retired_activity_operations }) b.sized
      λ j h. ground (arith, contains-add id j s.retired_activity_operations h, b.known j)

retire_other-IsBounded :
    (id : String) (latest : Option String) (s : State)
    → IsBounded s
    → IsBounded (retire_other id latest s)
retire_other-IsBounded id none s b = b
retire_other-IsBounded id (some latest) s b = elim (Bool-cases (latest == id)) [
  | inl same ↦ rw same b
  | inr other ↦ rw other (retire-IsBounded latest s b)
]

-- Another activity in the place of the old one.
with-IsBounded :
    (activity : Option ProjectedActivity) (latest : Option String) (s : State)
    → IsSized activity
    → IsBounded s
    → IsBounded (record s { activity = activity; latest_activity_operation_id = latest })
with-IsBounded activity latest s sized b = record { sized = sized; few = b.few; known = b.known }

base_of-IsSized :
    (frame : SessionActivityFrame) (activity : Option ProjectedActivity)
    → IsSized activity
    → IsSized (some (base_of frame activity))
base_of-IsSized frame none sized = (omega arith, omega arith)
base_of-IsSized frame (some activity) sized =
    elim (Bool-cases (activity.operation_id == frame.operation_id)) [
      | inl same ↦ rw same sized
      | inr other ↦ rw other (omega arith, omega arith)
    ]

next_activity-IsSized :
    (body : Body) (sequence : ℕ) (base : ProjectedActivity)
    → IsSized (some base)
    → IsSized (next_activity body sequence base)
unfolding next_activity
next_activity-IsSized clear sequence base sized = tt
next_activity-IsSized (snapshot text thinking tool_calls) sequence base sized =
    (bounded_activity_text-length [] text, bounded_activity_text-length [] thinking)
next_activity-IsSized (text_delta text) sequence base (t, u) =
    (bounded_activity_text-length base.text text, u)
next_activity-IsSized (thinking_delta text) sequence base (t, u) =
    (t, bounded_activity_text-length base.thinking text)
next_activity-IsSized (tool_call call) sequence base sized =
    elim (Bool-cases (any (λ c. c.call_id == call.call_id) base.tool_calls)) [
      | inl old ↦ rw old sized
      | inr new ↦ rw new sized
    ]

accept-IsBounded :
    (frame : SessionActivityFrame) (s : State) → IsBounded s → IsBounded (accept frame s)
unfolding accept
accept-IsBounded frame s b =
    let b₁ = retire_other-IsBounded frame.operation_id s.latest_activity_operation_id s b in
    let s₁ = retire_other frame.operation_id s.latest_activity_operation_id s in
    let base = base_of-IsSized frame s₁.activity b₁.sized in
    let s₂ = record s₁ {
      latest_activity_operation_id = some frame.operation_id;
      activity = some (base_of frame s₁.activity);
    } in
    let b₃ =
      remember-IsBounded frame.operation_id frame.sequence s₂ base
        (λ j h. ground (arith, b₁.known j h)) in
    record {
      sized = next_activity-IsSized frame.body frame.sequence (base_of frame s₁.activity) base;
      few = b₃.few;
      known = b₃.known;
    }

drop_if-IsBounded : (b : Bool) (s : State) → IsBounded s → IsBounded (drop_if b s)
drop_if-IsBounded true s b = with-IsBounded none s.latest_activity_operation_id s tt b
drop_if-IsBounded false s b = b

pair-IsBounded :
    (b : Bool) (p q : Outcome SequenceGap Bool × State)
    → IsBounded p.1
    → IsBounded q.1
    → IsBounded (if b then p else q).1
pair-IsBounded true p q i j = i
pair-IsBounded false p q i j = j

apply_activity-IsBounded :
    (frame : SessionActivityFrame) (s : State) → IsBounded s → IsBounded (apply_activity frame s).1
unfolding apply_activity
apply_activity-IsBounded frame s b =
    pair-IsBounded (contains frame.operation_id s.retired_activity_operations) (ok false, s) _ b
      (checked (Maps.get frame.operation_id s.activity_sequences))
  where
    checked : (prior : Option ℕ) → IsBounded (check_sequence frame prior s).1
    checked none =
        pair-IsBounded (starts_well frame) (ok true, accept frame s) _ (accept-IsBounded frame s b)
          (with-IsBounded none s.latest_activity_operation_id s tt b)
    checked (some prior) =
        pair-IsBounded (leb frame.sequence prior) (ok false, s) _ b
          (pair-IsBounded (eqb frame.sequence (suc prior)) (ok true, accept frame s) _
            (accept-IsBounded frame s b)
            (drop_if-IsBounded (is_of frame.operation_id s.activity) s b))

retire_latest-IsBounded :
    (latest : Option String) (s : State) → IsBounded s → IsBounded (retire_latest latest s)
retire_latest-IsBounded none s b = b
retire_latest-IsBounded (some latest) s b = retire-IsBounded latest s b

clear_latest-IsBounded : (b : Bool) (s : State) → IsBounded s → IsBounded (clear_latest b s)
clear_latest-IsBounded true s b = with-IsBounded s.activity none s b.sized b
clear_latest-IsBounded false s b = b

clear_activity-IsBounded :
    (id : Option String) (s : State) → IsBounded s → IsBounded (clear_activity id s)
unfolding clear_activity
clear_activity-IsBounded none s b =
    with-IsBounded none none (retire_latest s.latest_activity_operation_id s) tt
      (retire_latest-IsBounded s.latest_activity_operation_id s b)
clear_activity-IsBounded (some id) s b =
    clear_latest-IsBounded _ _ (retire-IsBounded id _ (drop_if-IsBounded (is_of id s.activity) s b))

step-IsBounded : (next : Step) (s : State) → IsBounded s → IsBounded (step next s)
unfolding step
step-IsBounded (receive frame) s b = apply_activity-IsBounded frame s b
step-IsBounded (clear_with id) s b = clear_activity-IsBounded id s b
step-IsBounded reset s b = record {
  sized = tt;
  few = omega arith;
  known = λ id h. absurd (ground arith);
}

-- Whatever frames arrive, in whatever order, and whatever is cleared between them: from a state in
-- these bounds, as the empty one is, an activity holds at most 147456 code units of text and of
-- thinking, at most 128 operations are remembered, and every retired operation is one of them. The
-- number of its tool calls is not bounded.
pub run-IsBounded : (steps : List Step) (s : State) → IsBounded s → IsBounded (run steps s)
unfolding run
run-IsBounded [] s b = b
run-IsBounded (first ∷ steps) s b = run-IsBounded steps (step first s) (step-IsBounded first s b)

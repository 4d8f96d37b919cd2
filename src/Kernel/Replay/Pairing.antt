-- ===== src/Kernel/Replay/Pairing.antt =====
-- What the check of one branch establishes.
use axl_raja.Prelude.{
  String, Bool, false, Option, none, some, List, [], ◌∷◌, ◌++◌, ◌≡◌, refl, ◌↔◌, ◌==◌, eq_iff, ok,
  >>=-eq-ok, if◌then◌else◌, arith, ◌||◌, Option-cases, inl, inr,
}
use axl_raja.Maps
use axl_raja.Maps.Laws.{get-set, get-modify, has-get}
use axl_raja.Protocol.Event.{CanonicalEvent, Payload, tool_call, tool_result}
use axl_raja.Kernel.Replay.{
  Call, answer, mark_answered, check_payload, verify_events, verify_branch,
}

abbrev pub call_name : String → Payload → Option String
call_name id (tool_call call_id name _) = if call_id == id then some name else none
call_name id _ = none

abbrev pub is_answer : String → Payload → Bool
is_answer id (tool_result call_id _ _ _ _) = call_id == id
is_answer id _ = false

abbrev pub or_else {ℓ} : {A : Type ℓ} → Option A → Option A → Option A
or_else (some a) o = some a
or_else none o = o

-- The tool that the first call with an id names.
abbrev pub called : String → List CanonicalEvent → Option String
called id [] = none
called id (e ∷ events) = or_else (call_name id e.payload) (called id events)

-- Some result answers the id.
abbrev pub answered : String → List CanonicalEvent → Bool
answered id [] = false
answered id (e ∷ events) = is_answer id e.payload || answered id events

-- A call has a new id; a result has an open call before it, with its own tool's name.
abbrev pub Fits : List CanonicalEvent → Payload → Type 0
Fits before (tool_call call_id name _) = called call_id before ≡ none
Fits before (tool_result call_id name _ _ _) =
    (called call_id before ≡ some name) × (answered call_id before ≡ false)
Fits before _ = Unit

abbrev pub IsPaired : List CanonicalEvent → List CanonicalEvent → Type 0
IsPaired before [] = Unit
IsPaired before (e ∷ events) = Fits before e.payload × IsPaired (before ++ e ∷ []) events

abbrev status : Bool → Option String → Option Call
status done none = none
status done (some name) = some (record { name = name; answered = done })

-- The map holds each call of the events so far, and whether a result has answered it.
record Tracks (before : List CanonicalEvent) (calls : List (String × Call)) : Type 0 where
  at : (id : String) → Maps.get id calls ≡ status (answered id before) (called id before)
  -- a result has its call before it
  known : (id : String) → called id before ≡ none → answered id before ≡ false

or_else-none {ℓ} : {A : Type ℓ} (o : Option A) → or_else o none ≡ o
or_else-none none = refl
or_else-none (some a) = refl

or_else_assoc {ℓ} :
    {A : Type ℓ} (a b c : Option A) → or_else a (or_else b c) ≡ or_else (or_else a b) c
or_else_assoc none b c = refl
or_else_assoc (some a) b c = refl

pub called-snoc :
    (id : String) (before : List CanonicalEvent) (e : CanonicalEvent)
    → called id (before ++ e ∷ []) ≡ or_else (called id before) (call_name id e.payload)
called-snoc id [] e = or_else-none (call_name id e.payload)
called-snoc id (x ∷ before) e =
    rw (called-snoc id before e)
      (or_else_assoc (call_name id x.payload) (called id before) (call_name id e.payload))

pub answered-snoc :
    (id : String) (before : List CanonicalEvent) (e : CanonicalEvent)
    → answered id (before ++ e ∷ []) ≡ (answered id before || is_answer id e.payload)
answered-snoc id [] e = ground arith
answered-snoc id (x ∷ before) e = ground (arith, answered-snoc id before e)

-- Where `called` and `answered` of the longer branch are known, the new map can be compared at
-- each id.
Tracks-snoc :
    (before : List CanonicalEvent) (e : CanonicalEvent) (calls : List (String × Call))
    → ((id : String)
        → (Maps.get id calls
            ≡ status
                (answered id before || is_answer id e.payload)
                (or_else (called id before) (call_name id e.payload)))
          × (or_else (called id before) (call_name id e.payload) ≡ none
              → (answered id before || is_answer id e.payload) ≡ false))
    → Tracks (before ++ e ∷ []) calls
Tracks-snoc before e calls h = record {
  at = λ id. rw (called-snoc, answered-snoc) ((h id).0);
  known = λ id. rw (called-snoc, answered-snoc) ((h id).1);
}

module _ (before : List CanonicalEvent) (e : CanonicalEvent) (calls : List (String × Call))
    (t : Tracks before calls) where
  check_payload_sound :
      (payload : Payload) (next : List (String × Call))
      → check_payload e payload calls ≡ ok next
      → Fits before payload
  unfolding check_payload answer
  check_payload_sound (tool_call call_id name input) next h =
      ground (arith, has-get call_id calls, t.at call_id)
  check_payload_sound (tool_result call_id name content is_error details) next h =
      elim (Option-cases (called call_id before)) [
        | inl missing ↦ absurd (ground (arith, t.at call_id))
        | inr (known_name, found) ↦ ground (arith, t.at call_id, eq_iff known_name name)
      ]
  check_payload_sound p next h = tt

  check_payload_total :
      (payload : Payload)
      → Fits before payload
      → (next : List (String × Call)) × (check_payload e payload calls ≡ ok next)
  unfolding check_payload answer
  check_payload_total (tool_call call_id name input) fits = (
    Maps.set call_id (record { name = name; answered = false }) calls,
    ground (arith, has-get call_id calls, t.at call_id),
  )
  check_payload_total (tool_result call_id name content is_error details) fits =
      (Maps.modify call_id mark_answered calls, ground (arith, t.at call_id, eq_iff name name))
  check_payload_total p fits = (calls, refl)

  check_payload-Tracks :
      (payload : Payload) (next : List (String × Call))
      → e.payload ≡ payload
      → check_payload e payload calls ≡ ok next
      → Tracks (before ++ e ∷ []) next
  unfolding check_payload answer mark_answered
  check_payload-Tracks (tool_call call_id name input) next same h = Tracks-snoc before e next λ id.
      (
        ground (
          arith,
          get-set call_id id (record { name = name; answered = false }) calls,
          t.at id,
          t.known id,
          t.at call_id,
          has-get call_id calls,
          eq_iff call_id id,
        ),
        ground (arith, t.known id),
      )
  check_payload-Tracks (tool_result call_id name content is_error details) next same h =
      Tracks-snoc before e next λ id. (
        ground (
          arith,
          get-modify call_id id mark_answered calls,
          t.at id,
          t.at call_id,
          or_else-none (called id before),
          eq_iff call_id id,
        ),
        ground
            (arith, t.known id, t.at call_id, or_else-none (called id before), eq_iff call_id id),
      )
  check_payload-Tracks p next same h = Tracks-snoc before e next λ id. (
    ground (arith, t.at id, or_else-none (called id before)),
    ground (arith, t.known id, or_else-none (called id before)),
  )

verify_events_sound :
    (before events : List CanonicalEvent) (calls : List (String × Call))
    → Tracks before calls
    → verify_events events calls ≡ ok tt
    → IsPaired before events
unfolding verify_events
verify_events_sound before [] calls t h = tt
verify_events_sound before (e ∷ events) calls t h =
    let (next, done, rest) = >>=-eq-ok (check_payload e e.payload calls) _ h in
    (
      check_payload_sound before e calls t e.payload next done,
      verify_events_sound (before ++ e ∷ []) events next
          (check_payload-Tracks before e calls t e.payload next refl done) rest,
    )

verify_events_total :
    (before events : List CanonicalEvent) (calls : List (String × Call))
    → Tracks before calls
    → IsPaired before events
    → verify_events events calls ≡ ok tt
unfolding verify_events
verify_events_total before [] calls t h = refl
verify_events_total before (e ∷ events) calls t (fits, h) =
    let (next, done) = check_payload_total before e calls t e.payload fits in
    rw done (
      verify_events_total (before ++ e ∷ []) events next
        (check_payload-Tracks before e calls t e.payload next refl done) h)

-- The check of a branch passes exactly where every tool call has a new call id and every tool
-- result comes after a call with its id and tool name that no earlier result has answered.
pub verify_branch_iff :
    (events : List CanonicalEvent) → (verify_branch events ≡ ok tt) ↔ IsPaired [] events
unfolding verify_branch
verify_branch_iff events =
    let start : Tracks [] [] = record { at = λ id. refl; known = λ id _. refl } in
    (verify_events_sound [] events [] start, verify_events_total [] events [] start)

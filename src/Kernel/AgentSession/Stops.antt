-- ===== src/Kernel/AgentSession/Stops.antt =====
-- When a turn ends.
use axl_raja.Prelude.{
  ℕ, zero, suc, ◌+◌, ◌≤◌, ◌<◌, String, true, Option, none, some, List, ◌≡◌, refl, ◌≢◌,
  if◌then◌else◌, Outcome, ok, err, arith, Bool-cases, inl, inr, Option-cases,
}
use axl_raja.Protocol.Event.{Content, StopReason, CanonicalEvent}
use axl_raja.Kernel.AgentSession.{
  World, AgentSession, Thrown, Run, proceed, return, append_pushed, append, append_user_message,
  check_aborted, push_appended, accept_stored, ◌>>=◌,
}
use axl_raja.Kernel.AgentSession.Model.{
  model_turn, attempt_from, attempts_behind_first, or_one, nothing, TurnOutcome,
}
use axl_raja.Kernel.AgentSession.Turn.{
  Round, returns, continues, TurnResult, turn_result, loop_or_return, append_assistant_message,
  follow_outcome, run_round, rounds, turn_body, run_turn, begin,
}
use axl_raja.Kernel.AgentSession.Invariants.{
  append_user_message-Keeps, IsInvariant, proceed-Keeps, unless_false-Keeps, attempt_from-Keeps,
  append_assistant_message-Keeps, follow_outcome-Keeps,
}
use axl_raja.Kernel.AgentSession.Reported.{run_turn-when_idle}

-- At least `n` calls of the world have been made.
abbrev HasCalled : ℕ → AgentSession → Type 0
HasCalled n s = n ≤ s.calls

module _ (w : World) (n : ℕ) where
  accept_stored-HasCalled :
      (answer : Option CanonicalEvent) (s : AgentSession)
      → HasCalled n s
      → HasCalled n
          (proceed
            (λ stored. push_appended stored >>= λ _. return stored)
            (accept_stored answer s)).1
  accept_stored-HasCalled none s i = i
  accept_stored-HasCalled (some stored) s i = i

  stored-HasCalled :
      (answer : Option CanonicalEvent) (s : AgentSession)
      → HasCalled n s
      → HasCalled n (accept_stored answer s).1
  stored-HasCalled none s i = i
  stored-HasCalled (some stored) s i = i

  counted : IsInvariant w (HasCalled n)
  unfolding append_pushed append
  counted = record {
    kept_by_append = λ op payload s i.
        accept_stored-HasCalled (w.store s.calls _) (record s { calls = suc s.calls })
          (omega arith);
    kept_by_event = λ op payload s i.
        stored-HasCalled (w.store s.calls _) (record s { calls = suc s.calls }) (omega arith);
    framed = λ s s' _ _ _ later i. omega arith;
  }

-- Each round looks at the abort signal once at least.
run_round-calls :
    (w : World) (operation_id : String) (s : AgentSession)
    → s.calls < (run_round w operation_id s).1.calls
unfolding run_round model_turn
run_round-calls w op s =
    let I = HasCalled (suc s.calls) in
    let inv = counted w (suc s.calls) in
    let behind = attempts_behind_first w op w.max_attempts in
    let all = or_one w op w.max_attempts in
    let called =
      proceed-Keeps I
        (λ outcome. append_assistant_message w op outcome >>= λ _.
          follow_outcome w op outcome outcome.stop_reason)
        (model_turn w op s)
        (unless_false-Keeps w I inv (w.is_aborted s.calls)
          (return (nothing StopReason.aborted none)) (attempt_from w op behind 1 all) (λ t j. j)
          (attempt_from-Keeps w I inv op behind 1 all) (check_aborted w s).1 (omega arith))
        λ outcome t j.
          proceed-Keeps I _ (append_assistant_message w op outcome t)
            (append_assistant_message-Keeps w I inv op outcome t j)
            λ _. follow_outcome-Keeps w I inv op outcome outcome.stop_reason in
    omega (arith, called)

-- Once the signal is aborted, it stays so.
abbrev pub IsLasting : World → Type 0
IsLasting w = (m n : ℕ) → m ≤ n → w.is_aborted m ≡ true → w.is_aborted n ≡ true

-- The fuel has not run out.
abbrev HasEnded {ℓ} : {A : Type ℓ} → Outcome Thrown (Option A) × AgentSession → Type ℓ
HasEnded (outcome, s) = outcome ≢ ok none

module _ (w : World) (operation_id : String) where
  abbrev stopped : TurnOutcome
  stopped = nothing StopReason.aborted none

  run_round-when_aborted :
      (s : AgentSession)
      → w.is_aborted s.calls ≡ true
      → run_round w operation_id s
        ≡ proceed
            (λ _. return (returns StopReason.aborted))
            (append_assistant_message w operation_id stopped (check_aborted w s).1)
  unfolding run_round model_turn follow_outcome
  run_round-when_aborted s h i =
      proceed
        (λ outcome. append_assistant_message w operation_id outcome >>= λ _.
          follow_outcome w operation_id outcome outcome.stop_reason)
        ((if h i
            then return stopped
            else attempt_from w operation_id (attempts_behind_first w operation_id w.max_attempts) 1
                (or_one w operation_id w.max_attempts))
          (check_aborted w s).1)

  returns-HasEnded :
      (rest : Run (Option StopReason)) (r : Outcome Thrown (Unit {0}) × AgentSession)
      → HasEnded
          (proceed (loop_or_return w rest) (proceed (λ _. return (returns StopReason.aborted)) r))
  returns-HasEnded rest (ok _, s) = λ h. ground arith
  returns-HasEnded rest (err e, s) = λ h. ground arith

  rest-HasEnded :
      (rest : Run (Option StopReason)) (r : Outcome Thrown Round × AgentSession)
      → HasEnded (rest r.1)
      → HasEnded (proceed (loop_or_return w rest) r)
  rest-HasEnded rest (ok (returns reason), s) ends = λ h. ground arith
  rest-HasEnded rest (ok continues, s) ends = ends
  rest-HasEnded rest (err e, s) ends = λ h. ground arith

  rounds-HasEnded :
      (last fuel : ℕ) (s : AgentSession)
      → IsLasting w
      → w.is_aborted last ≡ true
      → last < s.calls + fuel
      → 0 < fuel
      → HasEnded (rounds w fuel operation_id s)
  unfolding rounds
  rounds-HasEnded last zero s lasting aborted enough positive = absurd (omega arith)
  rounds-HasEnded last (suc fuel) s lasting aborted enough positive =
      elim (Bool-cases (w.is_aborted s.calls)) [
        | inl now ↦ rw (run_round-when_aborted s now) (
            returns-HasEnded (rounds w fuel operation_id)
              (append_assistant_message w operation_id stopped (check_aborted w s).1))
        | inr later ↦
            let called = run_round-calls w operation_id s in
            let before : s.calls < last = ground (arith, lasting last s.calls) in
            rest-HasEnded (rounds w fuel operation_id) (run_round w operation_id s) (
              rounds-HasEnded last fuel (run_round w operation_id s).1 lasting aborted (omega arith)
                (omega arith))
      ]

  result-HasEnded :
      (r : Outcome Thrown (Option StopReason) × AgentSession)
      → HasEnded r
      → HasEnded (proceed (turn_result w) r)
  result-HasEnded (ok none, s) ends = λ h. ends refl
  result-HasEnded (ok (some reason), s) ends = λ h. ground arith
  result-HasEnded (err e, s) ends = λ h. ground arith

  content-HasEnded :
      (n : ℕ) (rest : Run (Option TurnResult)) (r : Outcome Thrown (Unit {0}) × AgentSession)
      → n ≤ r.1.calls
      → ((t : AgentSession) → n ≤ t.calls → HasEnded (rest t))
      → HasEnded (proceed (λ _. rest) r)
  content-HasEnded n rest (ok _, t) later ends = ends t later
  content-HasEnded n rest (err e, t) later ends = λ h. ground arith

  turn_body-HasEnded :
      (last fuel : ℕ) (content : List Content) (s : AgentSession)
      → IsLasting w
      → w.is_aborted last ≡ true
      → last < s.calls + fuel
      → 0 < fuel
      → HasEnded (turn_body w fuel operation_id content s)
  unfolding turn_body
  turn_body-HasEnded last fuel content s lasting aborted enough positive =
      content-HasEnded s.calls _ (append_user_message w operation_id content s)
        (append_user_message-Keeps w (HasCalled s.calls) (counted w s.calls) operation_id content s
          (omega arith))
        λ t later.
          result-HasEnded (rounds w fuel operation_id t)
            (rounds-HasEnded last fuel t lasting aborted (omega arith) positive)

-- An aborted signal ends a turn: where the signal is aborted at some call of the world and stays so,
-- the model's fuel does not run out if it is positive and reaches from the calls already made beyond
-- that one. The turn returns a result then, or throws.
pub run_turn-ends :
    (w : World) (last fuel : ℕ) (operation_id : String) (content : List Content) (s : AgentSession)
    → IsLasting w
    → w.is_aborted last ≡ true
    → last < s.calls + fuel
    → 0 < fuel
    → (run_turn w fuel operation_id content s).0 ≢ ok none
run_turn-ends w last fuel op content s lasting aborted enough positive =
    elim (Option-cases s.active_operation) [
      | inl idle ↦
          rw (run_turn-when_idle w fuel op content s none idle) (
            turn_body-HasEnded w op last fuel content (begin w op s) lasting aborted enough
              positive)
      | inr (active, busy) ↦
          rw (run_turn-when_idle w fuel op content s (some active) busy) (λ h. ground arith)
    ]

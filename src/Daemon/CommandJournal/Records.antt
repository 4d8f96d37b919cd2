-- ===== src/Daemon/CommandJournal/Records.antt =====
-- The tests of `parseRecord` on the fields of a record; their types are those of the model.
use axl_raja.Prelude.{
  ℕ, zero, suc, String, Bool, true, false, not, ◌&&◌, ◌||◌, Option, none, some, List, [], ◌∷◌, ◌++◌,
  ◌==◌, leb, contains,
}
use Prim.Native.Char.{Char, code}
use axl_raja.Daemon.CommandJournal.{
  CommandFailure, CommandAcceptance, succeeded, failed, CommandRecord, accepted, completed,
}

-- RETRYABLE_MUTATION_METHODS (packages/protocol/src/wire.ts)
abbrev pub retryable_mutation_methods : List String
retryable_mutation_methods =
    "session.create" ∷ "session.fork" ∷ "session.clone" ∷ "session.rename" ∷ "session.delete"
    ∷ "session.import" ∷ "session.send" ∷ "session.interruptAndDeliver" ∷ "session.queue.enqueue"
    ∷ "session.queue.requeue" ∷ "session.interrupt" ∷ "session.reload" ∷ "session.configure"
    ∷ "session.interaction.respond" ∷ "session.dispose" ∷ []

-- the characters from `first` to `last`
abbrev between : ℕ → ℕ → Char → Bool
between first last c = leb first (code c) && leb (code c) last

-- [0-9a-f]
abbrev hex : Char → Bool
hex c = between 48 57 c || between 97 102 c

-- A text of the length of the pattern, with each character in its class.
unfoldable pub matches : List (Char → Bool) → String → Bool
matches [] String.[] = true
matches [] (String.◌∷◌ c s) = false
matches (p ∷ pattern) String.[] = false
matches (p ∷ pattern) (String.◌∷◌ c s) = p c && matches pattern s

abbrev repeat : ℕ → (Char → Bool) → List (Char → Bool)
repeat zero p = []
repeat (suc n) p = p ∷ repeat n p

abbrev dash : Char → Bool
dash = between 45 45

-- uuidPattern
abbrev pub uuid_pattern : List (Char → Bool)
uuid_pattern =
    repeat 8 hex
    ++ dash ∷ repeat 4 hex
    ++ dash ∷ between 49 56 ∷ repeat 3 hex
    ++ dash ∷ (λ c. between 56 57 c || between 97 98 c) ∷ repeat 3 hex
    ++ dash ∷ repeat 12 hex

-- parseId
unfoldable pub is_id : String → Bool
unfolding matches
is_id value = matches uuid_pattern value

-- timestamp: Number.isSafeInteger
abbrev pub is_timestamp : ℕ → Bool
is_timestamp value = leb value 9007199254740991

abbrev pub is_absent_or : (String → Bool) → Option String → Bool
is_absent_or test none = true
is_absent_or test (some value) = test value

-- parseFailure
unfoldable pub is_failure : CommandFailure → Bool
is_failure error = not (error.code == "") && not (error.message == "")

unfoldable pub is_acceptance : CommandAcceptance → Bool
unfolding is_id matches
is_acceptance acceptance =
    let input = acceptance.input in
    is_id input.idempotency_key
    && (contains input.method retryable_mutation_methods
        && (matches (repeat 64 hex) input.request_hash
            && (is_absent_or is_id input.target_session_id
                && (is_absent_or is_id input.intended_session_id
                    && (is_absent_or is_id input.affected_operation_id
                        && (is_absent_or (λ id. not (id == "")) input.interaction_id
                            && (is_id acceptance.operation_id
                                && is_timestamp acceptance.accepted_at)))))))

-- parseRecord: whether it accepts
unfoldable pub parses : CommandRecord → Bool
unfolding is_acceptance is_id is_failure
parses (accepted acceptance) = is_acceptance acceptance
parses (completed key (succeeded result at)) = is_id key && is_timestamp at
parses (completed key (failed error at)) = is_id key && (is_failure error && is_timestamp at)

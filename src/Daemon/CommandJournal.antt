-- ===== src/Daemon/CommandJournal.antt =====
-- The command journal (packages/daemon/src/command-journal.ts). The file is the list of its records:
-- a torn last line is cut off when the journal is opened.
-- An execution is two steps of the model, `execute` and, when the effect's promise settles, `settle`;
-- the queue runs appends one at a time, so a run is a sequence of such steps.
pub mod Records
pub mod Opening
pub mod Idle
pub mod Loading
pub mod Retried
pub mod Once
pub mod Replies
mod Examples
use axl_raja.Prelude.{
  ℕ, String, Bool, true, false, not, Option, none, some, List, [], ◌∷◌, ◌++◌, ◌==◌, ◌&&◌, ◌≡◌,
  Outcome, ok, err, contains, if◌then◌else◌,
}
use axl_raja.Maps
use axl_raja.Protocol.Json.{Json, Members}

-- RETRYABLE_RPC_ERROR_CODES and isRpcErrorRetryable (packages/protocol/src/wire.ts)
abbrev pub retryable_rpc_error_codes : List String
retryable_rpc_error_codes =
    "rate_limited" ∷ "git_timeout" ∷ "too_many_uploads" ∷ "blob_write_failed" ∷ "blob_read_failed"
    ∷ []

unfoldable pub is_rpc_error_retryable : String → Bool
is_rpc_error_retryable code = contains code retryable_rpc_error_codes

pub record CommandFailure : Type 0 where
  pub code : String
  pub message : String
  pub retryable : Bool
  pub details : Option Members

pub record Input : Type 0 where
  pub idempotency_key : String
  pub method : String
  pub request_hash : String
  pub target_session_id : Option String
  pub intended_session_id : Option String
  pub affected_operation_id : Option String
  pub interaction_id : Option String

pub record CommandAcceptance : Type 0 where
  pub input : Input
  pub open input use *
  pub operation_id : String
  pub accepted_at : ℕ

pub data CommandCompletion : Type 0 where
  succeeded : (result : Json) (completed_at : ℕ) → CommandCompletion
  failed : (error : CommandFailure) (completed_at : ℕ) → CommandCompletion

pub data CommandRecord : Type 0 where
  accepted : CommandAcceptance → CommandRecord
  completed : (idempotency_key : String) → CommandCompletion → CommandRecord

-- `running` says that the entry holds the promise of an effect.
pub record CommandEntry : Type 0 where
  pub acceptance : CommandAcceptance
  pub completion : Option CommandCompletion
  pub running : Bool

pub record CommandJournal : Type 0 where
  pub entries : List (String × CommandEntry)
  pub file : List CommandRecord

-- `parseRpcResult`: a result that it returned passes again, unchanged.
pub record ResultParser : Type 0 where
  pub parse : (method : String) → Json → Option Json
  pub parse_again :
      (method : String) (r s : Json) → parse method r ≡ some s → parse method s ≡ some s

-- What happens to one `appendSynced`: it returns, it throws and leaves nothing, or it throws after
-- the record has reached the file, as when only the sync fails.
pub data Append : Type 0 where
  stored lost lingers : Append

-- What a caller of `execute`, or of the promise that it awaits, observes.
pub data Reply : Type 0 where
  replayed : (key : String) → Json → Reply
  refused : (key : String) → CommandFailure → Reply
  conflict not_accepted invalid_replay joined : (key : String) → Reply
  started : (key : String) → CommandAcceptance → Reply
  resolved : (key : String) → Json → Reply
  rejected : (key : String) → CommandFailure → Reply
  unrecorded ignored : (key : String) → Reply

-- `accept`, up to the choice of the entry
unfoldable pub acceptance_of : Input → ℕ → CommandAcceptance
acceptance_of input now = record {
  input = input;
  operation_id = input.idempotency_key;
  accepted_at = now;
}

unfoldable pub is_same_request : CommandAcceptance → Input → Bool
is_same_request acceptance input =
    acceptance.method == input.method && acceptance.request_hash == input.request_hash

-- const entry = { acceptance }
abbrev pub new_entry : Input → ℕ → CommandEntry
new_entry input now = record {
  acceptance = acceptance_of input now;
  completion = none;
  running = false;
}

-- the branch of `accept` for a key that no entry has; `written` says whether the append succeeds
unfoldable pub add_entry : Input → ℕ → CommandJournal → CommandJournal
unfolding acceptance_of Maps.set
add_entry input now j = record {
  entries = Maps.set input.idempotency_key (new_entry input now) j.entries;
  file = j.file ++ accepted (acceptance_of input now) ∷ [];
}

unfoldable pub set_running : Bool → CommandEntry → CommandEntry
set_running running entry = record entry { running = running }

unfoldable pub set_completion : CommandCompletion → CommandEntry → CommandEntry
set_completion completion entry = record entry { completion = some completion; running = false }

module _ (parser : ResultParser) where
  -- what `execute` does with the entry that `accept` returned
  unfoldable pub proceed_with :
      Input → Option CommandCompletion → CommandEntry → CommandJournal → Reply × CommandJournal
  unfolding set_running Maps.modify
  proceed_with input (some (succeeded result _)) entry j = elim (parser.parse input.method result) [
    | none ↦ (invalid_replay input.idempotency_key, j)
    | some value ↦ (replayed input.idempotency_key value, j)
  ]
  proceed_with input (some (failed error _)) entry j = (refused input.idempotency_key error, j)
  proceed_with input none entry j = if entry.running then (joined input.idempotency_key, j) else (
    started input.idempotency_key entry.acceptance,
    record j { entries = Maps.modify input.idempotency_key (set_running true) j.entries },
  )

  -- `accept`, and what follows it
  abbrev pub execute_entry :
      Input
      → (now : ℕ) (written : Append) → Option CommandEntry
      → CommandJournal
      → Reply × CommandJournal
  execute_entry input now written (some existing) j =
      if is_same_request existing.acceptance input
      then proceed_with input existing.completion existing j
      else (conflict input.idempotency_key, j)
  execute_entry input now written none j = elim written [
    | stored ↦ proceed_with input none (new_entry input now) (add_entry input now j)
    | lost ↦ (not_accepted input.idempotency_key, j)
    | lingers ↦ (
      not_accepted input.idempotency_key,
      record j { file = j.file ++ accepted (acceptance_of input now) ∷ [] },
    )
  ]

  -- `execute`, until it returns the promise that its caller awaits
  unfoldable pub execute :
      Input → (now : ℕ) (written : Append) → CommandJournal → Reply × CommandJournal
  execute input now written j =
      execute_entry input now written (Maps.get input.idempotency_key j.entries) j

-- what an effect throws: an Error with the `code` and `details` properties that the journal reads,
-- where they are a text and a plain object, or any other value
pub data Cause : Type 0 where
  error : (code : Option String) (message : String) (details : Option Members) → Cause
  other : Cause

pub data Effect : Type 0 where
  resolves : Json → Effect
  rejects : Cause → Effect

abbrev coded : String → String → Option Members → CommandFailure
coded code message details = record {
  code = code;
  message = message;
  retryable = is_rpc_error_retryable code;
  details = details;
}

-- the failure that is recorded for a cause
unfoldable pub failure_of : Cause → CommandFailure
unfolding is_rpc_error_retryable
failure_of (error (some code) message details) = coded code message details
failure_of (error none message details) = coded "internal_error" message details
failure_of other = coded "internal_error" "Request failed" none

module _ (key : String) (now : ℕ) (written : Append) where
  -- `append(terminal)`, and then `entry.completion = terminal` or the error of the append; either
  -- way the promise is settled and leaves the entry
  unfoldable pub complete : CommandCompletion → Reply → CommandJournal → Reply × CommandJournal
  unfolding set_completion set_running Maps.modify
  complete completion reply j = elim written [
    | stored ↦ (
      reply,
      record {
        entries = Maps.modify key (set_completion completion) j.entries;
        file = j.file ++ completed key completion ∷ [];
      },
    )
    | lost ↦ (unrecorded key, record j { entries = Maps.modify key (set_running false) j.entries })
    | lingers ↦ (
      unrecorded key,
      record {
        entries = Maps.modify key (set_running false) j.entries;
        file = j.file ++ completed key completion ∷ [];
      },
    )
  ]

  -- the promise is rejected, and nothing is recorded
  unfoldable pub abandon : CommandJournal → Reply × CommandJournal
  unfolding set_running Maps.modify
  abandon j = (unrecorded key, record j { entries = Maps.modify key (set_running false) j.entries })

  abbrev pub settle_result : Option Json → CommandJournal → Reply × CommandJournal
  settle_result none j = abandon j
  settle_result (some validated) j = complete (succeeded validated now) (resolved key validated) j

  -- the two handlers of the effect's promise; a result that does not pass `parseRpcResult` is not
  -- recorded
  abbrev pub settle_entry :
      ResultParser → Effect → CommandEntry → CommandJournal → Reply × CommandJournal
  settle_entry parser (resolves result) entry j =
      settle_result (parser.parse entry.acceptance.input.method result) j
  settle_entry parser (rejects cause) entry j =
      let failure = failure_of cause in complete (failed failure now) (rejected key failure) j

  abbrev pub settle_if_running :
      ResultParser → Effect → Option CommandEntry → CommandJournal → Reply × CommandJournal
  settle_if_running parser effect none j = (ignored key, j)
  settle_if_running parser effect (some entry) j =
      if entry.running then settle_entry parser effect entry j else (ignored key, j)

  -- Only the promise of a running entry settles.
  unfoldable pub settle : ResultParser → Effect → CommandJournal → Reply × CommandJournal
  settle parser effect j = settle_if_running parser effect (Maps.get key j.entries) j

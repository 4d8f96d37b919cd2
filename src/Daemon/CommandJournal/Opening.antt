-- ===== src/Daemon/CommandJournal/Opening.antt =====
-- `CommandJournal.open` over the records of the file: the loop that rebuilds the entries.
use axl_raja.Prelude.{
  String, Bool, true, false, not, Option, none, some, List, [], ◌∷◌, Outcome, ok, err,
  if◌then◌else◌,
}
use axl_raja.Maps
use axl_raja.Daemon.CommandJournal.Records.{parses}
use axl_raja.Daemon.CommandJournal.{
  CommandEntry, CommandCompletion, CommandRecord, accepted, completed, succeeded, failed,
  ResultParser, set_completion, is_rpc_error_retryable,
}

-- the errors of `open`, with the key of the record at fault
pub data Corruption : Type 0 where
  invalid_record : Corruption
  duplicate_acceptance unmatched_completion invalid_result : (key : String) → Corruption

-- `parseFailure` takes the retryability from the code, not from the record.
unfoldable pub reclassify : CommandCompletion → CommandCompletion
unfolding is_rpc_error_retryable
reclassify (succeeded result at) = succeeded result at
reclassify (failed failure at) =
    failed (record failure { retryable = is_rpc_error_retryable failure.code }) at

module _ (parser : ResultParser) where
  -- `parseRpcResult(entry.acceptance.method, record.result)`, for a success
  abbrev pub is_valid_for : CommandEntry → CommandCompletion → Bool
  is_valid_for entry (succeeded result _) =
      elim (parser.parse entry.acceptance.input.method result) [ none ↦ false | some _ ↦ true ]
  is_valid_for entry (failed _ _) = true

  abbrev pub is_open : CommandEntry → Bool
  is_open entry = elim entry.completion [ none ↦ true | some _ ↦ false ]

  abbrev pub load_completion :
      String
      → CommandCompletion
      → Option CommandEntry
      → List (String × CommandEntry)
      → Outcome Corruption (List (String × CommandEntry))
  load_completion key completion none entries = err (unmatched_completion key)
  load_completion key completion (some entry) entries =
      if not (is_open entry)
      then err (unmatched_completion key)
      else if not (is_valid_for entry completion)
      then err (invalid_result key)
      else ok (Maps.modify key (set_completion (reclassify completion)) entries)

  -- what the loop of `open` does with a parsed record
  abbrev pub load_parsed :
      CommandRecord
      → List (String × CommandEntry)
      → Outcome Corruption (List (String × CommandEntry))
  load_parsed (accepted acceptance) entries =
      let key = acceptance.input.idempotency_key in
      if Maps.has key entries
      then err (duplicate_acceptance key)
      else ok (
          Maps.set key (record { acceptance = acceptance; completion = none; running = false })
            entries)
  load_parsed (completed key completion) entries =
      load_completion key completion (Maps.get key entries) entries

  -- one round of the loop of `open`
  unfoldable pub load_record :
      CommandRecord
      → List (String × CommandEntry)
      → Outcome Corruption (List (String × CommandEntry))
  unfolding reclassify set_completion Maps.modify Maps.set Maps.has Maps.get parses
  load_record r entries = if parses r then load_parsed r entries else err invalid_record

  unfoldable pub load :
      List CommandRecord
      → List (String × CommandEntry)
      → Outcome Corruption (List (String × CommandEntry))
  load [] entries = ok entries
  load (r ∷ file) entries = elim (load_record r entries) [
    | err e ↦ err e
    | ok next ↦ load file next
  ]

-- ===== src/Daemon/CommandJournal/Examples.antt =====
-- The journal's theorems and tests at a concrete request.
use axl_raja.Prelude.{◌+◌, ◌≤◌, String, true, false, none, some, List, [], ◌∷◌, ◌≡◌, refl, ok, err}
use axl_raja.Maps
use axl_raja.Protocol.Json.{str}
use axl_raja.Daemon.CommandJournal.{
  stored, lost, lingers, Input, CommandJournal, CommandEntry, succeeded, ResultParser, replayed,
  conflict, started, resolved, joined, proceed_with, add_entry, is_same_request, complete, resolves,
  execute, settle, acceptance_of, accepted, rejects, Cause, failure_of,
}
use axl_raja.Daemon.CommandJournal.Idle.{idle_all}
use axl_raja.Daemon.CommandJournal.Opening.{load, load_record, duplicate_acceptance, invalid_record}
use axl_raja.Daemon.CommandJournal.Records.{parses}
use axl_raja.Daemon.CommandJournal.Once.{
  Action, executes, settles, run, starts_one, loses_one, count, busy, starts-le-losses,
}
use axl_raja.Daemon.CommandJournal.Replies.{IsDone, execute_after_done}
use axl_raja.Daemon.CommandJournal.Loading.{HasCleanAppends, load-run}
use axl_raja.Daemon.CommandJournal.Retried.{load-retried}

abbrev key : String
key = "11111111-1111-4111-8111-111111111111"

abbrev hash : String
hash = "00ff00ff00ff00ff00ff00ff00ff00ff00ff00ff00ff00ff00ff00ff00ff00ff"

abbrev rename : Input
rename = record {
  idempotency_key = key;
  method = "session.rename";
  request_hash = hash;
  target_session_id = some "22222222-2222-4222-8222-222222222222";
  intended_session_id = none;
  affected_operation_id = none;
  interaction_id = none;
}

-- Every result passes.
abbrev any_result : ResultParser
any_result = record { parse = λ method r. some r; parse_again = λ method r s h. refl }

abbrev empty : CommandJournal
empty = record { entries = []; file = [] }

abbrev actions : List Action
actions =
    executes rename 1 stored
    ∷ executes rename 2 stored
    ∷ settles key 3 stored (resolves (str "done"))
    ∷ executes rename 4 lost
    ∷ []

abbrev other_hash : Input
other_hash = record rename { request_hash = "11ee" }

journal_tests :
    ((run any_result actions empty).0
      ≡ started key (acceptance_of rename 1)
        ∷ joined key
        ∷ resolved key (str "done")
        ∷ replayed key (str "done")
        ∷ [])
    × ((execute any_result other_hash 5 stored (run any_result actions empty).1).0 ≡ conflict key)
unfolding run execute settle proceed_with add_entry is_same_request complete Maps.get
journal_tests = (refl, refl)

starts-le-losses_example :
    (let (replies, j) = run any_result actions empty in
      (count (starts_one key) replies ≤ 1 + count (loses_one key) replies)
      × (busy key empty ≡ 1 → count (starts_one key) replies ≤ count (loses_one key) replies))
unfolding Maps.get
starts-le-losses_example = starts-le-losses any_result key actions empty refl

abbrev done_entry : CommandEntry
done_entry = record {
  acceptance = record { input = rename; operation_id = key; accepted_at = 1 };
  completion = some (succeeded (str "done") 3);
  running = false;
}

abbrev done : CommandJournal
done = record { entries = (key, done_entry) ∷ []; file = [] }

rename-IsDone : IsDone key "session.rename" hash (succeeded (str "done") 3) done
unfolding Maps.get
rename-IsDone = record {
  entry = done_entry;
  there = refl;
  method_eq = refl;
  hash_eq = refl;
  done = refl;
  idle = refl;
}

execute_after_done_example :
    (let j = (run any_result actions done).1 in
      execute any_result rename 9 stored j ≡ (replayed key (str "done"), j))
execute_after_done_example =
    execute_after_done any_result actions rename 9 stored "session.rename" hash
      (succeeded (str "done") 3) done rename-IsDone

actions-HasCleanAppends : HasCleanAppends actions
unfolding parses acceptance_of
actions-HasCleanAppends = ((tt, refl), ((tt, refl), ((tt, refl), ((tt, refl), tt))))

load-run_example :
    (let j = (run any_result actions empty).1 in
      load any_result j.file [] ≡ ok (idle_all j.entries))
load-run_example = load-run any_result actions actions-HasCleanAppends

-- An effect that throws an error with an empty message.
abbrev mute : List Action
mute = executes rename 1 stored ∷ settles key 2 stored (rejects (Cause.error none "" none)) ∷ []

mute_unread : load any_result (run any_result mute empty).1.file [] ≡ err invalid_record
unfolding run execute settle proceed_with add_entry is_same_request complete load load_record
    failure_of Maps.get
mute_unread = refl

rename-parses : parses (accepted (acceptance_of rename 1)) ≡ true
unfolding parses acceptance_of
rename-parses = refl

rename-parses_later : parses (accepted (acceptance_of rename 2)) ≡ true
unfolding parses acceptance_of
rename-parses_later = refl

load-retried_example :
    (let j = (run any_result (executes rename 1 lingers ∷ executes rename 2 stored ∷ []) empty).1 in
      load any_result j.file [] ≡ err (duplicate_acceptance key))
unfolding run Maps.get
load-retried_example =
    load-retried any_result [] rename 1 2 tt refl rename-parses rename-parses_later

-- ===== src/Daemon/CommandJournal/Retried.antt =====
-- A request that is tried again after its acceptance was stored and reported as failed.
use axl_raja.Prelude.{
  ℕ, true, none, List, [], ◌∷◌, ◌++◌, ◌≡◌, refl, ap, ◌∙◌, eq_iff, arith, ok, err,
}
use axl_raja.Maps
use axl_raja.Daemon.CommandJournal.{
  stored, lingers, Input, CommandJournal, accepted, ResultParser, new_entry, add_entry,
  acceptance_of, proceed_with, execute,
}
use axl_raja.Daemon.CommandJournal.Records.{parses}
use axl_raja.Daemon.CommandJournal.Opening.{duplicate_acceptance, load_record, load}
use axl_raja.Maps.Laws.{has-set}
use axl_raja.Daemon.CommandJournal.Idle.{idle, idle_all, set-idle_all}
use axl_raja.Daemon.CommandJournal.Once.{Action, executes, run}
use axl_raja.Daemon.CommandJournal.Loading.{
  HasCleanAppends, opened, load-run, add_entry-loaded, load-snoc,
}

accepted_twice :
    (parser : ResultParser) (input : Input) (now later : ℕ) (j : CommandJournal)
    → parses (accepted (acceptance_of input later)) ≡ true
    → load_record parser
        (accepted (acceptance_of input later))
        (idle_all (add_entry input now j).entries)
      ≡ err (duplicate_acceptance input.idempotency_key)
unfolding load_record add_entry
accepted_twice parser input now later j parsed = ground (
  arith,
  parsed,
  set-idle_all input.idempotency_key (new_entry input now) j.entries,
  has-set input.idempotency_key input.idempotency_key (idle (new_entry input now))
      (idle_all j.entries),
  eq_iff input.idempotency_key input.idempotency_key,
)

retried-file :
    (parser : ResultParser) (input : Input) (now later : ℕ) (j : CommandJournal)
    → Maps.get input.idempotency_key j.entries ≡ none
    → (execute parser input later stored (execute parser input now lingers j).1).1.file
      ≡ (j.file ++ accepted (acceptance_of input now) ∷ [])
        ++ accepted (acceptance_of input later) ∷ []
unfolding execute proceed_with add_entry
retried-file parser input now later j absent = simp absent refl

-- After any such executions and settlements: where the append of the acceptance of a new key throws
-- after its record has reached the file, and the same request is then accepted, the journal cannot be
-- opened again, since its file holds the acceptance twice.
pub load-retried :
    (parser : ResultParser) (actions : List Action) (input : Input) (now later : ℕ)
    → HasCleanAppends actions
    → Maps.get input.idempotency_key (run parser actions opened).1.entries ≡ none
    → parses (accepted (acceptance_of input now)) ≡ true
    → parses (accepted (acceptance_of input later)) ≡ true
    → (let j =
          (run parser
            (executes input now lingers ∷ executes input later stored ∷ [])
            (run parser actions opened).1).1 in
        load parser j.file [] ≡ err (duplicate_acceptance input.idempotency_key))
unfolding run add_entry
load-retried parser actions input now later clean absent parsed parsed' =
    let before = (run parser actions opened).1 in
    let known = (add_entry input now before).entries in
    let once : load parser (before.file ++ accepted (acceptance_of input now) ∷ []) []
        ≡ ok (idle_all known) =
      add_entry-loaded parser input now before parsed absent (load-run parser actions clean) in
    ap (λ f. load parser f []) (retried-file parser input now later before absent)
    ∙ load-snoc parser (before.file ++ accepted (acceptance_of input now) ∷ [])
        (accepted (acceptance_of input later)) [] (idle_all known) once
    ∙ accepted_twice parser input now later before parsed'

-- ===== src/Daemon/CommandJournal/Loading.antt =====
-- Opening the journal again rebuilds the entries that the process had, without its promises.
use axl_raja.Prelude.{
  ℕ, String, true, false, Option, none, some, List, [], ◌∷◌, ◌++◌, ◌≡◌, refl, arith, Option-cases,
  inl, inr, Bool-cases, ok, Outcome-cases,
}
use axl_raja.Maps
use axl_raja.Protocol.Json.{Json}
use axl_raja.Daemon.CommandJournal.{
  Append, stored, lost, lingers, Input, CommandEntry, CommandJournal, CommandCompletion,
  CommandRecord, accepted, completed, succeeded, failed, ResultParser, Reply, Effect, resolves,
  rejects, Cause, new_entry, add_entry, acceptance_of, proceed_with, execute, execute_entry,
  complete, abandon, settle_entry, settle_if_running, settle, is_same_request, failure_of, resolved,
  rejected,
}
use axl_raja.Daemon.CommandJournal.Records.{parses}
use axl_raja.Daemon.CommandJournal.Opening.{reclassify, is_valid_for, load_record, load}
use axl_raja.Daemon.CommandJournal.Idle.{
  idle_all, get-idle_all, has-idle_all, set-idle_all, set_running-idle_all, set_completion-idle_all,
}
use axl_raja.Daemon.CommandJournal.Once.{
  Action, executes, settles, act, run, is_sane, is_sane_entry, act-Balances,
}

-- No append threw after its record had reached the file, and `parseRecord` accepts what the actions
-- may record: an effect that throws, throws an error with a message and no empty code.
abbrev pub IsClean : Append → Type 0
IsClean lingers = ⊥
IsClean _ = Unit

-- the record for an effect
abbrev pub outcome_of : ℕ → Effect → CommandCompletion
outcome_of now (resolves result) = succeeded result now
outcome_of now (rejects cause) = failed (failure_of cause) now

abbrev pub HasCleanAppends : List Action → Type 0
HasCleanAppends [] = Unit
HasCleanAppends (executes input now written ∷ actions) =
    (IsClean written × (parses (accepted (acceptance_of input now)) ≡ true))
    × HasCleanAppends actions
HasCleanAppends (settles key now written effect ∷ actions) =
    (IsClean written × (parses (completed key (outcome_of now effect)) ≡ true))
    × HasCleanAppends actions

module _ (parser : ResultParser) where
  pub load-snoc :
      (file : List CommandRecord) (r : CommandRecord) (m n : List (String × CommandEntry))
      → load parser file m ≡ ok n
      → load parser (file ++ r ∷ []) m ≡ load_record parser r n
  unfolding load
  load-snoc [] r m n h = ground arith
  load-snoc (x ∷ file) r m n h = elim (Outcome-cases (load_record parser x m)) [
    | inl (next, read) ↦ ground (arith, load-snoc file r next n)
    | inr (e, thrown) ↦ ground arith
  ]

  -- The file holds what the process knows; what runs has no recorded outcome.
  pub record IsDurable (j : CommandJournal) : Type 0 where
    pub loaded : load parser j.file [] ≡ ok (idle_all j.entries)
    pub sane : (key : String) → is_sane key j ≡ true

  pub add_entry-loaded :
      (input : Input) (now : ℕ) (j : CommandJournal)
      → parses (accepted (acceptance_of input now)) ≡ true
      → Maps.get input.idempotency_key j.entries ≡ none
      → load parser j.file [] ≡ ok (idle_all j.entries)
      → (let j' = add_entry input now j in load parser j'.file [] ≡ ok (idle_all j'.entries))
  unfolding add_entry load_record
  add_entry-loaded input now j parsed absent h = ground (
    arith,
    parsed,
    load-snoc j.file (accepted (acceptance_of input now)) [] (idle_all j.entries) h,
    has-idle_all input.idempotency_key j.entries,
    set-idle_all input.idempotency_key (new_entry input now) j.entries,
  )

  complete-loaded :
      (key : String) (now : ℕ) (written : Append) (c : CommandCompletion) (entry : CommandEntry)
      (reply : Reply) (j : CommandJournal)
      → IsClean written
      → parses (completed key c) ≡ true
      → Maps.get key j.entries ≡ some entry
      → entry.completion ≡ none
      → reclassify c ≡ c
      → is_valid_for parser entry c ≡ true
      → load parser j.file [] ≡ ok (idle_all j.entries)
      → (let j' = (complete key now written c reply j).1 in
          load parser j'.file [] ≡ ok (idle_all j'.entries))
  unfolding complete load_record
  complete-loaded key now stored c entry reply j clean parsed there unset same valid h = ground (
    arith,
    parsed,
    load-snoc j.file (completed key c) [] (idle_all j.entries) h,
    get-idle_all key j.entries,
    set_completion-idle_all key c j.entries,
  )
  complete-loaded key now lost c entry reply j clean parsed there unset same valid h =
      ground (arith, set_running-idle_all key false j.entries)
  complete-loaded key now lingers c entry reply j clean parsed there unset same valid h =
      absurd clean

  proceed_with-loaded :
      (input : Input) (c : Option CommandCompletion) (e : CommandEntry) (j : CommandJournal)
      → load parser j.file [] ≡ ok (idle_all j.entries)
      → (let j' = (proceed_with parser input c e j).1 in
          load parser j'.file [] ≡ ok (idle_all j'.entries))
  unfolding proceed_with
  proceed_with-loaded input (some (succeeded r at)) e j h = ground arith
  proceed_with-loaded input (some (failed f at)) e j h = h
  proceed_with-loaded input none e j h =
      ground (arith, set_running-idle_all input.idempotency_key true j.entries)

  execute_entry-loaded :
      (input : Input) (now : ℕ) (written : Append) (o : Option CommandEntry) (j : CommandJournal)
      → IsClean written × (parses (accepted (acceptance_of input now)) ≡ true)
      → Maps.get input.idempotency_key j.entries ≡ o
      → load parser j.file [] ≡ ok (idle_all j.entries)
      → (let j' = (execute_entry parser input now written o j).1 in
          load parser j'.file [] ≡ ok (idle_all j'.entries))
  execute_entry-loaded input now lost none j clean absent h = h
  execute_entry-loaded input now lingers none j clean absent h = absurd clean.0
  execute_entry-loaded input now stored none j clean absent h =
      proceed_with-loaded input none (new_entry input now) (add_entry input now j)
        (add_entry-loaded input now j clean.1 absent h)
  execute_entry-loaded input now written (some e) j clean found h =
      elim (Bool-cases (is_same_request e.acceptance input)) [
        | inl same ↦ rw same (proceed_with-loaded input e.completion e j h)
        | inr other ↦ rw other h
      ]

  reclassify-failure_of :
      (cause : Cause) (now : ℕ)
      → reclassify (failed (failure_of cause) now) ≡ failed (failure_of cause) now
  unfolding reclassify failure_of
  reclassify-failure_of (Cause.error (some code) message details) now = refl
  reclassify-failure_of (Cause.error none message details) now = refl
  reclassify-failure_of Cause.other now = refl

  reclassify-succeeded : (r : Json) (now : ℕ) → reclassify (succeeded r now) ≡ succeeded r now
  unfolding reclassify
  reclassify-succeeded r now = refl

  same_parse :
      (k : String) (now : ℕ) (r s : Json)
      → parses (completed k (succeeded r now)) ≡ true
      → parses (completed k (succeeded s now)) ≡ true
  unfolding parses
  same_parse k now r s h = h

  abandon-loaded :
      (k : String) (now : ℕ) (written : Append) (j : CommandJournal)
      → load parser j.file [] ≡ ok (idle_all j.entries)
      → (let j' = (abandon k now written j).1 in load parser j'.file [] ≡ ok (idle_all j'.entries))
  unfolding abandon
  abandon-loaded k now written j h = ground (arith, set_running-idle_all k false j.entries)

  settle_entry-loaded :
      (k : String) (now : ℕ) (written : Append) (effect : Effect) (e : CommandEntry)
      (j : CommandJournal)
      → IsClean written × (parses (completed k (outcome_of now effect)) ≡ true)
      → Maps.get k j.entries ≡ some e
      → e.completion ≡ none
      → load parser j.file [] ≡ ok (idle_all j.entries)
      → (let j' = (settle_entry k now written parser effect e j).1 in
          load parser j'.file [] ≡ ok (idle_all j'.entries))
  settle_entry-loaded k now written (resolves result) e j clean found unset h =
      elim (Option-cases (parser.parse e.acceptance.input.method result)) [
        | inl invalid ↦ rw invalid (abandon-loaded k now written j h)
        | inr (v, valid) ↦ rw valid (
            complete-loaded k now written (succeeded v now) e (resolved k v) j clean.0
              (same_parse k now result v clean.1) found unset (reclassify-succeeded v now)
              (ground (arith, parser.parse_again e.acceptance.input.method result v valid)) h)
      ]
  settle_entry-loaded k now written (rejects cause) e j clean found unset h =
      complete-loaded k now written (failed (failure_of cause) now) e
        (rejected k (failure_of cause)) j clean.0 clean.1 found unset
        (reclassify-failure_of cause now) refl h

  settle_if_running-loaded :
      (k : String) (now : ℕ) (written : Append) (effect : Effect) (o : Option CommandEntry)
      (j : CommandJournal)
      → IsClean written × (parses (completed k (outcome_of now effect)) ≡ true)
      → Maps.get k j.entries ≡ o
      → is_sane k j ≡ true
      → load parser j.file [] ≡ ok (idle_all j.entries)
      → (let j' = (settle_if_running k now written parser effect o j).1 in
          load parser j'.file [] ≡ ok (idle_all j'.entries))
  settle_if_running-loaded k now written effect none j clean absent sane h = h
  settle_if_running-loaded k now written effect (some e) j clean found sane h =
      elim (Bool-cases e.running) [
        | inl runs ↦ simp runs (
            settle_entry-loaded k now written effect e j clean found
              (unset_of_sane e runs (rw found at sane)) h)
        | inr stopped ↦ simp stopped h
      ]
    where
      unset_of_sane :
          (e : CommandEntry)
          → e.running ≡ true
          → is_sane_entry (some e) ≡ true
          → e.completion ≡ none
      unset_of_sane e runs sane = ground arith

  act-IsDurable :
      (a : Action) (j : CommandJournal)
      → HasCleanAppends (a ∷ [])
      → IsDurable j
      → IsDurable (act parser a j).1
  unfolding execute settle
  act-IsDurable (executes input now written) j clean d = record {
    loaded =
        execute_entry-loaded input now written (Maps.get input.idempotency_key j.entries) j clean.0
          refl d.loaded;
    sane = λ key. (act-Balances parser key (executes input now written) j (d.sane key)).1;
  }
  act-IsDurable (settles k now written effect) j clean d = record {
    loaded =
        settle_if_running-loaded k now written effect (Maps.get k j.entries) j clean.0 refl
          (d.sane k) d.loaded;
    sane = λ key. (act-Balances parser key (settles k now written effect) j (d.sane key)).1;
  }

  HasCleanAppends-head :
      (a : Action) (actions : List Action)
      → HasCleanAppends (a ∷ actions)
      → HasCleanAppends (a ∷ []) × HasCleanAppends actions
  HasCleanAppends-head (executes input now written) actions (c, rest) = ((c, tt), rest)
  HasCleanAppends-head (settles k now written effect) actions (c, rest) = ((c, tt), rest)

  run-IsDurable :
      (actions : List Action) (j : CommandJournal)
      → HasCleanAppends actions
      → IsDurable j
      → IsDurable (run parser actions j).1
  unfolding run
  run-IsDurable [] j clean d = d
  run-IsDurable (a ∷ actions) j clean d =
      let (first, rest) = HasCleanAppends-head a actions clean in
      run-IsDurable actions (act parser a j).1 rest (act-IsDurable a j first d)

abbrev pub opened : CommandJournal
opened = record { entries = []; file = [] }

-- From an empty journal, after any executions and settlements whose failed appends left nothing in
-- the file, and whose records `parseRecord` accepts (so that no effect throws an error with an empty
-- message or an empty code), opening the file again succeeds and gives the entries that the process
-- had, with the same acceptances and completions, and with no effect running.
pub load-run :
    (parser : ResultParser) (actions : List Action)
    → HasCleanAppends actions
    → (let j = (run parser actions opened).1 in load parser j.file [] ≡ ok (idle_all j.entries))
unfolding load Maps.get
load-run parser actions clean =
    (run-IsDurable parser actions opened clean
      (record { loaded = refl; sane = λ key. refl })).loaded

-- ===== src/Daemon/CommandJournal/Replies.antt =====
-- What a retried request is answered, however many steps lie between.
use axl_raja.Prelude.{
  ℕ, String, true, false, Option, none, some, List, [], ◌∷◌, ◌≡◌, refl, ap, ◌==◌, eq_iff, ◌&&◌,
  arith, if◌then◌else◌, Option-cases, inl, inr, Bool-cases,
}
use axl_raja.Maps
use axl_raja.Maps.Laws.{get-set, get-modify}
use axl_raja.Daemon.CommandJournal.{
  Append, stored, lost, lingers, Input, CommandEntry, CommandJournal, CommandCompletion, succeeded,
  failed, ResultParser, Reply, replayed, refused, conflict, Effect, resolves, rejects, new_entry,
  add_entry, set_running, set_completion, proceed_with, execute, execute_entry, complete, abandon,
  invalid_replay, settle_entry, settle_if_running, settle, is_same_request, failure_of, resolved,
  rejected,
}
use axl_raja.Daemon.CommandJournal.Once.{Action, executes, settles, act, run}

-- The entry of a key holds this acceptance's request, and its outcome is recorded.
pub record IsDone (key method request_hash : String) (completion : CommandCompletion)
    (j : CommandJournal) : Type 0 where
  pub entry : CommandEntry
  pub there : Maps.get key j.entries ≡ some entry
  pub method_eq : entry.acceptance.input.method ≡ method
  pub hash_eq : entry.acceptance.input.request_hash ≡ request_hash
  pub done : entry.completion ≡ some completion
  pub idle : entry.running ≡ false

module _ (parser : ResultParser) (key : String) (entry : CommandEntry)
    (completion : CommandCompletion) (done : entry.completion ≡ some completion)
    (idle : entry.running ≡ false) where
  -- The entry of the key is what it was.
  abbrev Keeps : CommandJournal → Type 0
  Keeps j = Maps.get key j.entries ≡ some entry

  proceed_with-Keeps :
      (input : Input) (c : Option CommandCompletion) (e : CommandEntry) (j : CommandJournal)
      → Maps.get input.idempotency_key j.entries ≡ some e
      → e.completion ≡ c
      → Keeps j
      → Keeps (proceed_with parser input c e j).1
  unfolding proceed_with set_running
  proceed_with-Keeps input (some (succeeded r at)) e j found same there = ground arith
  proceed_with-Keeps input (some (failed f at)) e j found same there = there
  proceed_with-Keeps input none e j found same there = ground (
    arith,
    get-modify input.idempotency_key key (set_running true) j.entries,
    eq_iff input.idempotency_key key,
  )

  add_entry-Keeps :
      (input : Input) (now : ℕ) (j : CommandJournal)
      → Maps.get input.idempotency_key j.entries ≡ none
      → Keeps j
      → Keeps (add_entry input now j)
        × (Maps.get input.idempotency_key (add_entry input now j).entries
            ≡ some (new_entry input now))
  unfolding add_entry
  add_entry-Keeps input now j absent there = ground (
    arith,
    get-set input.idempotency_key key (new_entry input now) j.entries,
    get-set input.idempotency_key input.idempotency_key (new_entry input now) j.entries,
    eq_iff input.idempotency_key key,
    eq_iff input.idempotency_key input.idempotency_key,
  )

  execute_entry-Keeps :
      (input : Input) (now : ℕ) (written : Append) (o : Option CommandEntry) (j : CommandJournal)
      → Maps.get input.idempotency_key j.entries ≡ o
      → Keeps j
      → Keeps (execute_entry parser input now written o j).1
  execute_entry-Keeps input now lost none j absent there = there
  execute_entry-Keeps input now lingers none j absent there = there
  execute_entry-Keeps input now stored none j absent there =
      let (still, found) = add_entry-Keeps input now j absent there in
      proceed_with-Keeps input none (new_entry input now) (add_entry input now j) found refl still
  execute_entry-Keeps input now written (some e) j found there =
      elim (Bool-cases (is_same_request e.acceptance input)) [
        | inl same ↦ rw same (proceed_with-Keeps input e.completion e j found refl there)
        | inr other ↦ rw other there
      ]

  complete-Keeps :
      (k : String) (now : ℕ) (written : Append) (c : CommandCompletion) (reply : Reply)
      (j : CommandJournal)
      → (k == key) ≡ false
      → Keeps j
      → Keeps (complete k now written c reply j).1
  unfolding complete set_running set_completion
  complete-Keeps k now written c reply j apart there = ground (
    arith,
    get-modify k key (set_completion c) j.entries,
    get-modify k key (set_running false) j.entries,
  )

  settle_entry-Keeps :
      (k : String) (now : ℕ) (written : Append) (effect : Effect) (e : CommandEntry)
      (j : CommandJournal)
      → (k == key) ≡ false
      → Keeps j
      → Keeps (settle_entry k now written parser effect e j).1
  unfolding abandon
  settle_entry-Keeps k now written (resolves result) e j apart there =
      elim (Option-cases (parser.parse e.acceptance.input.method result)) [
        | inl invalid ↦ rw invalid (ground (arith, get-modify k key (set_running false) j.entries))
        | inr (v, valid) ↦
            rw valid (complete-Keeps k now written (succeeded v now) (resolved k v) j apart there)
      ]
  settle_entry-Keeps k now written (rejects cause) e j apart there =
      complete-Keeps k now written (failed (failure_of cause) now) (rejected k (failure_of cause)) j
        apart there

  settle_if_running-Keeps :
      (k : String) (now : ℕ) (written : Append) (effect : Effect) (o : Option CommandEntry)
      (j : CommandJournal)
      → Maps.get k j.entries ≡ o
      → Keeps j
      → Keeps (settle_if_running k now written parser effect o j).1
  settle_if_running-Keeps k now written effect none j absent there = there
  settle_if_running-Keeps k now written effect (some e) j found there =
      elim (Bool-cases e.running) [
        | inl runs ↦
            let apart : (k == key) ≡ false = ground (arith, eq_iff k key) in
            simp runs (settle_entry-Keeps k now written effect e j apart there)
        | inr stopped ↦ simp stopped there
      ]

  act-Keeps : (a : Action) (j : CommandJournal) → Keeps j → Keeps (act parser a j).1
  unfolding execute settle
  act-Keeps (executes input now written) j there =
      execute_entry-Keeps input now written (Maps.get input.idempotency_key j.entries) j refl there
  act-Keeps (settles k now written effect) j there =
      settle_if_running-Keeps k now written effect (Maps.get k j.entries) j refl there

  run-Keeps :
      (actions : List Action) (j : CommandJournal) → Keeps j → Keeps (run parser actions j).1
  unfolding run
  run-Keeps [] j there = there
  run-Keeps (a ∷ actions) j there = run-Keeps actions (act parser a j).1 (act-Keeps a j there)

-- What a recorded outcome answers to the same request.
abbrev pub answer_of : ResultParser → Input → CommandCompletion → Reply
answer_of parser input (succeeded result _) = elim (parser.parse input.method result) [
  | none ↦ invalid_replay input.idempotency_key
  | some value ↦ replayed input.idempotency_key value
]
answer_of parser input (failed failure _) = refused input.idempotency_key failure

proceed_with-done :
    (parser : ResultParser) (input : Input) (completion : CommandCompletion) (e : CommandEntry)
    (j : CommandJournal)
    → proceed_with parser input (some completion) e j ≡ (answer_of parser input completion, j)
unfolding proceed_with
proceed_with-done parser input (succeeded r at) e j = ground arith
proceed_with-done parser input (failed f at) e j = refl

execute-done :
    (parser : ResultParser) (input : Input) (now : ℕ) (written : Append) (entry : CommandEntry)
    (completion : CommandCompletion) (j : CommandJournal)
    → Maps.get input.idempotency_key j.entries ≡ some entry
    → entry.completion ≡ some completion
    → execute parser input now written j ≡ (
      if is_same_request entry.acceptance input
          then answer_of parser input completion
          else conflict input.idempotency_key,
      j,
    )
unfolding execute
execute-done parser input now written entry completion j there done = ground (
  arith,
  ap (λ o. execute_entry parser input now written o j) there,
  ap (λ c. proceed_with parser input c entry j) done,
  proceed_with-done parser input completion entry j,
)

-- Once the outcome of a key is recorded, then after any executions and settlements an execution with
-- that key changes nothing; it answers the recorded outcome if method and request hash are those of
-- the accepted request, and a conflict if they are not.
pub execute_after_done :
    (parser : ResultParser) (actions : List Action) (input : Input) (now : ℕ) (written : Append)
    (method request_hash : String) (completion : CommandCompletion) (j : CommandJournal)
    → IsDone input.idempotency_key method request_hash completion j
    → (let j' = (run parser actions j).1 in
        execute parser input now written j' ≡ (
          if method == input.method && request_hash == input.request_hash
              then answer_of parser input completion
              else conflict input.idempotency_key,
          j',
        ))
unfolding is_same_request
execute_after_done parser actions input now written method request_hash completion j d =
    let still =
      run-Keeps parser input.idempotency_key d.entry completion d.done d.idle actions j d.there in
    rw (← d.method_eq, ← d.hash_eq)
      (execute-done parser input now written d.entry completion (run parser actions j).1 still
        d.done)

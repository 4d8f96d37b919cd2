-- ===== src/Daemon/CommandJournal/Once.antt =====
-- How often an effect is started, over any sequence of executions and settlements.
use axl_raja.Prelude.{
  ℕ, ◌+◌, ◌≤◌, String, Bool, true, false, Option, none, some, List, [], ◌∷◌, ◌≡◌, refl, ◌==◌,
  eq_iff, arith, if◌then◌else◌, Option-cases, inl, inr, Bool-cases,
}
use axl_raja.Maps
use axl_raja.Maps.Laws.{get-set, get-modify}
use axl_raja.Daemon.CommandJournal.{
  Append, stored, lost, lingers, Input, CommandEntry, CommandJournal, CommandCompletion, succeeded,
  failed, ResultParser, Reply, started, unrecorded, Effect, resolves, rejects, new_entry, add_entry,
  set_running, set_completion, proceed_with, execute, complete, settle_entry, settle, execute_entry,
  abandon, settle_if_running, is_same_request, failure_of, resolved, rejected,
}

-- One thing that happens to the journal, in the order in which it happens.
pub data Action : Type 0 where
  executes : Input → (now : ℕ) (written : Append) → Action
  settles : (key : String) (now : ℕ) (written : Append) → Effect → Action

abbrev pub act : ResultParser → Action → CommandJournal → Reply × CommandJournal
act parser (executes input now written) j = execute parser input now written j
act parser (settles key now written effect) j = settle key now written parser effect j

unfoldable pub run : ResultParser → List Action → CommandJournal → List Reply × CommandJournal
run parser [] j = ([], j)
run parser (a ∷ actions) j =
    let (reply, j') = act parser a j in
    let (replies, j'') = run parser actions j' in (reply ∷ replies, j'')

-- One for a reply that starts the effect of the key.
abbrev pub starts_one : String → Reply → ℕ
starts_one key (started k _) = if k == key then 1 else 0
starts_one key _ = 0

-- One for an effect of the key whose outcome was not recorded.
abbrev pub loses_one : String → Reply → ℕ
loses_one key (unrecorded k) = if k == key then 1 else 0
loses_one key _ = 0

abbrev pub count : (Reply → ℕ) → List Reply → ℕ
count f [] = 0
count f (r ∷ replies) = f r + count f replies

-- One while the effect of an entry runs, and after its outcome is recorded.
abbrev pub busy_entry : Option CommandEntry → ℕ
busy_entry none = 0
busy_entry (some entry) =
    if entry.running then 1 else elim entry.completion [ none ↦ 0 | some _ ↦ 1 ]

abbrev pub busy : String → CommandJournal → ℕ
busy key j = busy_entry (Maps.get key j.entries)

-- An effect runs only for an entry whose outcome is not recorded.
abbrev pub is_sane_entry : Option CommandEntry → Bool
is_sane_entry none = true
is_sane_entry (some entry) =
    if entry.running then elim entry.completion [ none ↦ true | some _ ↦ false ] else true

abbrev pub is_sane : String → CommandJournal → Bool
is_sane key j = is_sane_entry (Maps.get key j.entries)

module _ (parser : ResultParser) (key : String) where
  -- What one step adds to the starts of a key is paid by the key's entry, or lost.
  abbrev pub Balances : CommandJournal → Reply × CommandJournal → Type 0
  Balances j r =
      (starts_one key r.0 + busy key j ≡ busy key r.1 + loses_one key r.0)
      × (is_sane key r.1 ≡ true)

  proceed_with-Balances :
      (input : Input) (completion : Option CommandCompletion) (entry : CommandEntry)
      (j : CommandJournal)
      → entry.completion ≡ completion
      → Maps.get input.idempotency_key j.entries ≡ some entry
      → is_sane key j ≡ true
      → Balances j (proceed_with parser input completion entry j)
  unfolding proceed_with set_running
  proceed_with-Balances input (some (succeeded result at)) entry j same there sane = ground arith
  proceed_with-Balances input (some (failed error at)) entry j same there sane = ground arith
  proceed_with-Balances input none entry j same there sane = ground (
    arith,
    get-modify input.idempotency_key key (set_running true) j.entries,
    eq_iff input.idempotency_key key,
  )

  -- A new entry is not busy.
  add_entry-busy :
      (input : Input) (now : ℕ) (j : CommandJournal)
      → Maps.get input.idempotency_key j.entries ≡ none
      → is_sane key j ≡ true
      → (busy key (add_entry input now j) ≡ busy key j)
        × (is_sane key (add_entry input now j) ≡ true)
        × (Maps.get input.idempotency_key (add_entry input now j).entries
            ≡ some (new_entry input now))
  unfolding add_entry
  add_entry-busy input now j absent sane = ground (
    arith,
    get-set input.idempotency_key key (new_entry input now) j.entries,
    get-set input.idempotency_key input.idempotency_key (new_entry input now) j.entries,
    eq_iff input.idempotency_key key,
    eq_iff input.idempotency_key input.idempotency_key,
  )

  execute_entry-Balances :
      (input : Input) (now : ℕ) (written : Append) (o : Option CommandEntry) (j : CommandJournal)
      → Maps.get input.idempotency_key j.entries ≡ o
      → is_sane key j ≡ true
      → Balances j (execute_entry parser input now written o j)
  execute_entry-Balances input now lost none j absent sane = (omega arith, sane)
  execute_entry-Balances input now lingers none j absent sane = (omega arith, sane)
  execute_entry-Balances input now stored none j absent sane =
      let (same, still, there) = add_entry-busy input now j absent sane in
      let (balance, sane') =
        proceed_with-Balances input none (new_entry input now) (add_entry input now j) refl there
          still in
      (omega (arith, balance, same), sane')
  execute_entry-Balances input now written (some entry) j there sane =
      elim (Bool-cases (is_same_request entry.acceptance input)) [
        | inl same ↦ rw same (proceed_with-Balances input entry.completion entry j refl there sane)
        | inr other ↦ rw other (omega arith, sane)
      ]

  complete-Balances :
      (k : String) (now : ℕ) (written : Append) (completion : CommandCompletion)
      (entry : CommandEntry) (reply : Reply) (j : CommandJournal)
      → Maps.get k j.entries ≡ some entry
      → entry.running ≡ true
      → is_sane key j ≡ true
      → starts_one key reply ≡ 0
      → loses_one key reply ≡ 0
      → Balances j (complete k now written completion reply j)
  unfolding complete set_running set_completion
  complete-Balances k now written completion entry reply j there runs sane h h' = ground (
    arith,
    get-modify k key (set_completion completion) j.entries,
    get-modify k key (set_running false) j.entries,
    eq_iff k key,
  )

  abandon-Balances :
      (k : String) (now : ℕ) (written : Append) (entry : CommandEntry) (j : CommandJournal)
      → Maps.get k j.entries ≡ some entry
      → entry.running ≡ true
      → is_sane key j ≡ true
      → Balances j (abandon k now written j)
  unfolding abandon set_running
  abandon-Balances k now written entry j there runs sane =
      ground (arith, get-modify k key (set_running false) j.entries, eq_iff k key)

  settle_entry-Balances :
      (k : String) (now : ℕ) (written : Append) (effect : Effect) (entry : CommandEntry)
      (j : CommandJournal)
      → Maps.get k j.entries ≡ some entry
      → entry.running ≡ true
      → is_sane key j ≡ true
      → Balances j (settle_entry k now written parser effect entry j)
  settle_entry-Balances k now written (resolves result) entry j there runs sane =
      elim (Option-cases (parser.parse entry.acceptance.input.method result)) [
        | inl invalid ↦ rw invalid (abandon-Balances k now written entry j there runs sane)
        | inr (validated, valid) ↦ rw valid (
            complete-Balances k now written (succeeded validated now) entry (resolved k validated) j
              there runs sane refl refl)
      ]
  settle_entry-Balances k now written (rejects cause) entry j there runs sane =
      complete-Balances k now written (failed (failure_of cause) now) entry
        (rejected k (failure_of cause)) j there runs sane refl refl

  settle_if_running-Balances :
      (k : String) (now : ℕ) (written : Append) (effect : Effect) (o : Option CommandEntry)
      (j : CommandJournal)
      → Maps.get k j.entries ≡ o
      → is_sane key j ≡ true
      → Balances j (settle_if_running k now written parser effect o j)
  settle_if_running-Balances k now written effect none j absent sane = (omega arith, sane)
  settle_if_running-Balances k now written effect (some entry) j there sane =
      elim (Bool-cases entry.running) [
        | inl runs ↦ simp runs (settle_entry-Balances k now written effect entry j there runs sane)
        | inr idle ↦ simp idle (omega arith, sane)
      ]

  pub act-Balances :
      (a : Action) (j : CommandJournal) → is_sane key j ≡ true → Balances j (act parser a j)
  unfolding execute settle
  act-Balances (executes input now written) j sane =
      execute_entry-Balances input now written (Maps.get input.idempotency_key j.entries) j refl
        sane
  act-Balances (settles k now written effect) j sane =
      settle_if_running-Balances k now written effect (Maps.get k j.entries) j refl sane

  run-Balances :
      (actions : List Action) (j : CommandJournal)
      → is_sane key j ≡ true
      → (count (starts_one key) (run parser actions j).0 + busy key j
          ≡ busy key (run parser actions j).1 + count (loses_one key) (run parser actions j).0)
        × (is_sane key (run parser actions j).1 ≡ true)
  unfolding run
  run-Balances [] j sane = (omega arith, sane)
  run-Balances (a ∷ actions) j sane =
      let (balance, sane') = act-Balances a j sane in
      let (later, sane'') = run-Balances actions (act parser a j).1 sane' in
      (omega (arith, balance, later), sane'')

  busy-le-one : (o : Option CommandEntry) → busy_entry o ≤ 1
  busy-le-one none = omega arith
  busy-le-one (some entry) = ground arith

-- Over any sequence of executions and settlements of an opened journal, the effect of a key is started
-- at most once more than its outcome failed to be recorded. From a journal in which the effect runs or
-- its outcome is recorded, it is started at most as often as its outcome fails to be recorded.
pub starts-le-losses :
    (parser : ResultParser) (key : String) (actions : List Action) (j : CommandJournal)
    → is_sane key j ≡ true
    → (let (replies, j') = run parser actions j in
        (count (starts_one key) replies ≤ 1 + count (loses_one key) replies)
        × (busy key j ≡ 1 → count (starts_one key) replies ≤ count (loses_one key) replies))
starts-le-losses parser key actions j sane =
    let (balance, _) = run-Balances parser key actions j sane in
    let bound = busy-le-one parser key (Maps.get key (run parser actions j).1.entries) in
    (omega (arith, balance, bound), λ h. omega (arith, balance, bound, h))

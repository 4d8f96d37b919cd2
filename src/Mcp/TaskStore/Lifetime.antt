-- ===== src/Mcp/TaskStore/Lifetime.antt =====
-- What later calls leave of a stored task.
use axl_raja.Prelude.{
  ℕ, ◌≤◌, String, Bool, true, false, not, ◌||◌, Option, none, some, List, [], ◌∷◌, ◌≡◌, ◌≢◌,
  >>=-eq-ok, refl, sym, inl, inr, ◌==◌, eq_iff, arith, Bool-cases, Option-cases, Outcome, ok, err,
  if◌then◌else◌, All, keep,
}
use axl_raja.Maps
use axl_raja.Maps.Laws.{get-set}
use axl_raja.Protocol.Json.{Json}
use axl_raja.Mcp.TaskStore.{
  Task, StoredTask, Tasks, File, absent, unreadable, not_object, no_task_map, task_file, StoreError,
  is_terminal, is_same_session, belongs, is_live, read, write_back, transaction, check_open,
  Operation, create_task, store_task_result, update_task_status, operate, Call, perform,
}
use axl_raja.Mcp.TaskStore.Queries.{get_task}

-- the entry of a task in the file
abbrev pub held : String → File → Option StoredTask
held id (task_file tasks) = Maps.get id tasks
held id _ = none

-- a new task's id is random: a call creates no task with this id
abbrev pub creates : String → Operation → Bool
creates id (create_task new _ _ _) = new == id
creates id _ = false

-- The operations leave the task alone: it is terminal, or the caller's session is another.
abbrev pub is_shielded : StoredTask → Call → Bool
is_shielded s call = is_terminal s.task.status || not (belongs s call.session_id)

abbrev pub IsHarmless : String → StoredTask → ℕ → Call → Type 0
IsHarmless id s later call =
    (is_shielded s call ≡ true) × (creates id call.operation ≡ false) × (call.read_at ≤ later)

pub get-keep :
    (now : ℕ) (id : String) (tasks : Tasks) (s : StoredTask)
    → Maps.get id tasks ≡ some s
    → is_live now (id, s) ≡ true
    → Maps.get id (keep (is_live now) tasks) ≡ some s
unfolding Maps.get is_live
get-keep now id [] s h live = cc
get-keep now id ((j, t) ∷ tasks) s h live = ground (arith, get-keep now id tasks s, eq_iff j id)

pub is_live_earlier :
    (now later : ℕ) (id : String) (s : StoredTask)
    → now ≤ later
    → is_live later (id, s) ≡ true
    → is_live now (id, s) ≡ true
unfolding is_live
is_live_earlier now later id s le live = elim (Option-cases s.task.ttl) [
  | inl e ↦ absurd (cc (e, live))
  | inr (ttl, e) ↦ ground arith
]

abbrev Written : Type 0
Written = Outcome StoreError (Option Task × Tasks)

ok-tasks : {a b : Option Task} {m n : Tasks} → ◌≡◌ {A = Written} (ok (a, m)) (ok (b, n)) → m ≡ n
ok-tasks h = cc

write_back-held :
    (id : String) (s : StoredTask) (written : Bool) (file : File)
    (result : Outcome StoreError (Option Task × Tasks))
    → held id file ≡ some s
    → ((value : Option Task) (tasks : Tasks)
        → result ≡ ok (value, tasks)
        → Maps.get id tasks ≡ some s)
    → held id (write_back written file result).1 ≡ some s
write_back-held id s written file (err e) there kept = there
write_back-held id s true file (ok (value, tasks)) there kept = kept value tasks refl
write_back-held id s false file (ok (value, tasks)) there kept = there

module _ (max_ttl_ms : ℕ) (redact : Json → Json) where
  -- The guard of an update refuses a shielded task.
  check_open-shielded :
      (id : String) (s t : StoredTask) (call : Call)
      → is_shielded s call ≡ true
      → check_open id call.session_id (some s) ≢ ok t
  unfolding check_open
  check_open-shielded id s t call shielded opened = elim (Bool-cases (belongs s call.session_id)) [
    | inl mine ↦ ground arith
    | inr other ↦ ground arith
  ]

  -- What an update writes is another entry.
  set-shielded :
      (id target : String) (s t new : StoredTask) (call : Call) (tasks : Tasks)
      → Maps.get id tasks ≡ some s
      → is_shielded s call ≡ true
      → check_open target call.session_id (Maps.get target tasks) ≡ ok t
      → Maps.get id (Maps.set target new tasks) ≡ some s
  set-shielded id target s t new call tasks h shielded opened = elim (Bool-cases (target == id)) [
    | inl e ↦ absurd (
        check_open-shielded target s t call shielded
          (rw (sym h, sym ((eq_iff target id).0 e)) opened))
    | inr e ↦ rw (get-set target id new tasks, e) h
  ]

  operate-get :
      (id : String) (s : StoredTask) (call : Call) (op : Operation) (tasks tasks' : Tasks)
      (value : Option Task)
      → Maps.get id tasks ≡ some s
      → is_shielded s call ≡ true
      → creates id op ≡ false
      → operate max_ttl_ms redact call.now call.session_id op tasks ≡ ok (value, tasks')
      → Maps.get id tasks' ≡ some s
  unfolding operate
  operate-get id s call (create_task new options request_id request) tasks tasks' value h shielded
        fresh r =
      rw (sym (ok-tasks r)) (rw (get-set new id _ tasks, fresh) h)
  operate-get id s call (store_task_result target is_failed result) tasks tasks' value h shielded
        fresh r =
      let (t, opened, written) =
        >>=-eq-ok (check_open target call.session_id (Maps.get target tasks)) _ r in
      rw (sym (ok-tasks written)) (set-shielded id target s t _ call tasks h shielded opened)
  operate-get id s call (update_task_status target status message) tasks tasks' value h shielded
        fresh r =
      let (t, opened, written) =
        >>=-eq-ok (check_open target call.session_id (Maps.get target tasks)) _ r in
      rw (sym (ok-tasks written)) (set-shielded id target s t _ call tasks h shielded opened)

  perform-held :
      (id : String) (s : StoredTask) (later : ℕ) (call : Call) (file : File)
      → held id file ≡ some s
      → is_live later (id, s) ≡ true
      → IsHarmless id s later call
      → held id (perform max_ttl_ms redact call file).1 ≡ some s
  unfolding perform transaction read
  perform-held id s later call (task_file tasks) there live (shielded, fresh, before) =
      let seen =
        get-keep call.read_at id tasks s there
          (is_live_earlier call.read_at later id s before live) in
      write_back-held id s call.written (task_file tasks) _ there (λ value tasks' r.
        operate-get id s call call.operation (keep (is_live call.read_at) tasks) tasks' value seen
          shielded fresh r)
  perform-held id s later call absent there live harmless = cc
  perform-held id s later call unreadable there live harmless = cc
  perform-held id s later call not_object there live harmless = cc
  perform-held id s later call no_task_map there live harmless = cc

  -- calls on their turns in the queue
  abbrev pub run : List Call → File → File
  run [] file = file
  run (call ∷ calls) file = run calls (perform max_ttl_ms redact call file).1

  pub run-held :
      (id : String) (s : StoredTask) (later : ℕ) (calls : List Call) (file : File)
      → held id file ≡ some s
      → is_live later (id, s) ≡ true
      → All (IsHarmless id s later) calls
      → held id (run calls file) ≡ some s
  run-held id s later [] file there live harmless = there
  run-held id s later (call ∷ calls) file there live (h, harmless) =
      run-held id s later calls (perform max_ttl_ms redact call file).1
        (perform-held id s later call file there live h) live harmless

pub read-held :
    (now : ℕ) (id : String) (s : StoredTask) (file : File)
    → held id file ≡ some s
    → is_live now (id, s) ≡ true
    → (tasks : Tasks) × (read now file ≡ ok tasks) × (Maps.get id tasks ≡ some s)
unfolding read
read-held now id s (task_file tasks) there live =
    (keep (is_live now) tasks, refl, get-keep now id tasks s there live)
read-held now id s absent there live = cc
read-held now id s unreadable there live = cc
read-held now id s not_object there live = cc
read-held now id s no_task_map there live = cc

pub get_task-held :
    (now : ℕ) (id : String) (s : StoredTask) (asker : Option String) (file : File)
    → held id file ≡ some s
    → is_live now (id, s) ≡ true
    → get_task now id asker file
      ≡ ok (if is_same_session s.session_id asker then some s.task else none)
unfolding get_task belongs
get_task-held now id s asker file there live =
    let (tasks, seen, found) = read-held now id s file there live in simp (seen, found)

module _ (max_ttl_ms : ℕ) (redact : Json → Json) where
  -- Calls of other sessions, and after a task's end all calls, that create no task with its id and
  -- read the clock no later than a moment before the task's expiry: at that moment `getTask` still
  -- returns the task as it was to its own session, and nothing to every other session.
  pub get_task-run :
      (id : String) (s : StoredTask) (later : ℕ) (calls : List Call) (file : File)
      (asker : Option String)
      → held id file ≡ some s
      → is_live later (id, s) ≡ true
      → All (IsHarmless id s later) calls
      → get_task later id asker (run max_ttl_ms redact calls file)
        ≡ ok (if is_same_session s.session_id asker then some s.task else none)
  get_task-run id s later calls file asker there live harmless =
      get_task-held later id s asker (run max_ttl_ms redact calls file)
        (run-held max_ttl_ms redact id s later calls file there live harmless) live

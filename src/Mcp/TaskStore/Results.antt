-- ===== src/Mcp/TaskStore/Results.antt =====
-- What a caller reads back of the tasks that it created and of their results.
use axl_raja.Prelude.{
  ℕ, ◌+◌, ◌≤◌, ◌<◌, String, Bool, true, false, Option, none, some, List, [], ◌∷◌, ◌≡◌, refl,
  eq_refl, arith, ok, if◌then◌else◌, All,
}
use axl_raja.Maps
use axl_raja.Maps.Laws.{get-set}
use axl_raja.Protocol.Json.{Json}
use axl_raja.Mcp.TaskStore.{
  StoredTask, Tasks, File, task_file, completed, failed, is_terminal, is_same_session, belongs,
  is_live, read, transaction, check_open, with_status, new_task, ttl_of, CreateTaskOptions,
  create_task, store_task_result, operate, Call, perform,
}
use axl_raja.Mcp.TaskStore.Queries.{get_task, result_of, get_task_result}
use axl_raja.Mcp.TaskStore.Lifetime.{
  held, IsHarmless, creates, is_live_earlier, read-held, get_task-held, run, run-held,
}

-- A task lives at most as long as the store's limit.
ttl_of-le : (limit : ℕ) (asked : Option (Option ℕ)) → ttl_of limit asked ≤ limit
unfolding ttl_of
ttl_of-le limit none = ground arith
ttl_of-le limit (some none) = ground arith
ttl_of-le limit (some (some n)) = ground arith

-- The entry that `createTask` writes.
abbrev created :
    (max_ttl_ms : ℕ) (redact : Json → Json) (now : ℕ) (id : String) (options : CreateTaskOptions)
    (request_id request : Json) (session : Option String)
    → StoredTask
created max_ttl_ms redact now id options request_id request session = record {
  task = new_task max_ttl_ms now id options;
  request_id = request_id;
  request = redact request;
  session_id = session;
  result = none;
}

is_live-created :
    (max_ttl_ms : ℕ) (redact : Json → Json) (now later : ℕ) (id : String)
    (options : CreateTaskOptions) (request_id request : Json) (session : Option String)
    → later < now + ttl_of max_ttl_ms options.ttl
    → is_live later (id, created max_ttl_ms redact now id options request_id request session) ≡ true
unfolding is_live new_task
is_live-created max_ttl_ms redact now later id options request_id request session live =
    ground arith

-- The entry that `storeTaskResult` writes.
abbrev pub finished :
    (redact : Json → Json) (now : ℕ) (is_failed : Bool) (result : Json) → StoredTask → StoredTask
finished redact now is_failed result s =
    record (with_status now (if is_failed then failed else completed) none s) {
      result = some (redact result);
    }

is_terminal-finished :
    (redact : Json → Json) (now : ℕ) (is_failed : Bool) (result : Json) (s : StoredTask)
    → is_terminal (finished redact now is_failed result s).task.status ≡ true
unfolding is_terminal with_status
is_terminal-finished redact now true result s = refl
is_terminal-finished redact now false result s = refl

is_live-finished :
    (redact : Json → Json) (now later : ℕ) (id : String) (is_failed : Bool) (result : Json)
    (s : StoredTask)
    → is_live later (id, finished redact now is_failed result s) ≡ is_live later (id, s)
unfolding is_live with_status
is_live-finished redact now later id is_failed result s = refl

result_of-finished :
    (redact : Json → Json) (now : ℕ) (is_failed : Bool) (id : String) (asker : Option String)
    (result : Json) (s : StoredTask)
    → belongs s asker ≡ true
    → result_of id asker (some (finished redact now is_failed result s)) ≡ ok (redact result)
unfolding result_of with_status belongs is_terminal
result_of-finished redact now true id asker result s mine = simp mine
result_of-finished redact now false id asker result s mine = simp mine

-- A call that creates no task with the id, and reads the clock no later than `later`.
abbrev pub IsCalm : String → ℕ → Call → Type 0
IsCalm id later call = (creates id call.operation ≡ false) × (call.read_at ≤ later)

IsCalm→IsHarmless :
    (id : String) (s : StoredTask) (later : ℕ) (calls : List Call)
    → is_terminal s.task.status ≡ true
    → All (IsCalm id later) calls
    → All (IsHarmless id s later) calls
IsCalm→IsHarmless id s later [] ended calm = tt
IsCalm→IsHarmless id s later (call ∷ calls) ended ((fresh, before), calm) =
    ((ground arith, fresh, before), IsCalm→IsHarmless id s later calls ended calm)

module _ (max_ttl_ms : ℕ) (redact : Json → Json) where
  store_task_result-eq :
      (id : String) (s : StoredTask) (read_at now : ℕ) (asker : Option String) (is_failed : Bool)
      (result : Json) (file : File)
      → held id file ≡ some s
      → is_live read_at (id, s) ≡ true
      → belongs s asker ≡ true
      → is_terminal s.task.status ≡ false
      → (file' : File) × (perform max_ttl_ms redact
            (record {
              read_at = read_at;
              now = now;
              written = true;
              session_id = asker;
              operation = store_task_result id is_failed result;
            })
            file
          ≡ (ok none, file'))
        × (held id file' ≡ some (finished redact now is_failed result s))
  unfolding perform transaction operate check_open
  store_task_result-eq id s read_at now asker is_failed result file there live mine open_ =
      let (tasks, seen, found) = read-held read_at id s file there live in
      (
        task_file (Maps.set id (finished redact now is_failed result s) tasks),
        simp (seen, found, mine, open_),
        rw (get-set id id (finished redact now is_failed result s) tasks, eq_refl id),
      )

  -- A result of a task that is there, has not ended and is the caller's is stored, and it is final:
  -- after any later calls that create no task with the id, as long as the task has not expired,
  -- `getTaskResult` returns its redacted form to the session.
  pub store_task_result-run :
      (id : String) (s : StoredTask) (read_at now later : ℕ) (asker : Option String)
      (is_failed : Bool) (result : Json) (file : File) (calls : List Call)
      → held id file ≡ some s
      → is_live later (id, s) ≡ true
      → read_at ≤ later
      → belongs s asker ≡ true
      → is_terminal s.task.status ≡ false
      → All (IsCalm id later) calls
      → (file' : File) × (perform max_ttl_ms redact
            (record {
              read_at = read_at;
              now = now;
              written = true;
              session_id = asker;
              operation = store_task_result id is_failed result;
            })
            file
          ≡ (ok none, file'))
        × (get_task_result later id asker (run max_ttl_ms redact calls file') ≡ ok (redact result))
  unfolding get_task_result
  store_task_result-run id s read_at now later asker is_failed result file calls there live before
        mine open_ calm =
      let (file', stored, entry) =
        store_task_result-eq id s read_at now asker is_failed result file there
          (is_live_earlier read_at later id s before live) mine open_ in
      let done = finished redact now is_failed result s in
      let live' : is_live later (id, done) ≡ true =
        rw (is_live-finished redact now later id is_failed result s) live in
      let harmless =
        IsCalm→IsHarmless id done later calls (is_terminal-finished redact now is_failed result s)
          calm in
      let (tasks, seen, found) =
        read-held later id done (run max_ttl_ms redact calls file')
          (run-held max_ttl_ms redact id done later calls file' entry live' harmless) live' in
      (
        file',
        stored,
        simp (seen, found, result_of-finished redact now is_failed id asker result s mine),
      )

  -- A created task is returned to its session until its time is over, and to no other session; its
  -- time is at most the store's limit.
  pub create_task-get :
      (id : String) (options : CreateTaskOptions) (request_id request : Json)
      (read_at now later : ℕ) (session reader : Option String) (file : File) (tasks : Tasks)
      → read read_at file ≡ ok tasks
      → later < now + ttl_of max_ttl_ms options.ttl
      → (file' : File) × (perform max_ttl_ms redact
            (record {
              read_at = read_at;
              now = now;
              written = true;
              session_id = session;
              operation = create_task id options request_id request;
            })
            file
          ≡ (ok (some (new_task max_ttl_ms now id options)), file'))
        × (get_task later id reader file'
            ≡ ok (
                if is_same_session session reader
                then some (new_task max_ttl_ms now id options)
                else none))
        × (ttl_of max_ttl_ms options.ttl ≤ max_ttl_ms)
  unfolding perform transaction operate
  create_task-get id options request_id request read_at now later session reader file tasks seen
        live =
      let s = created max_ttl_ms redact now id options request_id request session in
      let file' = task_file (Maps.set id s tasks) in
      (
        file',
        simp seen,
        get_task-held later id s reader file' (rw (get-set id id s tasks, eq_refl id)) (
            is_live-created max_ttl_ms redact now later id options request_id request session live),
        ttl_of-le max_ttl_ms options.ttl,
      )

-- ===== src/Mcp/TaskStore.antt =====
-- The task store (packages/extensions/mcp/src/task-store.ts). The queue `tail` runs transactions one
-- at a time, so an operation is a step on the file; the clock's readings, the random id and whether
-- the write succeeds are arguments. A date is its milliseconds, as Date.parse reads it back.
pub mod Queries
pub mod Lifetime
pub mod Results
pub mod Paging
mod Examples
use axl_raja.Prelude.{
  ℕ, ◌+◌, String, Bool, true, false, not, Option, none, some, List, [], ◌∷◌, ◌==◌, ltb, leb,
  Outcome, ok, err, ◌>>=◌, if◌then◌else◌, keep,
}
use axl_raja.Maps
use axl_raja.Protocol.Json.{Json}

-- Task["status"] of the MCP SDK
pub data Status : Type 0 where
  working input_required completed failed cancelled : Status

pub record Task : Type 0 where
  pub task_id : String
  pub status : Status
  pub status_message : Option String
  pub created_at : ℕ
  pub last_updated_at : ℕ
  pub ttl : Option ℕ
  pub poll_interval : ℕ

pub record StoredTask : Type 0 where
  pub task : Task
  pub request_id : Json
  pub request : Json
  pub session_id : Option String
  pub result : Option Json

abbrev pub Tasks : Type 0
Tasks = List (String × StoredTask)

-- The file: it does not exist, it cannot be read as JSON, it holds another value, or its task map.
pub data File : Type 0 where
  absent unreadable not_object no_task_map : File
  task_file : Tasks → File

pub data StoreError : Type 0 where
  cannot_read not_an_object has_no_task_map not_written : StoreError
  not_found already_terminal no_terminal_result invalid_cursor : (task_id : String) → StoreError

abbrev pub default_max_ttl_ms : ℕ
default_max_ttl_ms = 86_400_000

unfoldable pub is_terminal : Status → Bool
is_terminal completed = true
is_terminal failed = true
is_terminal cancelled = true
is_terminal _ = false

-- `===` on optional session ids
unfoldable pub is_same_session : Option String → Option String → Bool
is_same_session none none = true
is_same_session (some a) (some b) = a == b
is_same_session _ _ = false

unfoldable pub belongs : StoredTask → Option String → Bool
unfolding is_same_session
belongs task session_id = is_same_session task.session_id session_id

-- the filter of `read`: a null ttl is an infinite expiry, which is not finite
unfoldable pub is_live : ℕ → String × StoredTask → Bool
is_live now (id, stored) = elim stored.task.ttl [
  | none ↦ false
  | some ttl ↦ ltb now (stored.task.created_at + ttl)
]

unfoldable pub read : (now : ℕ) → File → Outcome StoreError Tasks
unfolding is_live
read now absent = ok []
read now unreadable = err cannot_read
read now not_object = err not_an_object
read now no_task_map = err has_no_task_map
read now (task_file tasks) = ok (keep (is_live now) tasks)

-- `write` replaces the file by a rename, so that a failure leaves the old one.
abbrev pub write_back {ℓ} :
    {A : Type ℓ} (written : Bool)
    → File
    → Outcome StoreError (A × Tasks)
    → Outcome StoreError A × File
write_back written file (err e) = (err e, file)
write_back written file (ok (value, tasks)) =
    if written then (ok value, task_file tasks) else (err not_written, file)

unfoldable pub transaction {ℓ} :
    {A : Type ℓ} (read_at : ℕ) (written : Bool)
    → (Tasks → Outcome StoreError (A × Tasks))
    → File
    → Outcome StoreError A × File
unfolding read
transaction read_at written operation file =
    write_back written file (do tasks ← read read_at file; operation tasks)

pub record CreateTaskOptions : Type 0 where
  -- null, absent, or a number
  pub ttl : Option (Option ℕ)
  pub poll_interval : Option ℕ

-- Math.min
abbrev smaller : ℕ → ℕ → ℕ
smaller a b = if leb a b then a else b

-- `??`
abbrev or_default : Option ℕ → ℕ → ℕ
or_default none n = n
or_default (some m) n = m

unfoldable pub ttl_of : (max_ttl_ms : ℕ) → Option (Option ℕ) → ℕ
ttl_of max_ttl_ms (some none) = max_ttl_ms
ttl_of max_ttl_ms (some (some requested)) = smaller requested max_ttl_ms
ttl_of max_ttl_ms none = smaller max_ttl_ms max_ttl_ms

unfoldable pub new_task : (max_ttl_ms now : ℕ) (id : String) → CreateTaskOptions → Task
unfolding ttl_of
new_task max_ttl_ms now id options = record {
  task_id = id;
  status = working;
  status_message = none;
  created_at = now;
  last_updated_at = now;
  ttl = some (ttl_of max_ttl_ms options.ttl);
  poll_interval = or_default options.poll_interval 1_000;
}

-- The common guard of the two updates: the task is there, is the session's, and is not terminal.
unfoldable pub check_open :
    String → Option String → Option StoredTask → Outcome StoreError StoredTask
unfolding belongs is_terminal
check_open id session_id none = err (not_found id)
check_open id session_id (some stored) =
    if not (belongs stored session_id)
    then err (not_found id)
    else if is_terminal stored.task.status
    then err (already_terminal id)
    else ok stored

abbrev keep_or : Option String → Option String → Option String
keep_or none old = old
keep_or (some message) old = some message

unfoldable pub with_status : ℕ → Status → Option String → StoredTask → StoredTask
with_status now status message stored = record stored {
  task = record stored.task {
    status = status;
    last_updated_at = now;
    status_message = keep_or message stored.task.status_message;
  };
}

-- One call of an operation that writes. Of a request and a result, the redacted form is stored.
pub data Operation : Type 0 where
  create_task : (id : String) → CreateTaskOptions → (request_id request : Json) → Operation
  store_task_result : (task_id : String) (is_failed : Bool) (result : Json) → Operation
  update_task_status : (task_id : String) → Status → (status_message : Option String) → Operation

module _ (max_ttl_ms : ℕ) (redact : Json → Json) where
  -- the bodies of the transactions; only `createTask` returns a task
  unfoldable pub operate :
      (now : ℕ) (session_id : Option String)
      → Operation
      → Tasks
      → Outcome StoreError (Option Task × Tasks)
  unfolding new_task check_open with_status Maps.get Maps.set
  operate now session_id (create_task id options request_id request) tasks =
      let task = new_task max_ttl_ms now id options in
      ok (
        some task,
        Maps.set id
            (record {
              task = task;
              request_id = request_id;
              request = redact request;
              session_id = session_id;
              result = none;
            })
            tasks,
      )
  operate now session_id (store_task_result id is_failed result) tasks = do
    stored ← check_open id session_id (Maps.get id tasks)
    let status = if is_failed then failed else completed
    let updated = with_status now status none stored
    ok (none, Maps.set id (record updated { result = some (redact result) }) tasks)
  operate now session_id (update_task_status id status message) tasks = do
    stored ← check_open id session_id (Maps.get id tasks)
    ok (none, Maps.set id (with_status now status message stored) tasks)

-- One call on its turn in the queue, with what the clock and the file system answer.
pub record Call : Type 0 where
  pub read_at : ℕ
  pub now : ℕ
  pub written : Bool
  pub session_id : Option String
  pub operation : Operation

module _ (max_ttl_ms : ℕ) (redact : Json → Json) where
  -- createTask, storeTaskResult and updateTaskStatus
  unfoldable pub perform : Call → File → Outcome StoreError (Option Task) × File
  unfolding transaction operate
  perform call file =
      transaction call.read_at call.written
        (operate max_ttl_ms redact call.now call.session_id call.operation) file

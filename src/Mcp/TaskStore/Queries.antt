-- ===== src/Mcp/TaskStore/Queries.antt =====
-- The operations of the task store that only read: `getTask`, `getTaskResult` and `listTasks`.
use axl_raja.Prelude.{
  ℕ, zero, suc, ◌+◌, String, not, Option, none, some, List, [], ◌∷◌, map, ◌==◌, ltb, Outcome, ok,
  err, ◌>>=◌, if◌then◌else◌, length, take, drop, keep,
}
use axl_raja.Maps
use axl_raja.Protocol.Json.{Json}
use axl_raja.Mcp.TaskStore.{
  Task, StoredTask, Tasks, File, StoreError, not_found, no_terminal_result, invalid_cursor,
  is_terminal, belongs, read,
}

abbrev pub page_size : ℕ
page_size = 100

unfoldable pub get_task :
    (now : ℕ) (task_id : String) (session_id : Option String)
    → File
    → Outcome StoreError (Option Task)
unfolding read belongs Maps.get
get_task now id session_id file = do
  tasks ← read now file
  ok (elim (Maps.get id tasks) [
    | none ↦ none
    | some stored ↦ if belongs stored session_id then some stored.task else none
  ])

-- the checks of `getTaskResult` on the entry
unfoldable pub result_of : String → Option String → Option StoredTask → Outcome StoreError Json
unfolding belongs is_terminal
result_of id session_id none = err (not_found id)
result_of id session_id (some stored) =
    if not (belongs stored session_id)
    then err (not_found id)
    else if not (is_terminal stored.task.status)
    then err (no_terminal_result id)
    else elim stored.result [ none ↦ err (no_terminal_result id) | some result ↦ ok result ]

unfoldable pub get_task_result :
    (now : ℕ) (task_id : String) (session_id : Option String) → File → Outcome StoreError Json
unfolding read result_of Maps.get
get_task_result now id session_id file = do
  tasks ← read now file
  result_of id session_id (Maps.get id tasks)

-- entries.findIndex((task) => task.task.taskId === cursor) + 1, so that 0 is no index
unfoldable pub index_after : String → List StoredTask → ℕ
index_after cursor [] = 0
index_after cursor (stored ∷ entries) =
    let rest = index_after cursor entries in
    if stored.task.task_id == cursor then 1 else elim rest [ zero ↦ 0 | suc n ↦ suc (suc n) ]

-- page.at(-1)?.task.taskId
unfoldable pub last_id : List StoredTask → Option String
last_id [] = none
last_id (stored ∷ []) = some stored.task.task_id
last_id (stored ∷ entries) = last_id entries

pub record Page : Type 0 where
  pub tasks : List Task
  pub next_cursor : Option String

-- the slice from `start` on, and the cursor of the next one
unfoldable pub page_from : (start : ℕ) → List StoredTask → Page
unfolding last_id
page_from start entries =
    let page = take page_size (drop start entries) in
    record {
      tasks = map (λ stored. stored.task) page;
      next_cursor = if ltb (start + page_size) (length entries) then last_id page else none;
    }

-- the page behind the cursor, for its index
abbrev pub page_at : String → List StoredTask → ℕ → Outcome StoreError Page
page_at cursor entries zero = err (invalid_cursor cursor)
page_at cursor entries (suc n) = ok (page_from (suc n) entries)

unfoldable pub page_of : Option String → List StoredTask → Outcome StoreError Page
unfolding page_from index_after
page_of none entries = ok (page_from 0 entries)
page_of (some cursor) entries = page_at cursor entries (index_after cursor entries)

unfoldable pub entries_of : Option String → Tasks → List StoredTask
unfolding belongs Maps.values
entries_of session_id tasks = keep (λ stored. belongs stored session_id) (Maps.values tasks)

unfoldable pub list_tasks :
    (now : ℕ) (cursor session_id : Option String) → File → Outcome StoreError Page
unfolding read page_of entries_of
list_tasks now cursor session_id file = do
  tasks ← read now file
  page_of cursor (entries_of session_id tasks)

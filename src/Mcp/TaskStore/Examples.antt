-- ===== src/Mcp/TaskStore/Examples.antt =====
-- The task store's theorems and tests at concrete tasks.
use axl_raja.Prelude.{
  ℕ, zero, suc, true, false, none, some, [], ◌∷◌, ◌≡◌, refl, ◌≤◌, ok, err, arith, if◌then◌else◌,
}
use axl_raja.Maps
use axl_raja.Protocol.Json.{Json, str, null}
use axl_raja.Mcp.TaskStore.{
  StoredTask, File, absent, task_file, working, cancelled, not_found, create_task,
  store_task_result, update_task_status, Call, perform, is_same_session, belongs, is_live,
  is_terminal, CreateTaskOptions, new_task, ttl_of, read,
}
use axl_raja.Mcp.TaskStore.Queries.{get_task, get_task_result, index_after, entries_of}
use axl_raja.Mcp.TaskStore.Lifetime.{held, run, get_task-run}
use axl_raja.Mcp.TaskStore.Results.{store_task_result-run, create_task-get}
use axl_raja.Mcp.TaskStore.Paging.{HaveDistinctIds, tasks_of, visit, visit_all}

abbrev hide : Json → Json
hide value = null

abbrev job : StoredTask
job = record {
  task = record {
    task_id = "t";
    status = working;
    status_message = none;
    created_at = 10;
    last_updated_at = 10;
    ttl = some 100;
    poll_interval = 1_000;
  };
  request_id = str "1";
  request = null;
  session_id = some "a";
  result = none;
}

abbrev file : File
file = task_file (("t", job) ∷ [])

-- Another session tries to cancel the task.
abbrev intrusion : Call
intrusion = record {
  read_at = 20;
  now = 20;
  written = true;
  session_id = some "b";
  operation = update_task_status "t" cancelled none;
}

intrusion_refused : perform 500 hide intrusion file ≡ (err (not_found "t"), file)
unfolding perform
intrusion_refused = refl

intrusion_shielded : is_terminal job.task.status ≡ false
unfolding is_terminal
intrusion_shielded = refl

job_foreign : belongs job (some "b") ≡ false
unfolding belongs
job_foreign = refl

job_own : belongs job (some "a") ≡ true
unfolding belongs
job_own = refl

job_live : is_live 50 ("t", job) ≡ true
unfolding is_live
job_live = refl

job-held : held "t" file ≡ some job
unfolding Maps.get
job-held = refl

get_task-run_example :
    get_task 50 "t" (some "a") (run 500 hide (intrusion ∷ []) file)
    ≡ ok (if is_same_session (some "a") (some "a") then some job.task else none)
get_task-run_example =
    get_task-run 500 hide "t" job 50 (intrusion ∷ []) file (some "a") job-held job_live
      ((ground (arith, job_foreign), refl, omega arith), tt)

store_task_result-run_example :
    (file' : File) × (perform 500 hide
        (record {
          read_at = 30;
          now = 31;
          written = true;
          session_id = some "a";
          operation = store_task_result "t" false (str "done");
        })
        file
      ≡ (ok none, file'))
    × (get_task_result 50 "t" (some "a") (run 500 hide (intrusion ∷ []) file') ≡ ok null)
store_task_result-run_example =
    store_task_result-run 500 hide "t" job 30 31 50 (some "a") false (str "done") file
      (intrusion ∷ []) job-held job_live (omega arith) job_own intrusion_shielded
      ((refl, omega arith), tt)

abbrev day : CreateTaskOptions
day = record { ttl = some (some 900); poll_interval = none }

first_read : read 7 absent ≡ ok []
unfolding read
first_read = refl

day_live : 400 ≤ ttl_of 500 (some (some 900))
unfolding ttl_of
day_live = omega arith

create_task-get_example :
    (file' : File) × (perform 500 hide
        (record {
          read_at = 7;
          now = 8;
          written = true;
          session_id = none;
          operation = create_task "n" day null null;
        })
        absent
      ≡ (ok (some (new_task 500 8 "n" day)), file'))
    × (get_task 400 "n" none file'
        ≡ ok (if is_same_session none none then some (new_task 500 8 "n" day) else none))
    × (ttl_of 500 (some (some 900)) ≤ 500)
create_task-get_example =
    create_task-get 500 hide "n" day null null 7 8 400 none none absent [] first_read
      (omega (arith, day_live))

job_alone : index_after "t" [] ≡ 0
unfolding index_after
job_alone = refl

-- The clock moves between the calls, up to a time before the task expires.
abbrev ticking : ℕ → ℕ
ticking zero = 20
ticking (suc k) = 30

job-read : (k : ℕ) → read (ticking k) file ≡ ok (("t", job) ∷ [])
unfolding read
job-read zero = refl
job-read (suc k) = refl

job_entries : HaveDistinctIds (entries_of (some "a") (("t", job) ∷ []))
unfolding entries_of
job_entries = (job_alone, tt)

visit_all_example :
    visit 2 ticking (some "a") file 0 none
    ≡ some (ok (tasks_of (entries_of (some "a") (("t", job) ∷ []))))
unfolding entries_of
visit_all_example = visit_all ticking (some "a") file (("t", job) ∷ []) job-read job_entries

-- ===== src/Store/Upsert.antt =====
-- jobs/postgres_store.go: `Store` writes the jobs of a synchronisation or a notification, one
-- `insert ... on conflict do update` for each, with the trigger of migrations/00018.
pub mod Rows
pub mod Where
pub mod Events
pub mod Again
pub mod Batch
use batchiepatchie.Prelude.{
  ℕ, ◌/◌, ◌*◌, String, Bool, true, false, not, ◌||◌, Option, none, some, List, [], ◌∷◌, ◌++◌, ◌==◌,
  if◌then◌else◌,
}
use batchiepatchie.Prelude.Dict.{member}
use batchiepatchie.Prelude.Int.{ℤ, eqb_ℤ}
use batchiepatchie.Prelude.Io.{Io, ◌>>=◌, ◌>>◌, pure}
use batchiepatchie.Jobs.{Time, Job}
use batchiepatchie.Jobs.Json.{Json, StatusSummary, ArrayProperties, get_in, as_number, value}
use batchiepatchie.Store.Sql.{Truth, ◌or◌, differs, is_null, is_not_null, ◌and◌, holds}
use batchiepatchie.Store.Db.{JobRow, Db, Session, exec, call, transaction}

-- `Format("2006-01-02 15:04:05")` drops what is below a second.
abbrev pub to_second : Time → Time
to_second t = t / 1000000000 * 1000000000

abbrev pub stored_properties : Option ArrayProperties → Option Json
stored_properties none = none
stored_properties (some a) = some (value a)

abbrev pub second_of : Option Time → Option Time
second_of none = none
second_of (some t) = some (to_second t)

-- The row that `values (...)` inserts.
unfoldable pub insert_row : Job → JobRow
insert_row j = record {
  job_id = j.id;
  job_name = j.name;
  job_definition = j.description;
  job_queue = j.job_queue;
  image = j.image;
  status = j.status;
  created_at = to_second j.created_at;
  stopped_at = second_of j.stopped_at;
  vcpus = j.vcpus;
  memory = j.memory;
  timeout = j.timeout;
  command_line = j.command_line;
  last_updated = to_second j.last_updated;
  status_reason = j.status_reason;
  run_started_at = j.run_start_time;
  exitcode = j.exit_code;
  log_stream_name = j.log_stream_name;
  termination_requested = false;
  task_arn = j.task_arn;
  array_properties = stored_properties j.array_properties;
}

-- `(jobs.array_properties->'status_summary'->>'KEY')::numeric != n`.
abbrev pub count_differs : Option Json → String → ℤ → Truth
count_differs stored key n =
    differs eqb_ℤ (as_number (get_in (get_in stored "status_summary") key)) (some n)

-- `extra_where_check`, with the keys that the source writes.
unfoldable pub extra_where_check : Option ArrayProperties → Option Json → Truth
extra_where_check none stored = some false
extra_where_check (some a) stored =
    is_null stored
    or count_differs stored "STARTING" a.status_summary.starting
    or count_differs stored "FAILED" a.status_summary.failed
    or count_differs stored "RUNNING" a.status_summary.running
    or count_differs stored "SUCCEEDED" a.status_summary.succeeded
    or count_differs stored "RUNNABLE" a.status_summary.runnable
    or count_differs stored "SUBMITTED" a.status_summary.submitted
    or count_differs stored "PENDING" a.status_summary.pending

-- The WHERE clause of `do update`.
unfoldable pub where_clause : Job → JobRow → Truth
where_clause j row =
    differs ◌==◌ (some row.status) (some j.status)
    or differs ◌==◌ row.status_reason j.status_reason
    or differs eqb_ℤ row.exitcode j.exit_code
    or differs ◌==◌ row.log_stream_name j.log_stream_name
    or differs ◌==◌ row.task_arn j.task_arn
    or (is_null row.task_arn and is_not_null j.task_arn)
    or (is_null row.log_stream_name and is_not_null j.log_stream_name)
    or (is_null row.status_reason and is_not_null j.status_reason)
    or (is_null row.exitcode and is_not_null j.exit_code)
    or extra_where_check j.array_properties row.array_properties

-- The statement for a job without `StoppedAt` leaves the column `stopped_at` alone.
abbrev pub stopped_or : Option Time → Option Time → Option Time
stopped_or none old = old
stopped_or (some t) old = some (to_second t)

-- The row after `do update set`.
unfoldable pub update_row : Job → JobRow → JobRow
update_row j row = record row {
  status = j.status;
  last_updated = to_second j.last_updated;
  stopped_at = stopped_or j.stopped_at row.stopped_at;
  status_reason = j.status_reason;
  run_started_at = j.run_start_time;
  exitcode = j.exit_code;
  log_stream_name = j.log_stream_name;
  task_arn = j.task_arn;
  array_properties = stored_properties j.array_properties;
}

unfoldable pub write_row : Job → JobRow → JobRow
write_row j row = if holds (where_clause j row) then update_row j row else row

-- `insert ... on conflict (job_id) do update ... where ...`.
unfoldable pub upsert : Job → List JobRow → List JobRow
upsert j [] = insert_row j ∷ []
upsert j (row ∷ rows) = if row.job_id == j.id then write_row j row ∷ rows else row ∷ upsert j rows

-- `insert into job_status_events ... on conflict (job_id) do update`.
unfoldable pub add_event : String → List String → List String
add_event id ids = if member id ids then ids else ids ++ id ∷ []

-- The triggers: an insert adds an event, an update does if it changes the status.
unfoldable pub upsert_events : Job → List JobRow → List String → List String
upsert_events j [] ids = add_event j.id ids
upsert_events j (row ∷ rows) ids =
    if row.job_id == j.id
    then (if (write_row j row).status == row.status then ids else add_event j.id ids)
    else upsert_events j rows ids

unfoldable pub upsert_db : Job → Db → Db
upsert_db j db = record db {
  jobs = upsert j db.jobs;
  job_status_events = upsert_events j db.jobs db.job_status_events;
}

-- The loop over the jobs; the second call is `RowsAffected`, whose count is only logged.
unfoldable pub store_rows : List Job → Io Session (Unit {0})
store_rows [] = pure tt
store_rows (j ∷ js) = exec (λ _ db. upsert_db j db) >> (call >> store_rows js)

-- `Store` up to the flush of the subscriptions: no transaction for no jobs.
unfoldable pub store_jobs : List Job → Io Session (Unit {0})
store_jobs [] = pure tt
store_jobs (j ∷ js) = transaction (store_rows (j ∷ js))

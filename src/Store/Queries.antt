-- ===== src/Store/Queries.antt =====
-- jobs/postgres_store.go: the queries about jobs, and the mark of a requested termination.
pub mod Timeouts
pub mod Load
pub mod One
use batchiepatchie.Prelude.{
  ℕ, String, Bool, true, false, not, ◌&&◌, ◌||◌, Option, none, some, List, [], ◌∷◌, ◌++◌, ◌==◌,
  if◌then◌else◌,
}
use batchiepatchie.Prelude.Dict.{member, lookup, insert}
use batchiepatchie.Prelude.Int.{ℤ, pos, negsuc, ◌+ℤ◌, ltb_ℤ, eqb_ℤ}
use batchiepatchie.Prelude.Io.{Io, ◌>>=◌, ◌>>◌, pure, fail}
use batchiepatchie.Jobs.{Time, Job, JobStatus, RunningLoad}
use batchiepatchie.Jobs.Json.{Json, ArrayProperties, scan}
use batchiepatchie.Store.Db.{JobRow, TaskRow, Db, Session, query, exec, seconds}

-- `created_at + interval '1 second' * timeout < now() AND timeout != -1 AND ...`.
unfoldable pub is_timed_out : Time → JobRow → Bool
is_timed_out now row =
    ltb_ℤ (pos row.created_at +ℤ seconds row.timeout) (pos now)
    && not (eqb_ℤ row.timeout (negsuc 0))
    && not (row.status == "SUCCEEDED")
    && not (row.status == "GONE")
    && not (row.status == "FAILED")
    && not row.termination_requested

unfoldable pub timed_out : Time → List JobRow → List String
timed_out now [] = []
timed_out now (row ∷ rows) =
    let rest = timed_out now rows in if is_timed_out now row then row.job_id ∷ rest else rest

unfoldable pub find_timedout_jobs : Io Session (List String)
find_timedout_jobs = query (λ now db. timed_out now db.jobs)

-- `UPDATE jobs SET termination_requested = 't' WHERE job_id = $1`.
unfoldable pub request_rows : String → List JobRow → List JobRow
request_rows id [] = []
request_rows id (row ∷ rows) =
    (if row.job_id == id then record row { termination_requested = true } else row)
    ∷ request_rows id rows

unfoldable pub update_job_log_termination_requested : String → Io Session (Unit {0})
update_job_log_termination_requested id =
    exec (λ _ db. record db { jobs = request_rows id db.jobs })

-- The join of `FindOne`: the first row of the other table with the job's task.
unfoldable pub find_task : Option String → List TaskRow → Option TaskRow
find_task none tasks = none
find_task (some arn) [] = none
find_task (some arn) (t ∷ ts) = if t.task_arn == arn then some t else find_task (some arn) ts

abbrev scanned : Option Json → Option ArrayProperties
scanned none = none
scanned (some j) = some (scan j)

abbrev pub task_instance : Option TaskRow → Option String
task_instance none = none
task_instance (some t) = some t.instance_id

abbrev pub task_public : Option TaskRow → Option String
task_public none = none
task_public (some t) = some t.public_ip

abbrev pub task_private : Option TaskRow → Option String
task_private none = none
task_private (some t) = some t.private_ip

-- A joined row as `Scan` reads it. The empty `StatusReason` that `FindOne` sets before the scan is
-- overwritten by it, by nil where the column is NULL.
unfoldable pub job_of_row : JobRow → Option TaskRow → Job
job_of_row row task = record {
  id = row.job_id;
  name = row.job_name;
  status = row.status;
  description = row.job_definition;
  last_updated = row.last_updated;
  job_queue = row.job_queue;
  image = row.image;
  created_at = row.created_at;
  stopped_at = row.stopped_at;
  vcpus = row.vcpus;
  memory = row.memory;
  timeout = row.timeout;
  command_line = row.command_line;
  status_reason = row.status_reason;
  run_start_time = row.run_started_at;
  exit_code = row.exitcode;
  log_stream_name = row.log_stream_name;
  termination_requested = row.termination_requested;
  task_arn = row.task_arn;
  instance_id = task_instance task;
  public_ip = task_public task;
  private_ip = task_private task;
  array_properties = scanned row.array_properties;
}

unfoldable pub joined : String → List TaskRow → List JobRow → Option Job
joined id tasks [] = none
joined id tasks (row ∷ rows) =
    if row.job_id == id
    then some (job_of_row row (find_task row.task_arn tasks))
    else joined id tasks rows

-- `rows.Next()` is not looked at: without a row, `Scan` returns an error.
abbrev pub scan_row : Option Job → Io Session Job
scan_row none = fail "sql: Scan called without calling Next"
scan_row (some job) = pure job

unfoldable pub find_one : String → Io Session Job
find_one id = query (λ _ db. joined id db.task_arns db.jobs) >>= scan_row

-- `GetStatus`: the last row that is found, nil without one.
unfoldable pub status_row : String → List JobRow → Option JobStatus → Option JobStatus
status_row id [] found = found
status_row id (row ∷ rows) found =
    status_row id rows
      (if row.job_id == id then some (record { id = row.job_id; status = row.status }) else found)

unfoldable pub get_status : String → Io Session (Option JobStatus)
get_status id = query (λ _ db. status_row id db.jobs none)

abbrev pub active_statuses : List String
active_statuses = "SUBMITTED" ∷ "PENDING" ∷ "RUNNABLE" ∷ "STARTING" ∷ "RUNNING" ∷ []

abbrev pub load_or_zero : Option RunningLoad → RunningLoad
load_or_zero none = record { wanted_vcpus = pos 0; wanted_memory = pos 0 }
load_or_zero (some load) = load

abbrev pub add_load : RunningLoad → JobRow → RunningLoad
add_load load row = record {
  wanted_vcpus = load.wanted_vcpus +ℤ row.vcpus;
  wanted_memory = load.wanted_memory +ℤ row.memory;
}

-- `SELECT job_queue, SUM(vcpus), SUM(memory) ... GROUP BY job_queue`.
unfoldable pub group_loads : List JobRow → List (String × RunningLoad) → List (String × RunningLoad)
group_loads [] groups = groups
group_loads (row ∷ rows) groups = group_loads rows (
    if member row.status active_statuses
    then insert row.job_queue (add_load (load_or_zero (lookup row.job_queue groups)) row) groups
    else groups)

-- The queues without a running job get an entry of zeros.
unfoldable pub fill_loads : List String → List (String × RunningLoad) → List (String × RunningLoad)
fill_loads [] mapping = mapping
fill_loads (q ∷ qs) mapping =
    fill_loads qs (elim (lookup q mapping) [
      | none ↦ insert q (load_or_zero none) mapping
      | some load ↦ mapping
    ])

unfoldable pub estimate_running_load_by_job_queue :
    List String → Io Session (List (String × RunningLoad))
estimate_running_load_by_job_queue queues =
    query (λ _ db. group_loads db.jobs []) >>= λ mapping. pure (fill_loads queues mapping)

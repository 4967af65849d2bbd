-- ===== src/Tests.antt =====
-- The concrete jobs, rows and sessions of the tests.
mod Rows
mod Statements
mod Watchers
mod Services
mod Rounds
mod Logs
mod Collected
mod Api
mod Searched
mod Setup
mod Sockets
mod Statistics
mod Fetched
mod Started
use batchiepatchie.Prelude.{ℕ, String, ◌∷◌, [], false, none, some, Option}
use batchiepatchie.Prelude.Int.{pos}
use batchiepatchie.Jobs.{Job}
use batchiepatchie.Jobs.Json.{StatusSummary, ArrayProperties}
use batchiepatchie.Store.Db.{JobRow, TaskRow, QueueRow, Db, Session}
use batchiepatchie.Store.Subscriptions.{Hub, StoreState}

-- Noon of some day, in nanoseconds, and the seconds after it.
abbrev pub noon : ℕ
noon = 1500000000000000000

abbrev pub job_with : String → String → Option ArrayProperties → Job
job_with id status properties = record {
  id = id;
  name = "train";
  status = status;
  description = "train:1";
  last_updated = noon;
  job_queue = "gpu";
  image = "train:latest";
  created_at = noon;
  stopped_at = none;
  vcpus = pos 4;
  memory = pos 2000;
  timeout = pos 60;
  command_line = "[]";
  status_reason = some "";
  run_start_time = none;
  exit_code = none;
  log_stream_name = none;
  termination_requested = false;
  task_arn = some "task";
  instance_id = none;
  public_ip = none;
  private_ip = none;
  array_properties = properties;
}

abbrev pub row_with : String → String → JobRow
row_with id status = record {
  job_id = id;
  job_name = "train";
  job_definition = "train:1";
  job_queue = "gpu";
  image = "train:latest";
  status = status;
  created_at = noon;
  stopped_at = none;
  vcpus = pos 4;
  memory = pos 2000;
  timeout = pos 60;
  command_line = "[]";
  last_updated = noon;
  status_reason = some "";
  run_started_at = none;
  exitcode = none;
  log_stream_name = none;
  termination_requested = false;
  task_arn = some "task";
  array_properties = none;
}

abbrev pub array_of_two : ArrayProperties
array_of_two = record {
  size = pos 2;
  status_summary = record {
    starting = pos 0;
    failed = pos 0;
    running = pos 1;
    succeeded = pos 1;
    runnable = pos 0;
    submitted = pos 0;
    pending = pos 0;
  };
}

abbrev pub some_db : Db
some_db = record {
  jobs = row_with "a" "RUNNING" ∷ row_with "b" "SUCCEEDED" ∷ [];
  job_status_events = "b" ∷ [];
  activated_job_queues = record { job_queue = "gpu"; forced_scaling = false } ∷ [];
  job_summary_event_log = [];
  compute_environment_event_log = [];
  task_arns =
      record {
        task_arn = "task";
        instance_id = "i-1";
        public_ip = "1.1.1.1";
        private_ip = "10.0.0.1";
      }
      ∷ [];
  instances = [];
  instance_event_log = [];
}

-- Ten minutes later, with no fault to come.
abbrev pub later : Session
later = record { db = some_db; now = 1500000600000000000; answers = [] }

-- The same, where the second call fails.
abbrev pub failing : Session
failing = record {
  db = some_db;
  now = 1500000600000000000;
  answers = none ∷ some "connection reset" ∷ [];
}

-- Two channels for the job "a", and one for "b".
abbrev pub watched : Hub
watched = record {
  subscribers = ("a", 0 ∷ 1 ∷ []) ∷ ("b", 2 ∷ []) ∷ [];
  next_channel = 3;
  buffer = λ c. [];
}

abbrev pub some_store : StoreState
some_store = record { session = later; hub = watched }

-- ===== src/Syncer/Convert.antt =====
-- syncer/batchsync.go: the job that is stored for one listed and described job of AWS Batch.
use batchiepatchie.Prelude.{
  ℕ, ◌+◌, ◌*◌, ◌/◌, ◌%◌, String, false, Option, none, some, List, [], ◌∷◌, ◌==◌, if◌then◌else◌,
  get_last?,
}
use batchiepatchie.Prelude.Dict.{lookup}
use batchiepatchie.Prelude.Int.{ℤ, pos, negsuc}
use batchiepatchie.Prelude.Io.{Io, ◌>>=◌, pure, deref}
use batchiepatchie.Prelude.Text.{atoi}
use batchiepatchie.Jobs.{Time, Job}
use batchiepatchie.Jobs.Json.{StatusSummary, ArrayProperties}
use batchiepatchie.Aws.{
  JobListing, AttemptContainer, Attempt, KeyValue, ContainerDetail, ArrayDetail, JobDetail,
}

-- `time.Unix(ms/1000, (ms%1000)*1000000)`.
unfoldable pub from_millis : ℕ → Time
from_millis ms = ms / 1000 * 1000000000 + ms % 1000 * 1000000

abbrev pub or_else {ℓ} : {A : Type ℓ} → Option A → A → A
or_else none d = d
or_else (some a) d = a

abbrev pub millis_time : Option ℕ → Option Time
millis_time none = none
millis_time (some ms) = some (from_millis ms)

-- `PYBATCH_TIMEOUT`, with -1 where it is missing or does not parse.
abbrev pub no_timeout : ℤ
no_timeout = negsuc 0

module _ {W : Type 0} where
  unfoldable pub find_timeout : List KeyValue → Io W ℤ
  find_timeout [] = pure no_timeout
  find_timeout (v ∷ vs) = do
    name ← deref v.name
    let here = deref v.value >>= λ value. pure (or_else (atoi value) no_timeout)
    let later = find_timeout vs
    if name == "PYBATCH_TIMEOUT" then here else later

  abbrev pub container_timeout : Option ContainerDetail → Io W ℤ
  container_timeout none = pure no_timeout
  container_timeout (some c) = find_timeout c.environment

  -- `*desc.ArrayProperties.StatusSummary[key]`.
  abbrev pub summary_entry : String → List (String × Option ℤ) → Io W ℤ
  summary_entry key m = deref (elim (lookup key m) [ none ↦ none | some v ↦ v ])

  unfoldable pub read_summary : List (String × Option ℤ) → Io W StatusSummary
  read_summary m = do
    starting ← summary_entry "STARTING" m
    failed ← summary_entry "FAILED" m
    running ← summary_entry "RUNNING" m
    succeeded ← summary_entry "SUCCEEDED" m
    runnable ← summary_entry "RUNNABLE" m
    submitted ← summary_entry "SUBMITTED" m
    pending ← summary_entry "PENDING" m
    pure (record {
      starting = starting;
      failed = failed;
      running = running;
      succeeded = succeeded;
      runnable = runnable;
      submitted = submitted;
      pending = pending;
    })

  abbrev pub sized_array : Option ℤ → List (String × Option ℤ) → Io W (Option ArrayProperties)
  sized_array none m = pure none
  sized_array (some size) m =
      read_summary m >>= λ summary. pure (some (record { size = size; status_summary = summary }))

  abbrev pub read_array : Option ArrayDetail → Io W (Option ArrayProperties)
  read_array none = pure none
  read_array (some a) = sized_array a.size a.status_summary

abbrev pub of_attempt {ℓ} : {A : Type ℓ} → (Attempt → Option A) → Option Attempt → Option A
of_attempt f none = none
of_attempt f (some a) = f a

abbrev pub of_attempt_container {ℓ} :
    {A : Type ℓ} → (AttemptContainer → Option A) → Option Attempt → Option A
of_attempt_container f none = none
of_attempt_container f (some a) = elim a.container [ none ↦ none | some c ↦ f c ]

abbrev pub of_container {ℓ} :
    {A : Type ℓ} → (ContainerDetail → Option A) → Option ContainerDetail → Option A
of_container f none = none
of_container f (some c) = f c

-- The reason of the last attempt's container, unless it is missing or empty.
abbrev pub prefer_reason : Option String → String → String
prefer_reason none reason = reason
prefer_reason (some r) reason = if r == "" then reason else r

abbrev pub or_next {ℓ} : {A : Type ℓ} → Option A → Option A → Option A
or_next none next = next
or_next (some a) next = some a

-- The task of the last attempt; if it is missing or empty, the container's where there is one.
abbrev pub prefer_task : Option String → Option String → Option String
prefer_task none next = next
prefer_task (some arn) none = some arn
prefer_task (some arn) (some next) = if arn == "" then some next else some arn

unfoldable pub status_reason_of : JobDetail → String
status_reason_of desc =
    prefer_reason (of_attempt_container (λ c. c.reason) (get_last? desc.attempts))
      (or_else desc.status_reason "")

unfoldable pub log_stream_of : JobDetail → Option String
log_stream_of desc =
    or_next (of_attempt_container (λ c. c.log_stream_name) (get_last? desc.attempts))
      (of_container (λ c. c.log_stream_name) desc.container)

unfoldable pub task_arn_of : JobDetail → Option String
task_arn_of desc =
    prefer_task (of_attempt_container (λ c. c.task_arn) (get_last? desc.attempts))
      (of_container (λ c. c.task_arn) desc.container)

-- The `jobs.Job` of a listed job and its description; the command line is given as JSON.
unfoldable pub make_job :
    {W : Type 0} → Time → String → String → ℤ → JobListing → JobDetail → Io W Job
make_job now queue command timeout job desc = do
  properties ← read_array desc.array_properties
  id ← deref job.job_id
  name ← deref job.job_name
  status ← deref desc.status
  definition ← deref desc.job_definition
  created ← deref desc.created_at
  pure (record {
    id = id;
    name = name;
    status = status;
    description = definition;
    last_updated = now;
    job_queue = queue;
    image = or_else (of_container (λ c. c.image) desc.container) "";
    created_at = from_millis created;
    stopped_at = millis_time desc.stopped_at;
    vcpus = or_else (of_container (λ c. c.vcpus) desc.container) (pos 0);
    memory = or_else (of_container (λ c. c.memory) desc.container) (pos 0);
    timeout = timeout;
    command_line = command;
    status_reason = some (status_reason_of desc);
    run_start_time = millis_time (of_attempt (λ a. a.started_at) (get_last? desc.attempts));
    exit_code = of_attempt_container (λ c. c.exit_code) (get_last? desc.attempts);
    log_stream_name = log_stream_of desc;
    termination_requested = false;
    task_arn = task_arn_of desc;
    instance_id = none;
    public_ip = none;
    private_ip = none;
    array_properties = properties;
  })

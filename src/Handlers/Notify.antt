-- ===== src/Handlers/Notify.antt =====
-- handlers/job_status_notification.go: the job that is stored for a notification of AWS Batch.
pub mod Arn
pub mod Stored
pub mod Told
use Prim.Native.Char.{code}
use batchiepatchie.Prelude.{
  ℕ, ◌*◌, ◌/◌, String, Bool, true, false, ◌&&◌, ◌||◌, Option, none, some, List, [], ◌∷◌, ◌==◌, eqb,
  if◌then◌else◌, ◌⊎◌, inl, inr,
}
use batchiepatchie.Prelude.Int.{ℤ, negsuc}
use batchiepatchie.Prelude.Io.{Io, Error, pure, fail}
use batchiepatchie.Prelude.Text.{has, slash, newline, atoi}
use batchiepatchie.Jobs.{Time, Job}

pub record EnvironmentEntry : Type 0 where
  pub key : String
  pub value : String

pub record NotifiedContainer : Type 0 where
  pub image : String
  pub vcpus : ℤ
  pub memory : ℤ
  pub command : List String
  pub environment : List EnvironmentEntry
  pub task_arn : Option String

-- Times are milliseconds since the Unix epoch.
pub record NotificationDetail : Type 0 where
  pub job_name : String
  pub job_id : String
  pub job_queue : String
  pub status : String
  pub created_at : ℕ
  pub started_at : Option ℕ
  pub container : NotifiedContainer
  pub job_definition : String

pub record JobStatusNotification : Type 0 where
  pub time : String
  pub detail : NotificationDetail

-- `.+?$` after a slash, where the rest of the text after it holds no such slash.
abbrev pub group : String → Option String
group String.[] = none
group (String.◌∷◌ c s) = some (String.◌∷◌ c s)

-- `.*/(.+?)$`: what follows the last slash that something follows.
unfoldable pub last_part : String → Option String
last_part String.[] = none
last_part (String.◌∷◌ c s) = elim (last_part s) [
  | some found ↦ some found
  | none ↦ if eqb (code c) slash then group s else none
]

abbrev pub or_whole : String → Option String → String
or_whole whole none = whole
or_whole whole (some found) = found

-- The match of `^arn.*/(.+?)$`.
unfoldable pub arn_match : String → Option String
arn_match (String.◌∷◌ c (String.◌∷◌ d (String.◌∷◌ e rest))) =
    if eqb (code c) b'a' && (eqb (code d) b'r' && eqb (code e) b'n')
    then if has newline rest then none else last_part rest
    else none
arn_match _ = none

unfoldable pub strip_arn : String → String
strip_arn arnied_name = or_whole arnied_name (arn_match arnied_name)

-- `time.Unix(ms/1000, 0)`.
abbrev pub whole_seconds : ℕ → Time
whole_seconds ms = ms / 1000 * 1000000000

abbrev pub started : Option ℕ → Option Time
started none = none
started (some ms) = some (whole_seconds ms)

abbrev pub parsed_timeout : Option ℤ → ℤ
parsed_timeout none = negsuc 0
parsed_timeout (some n) = n

-- The loop over the environment: the first entry of this key counts.
unfoldable pub notified_timeout : List EnvironmentEntry → ℤ
notified_timeout [] = negsuc 0
notified_timeout (entry ∷ entries) =
    let rest = notified_timeout entries in
    if entry.key == "PYBATCH_TIMEOUT" then parsed_timeout (atoi entry.value) else rest

-- `marshal` is `json.Marshal` of a command.
unfoldable pub notified_job : (List String → String) → Time → NotificationDetail → Job
notified_job marshal now detail = record {
  id = detail.job_id;
  name = detail.job_name;
  status = detail.status;
  description = detail.job_definition;
  last_updated = now;
  job_queue = strip_arn detail.job_queue;
  image = detail.container.image;
  created_at = whole_seconds detail.created_at;
  stopped_at = none;
  vcpus = detail.container.vcpus;
  memory = detail.container.memory;
  timeout = notified_timeout detail.container.environment;
  command_line = marshal detail.container.command;
  status_reason = none;
  run_start_time = started detail.started_at;
  exit_code = none;
  log_stream_name = none;
  termination_requested = false;
  task_arn = none;
  instance_id = none;
  public_ip = none;
  private_ip = none;
  array_properties = none;
}

-- `inr` is why the body of a request cannot be read.
module _ {W : Type 0} (marshal : List String → String) (store : List Job → Io W (Unit {0})) where
  abbrev pub store_notified : Time → NotificationDetail → Io W (Unit {0})
  store_notified now detail =
      if detail.job_name == "" then pure tt else store (notified_job marshal now detail ∷ [])

  unfoldable pub job_status_notification : Time → JobStatusNotification ⊎ Error → Io W (Unit {0})
  job_status_notification now (inl notification) = store_notified now notification.detail
  job_status_notification now (inr e) = fail e

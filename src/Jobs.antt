-- ===== src/Jobs.antt =====
-- jobs/jobs.go: the records that the store, the syncer and the handlers exchange.
-- Times are nanoseconds since the Unix epoch, in UTC. A nil pointer is `none`. Go's int and int64
-- values are integers; the counters of a `JobSummary` are the 64-bit patterns of int64 values.
pub mod Json
pub mod Killer
pub mod Scaler
pub mod Environments
pub mod Clusters
use batchiepatchie.Prelude.{ℕ, String, Bool, Option, List, [], ◌∷◌}
use batchiepatchie.Prelude.Int.{ℤ}
use Json.{ArrayProperties}

abbrev pub Time : Type 0
Time = ℕ

abbrev pub status_failed : String
status_failed = "FAILED"

abbrev pub status_succeeded : String
status_succeeded = "SUCCEEDED"

-- `StatusList`, in the source's order, in which a synchronisation walks it.
abbrev pub status_list : List String
status_list =
    status_failed ∷ "PENDING" ∷ "RUNNABLE" ∷ "RUNNING" ∷ "STARTING" ∷ "SUBMITTED" ∷ status_succeeded
    ∷ []

pub record JobStatus : Type 0 where
  pub id : String
  pub status : String

pub record Job : Type 0 where
  pub id : String
  pub name : String
  pub status : String
  pub description : String
  pub last_updated : Time
  pub job_queue : String
  pub image : String
  pub created_at : Time
  pub stopped_at : Option Time
  pub vcpus : ℤ
  pub memory : ℤ
  pub timeout : ℤ
  pub command_line : String
  pub status_reason : Option String
  pub run_start_time : Option Time
  pub exit_code : Option ℤ
  pub log_stream_name : Option String
  pub termination_requested : Bool
  pub task_arn : Option String
  pub instance_id : Option String
  pub public_ip : Option String
  pub private_ip : Option String
  pub array_properties : Option ArrayProperties

-- The query options of `Find`.
pub record Options : Type 0 where
  pub search : String
  pub date_range : String
  pub limit : ℤ
  pub offset : ℤ
  pub queues : List String
  pub sort_by : String
  pub sort_asc : Bool
  pub status : List String

pub record JobStatsOptions : Type 0 where
  pub queues : List String
  pub status : List String
  pub interval : ℤ
  pub start : ℤ
  pub end : ℤ

-- Over any type of floating-point numbers.
pub record JobStats (Float : Type 0) : Type 0 where
  pub job_queue : String
  pub status : String
  pub timestamp : Float
  pub vcpu_seconds : Float
  pub memory_seconds : Float
  pub instance_seconds : Float
  pub job_count : ℕ
  pub interval : ℤ

pub record RunningLoad : Type 0 where
  pub wanted_vcpus : ℤ
  pub wanted_memory : ℤ

pub record ComputeEnvironment : Type 0 where
  pub name : String
  pub wanted_vcpus : ℤ
  pub min_vcpus : ℤ
  pub max_vcpus : ℤ
  pub state : String
  pub service_role : String

pub record JobSummary : Type 0 where
  pub job_queue : String
  pub submitted : ℕ
  pub pending : ℕ
  pub runnable : ℕ
  pub starting : ℕ
  pub running : ℕ

pub record Ec2Info : Type 0 where
  pub private_ip : Option String
  pub public_ip : Option String
  pub ami : String
  pub compute_environment_arn : String
  pub ecs_cluster_arn : String
  pub availability_zone : String
  pub spot_instance_request_id : Option String
  pub instance_type : String
  pub launched_at : Option Time

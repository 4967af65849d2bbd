-- ===== src/Aws.antt =====
-- The services of the AWS SDK that syncer/ and jobs/ call. They are not under src/: a client of
-- theirs takes them as a parameter over the state of the world. A nil pointer is `none`; times are
-- milliseconds since the Unix epoch.
pub mod Paging
use batchiepatchie.Prelude.{ℕ, String, Option, List}
use batchiepatchie.Prelude.Int.{ℤ}
use batchiepatchie.Prelude.Io.{Io}
use batchiepatchie.Jobs.{Time}

-- batch.JobSummary.
pub record JobListing : Type 0 where
  pub job_id : Option String
  pub job_name : Option String

-- batch.ListJobsOutput.
pub record ListJobsOutput : Type 0 where
  pub job_summary_list : List JobListing
  pub next_token : Option String

-- batch.AttemptContainerDetail.
pub record AttemptContainer : Type 0 where
  pub reason : Option String
  pub exit_code : Option ℤ
  pub log_stream_name : Option String
  pub task_arn : Option String

-- batch.AttemptDetail.
pub record Attempt : Type 0 where
  pub container : Option AttemptContainer
  pub started_at : Option ℕ

-- batch.KeyValuePair.
pub record KeyValue : Type 0 where
  pub name : Option String
  pub value : Option String

-- batch.ContainerDetail.
pub record ContainerDetail : Type 0 where
  pub environment : List KeyValue
  pub command : List (Option String)
  pub log_stream_name : Option String
  pub task_arn : Option String
  pub image : Option String
  pub vcpus : Option ℤ
  pub memory : Option ℤ

-- batch.ArrayPropertiesDetail.
pub record ArrayDetail : Type 0 where
  pub size : Option ℤ
  pub status_summary : List (String × Option ℤ)

-- batch.JobDetail.
pub record JobDetail : Type 0 where
  pub job_id : Option String
  pub status : Option String
  pub job_definition : Option String
  pub created_at : Option ℕ
  pub stopped_at : Option ℕ
  pub status_reason : Option String
  pub attempts : List Attempt
  pub container : Option ContainerDetail
  pub array_properties : Option ArrayDetail

-- batch.JobQueueDetail.
pub record JobQueueDetail : Type 0 where
  pub job_queue_name : Option String
  pub compute_environment_order : List (Option String)

-- batch.ComputeResource.
pub record ComputeResources : Type 0 where
  pub desired_vcpus : Option ℤ
  pub max_vcpus : Option ℤ
  pub min_vcpus : Option ℤ

-- batch.ComputeEnvironmentDetail.
pub record EnvironmentDetail : Type 0 where
  pub status : Option String
  pub state : Option String
  pub compute_resources : Option ComputeResources
  pub compute_environment_name : Option String
  pub compute_environment_arn : Option String
  pub service_role : Option String
  pub ecs_cluster_arn : Option String

-- What the syncer uses of AWS Batch, of the clock and of encoding/json.
pub record Batch (W : Type 0) : Type 0 where
  pub list_jobs : String → String → Option String → Io W ListJobsOutput
  pub describe_jobs : List String → Io W (List JobDetail)
  pub time_now : Io W Time
  pub marshal_command : List (Option String) → Option String

-- ===== src/Syncer/Round.antt =====
-- syncer/batchsync.go: a round of synchronisation, over the services of AWS and a store.
pub mod Known
use batchiepatchie.Prelude.{
  ℕ, zero, suc, ◌+◌, ◌%◌, String, Bool, true, false, Option, none, some, List, [], ◌∷◌, ◌++◌, ◌==◌,
  if◌then◌else◌, ◌⊎◌, inl, inr,
}
use batchiepatchie.Prelude.Dict.{lookup, insert, keys, insert_all}
use batchiepatchie.Prelude.Int.{ℤ, two_64}
use batchiepatchie.Prelude.Io.{Io, Error, ◌>>=◌, ◌>>◌, pure, deref, attempt, fail}
use batchiepatchie.Jobs.{Job, JobSummary, status_list}
use batchiepatchie.Aws.{JobListing, ContainerDetail, JobDetail, Batch}
use batchiepatchie.Syncer.Listing.{Listings, Details, Listed, list_pages, describe_page}
use batchiepatchie.Syncer.Convert.{container_timeout, make_job}

-- What the syncer uses of `jobs.FinderStorer`.
pub record Storer (W : Type 0) : Type 0 where
  pub store : List Job → Io W (Unit {0})
  pub update_job_summary_log : List JobSummary → Io W (Unit {0})
  pub stale_old_jobs : List String → Io W (Unit {0})

abbrev pub Summaries : Type 0
Summaries = List (String × JobSummary)

-- `n++` on an int64, by its pattern.
abbrev pub increment : ℕ → ℕ
increment n = (n + 1) % two_64

-- The switch on the status of a description.
unfoldable pub count_status : String → JobSummary → JobSummary
count_status status s =
    if status == "SUBMITTED"
    then record s { submitted = increment s.submitted }
    else if status == "PENDING"
    then record s { pending = increment s.pending }
    else if status == "RUNNABLE"
    then record s { runnable = increment s.runnable }
    else if status == "STARTING"
    then record s { starting = increment s.starting }
    else if status == "RUNNING"
    then record s { running = increment s.running }
    else s

abbrev pub counted : String → String → Option JobSummary → Summaries → Summaries
counted queue status none summaries = summaries
counted queue status (some s) summaries = insert queue (count_status status s) summaries

unfoldable pub count_job : String → Option String → Summaries → Summaries
count_job queue none summaries = summaries
count_job queue (some status) summaries = counted queue status (lookup queue summaries) summaries

-- `known_job_ids`, a set, and `job_summaries`, whose entries the code changes in place.
pub record Progress : Type 0 where
  pub known : List (String × Bool)
  pub summaries : Summaries

-- The jobs to insert so far, with the progress.
pub record Built : Type 0 where
  pub jobs : List Job
  pub progress : Progress

-- A summary of zeros for each queue.
unfoldable pub fresh_summaries : List String → Summaries → Summaries
fresh_summaries [] m = m
fresh_summaries (queue ∷ queues) m = fresh_summaries queues (
    insert queue
      (record {
        job_queue = queue;
        submitted = 0;
        pending = 0;
        runnable = 0;
        starting = 0;
        running = 0;
      })
      m)

module _ {W : Type 0} (aws : Batch W) (storer : Storer W) where
  open aws use {describe_jobs, time_now, marshal_command}
  open storer use {store, update_job_summary_log, stale_old_jobs}

  abbrev pub command_of : Option ContainerDetail → Option String
  command_of none = some ""
  command_of (some c) = marshal_command c.command

  -- The rest of a described job, once its command line is marshalled, or fails to be.
  unfoldable pub add_job :
      String → String → JobListing → JobDetail → ℤ → Built → Option String → Io W Built
  add_job queue id job desc timeout b none = pure b
  add_job queue id job desc timeout b (some command) = do
    now ← time_now
    made ← make_job now queue command timeout job desc
    pure (record {
      jobs = b.jobs ++ made ∷ [];
      progress = record {
        known = insert id true b.progress.known;
        summaries = b.progress.summaries;
      };
    })

  -- A job of `job_results`: it is passed over without a description, and one whose command cannot
  -- be marshalled is counted and then skipped.
  unfoldable pub build_job : String → String → JobListing → Built → Option JobDetail → Io W Built
  build_job queue id job b none = pure b
  build_job queue id job b (some desc) = do
    let summaries = count_job queue desc.status b.progress.summaries
    timeout ← container_timeout desc.container
    add_job queue id job desc timeout
        (record b { progress = record { known = b.progress.known; summaries = summaries } })
        (command_of desc.container)

  -- The loop over `job_results`.
  unfoldable pub build_jobs : String → Details → Listings → Built → Io W Built
  build_jobs queue details [] b = pure b
  build_jobs queue details ((id, job) ∷ rest) b = do
    b' ← build_job queue id job b (lookup id details)
    build_jobs queue details rest b'

  -- One queue in the loop of `syncJobsStatus`.
  unfoldable pub sync_queue : ℕ → String → String → Progress → Io W Progress
  sync_queue fuel status queue p = do
    listed ← list_pages aws fuel queue status none []
    details ← describe_page aws listed.last_page [] []
    built ← build_jobs queue details listed.job_results (record { jobs = []; progress = p })
    store built.jobs
    pure built.progress

  -- `syncJobsStatus`: its own set of known jobs, over all queues.
  unfoldable pub sync_jobs_status : ℕ → String → List String → Progress → Io W Progress
  sync_jobs_status fuel status [] p = pure p
  sync_jobs_status fuel status (queue ∷ queues) p = do
    p' ← sync_queue fuel status queue p
    sync_jobs_status fuel status queues p'

  -- The loop over the statuses; the known jobs of each are added to those of the round.
  unfoldable pub sync_statuses : ℕ → List String → List String → Progress → Io W Progress
  sync_statuses fuel [] queues p = pure p
  sync_statuses fuel (status ∷ statuses) queues p = do
    q ← sync_jobs_status fuel status queues (record { known = []; summaries = p.summaries })
    sync_statuses fuel statuses queues
        (record { known = insert_all true (keys q.known) p.known; summaries = q.summaries })

  unfoldable pub log_summaries : Summaries → Io W (Unit {0})
  log_summaries [] = pure tt
  log_summaries ((queue, s) ∷ rest) = update_job_summary_log (s ∷ []) >> log_summaries rest

  unfoldable pub sync_jobs : ℕ → List String → Io W (List (String × Bool))
  sync_jobs fuel queues = do
    p ←
        sync_statuses fuel status_list queues
          (record { known = []; summaries = fresh_summaries queues [] })
    log_summaries p.summaries
    pure p.known

  -- `RunSynchronizer`.
  unfoldable pub run_synchronizer : ℕ → List String → Io W (Unit {0})
  run_synchronizer fuel queues = do known ← sync_jobs fuel queues; stale_old_jobs (keys known)

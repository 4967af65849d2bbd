-- ===== src/Lib.antt =====
-- Batchiepatchie keeps the jobs of AWS Batch in a PostgreSQL database. The syncer lists and
-- describes the jobs of each queue and hands them to the store, which writes them, marks as GONE the
-- jobs that AWS has forgotten, and tells the subscribers of the jobs whose status has changed. The
-- scaler sets the minimal vcpus of compute environments, and the killer ends jobs and instances. Two
-- monitors record compute environments and the instances of ECS clusters. The handlers answer the
-- HTTP API from the store, and take notifications of jobs that they hand to it.
--
-- Files and the code that they model:
-- - Prelude: the names of the libraries, and the shared types. Prelude/Int has Go's int64 with its
--   wrap-around, Prelude/Dict maps as association lists, Prelude/Io code with effects: a function of
--   the state of the world that ends in a value, in an error that is returned, in a panic, or out of
--   fuel. Prelude/Text has strconv.Atoi.
-- - Jobs: the records and constants of jobs/jobs.go. Jobs/Json: ArrayProperties.Value and Scan.
-- - Aws: the types of the AWS SDK that the syncer reads, and its services as the parameter Batch.
--   Aws/Paging: the loops over the pages of an answer, which jobs/ writes out each time.
-- - Store, for jobs/postgres_store.go:
--   - Store/Sql: the three truth values of SQL. Store/Db: the tables of migrations/, as lists of rows
--     in a Session, where each call of database/sql takes its error, if any, from the list answers;
--     transaction, strict_transaction and checked_transaction are the three ways in which the code
--     ends a transaction. Store/Transactions: what holds of each.
--   - Store/Upsert: Store up to the flush, with the triggers of migrations/00018_job_status_events.sql.
--   - Store/Stale: StaleOldJobs up to the flush. Store/Calls: both, with the flush: Store/Calls/Told
--     and Store/Calls/Tells on the channels, Store/Calls/Atomic on calls that fail, Store/Calls/Marks on
--     the rows that become GONE.
--   - Store/Queries: FindTimedoutJobs, UpdateJobLogTerminationRequested, FindOne, GetStatus and
--     EstimateRunningLoadByJobQueue. Store/Search: Find with parseSortColumn and searchEscape; its
--     conditions are data, with the numbers of their placeholders, and the characters of two texts
--     are compared by a parameter, as is the order of rows. Store/Stats: JobStats, whose sums are
--     exact and become floats by a parameter when they are scanned; the zone of the session, in which
--     the times of a request are compared, is a parameter.
--   - Store/Instances: UpdateECSInstances, UpdateTaskArnsInstanceIDs, GetAliveEC2Instances and
--     GetStartingStateStuckEC2Instances.
--   - Store/Subscriptions: SubscribeToJobStatus, its unsubscribe, and flushJobStatusSubscriptions.
--   - Store/Queues: ActivateJobQueue, DeactivateJobQueue, ListActiveJobQueues and
--     ListForcedScalingJobQueues. Store/Clean: CleanOldJobs and CleanOldInstanceEventLogs.
--   - Store/Steps: the operations on jobs and events as a step relation.
--   - Store/ChangeLog: UpdateJobSummaryLog and UpdateComputeEnvironmentsLog, over the ORDER BY of the
--     database as a parameter.
--   - Store/Connection: NewPostgreSQLStore.
-- - Syncer, for syncer/batchsync.go: Syncer/Listing has the pages and the batches of syncJobsStatus,
--   Syncer/Convert the jobs.Job made of a description, Syncer/Round the rest of syncJobsStatus,
--   syncJobs and RunSynchronizer, Syncer/Periodic the rounds of RunPeriodicScaler,
--   RunPeriodicSynchronizer and RunPeriodicCleaner.
-- - Jobs/Killer: jobs/killer_handler.go and jobs/timeout_killer.go. Jobs/Scaler: jobs/scaler.go.
--   Jobs/Environments: jobs/compute_environment_monitor.go. Jobs/Clusters:
--   jobs/monitor_ecs_clusters.go.
-- - Env: envsubstituter/envsubstituter.go, over texts as lists of bytes. Config: config/config.go.
-- - Fetcher: fetcher/fetcher.go, with its regular expression for locations on S3. AwsClients:
--   awsclients/awsclients.go; a call of GetS3ClientForBucket is a state between its sections, and
--   calls interleave in AwsClients/Shared. Program: batchiepatchie.go and logentries.go, up to the
--   web server; Program/Paths has path.Join.
-- - Handlers, for handlers/: Handlers itself has the answers from the store and ListAllJobQueues,
--   Handlers/Kill KillMany and KillOne, Handlers/Logs FetchLogs, Handlers/Stats Find and JobStats,
--   Handlers/Notify job_status_notification.go, and Handlers/Socket job_status_subscriptions.go. What
--   a request holds and how an answer is written are the framework's, and parameters.
-- - Tests: the theorems on concrete data.
--
-- Times are nanoseconds since the Unix epoch. The clock of a session stands still during a call.
-- Where Go ranges over a map, the model takes the entries in the order of the list. A channel is a
-- number with a buffer; while a flush sends, nobody reads, so a send into a full buffer ends the
-- flush out of fuel. The other loops on fuel are those over the pages of a listing, of job queues, of
-- compute environments, of tasks and of logs, which need one unit for each page, and the loops of the
-- cluster monitor over batches of 50, whose fuel is the length of the list. A loop that never ends is
-- modelled by any number of its rounds.
--
-- A call of GetS3ClientForBucket alone takes at most five sections, which is its fuel.
--
-- Not modelled: the table of routes and the web server, which are the framework's; input and output,
-- and the AWS SDK, which are parameters; the frontend; logs and tracing spans.
pub mod Prelude
pub mod Jobs
pub mod Aws
pub mod Syncer
pub mod Store
pub mod Env
pub mod AwsClients
pub mod Fetcher
pub mod Config
pub mod Handlers
pub mod Program
pub mod Tests

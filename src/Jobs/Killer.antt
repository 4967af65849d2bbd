-- ===== src/Jobs/Killer.antt =====
-- jobs/killer_handler.go and jobs/timeout_killer.go: the termination of jobs and of instances. The
-- services of AWS and the store are parameters; the logs are left out.
pub mod Laws
use batchiepatchie.Prelude.{String, Option, none, some, List, [], ◌∷◌, ◌⊎◌, inl, inr}
use batchiepatchie.Prelude.Text.{concat}
use batchiepatchie.Prelude.Io.{Io, Error, fail, pure, attempt, ◌>>=◌, ◌>>◌}

-- `TerminateJob` of AWS Batch by job id and reason, and `TerminateInstances` of EC2 for one instance.
pub record Terminator (W : Type 0) : Type 0 where
  pub terminate_job : String → String → Io W (Unit {0})
  pub terminate_instances : List String → Io W (Unit {0})

-- What the killer uses of `jobs.FinderStorer`.
pub record KillStore (W : Type 0) : Type 0 where
  pub find_timedout_jobs : Io W (List String)
  pub update_job_log_termination_requested : String → Io W (Unit {0})

-- `return final_ret`.
abbrev pub finally : {W : Type 0} → Option Error → Io W (Unit {0})
finally none = pure tt
finally (some e) = fail e

-- `final_ret`, after a call.
abbrev pub recorded : Option Error → Unit {0} ⊎ Error → Option Error
recorded final_ret (inl u) = final_ret
recorded final_ret (inr e) = some e

module _ {W : Type 0} (aws : Terminator W) where
  open aws use {terminate_job, terminate_instances}

  unfoldable pub kill_one : KillStore W → String → String → Io W (Unit {0})
  kill_one store job_id reason = do
    terminate_job job_id (concat "Cancelled job from batchiepatchie: " reason)
    store.update_job_log_termination_requested job_id

  -- The loop of `KillInstances`: one call for each instance.
  unfoldable pub kill_each : List String → Option Error → Io W (Unit {0})
  kill_each [] final_ret = finally final_ret
  kill_each (id ∷ ids) final_ret = do
    r ← attempt (terminate_instances (id ∷ []))
    kill_each ids (recorded final_ret r)

  unfoldable pub kill_instances : List String → Io W (Unit {0})
  kill_instances [] = pure tt
  kill_instances (id ∷ ids) = kill_each (id ∷ ids) none

  -- The loop of `KillTimedOutJobs`: the error of a job is only logged.
  unfoldable pub kill_all : KillStore W → List String → Io W (Unit {0})
  kill_all store [] = pure tt
  kill_all store (id ∷ ids) = do attempt (kill_one store id "timeout") >>= λ _. kill_all store ids

  unfoldable pub kill_timed_out_jobs : KillStore W → Io W (Unit {0})
  kill_timed_out_jobs store = do
    timed_out_jobs ← store.find_timedout_jobs
    kill_all store timed_out_jobs

-- ===== src/Syncer/Periodic.antt =====
-- syncer/batchsync.go: the loops that run for ever beside the API, one round of each.
pub mod Alive
use batchiepatchie.Prelude.{ℕ, zero, suc, String, Bool, List, [], ◌⊎◌, inl, inr, if◌then◌else◌}
use batchiepatchie.Prelude.Int.{ℤ}
use batchiepatchie.Prelude.Io.{Io, Error, pure, attempt, ◌>>=◌, ◌>>◌}

-- What the rounds call, and `time.Sleep` for a number of seconds.
pub record Rounds (W : Type 0) : Type 0 where
  pub list_forced_scaling_job_queues : Io W (List String)
  pub list_active_job_queues : Io W (List String)
  pub monitor_ecs_clusters : List String → Io W (Unit {0})
  pub scale_compute_environments : List String → Io W (Unit {0})
  pub monitor_compute_environments : List String → Io W (Unit {0})
  pub kill_timed_out_jobs : Io W (Unit {0})
  pub get_starting_state_stuck_ec2_instances : Io W (List String)
  pub kill_instances : List String → Io W (Unit {0})
  pub run_synchronizer : List String → Io W (Unit {0})
  pub clean_old_jobs : Io W (Unit {0})
  pub clean_old_instance_event_logs : Io W (Unit {0})
  pub sleep : ℤ → Io W (Unit {0})

-- The ids that were read; nil after an error.
abbrev pub read_ids : List String ⊎ Error → List String
read_ids (inl ids) = ids
read_ids (inr e) = []

module _ {W : Type 0} where
  -- An error of a call is only logged.
  abbrev pub logged : Io W (Unit {0}) → Io W (Unit {0})
  logged m = attempt m >>= λ _. pure tt

module _ {W : Type 0} (rounds : Rounds W) where
  open rounds use {
    list_forced_scaling_job_queues, list_active_job_queues, monitor_ecs_clusters,
    scale_compute_environments, monitor_compute_environments, kill_timed_out_jobs,
    get_starting_state_stuck_ec2_instances, kill_instances, run_synchronizer, clean_old_jobs,
    clean_old_instance_event_logs, sleep,
  }

  abbrev pub scale_queues : ℤ → List String ⊎ Error → Io W (Unit {0})
  scale_queues period (inr e) = pure tt
  scale_queues period (inl queues) = do
    logged (monitor_ecs_clusters queues)
    scale_compute_environments queues
    monitor_compute_environments queues
    logged kill_timed_out_jobs
    sleep period

  unfoldable pub scaler_round : ℤ → Io W (Unit {0})
  scaler_round period = attempt list_forced_scaling_job_queues >>= scale_queues period

  unfoldable pub kill_stuck : Io W (Unit {0})
  kill_stuck =
      attempt get_starting_state_stuck_ec2_instances >>= λ r. logged (kill_instances (read_ids r))

  abbrev pub sync_queues : ℤ → List String ⊎ Error → Io W (Unit {0})
  sync_queues period (inr e) = pure tt
  sync_queues period (inl queues) = logged (run_synchronizer queues) >> sleep period

  unfoldable pub synchronizer_round : Bool → ℤ → Io W (Unit {0})
  synchronizer_round kill_stuck_jobs period = do
    (if kill_stuck_jobs then kill_stuck else pure tt)
    attempt list_active_job_queues >>= sync_queues period

  unfoldable pub cleaner_round : ℤ → Io W (Unit {0})
  cleaner_round period =
      logged clean_old_jobs >> logged clean_old_instance_event_logs >> sleep period

-- The first `n` rounds of a loop.
unfoldable pub run_rounds : {W : Type 0} → ℕ → Io W (Unit {0}) → Io W (Unit {0})
run_rounds zero round = pure tt
run_rounds (suc n) round = round >> run_rounds n round

-- ===== src/Tests/Setup.antt =====
-- The theorems about the configuration and the loops, on concrete data.
use batchiepatchie.Prelude.{ℕ, suc, ◌≡◌, refl, Option, none, some, List, [], ◌∷◌, ◌++◌, inl}
use batchiepatchie.Prelude.Int.{pos}
use batchiepatchie.Prelude.Io.{ok, err}
use batchiepatchie.Env.{Bytes, environment_substitute}
use batchiepatchie.Env.Pieces.{Piece, render, unclosed, IsRead, IsReadTail}
use batchiepatchie.Env.Meaning.{expand, environment_substitute_lem}
use batchiepatchie.Config.{
  Config, ConfigService, no_config, read_configuration, basics_ok, assets_ok, with_password,
  substitute_all, checked,
}
use batchiepatchie.Config.Checked.{IsUsable, read_configuration_lem}
use batchiepatchie.Syncer.Periodic.{Rounds}

abbrev value_of : Bytes → Option Bytes
value_of [] = none
value_of (c ∷ s) = some (b'x' ∷ [])

-- a${H}
abbrev subject : Bytes
subject = b'a' ∷ b'$' ∷ b'{' ∷ b'H' ∷ b'}' ∷ []

environment_substitute_example :
    (pieces : List Piece) × (tail : Option Bytes) × (subject ≡ render pieces ++ unclosed tail)
    × IsRead pieces
    × IsReadTail tail
    × (environment_substitute value_of subject ≡ expand value_of [] pieces tail)
environment_substitute_example = environment_substitute_lem value_of subject

abbrev config : Config
config = record no_config {
  port = pos 8080;
  database_host = "db";
  database_port = pos 5432;
  database_username = "batchie";
  database_name = "jobs";
  region = "us-west-2";
  frontend_assets = "local";
}

abbrev config_service : ConfigService ℕ
config_service = record {
  read_all_no_sessions = λ name w. (ok "", w);
  read_all = λ name w. (err "no such file", w);
  open_sessions = λ region w. (ok tt, suc w);
  decode = λ text start. inl config;
  environment_substitute = λ text. inl text;
}

read_configuration_example : IsUsable config
unfolding read_configuration basics_ok assets_ok with_password substitute_all checked
read_configuration_example = read_configuration_lem config_service "conf.toml" 0 refl

-- The world counts the calls; the clusters cannot be read.
abbrev rounds : Rounds ℕ
rounds = record {
  list_forced_scaling_job_queues = λ n. (ok [], suc n);
  list_active_job_queues = λ n. (err "connection reset", suc n);
  monitor_ecs_clusters = λ queues n. (err "throttled", suc n);
  scale_compute_environments = λ queues n. (ok tt, suc n);
  monitor_compute_environments = λ queues n. (ok tt, suc n);
  kill_timed_out_jobs = λ n. (ok tt, suc n);
  get_starting_state_stuck_ec2_instances = λ n. (ok [], suc n);
  kill_instances = λ ids n. (ok tt, suc n);
  run_synchronizer = λ queues n. (ok tt, suc n);
  clean_old_jobs = λ n. (ok tt, suc n);
  clean_old_instance_event_logs = λ n. (ok tt, suc n);
  sleep = λ period n. (ok tt, suc n);
}

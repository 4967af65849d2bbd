-- ===== src/Tests/Collected.antt =====
-- The theorems about instances, clusters and compute environments, on concrete data.
use batchiepatchie.Prelude.{ℕ, String, ◌≡◌, ◌≢◌, refl, arith, Option, none, some, List, [], ◌∷◌}
use batchiepatchie.Prelude.Dict.{lookup}
use batchiepatchie.Prelude.Int.{pos}
use batchiepatchie.Prelude.Io.{ok, pure}
use batchiepatchie.Aws.{EnvironmentDetail}
use batchiepatchie.Aws.Paging.{PageOf, last_served, more_served}
use batchiepatchie.Jobs.{Ec2Info, ComputeEnvironment}
use batchiepatchie.Jobs.Environments.{MonitorService, monitor_compute_environments}
use batchiepatchie.Jobs.Environments.Laws.{EntriesOf, logged, monitor_compute_environments_lem}
use batchiepatchie.Jobs.Clusters.{ArnInfo, Found, add_containers}
use batchiepatchie.Jobs.Clusters.Joins.{containers, placed, add_containers_lem}
use batchiepatchie.Store.Instances.{update_ecs_instances, update_task_arns_instance_ids}
use batchiepatchie.Store.Instances.Seen.{find_instance, seen}
use batchiepatchie.Store.Instances.Update.{update_ecs_instances_lem}
use batchiepatchie.Store.Instances.Tasks.{no_public_ip_fails}
use batchiepatchie.Tests.{later, failing}

abbrev info : Ec2Info
info = record {
  private_ip = some "10.0.0.1";
  public_ip = none;
  ami = "ami";
  compute_environment_arn = "arn:spot";
  ecs_cluster_arn = "arn:cluster";
  availability_zone = "us-west-2a";
  spot_instance_request_id = none;
  instance_type = "c5.large";
  launched_at = none;
}

update_ecs_instances_example :
    let (r, t) = update_ecs_instances (("i-1", info) ∷ []) (("i-1", "task" ∷ []) ∷ []) later in
    (r ≡ ok tt) × (find_instance "i-1" t.db.instances ≡ seen later.now "i-1" (some info) none)
unfolding lookup find_instance
update_ecs_instances_example =
    update_ecs_instances_lem (("i-1", info) ∷ []) (("i-1", "task" ∷ []) ∷ []) later "i-1" refl
      (refl, tt) tt

no_public_ip_example :
    ((update_task_arns_instance_ids (("i-1", info) ∷ []) (("task", "i-1") ∷ []) failing).1.db
      ≡ failing.db)
    × ((update_task_arns_instance_ids (("i-1", info) ∷ []) (("task", "i-1") ∷ []) failing).0
        ≢ ok tt)
unfolding lookup
no_public_ip_example =
    no_public_ip_fails (("i-1", info) ∷ []) [] [] "task" "i-1" info failing refl refl

abbrev cluster : ArnInfo
cluster = record { ecs_cluster_arn = "arn:cluster"; compute_environment_arn = "arn:spot" }

abbrev nothing_found : Found
nothing_found = record { task_ec2 = []; instances = []; tasks_per = [] }

add_containers_example :
    (found : Found) × (add_containers {W = ℕ} cluster
        (("task", "c-1") ∷ ("other", "c-2") ∷ [])
        (containers (("c-1", "i-1") ∷ []))
        nothing_found
        0
      ≡ (ok found, 0))
    × ((task : String)
        → lookup task found.task_ec2
          ≡ placed
              (lookup task (("task", "c-1") ∷ ("other", "c-2") ∷ []))
              (("c-1", "i-1") ∷ [])
              none)
unfolding lookup
add_containers_example =
    add_containers_lem {W = ℕ} cluster (("task", "c-1") ∷ ("other", "c-2") ∷ [])
      (("c-1", "i-1") ∷ []) nothing_found 0 (refl, (refl, tt))

abbrev environment : String → EnvironmentDetail
environment name = record {
  status = some "VALID";
  state = some "ENABLED";
  compute_resources =
      some (record {
        desired_vcpus = some (pos 2);
        max_vcpus = some (pos 8);
        min_vcpus = some (pos 0);
      });
  compute_environment_name = some name;
  compute_environment_arn = some "arn:spot";
  service_role = some "role";
  ecs_cluster_arn = some "arn:cluster";
}

abbrev page_of : Option String → PageOf EnvironmentDetail
page_of none = record { items = environment "spot" ∷ []; next_token = some "2" }
page_of (some token) = record { items = environment "demand" ∷ []; next_token = none }

-- The world is what was logged.
abbrev monitor : MonitorService (List ComputeEnvironment)
monitor = record {
  describe_compute_environments = λ size token. pure (page_of token);
  update_compute_environments_log = λ environments w. (ok tt, environments);
}

monitor_compute_environments_example :
    (entries : List ComputeEnvironment) × EntriesOf
      (environment "spot" ∷ environment "demand" ∷ [])
      entries
    × (monitor_compute_environments monitor 2 ("gpu" ∷ []) [] ≡ logged (ok tt, entries))
monitor_compute_environments_example =
    monitor_compute_environments_lem monitor 2 "gpu" [] (more_served refl (last_served refl))
      (omega arith)

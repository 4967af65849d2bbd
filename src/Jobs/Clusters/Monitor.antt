-- ===== src/Jobs/Clusters/Monitor.antt =====
-- jobs/monitor_ecs_clusters.go: `MonitorECSClusters`, over the services of AWS and the store.
use batchiepatchie.Prelude.{ℕ, String, Option, none, some, List, [], ◌∷◌, ◌⊎◌, inl, inr, length}
use batchiepatchie.Prelude.Dict.{insert, keys, insert_all}
use batchiepatchie.Prelude.Io.{Io, Error, pure, fail, attempt, ◌>>=◌}
use batchiepatchie.Aws.{JobQueueDetail, EnvironmentDetail}
use batchiepatchie.Aws.Paging.{PageOf, read_pages}
use batchiepatchie.Jobs.{Ec2Info}
use batchiepatchie.Jobs.Clusters.{
  TaskDetail, ContainerInstance, Ec2Instance, Texts, ArnInfo, Found, environments_of, clusters_of,
  deref_all, add_task_descs, add_containers, add_reservations, by_fifty,
}

-- What the monitor uses of AWS and of the store.
pub record ClusterService (W : Type 0) : Type 0 where
  pub describe_job_queues : List String → Io W (List JobQueueDetail)
  pub describe_compute_environments : List String → Io W (List EnvironmentDetail)
  pub list_tasks : String → Option String → Io W (PageOf (Option String))
  pub describe_tasks : String → List String → Io W (List TaskDetail)
  pub list_container_instances : String → Option String → Io W (PageOf (Option String))
  pub describe_container_instances : String → List String → Io W (List ContainerInstance)
  pub describe_instances : List String → Io W (List (List Ec2Instance))
  pub update_task_arns_instance_ids : List (String × Ec2Info) → Texts → Io W (Unit {0})
  pub update_ecs_instances : List (String × Ec2Info) → List (String × List String) → Io W (Unit {0})

abbrev pub add_arns : List (Option String) → List (String × Unit {0}) → List (String × Unit {0})
add_arns [] m = m
add_arns (none ∷ os) m = add_arns os m
add_arns (some arn ∷ os) m = add_arns os (insert arn tt m)

abbrev pub values : Texts → List String
values [] = []
values ((k, v) ∷ m) = v ∷ values m

module _ {W : Type 0} (service : ClusterService W) where
  open service use {
    describe_job_queues, describe_compute_environments, list_tasks, describe_tasks,
    list_container_instances, describe_container_instances, describe_instances,
    update_task_arns_instance_ids, update_ecs_instances,
  }

  -- One page of tasks: they are described unless there are none.
  abbrev pub describe_listed : String → List String → Texts → Io W Texts
  describe_listed cluster [] m = pure m
  describe_listed cluster (arn ∷ arns) m =
      describe_tasks cluster (arn ∷ arns) >>= λ descs. add_task_descs descs m

  unfoldable pub task_page : String → Texts → List (Option String) → Io W Texts
  task_page cluster m items = deref_all items >>= λ arns. describe_listed cluster arns m

  -- One cluster of the loop over `ecs_clusters`.
  unfoldable pub read_cluster : ℕ → String → String → Found → Io W Found
  read_cluster fuel cluster ce found = do
    tasks ← read_pages (list_tasks cluster) fuel (task_page cluster) none []
    listed ←
        read_pages (list_container_instances cluster) fuel (λ m items. pure (add_arns items m)) none
          []
    let arns = keys (insert_all tt (values tasks) listed)
    let info : ArnInfo = record { ecs_cluster_arn = cluster; compute_environment_arn = ce }
    by_fifty (length arns)
        (λ batch found'. describe_container_instances cluster batch >>= λ descs.
          add_containers info tasks descs found')
        arns found

  unfoldable pub read_clusters : ℕ → Texts → Found → Io W Found
  read_clusters fuel [] found = pure found
  read_clusters fuel ((cluster, ce) ∷ rest) found =
      read_cluster fuel cluster ce found >>= read_clusters fuel rest

  -- The two updates of the store are both made; the error of the first is the one returned.
  abbrev pub first_error : Unit {0} ⊎ Error → Unit {0} ⊎ Error → Io W (Unit {0})
  first_error (inr e) r = fail e
  first_error (inl u) (inr e) = fail e
  first_error (inl u) (inl v) = pure tt

  unfoldable pub update_store : List (String × Ec2Info) → Found → Io W (Unit {0})
  update_store infos found = do
    r ← attempt (update_task_arns_instance_ids infos found.task_ec2)
    r' ← attempt (update_ecs_instances infos found.tasks_per)
    first_error r r'

  -- `MonitorECSClusters`, on fuel for the pages.
  unfoldable pub monitor_ecs_clusters : ℕ → List String → Io W (Unit {0})
  monitor_ecs_clusters fuel queues = do
    queue_descs ← describe_job_queues queues
    environments ← environments_of queue_descs []
    environment_descs ← describe_compute_environments (keys environments)
    clusters ← clusters_of environment_descs []
    found ← read_clusters fuel clusters (record { task_ec2 = []; instances = []; tasks_per = [] })
    let ids = keys found.instances
    infos ←
        by_fifty (length ids)
          (λ batch m. describe_instances batch >>= λ rs. add_reservations found.instances rs m) ids
          []
    update_store infos found

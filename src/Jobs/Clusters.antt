-- ===== src/Jobs/Clusters.antt =====
-- jobs/monitor_ecs_clusters.go: which instances serve the queues, and which tasks run on them. The
-- services of AWS and the store are parameters; the logs are left out. Where Go ranges over a map
-- in an order of its own, the model goes through the entries in the order of the list.
pub mod Joins
pub mod Batches
pub mod Monitor
use batchiepatchie.Prelude.{
  ℕ, zero, suc, String, Option, none, some, List, [], ◌∷◌, ◌++◌, ◌==◌, ◌⊎◌, inl, inr, take, drop,
  length, if◌then◌else◌,
}
use batchiepatchie.Prelude.Dict.{lookup, insert, keys, insert_all}
use batchiepatchie.Prelude.Io.{Io, Error, pure, fail, deref, attempt, out_of_fuel, ◌>>=◌, ◌>>◌}
use batchiepatchie.Aws.{JobQueueDetail, EnvironmentDetail}
use batchiepatchie.Aws.Paging.{PageOf, read_pages}
use batchiepatchie.Jobs.{Time, Ec2Info}

-- ecs.Task.
pub record TaskDetail : Type 0 where
  pub task_arn : Option String
  pub container_instance_arn : Option String

-- ecs.ContainerInstance.
pub record ContainerInstance : Type 0 where
  pub container_instance_arn : Option String
  pub ec2_instance_id : Option String

-- ec2.Instance; the zone is nil also where `Placement` is.
pub record Ec2Instance : Type 0 where
  pub instance_id : Option String
  pub public_ip_address : Option String
  pub private_ip_address : Option String
  pub image_id : Option String
  pub availability_zone : Option String
  pub spot_instance_request_id : Option String
  pub instance_type : Option String
  pub launch_time : Option Time

abbrev pub Texts : Type 0
Texts = List (String × String)

pub record ArnInfo : Type 0 where
  pub ecs_cluster_arn : String
  pub compute_environment_arn : String

-- `task_ec2_mapping`, `ec2instances_set` and `tasks_per_ec2instance`.
pub record Found : Type 0 where
  pub task_ec2 : Texts
  pub instances : List (String × ArnInfo)
  pub tasks_per : List (String × List String)

abbrev pub with_task : String → Option (List String) → List String
with_task task none = task ∷ []
with_task task (some tasks) = tasks ++ task ∷ []

-- `append(lst, task_arn)`, under the key of an instance.
abbrev pub add_task : String → String → List (String × List String) → List (String × List String)
add_task instance task m = insert instance (with_task task (lookup instance m)) m

abbrev pub or_empty : Option String → String
or_empty none = ""
or_empty (some s) = s

abbrev pub cluster_of : Option ArnInfo → String
cluster_of none = ""
cluster_of (some info) = info.ecs_cluster_arn

abbrev pub environment_of : Option ArnInfo → String
environment_of none = ""
environment_of (some info) = info.compute_environment_arn

-- The `Ec2Info` of a described instance.
unfoldable pub ec2_info : List (String × ArnInfo) → Ec2Instance → Ec2Info
ec2_info instances i =
    let info = lookup (or_empty i.instance_id) instances in
    record {
      private_ip = i.private_ip_address;
      public_ip = i.public_ip_address;
      ami = or_empty i.image_id;
      compute_environment_arn = environment_of info;
      ecs_cluster_arn = cluster_of info;
      availability_zone = or_empty i.availability_zone;
      spot_instance_request_id = i.spot_instance_request_id;
      instance_type = or_empty i.instance_type;
      launched_at = i.launch_time;
    }

-- The instance itself, with an empty list of tasks if it has none.
abbrev pub add_instance : ArnInfo → Option String → Found → Found
add_instance info none found = found
add_instance info (some instance) found = record {
  task_ec2 = found.task_ec2;
  instances = insert instance info found.instances;
  tasks_per = elim (lookup instance found.tasks_per) [
    | none ↦ insert instance [] found.tasks_per
    | some tasks ↦ found.tasks_per
  ];
}

module _ {W : Type 0} where
  -- The compute environments of the queues, as a set.
  unfoldable pub add_order :
      List (Option String) → List (String × Unit {0}) → Io W (List (String × Unit {0}))
  add_order [] m = pure m
  add_order (ce ∷ ces) m = do name ← deref ce; add_order ces (insert name tt m)

  unfoldable pub environments_of :
      List JobQueueDetail → List (String × Unit {0}) → Io W (List (String × Unit {0}))
  environments_of [] m = pure m
  environments_of (d ∷ ds) m = add_order d.compute_environment_order m >>= environments_of ds

  -- `ecs_clusters`: the environment of each cluster.
  abbrev pub add_cluster : Option String → Option String → Texts → Io W Texts
  add_cluster none arn m = pure m
  add_cluster (some cluster) arn m = deref arn >>= λ ce. pure (insert cluster ce m)

  unfoldable pub clusters_of : List EnvironmentDetail → Texts → Io W Texts
  clusters_of [] m = pure m
  clusters_of (d ∷ ds) m =
      add_cluster d.ecs_cluster_arn d.compute_environment_arn m >>= clusters_of ds

  unfoldable pub deref_all : List (Option String) → Io W (List String)
  deref_all [] = pure []
  deref_all (o ∷ os) = do s ← deref o; rest ← deref_all os; pure (s ∷ rest)

  unfoldable pub add_task_descs : List TaskDetail → Texts → Io W Texts
  add_task_descs [] m = pure m
  add_task_descs (d ∷ ds) m = do
    task ← deref d.task_arn
    container ← deref d.container_instance_arn
    add_task_descs ds (insert task container m)

  -- The loop over `task_mapping` for one container instance: its tasks, under its EC2 instance.
  unfoldable pub join_tasks : Texts → ContainerInstance → Found → Io W Found
  join_tasks [] desc found = pure found
  join_tasks ((task, container) ∷ rest) desc found = do
    arn ← deref desc.container_instance_arn
    let add = deref desc.ec2_instance_id >>= λ instance. join_tasks rest desc (record {
      task_ec2 = insert task instance found.task_ec2;
      instances = found.instances;
      tasks_per = add_task instance task found.tasks_per;
    })
    let skip = join_tasks rest desc found
    if container == arn then add else skip

  unfoldable pub add_containers : ArnInfo → Texts → List ContainerInstance → Found → Io W Found
  add_containers info tasks [] found = pure found
  add_containers info tasks (desc ∷ descs) found = do
    found' ← join_tasks tasks desc found
    add_containers info tasks descs (add_instance info desc.ec2_instance_id found')

  -- The loops over the instances of the reservations.
  unfoldable pub add_described :
      List (String × ArnInfo)
      → List Ec2Instance
      → List (String × Ec2Info)
      → Io W (List (String × Ec2Info))
  add_described instances [] m = pure m
  add_described instances (i ∷ is) m = do
    id ← deref i.instance_id
    add_described instances is (insert id (ec2_info instances i) m)

  unfoldable pub add_reservations :
      List (String × ArnInfo)
      → List (List Ec2Instance)
      → List (String × Ec2Info)
      → Io W (List (String × Ec2Info))
  add_reservations instances [] m = pure m
  add_reservations instances (r ∷ rs) m =
      add_described instances r m >>= add_reservations instances rs

  -- A loop with a cursor that goes up by 50, on fuel: a call for each 50 of a list.
  unfoldable pub by_fifty : {S : Type 0} → ℕ → (List String → S → Io W S) → List String → S → Io W S
  by_fifty fuel call [] s = pure s
  by_fifty zero call (x ∷ xs) s = out_of_fuel
  by_fifty (suc fuel) call (x ∷ xs) s = do
    s' ← call (take 50 (x ∷ xs)) s
    by_fifty fuel call (drop 50 (x ∷ xs)) s'

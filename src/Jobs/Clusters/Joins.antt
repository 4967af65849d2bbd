-- ===== src/Jobs/Clusters/Joins.antt =====
-- How jobs/monitor_ecs_clusters.go joins the tasks of a cluster with its instances.
use batchiepatchie.Prelude.{
  String, ◌≡◌, refl, ◌∙◌, ap, true, false, Option, none, some, List, [], ◌∷◌, ◌==◌, eq_iff,
  if◌then◌else◌, Bool-cases, inl, inr,
}
use batchiepatchie.Prelude.Dict.{
  member, Distinct, lookup, keys, insert, lookup-insert, lookup-absent,
}
use batchiepatchie.Prelude.Io.{ok}
use batchiepatchie.Jobs.Clusters.{
  ContainerInstance, Texts, ArnInfo, Found, add_task, join_tasks, add_instance, add_containers,
}

-- A container instance with nothing nil.
abbrev pub container : String × String → ContainerInstance
container (arn, instance) = record {
  container_instance_arn = some arn;
  ec2_instance_id = some instance;
}

abbrev pub containers : List (String × String) → List ContainerInstance
containers [] = []
containers (c ∷ cs) = container c ∷ containers cs

-- The instance of the last container of a list with an ARN, or what there was before.
unfoldable pub instance_at : String → List (String × String) → Option String → Option String
instance_at arn [] old = old
instance_at arn ((a, instance) ∷ cs) old =
    instance_at arn cs (if arn == a then some instance else old)

-- A task is placed where its container is.
abbrev pub placed : Option String → List (String × String) → Option String → Option String
placed none cs old = old
placed (some arn) cs old = instance_at arn cs old

joined_task :
    (task t c arn instance : String) (rest : Texts) (old : Option String)
    → member t (keys rest) ≡ false
    → (c == arn) ≡ true
    → (found : Found) → old ≡ lookup task found.task_ec2
    → placed
        (lookup task rest)
        ((arn, instance) ∷ [])
        (lookup task (insert t instance found.task_ec2))
      ≡ placed (if t == task then some c else lookup task rest) ((arn, instance) ∷ []) old
unfolding instance_at
joined_task task t c arn instance rest old d e found o =
    rw (lookup-insert t task instance found.task_ec2, ← o)
      (elim (Bool-cases (t == task)) [
        | inl m ↦
            let same : t ≡ task = (eq_iff t task).0 m in
            rw m (rw (lookup-absent task rest (rw same at d), e))
        | inr m ↦ rw m
      ])

skipped_task :
    (task t c arn instance : String) (rest : Texts) (old : Option String)
    → member t (keys rest) ≡ false
    → (c == arn) ≡ false
    → placed (lookup task rest) ((arn, instance) ∷ []) old
      ≡ placed (if t == task then some c else lookup task rest) ((arn, instance) ∷ []) old
unfolding instance_at
skipped_task task t c arn instance rest old d e = elim (Bool-cases (t == task)) [
  | inl m ↦
      let same : t ≡ task = (eq_iff t task).0 m in
      rw m (rw (lookup-absent task rest (rw same at d), e))
  | inr m ↦ rw m
]

placed_nil : (o old : Option String) → old ≡ placed o [] old
unfolding instance_at
placed_nil none old = refl
placed_nil (some c) old = refl

placed_cons :
    (o : Option String) (arn instance : String) (cs : List (String × String)) (old : Option String)
    → placed o cs (placed o ((arn, instance) ∷ []) old) ≡ placed o ((arn, instance) ∷ cs) old
unfolding instance_at
placed_cons none arn instance cs old = refl
placed_cons (some c) arn instance cs old = refl

module _ {W : Type 0} where
  join_tasks_lem :
      (tasks : Texts) (arn instance : String) (found : Found) (w : W)
      → Distinct (keys tasks)
      → (found' : Found) × (join_tasks tasks (container (arn, instance)) found w ≡ (ok found', w))
        × ((task : String)
            → lookup task found'.task_ec2
              ≡ placed (lookup task tasks) ((arn, instance) ∷ []) (lookup task found.task_ec2))
  unfolding join_tasks lookup instance_at
  join_tasks_lem [] arn instance found w d = (found, refl, λ task. refl)
  join_tasks_lem ((t, c) ∷ rest) arn instance found w d = elim (Bool-cases (c == arn)) [
    | inl e ↦
        let added : Found = record {
          task_ec2 = insert t instance found.task_ec2;
          instances = found.instances;
          tasks_per = add_task instance t found.tasks_per;
        } in
        let (found', p, q) = join_tasks_lem rest arn instance added w d.1 in
        (
          found',
          rw e p,
          λ task.
              q task
              ∙ joined_task task t c arn instance rest (lookup task found.task_ec2) d.0 e found
                  refl,
        )
    | inr e ↦
        let (found', p, q) = join_tasks_lem rest arn instance found w d.1 in
        (
          found',
          rw e p,
          λ task.
              q task ∙ skipped_task task t c arn instance rest (lookup task found.task_ec2) d.0 e,
        )
  ]

  -- For tasks with their containers and for described containers with nothing nil, each task is
  -- placed on the instance of its container, and a task whose container is not described, or that
  -- is not listed, stays where it was.
  pub add_containers_lem :
      (info : ArnInfo) (tasks : Texts) (cs : List (String × String)) (found : Found) (w : W)
      → Distinct (keys tasks)
      → (found' : Found) × (add_containers info tasks (containers cs) found w ≡ (ok found', w))
        × ((task : String)
            → lookup task found'.task_ec2
              ≡ placed (lookup task tasks) cs (lookup task found.task_ec2))
  unfolding add_containers instance_at
  add_containers_lem info tasks [] found w d =
      (found, refl, λ task. placed_nil (lookup task tasks) (lookup task found.task_ec2))
  add_containers_lem info tasks ((arn, instance) ∷ cs) found w d =
      let (joined, p, q) = join_tasks_lem tasks arn instance found w d in
      let next = add_instance info (some instance) joined in
      let (found', p', q') = add_containers_lem info tasks cs next w d in
      (
        found',
        rw (p, p'),
        λ task.
            q' task
            ∙ ap (placed (lookup task tasks) cs) (q task)
            ∙ placed_cons (lookup task tasks) arn instance cs (lookup task found.task_ec2),
      )

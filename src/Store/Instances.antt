-- ===== src/Store/Instances.antt =====
-- jobs/postgres_store.go: what the store knows of instances, and of the tasks that run on them.
pub mod Seen
pub mod Stuck
pub mod Update
pub mod Tasks
use batchiepatchie.Prelude.{
  ℕ, ◌+◌, String, Bool, true, false, not, ◌&&◌, ◌||◌, Option, none, some, List, [], ◌∷◌, ◌++◌, ◌==◌,
  if◌then◌else◌, ltb, eqb,
}
use batchiepatchie.Prelude.Dict.{member, lookup, delete, keys, insert_all}
use batchiepatchie.Prelude.Io.{Io, pure, fail, ◌>>=◌, ◌>>◌}
use batchiepatchie.Jobs.{Time, Ec2Info}
use batchiepatchie.Store.Db.{
  JobRow, TaskRow, InstanceRow, InstanceEventRow, Db, Session, call, query, exec, transaction,
}

abbrev pub add_once : String → List String → List String
add_once k ks = if member k ks then ks else k ∷ ks

-- `SELECT DISTINCT instance_id FROM instances WHERE disappeared_at is null`.
unfoldable pub alive_ids : List InstanceRow → List String
alive_ids [] = []
alive_ids (row ∷ rows) = elim row.disappeared_at [
  | none ↦ add_once row.instance_id (alive_ids rows)
  | some t ↦ alive_ids rows
]

unfoldable pub get_alive_ec2_instances : Io Session (List String)
get_alive_ec2_instances = query (λ _ db. alive_ids db.instances)

-- 600 seconds, in nanoseconds.
abbrev pub stuck_after : Time
stuck_after = 600000000000

-- `(now() - last_updated) > '600 seconds' AND status = 'STARTING'`.
unfoldable pub is_stuck : Time → JobRow → Bool
is_stuck now row = ltb (row.last_updated + stuck_after) now && (row.status == "STARTING")

-- The instances of a task, added to those found so far; a NULL task joins with nothing.
unfoldable pub add_instances_of : Option String → List TaskRow → List String → List String
add_instances_of none tasks found = found
add_instances_of (some arn) [] found = found
add_instances_of (some arn) (t ∷ ts) found =
    let rest = add_instances_of (some arn) ts found in
    if t.task_arn == arn then add_once t.instance_id rest else rest

unfoldable pub stuck_ids : Time → List TaskRow → List JobRow → List String
stuck_ids now tasks [] = []
stuck_ids now tasks (row ∷ rows) =
    let rest = stuck_ids now tasks rows in
    if is_stuck now row then add_instances_of row.task_arn tasks rest else rest

unfoldable pub get_starting_state_stuck_ec2_instances : Io Session (List String)
get_starting_state_stuck_ec2_instances = query (λ now db. stuck_ids now db.task_arns db.jobs)

abbrev pub earlier : Time → Time → Time
earlier a b = if ltb b a then b else a

-- `insert into instances ... on conflict (instance_id) do update set ...`.
unfoldable pub upsert_instance : Time → String → Ec2Info → List InstanceRow → List InstanceRow
upsert_instance now id info [] =
    record { appeared_at = now; disappeared_at = none; instance_id = id; info = info } ∷ []
upsert_instance now id info (row ∷ rows) =
    if row.instance_id == id
    then record {
      appeared_at = earlier now row.appeared_at;
      disappeared_at = none;
      instance_id = row.instance_id;
      info = info;
    }
      ∷ rows
    else row ∷ upsert_instance now id info rows

-- `insert into instance_event_log ... on conflict do nothing`: the key is the time and the instance.
unfoldable pub add_event_row :
    Time → String → List String → List InstanceEventRow → List InstanceEventRow
add_event_row now id tasks [] =
    record { timestamp = now; instance_id = id; active_jobs = tasks } ∷ []
add_event_row now id tasks (row ∷ rows) =
    if eqb row.timestamp now && (row.instance_id == id)
    then row ∷ rows
    else row ∷ add_event_row now id tasks rows

-- `update instances set disappeared_at = now() WHERE instance_id = $1`.
unfoldable pub mark_gone : Time → String → List InstanceRow → List InstanceRow
mark_gone now id [] = []
mark_gone now id (row ∷ rows) =
    (if row.instance_id == id then record row { disappeared_at = some now } else row)
    ∷ mark_gone now id rows

-- The loop over `ec2info`; its result is what is left of `alive_instances_set`.
unfoldable pub upsert_each :
    List (String × Ec2Info) → List (String × Unit {0}) → Io Session (List (String × Unit {0}))
upsert_each [] alive = pure alive
upsert_each ((id, info) ∷ rest) alive =
    exec (λ now db. record db { instances = upsert_instance now id info db.instances })
    >> upsert_each rest (delete id alive)

unfoldable pub log_each_instance : List (String × List String) → Io Session (Unit {0})
log_each_instance [] = pure tt
log_each_instance ((id, tasks) ∷ rest) =
    exec (λ now db. record db {
      instance_event_log = add_event_row now id tasks db.instance_event_log;
    })
    >> log_each_instance rest

unfoldable pub mark_each : List (String × Unit {0}) → Io Session (Unit {0})
mark_each [] = pure tt
mark_each ((id, u) ∷ rest) =
    exec (λ now db. record db { instances = mark_gone now id db.instances }) >> mark_each rest

unfoldable pub update_ecs_instances :
    List (String × Ec2Info) → List (String × List String) → Io Session (Unit {0})
update_ecs_instances infos tasks_per = do
  alive ← get_alive_ec2_instances
  transaction (
      upsert_each infos (insert_all tt alive []) >>= λ left.
      log_each_instance tasks_per >> mark_each left)

-- The key of `task_arns_to_instance_info` is the task and the instance.
unfoldable pub add_task_row : TaskRow → List TaskRow → List TaskRow
add_task_row t [] = t ∷ []
add_task_row t (row ∷ rows) =
    if (row.task_arn == t.task_arn) && (row.instance_id == t.instance_id)
    then row ∷ rows
    else row ∷ add_task_row t rows

-- `INSERT ... ON CONFLICT DO NOTHING`, into columns that are NOT NULL.
unfoldable pub insert_task : String → String → Option String → Option String → Io Session (Unit {0})
insert_task task instance none private_ip = call >> fail "null value in column \"public_ip\""
insert_task task instance (some public_ip) none = call >> fail "null value in column \"private_ip\""
insert_task task instance (some public_ip) (some private_ip) = exec (λ _ db. record db {
  task_arns =
      add_task_row
        (record {
          task_arn = task;
          instance_id = instance;
          public_ip = public_ip;
          private_ip = private_ip;
        })
        db.task_arns;
})

abbrev pub insert_known_task : String → String → Option Ec2Info → Io Session (Unit {0})
insert_known_task task instance none = pure tt
insert_known_task task instance (some info) =
    insert_task task instance info.public_ip info.private_ip

-- The loop over `task_ec2_mapping`: an instance without information is passed over.
unfoldable pub insert_tasks :
    List (String × Ec2Info) → List (String × String) → Io Session (Unit {0})
insert_tasks infos [] = pure tt
insert_tasks infos ((task, instance) ∷ rest) =
    insert_known_task task instance (lookup instance infos) >> insert_tasks infos rest

unfoldable pub update_task_arns_instance_ids :
    List (String × Ec2Info) → List (String × String) → Io Session (Unit {0})
update_task_arns_instance_ids infos mapping = transaction (insert_tasks infos mapping)

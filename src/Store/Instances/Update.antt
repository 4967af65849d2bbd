-- ===== src/Store/Instances/Update.antt =====
-- `UpdateECSInstances` of jobs/postgres_store.go as a whole.
use batchiepatchie.Prelude.{
  String, ◌≡◌, refl, ◌∙◌, not, ◌&&◌, Option, none, some, List, [], ◌∷◌, arith, if◌then◌else◌,
  Option-cases, inl, inr,
}
use batchiepatchie.Prelude.Dict.{
  member, Distinct, lookup, delete, keys, insert_all, member-keys-insert_all, is_some,
  member-lookup,
}
use batchiepatchie.Prelude.Io.{ok, ◌>>=◌, ◌>>◌}
use batchiepatchie.Jobs.{Time, Ec2Info}
use batchiepatchie.Store.Db.{InstanceRow, InstanceEventRow, Db, Session}
use batchiepatchie.Store.Transactions.{
  NoFaults, query-NoFaults, exec-NoFaults, transaction-NoFaults,
}
use batchiepatchie.Store.Instances.{
  alive_ids, get_alive_ec2_instances, upsert_instance, add_event_row, mark_gone, upsert_each,
  log_each_instance, mark_each, update_ecs_instances,
}
use batchiepatchie.Store.Instances.Seen.{
  find_instance, instance_ids, seen, upsert_all_instances, with_info, find_instance-upsert_all,
  mark_all, gone_at, find_instance-mark_all, is_alive, member-alive_ids, left_alive,
  member-left_alive,
}

upsert_each-NoFaults :
    (infos : List (String × Ec2Info)) (alive : List (String × Unit {0})) (s : Session)
    → NoFaults s
    → upsert_each infos alive s ≡ (
      ok (left_alive infos alive),
      record s {
        db = record (s.db) { instances = upsert_all_instances s.now infos s.db.instances };
      },
    )
unfolding upsert_each left_alive upsert_all_instances
upsert_each-NoFaults [] alive s h = refl
upsert_each-NoFaults ((id, info) ∷ rest) alive s h =
    let change : Time → Db → Db =
      λ now db. record db { instances = upsert_instance now id info db.instances } in
    rw (exec-NoFaults change s h)
      (upsert_each-NoFaults rest (delete id alive) (record s { db = change s.now s.db }) h)

unfoldable pub event_rows :
    Time → List (String × List String) → List InstanceEventRow → List InstanceEventRow
event_rows now [] rows = rows
event_rows now ((id, tasks) ∷ rest) rows = event_rows now rest (add_event_row now id tasks rows)

log_each_instance-NoFaults :
    (tasks_per : List (String × List String)) (s : Session)
    → NoFaults s
    → log_each_instance tasks_per s ≡ (
      ok tt,
      record s {
        db = record (s.db) {
          instance_event_log = event_rows s.now tasks_per s.db.instance_event_log;
        };
      },
    )
unfolding log_each_instance event_rows
log_each_instance-NoFaults [] s h = refl
log_each_instance-NoFaults ((id, tasks) ∷ rest) s h =
    let change : Time → Db → Db = λ now db. record db {
      instance_event_log = add_event_row now id tasks db.instance_event_log;
    } in
    rw (exec-NoFaults change s h)
      (log_each_instance-NoFaults rest (record s { db = change s.now s.db }) h)

mark_each-NoFaults :
    (left : List (String × Unit {0})) (s : Session)
    → NoFaults s
    → mark_each left s ≡ (
      ok tt,
      record s { db = record (s.db) { instances = mark_all s.now (keys left) s.db.instances } },
    )
unfolding mark_each mark_all
mark_each-NoFaults [] s h = refl
mark_each-NoFaults ((id, u) ∷ rest) s h =
    let change : Time → Db → Db =
      λ now db. record db { instances = mark_gone now id db.instances } in
    rw (exec-NoFaults change s h) (mark_each-NoFaults rest (record s { db = change s.now s.db }) h)

-- The tables after an update.
abbrev pub updated : List (String × Ec2Info) → List (String × List String) → Session → Db
updated infos tasks_per s =
    let left = left_alive infos (insert_all tt (alive_ids s.db.instances) []) in
    record (s.db) {
      instances = mark_all s.now (keys left) (upsert_all_instances s.now infos s.db.instances);
      instance_event_log = event_rows s.now tasks_per s.db.instance_event_log;
    }

update-NoFaults :
    (infos : List (String × Ec2Info)) (tasks_per : List (String × List String)) (s : Session)
    → NoFaults s
    → update_ecs_instances infos tasks_per s ≡ (ok tt, record s { db = updated infos tasks_per s })
unfolding update_ecs_instances get_alive_ec2_instances
update-NoFaults infos tasks_per s h =
    rw (query-NoFaults (λ _ db. alive_ids db.instances) s h)
      (transaction-NoFaults _ s _ tt h body h)
  where
    alive : List (String × Unit {0})
    alive = insert_all tt (alive_ids s.db.instances) []

    s₁ : Session
    s₁ = record s {
      db = record (s.db) { instances = upsert_all_instances s.now infos s.db.instances };
    }

    s₂ : Session
    s₂ = record s₁ {
      db = record (s₁.db) {
        instance_event_log = event_rows s.now tasks_per s.db.instance_event_log;
      };
    }

    body :
        (upsert_each infos alive >>= λ left. log_each_instance tasks_per >> mark_each left) s
        ≡ (ok tt, record s { db = updated infos tasks_per s })
    body = rw (upsert_each-NoFaults infos alive s h) (
        rw (log_each_instance-NoFaults tasks_per s₁ h)
          (mark_each-NoFaults (left_alive infos alive) s₂ h))

-- A row that is to be marked, or not.
left_or_met :
    (now : Time) (k : String) (o : Option Ec2Info) (old : Option InstanceRow)
    → (if is_alive old && not (is_some o)
        then gone_at now (with_info now k o old)
        else with_info now k o old)
      ≡ seen now k o old
left_or_met now k none none = refl
left_or_met now k none (some row) = elim (Option-cases row.disappeared_at) [
  | inl n ↦ simp n refl
  | inr (t, n) ↦ simp n refl
]
left_or_met now k (some info) none = refl
left_or_met now k (some info) (some row) = ground arith

marked_lem :
    (infos : List (String × Ec2Info)) (rows : List InstanceRow) (k : String)
    → Distinct (instance_ids rows)
    → member k (keys (left_alive infos (insert_all tt (alive_ids rows) [])))
      ≡ (is_alive (find_instance k rows) && not (is_some (lookup k infos)))
marked_lem infos rows k d = ground (
  arith,
  member-left_alive k infos (insert_all tt (alive_ids rows) []),
  member-keys-insert_all {0} tt (alive_ids rows) k [],
  member-alive_ids k rows d,
  member-lookup k infos,
)

-- Without faults, and with distinct instances in the table and in the information given: each
-- instance with information is in the table, alive, with this information, and has appeared at the
-- earlier of now and before; any other that was alive has disappeared now; all others are as before.
pub update_ecs_instances_lem :
    (infos : List (String × Ec2Info)) (tasks_per : List (String × List String)) (s : Session)
    (k : String)
    → NoFaults s
    → Distinct (keys infos)
    → Distinct (instance_ids s.db.instances)
    → let (r, t) = update_ecs_instances infos tasks_per s in
      (r ≡ ok tt)
      × (find_instance k t.db.instances
          ≡ seen s.now k (lookup k infos) (find_instance k s.db.instances))
update_ecs_instances_lem infos tasks_per s k h d i = rw (update-NoFaults infos tasks_per s h) (
  refl,
  find_instance-mark_all s.now k
        (keys (left_alive infos (insert_all tt (alive_ids s.db.instances) [])))
        (upsert_all_instances s.now infos s.db.instances)
      ∙ rw
          (
            marked_lem infos s.db.instances k i,
            find_instance-upsert_all s.now k infos s.db.instances d,
          )
          (left_or_met s.now k (lookup k infos) (find_instance k s.db.instances)),
)

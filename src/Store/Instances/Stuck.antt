-- ===== src/Store/Instances/Stuck.antt =====
-- Which instances jobs/postgres_store.go takes as stuck, and which tasks it records.
use batchiepatchie.Prelude.{
  ◌+◌, String, ◌≡◌, refl, Bool, true, false, ◌&&◌, ◌||◌, Option, none, some, List, [], ◌∷◌, ◌==◌,
  arith, ltb, Bool-cases, inl, inr,
}
use batchiepatchie.Prelude.Dict.{member}
use batchiepatchie.Jobs.{Time}
use batchiepatchie.Store.Db.{JobRow, TaskRow}
use batchiepatchie.Store.Instances.Seen.{member-add_once}
use batchiepatchie.Store.Instances.{is_stuck, stuck_after, add_instances_of, stuck_ids}

-- Some task of a job runs on an instance.
abbrev pub runs_on : String → Option String → List TaskRow → Bool
runs_on instance none tasks = false
runs_on instance (some arn) [] = false
runs_on instance (some arn) (t ∷ ts) =
    (t.task_arn == arn) && (t.instance_id == instance) || runs_on instance (some arn) ts

-- Some job runs on an instance, is at STARTING, and was last updated more than 600 seconds ago.
abbrev pub holds_stuck_job : Time → String → List TaskRow → List JobRow → Bool
holds_stuck_job now instance tasks [] = false
holds_stuck_job now instance tasks (row ∷ rows) =
    (ltb (row.last_updated + stuck_after) now
      && (row.status == "STARTING")
      && runs_on instance row.task_arn tasks)
    || holds_stuck_job now instance tasks rows

or_assoc : (a b c : Bool) → (a || (b || c)) ≡ ((a || b) || c)
or_assoc true b c = refl
or_assoc false b c = refl

member-add_instances_of :
    (k : String) (o : Option String) (tasks : List TaskRow) (ids : List String)
    → member k (add_instances_of o tasks ids) ≡ (runs_on k o tasks || member k ids)
unfolding add_instances_of
member-add_instances_of k none tasks ids = refl
member-add_instances_of k (some arn) [] ids = refl
member-add_instances_of k (some arn) (t ∷ ts) ids = elim (Bool-cases (t.task_arn == arn)) [
  | inl e ↦
      rw
        (
          e,
          member-add_once k t.instance_id (add_instances_of (some arn) ts ids),
          member-add_instances_of k (some arn) ts ids,
        )
        (or_assoc (t.instance_id == k) (runs_on k (some arn) ts) (member k ids))
  | inr e ↦ rw e (member-add_instances_of k (some arn) ts ids)
]

-- The instances whose jobs are stuck are exactly those that hold a stuck job.
pub member-stuck_ids :
    (now : Time) (tasks : List TaskRow) (rows : List JobRow) (k : String)
    → member k (stuck_ids now tasks rows) ≡ holds_stuck_job now k tasks rows
unfolding stuck_ids is_stuck
member-stuck_ids now tasks [] k = refl
member-stuck_ids now tasks (row ∷ rows) k = ground (
  arith,
  member-stuck_ids now tasks rows k,
  member-add_instances_of k row.task_arn tasks (stuck_ids now tasks rows),
)

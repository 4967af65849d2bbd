-- ===== src/Store/Instances/Tasks.antt =====
-- `UpdateTaskArnsInstanceIDs` of jobs/postgres_store.go, and the columns that must not be NULL.
use batchiepatchie.Prelude.{String, ◌≡◌, ◌≢◌, Option, none, some, List, [], ◌∷◌, ◌++◌, inl, inr}
use batchiepatchie.Prelude.Dict.{lookup}
use batchiepatchie.Prelude.Io.{ok, bind-ok, fail}
use batchiepatchie.Jobs.{Ec2Info}
use batchiepatchie.Store.Db.{Session, call}
use batchiepatchie.Store.Transactions.{transaction-Atomic, transaction-ok}
use batchiepatchie.Store.Instances.{
  insert_task, insert_known_task, insert_tasks, update_task_arns_instance_ids,
}

null_fails :
    (task instance : String) (private_ip : Option String) (s : Session)
    → (insert_task task instance none private_ip s).0 ≢ ok tt
unfolding insert_task
null_fails task instance private_ip s h =
    let (_, p, q) =
      bind-ok (call s).0 (λ _. fail "null value in column \"public_ip\"") (call s).1 h in
    cc

insert_tasks_fails :
    (infos : List (String × Ec2Info)) (before after : List (String × String))
    (task instance : String) (info : Ec2Info) (s : Session)
    → lookup instance infos ≡ some info
    → info.public_ip ≡ none
    → (insert_tasks infos (before ++ (task, instance) ∷ after) s).0 ≢ ok tt
unfolding insert_tasks
insert_tasks_fails infos [] after task instance info s e n h =
    let c = insert_known_task task instance (lookup instance infos) s in
    let (u, p, q) = bind-ok c.0 (λ _. insert_tasks infos after) c.1 h in
    null_fails task instance info.private_ip s (rw (e, n) at p)
insert_tasks_fails infos ((t, i) ∷ before) after task instance info s e n h =
    let c = insert_known_task t i (lookup i infos) s in
    let (_, p, q) =
      bind-ok c.0 (λ _. insert_tasks infos (before ++ (task, instance) ∷ after)) c.1 h in
    insert_tasks_fails infos before after task instance info c.1 e n (rw q at h)

-- If any task of the mapping runs on an instance that is described without a public address, the
-- update fails as a whole: it reports no success and records no task, whichever calls fail.
pub no_public_ip_fails :
    (infos : List (String × Ec2Info)) (before after : List (String × String))
    (task instance : String) (info : Ec2Info) (s : Session)
    → lookup instance infos ≡ some info
    → info.public_ip ≡ none
    → ((update_task_arns_instance_ids infos (before ++ (task, instance) ∷ after) s).1.db ≡ s.db)
      × ((update_task_arns_instance_ids infos (before ++ (task, instance) ∷ after) s).0 ≢ ok tt)
unfolding update_task_arns_instance_ids
no_public_ip_fails infos before after task instance info s e n =
    let fails = insert_tasks_fails infos before after task instance info (call s).1 e n in
    let body = insert_tasks infos (before ++ (task, instance) ∷ after) in
    (
      elim (transaction-Atomic body s) [ inl same ↦ same | inr (a, p, _, _) ↦ elim (fails p) [ ] ],
      λ h. let (a, p) = transaction-ok body s h in fails p,
    )

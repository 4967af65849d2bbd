-- ===== src/Store/Queries/Load.antt =====
-- The load that jobs/postgres_store.go estimates for each job queue.
use batchiepatchie.Prelude.{
  String, ◌≡◌, refl, ◌∙◌, ap, Bool, true, false, ◌&&◌, Option, none, some, List, [], ◌∷◌, ◌==◌,
  eq_iff, arith, if◌then◌else◌, Option-cases, inl, inr,
}
use batchiepatchie.Prelude.Dict.{member, lookup, insert, lookup-insert}
use batchiepatchie.Prelude.Io.{ok}
use batchiepatchie.Jobs.{RunningLoad}
use batchiepatchie.Store.Db.{JobRow, Session}
use batchiepatchie.Store.Transactions.{NoFaults, query-NoFaults}
use batchiepatchie.Store.Queries.{
  active_statuses, load_or_zero, add_load, group_loads, fill_loads,
  estimate_running_load_by_job_queue,
}

-- The vcpus and the memory of the active jobs of one queue, summed over its rows.
unfoldable pub total_load : String → List JobRow → RunningLoad → RunningLoad
total_load q [] load = load
total_load q (row ∷ rows) load =
    total_load q rows
      (if row.job_queue == q && member row.status active_statuses then add_load load row else load)

group_loads_lem :
    (q : String) (rows : List JobRow) (groups : List (String × RunningLoad))
    → load_or_zero (lookup q (group_loads rows groups))
      ≡ total_load q rows (load_or_zero (lookup q groups))
unfolding group_loads total_load
group_loads_lem q [] groups = refl
group_loads_lem q (row ∷ rows) groups = group_loads_lem q rows _ ∙ ap (total_load q rows) step
  where
    step :
        load_or_zero (
          lookup q (
            if member row.status active_statuses
            then insert row.job_queue
                (add_load (load_or_zero (lookup row.job_queue groups)) row)
                groups
            else groups))
        ≡ (if row.job_queue == q && member row.status active_statuses
            then add_load (load_or_zero (lookup q groups)) row
            else load_or_zero (lookup q groups))
    step = ground (
      arith,
      eq_iff row.job_queue q,
      lookup-insert row.job_queue q (add_load (load_or_zero (lookup row.job_queue groups)) row)
          groups,
    )

abbrev pub is_listed : Option RunningLoad → Bool
is_listed none = false
is_listed (some load) = true

abbrev pub filled : String → List String → Option RunningLoad → Option RunningLoad
filled q queues none = if member q queues then some (load_or_zero none) else none
filled q queues (some load) = some load

fill_loads_lem :
    (q : String) (queues : List String) (mapping : List (String × RunningLoad))
    → lookup q (fill_loads queues mapping) ≡ filled q queues (lookup q mapping)
unfolding fill_loads
fill_loads_lem q [] mapping = ground arith
fill_loads_lem q (p ∷ queues) mapping = elim (Option-cases (lookup p mapping)) [
  | inl e ↦ rw e (
      ground (
        arith,
        eq_iff p q,
        fill_loads_lem q queues (insert p (load_or_zero none) mapping),
        lookup-insert p q (load_or_zero none) mapping,
      ))
  | inr (load, e) ↦ rw e (ground (arith, eq_iff p q, fill_loads_lem q queues mapping))
]

-- Filling in the missing queues changes no load.
filled-load :
    (q : String) (queues : List String) (o : Option RunningLoad)
    → member q queues ≡ true
    → filled q queues o ≡ some (load_or_zero o)
filled-load q queues none h = rw h
filled-load q queues (some load) h = refl

-- With no fault, the estimate for each queue that it is asked about is the vcpus and the memory of
-- the queue's active jobs, summed, and zero for a queue without any.
pub estimate_lem :
    (queues : List String) (s : Session) (q : String)
    → NoFaults s
    → member q queues ≡ true
    → (mapping : List (String × RunningLoad)) × (estimate_running_load_by_job_queue queues s
        ≡ (ok mapping, s))
      × (lookup q mapping ≡ some (total_load q s.db.jobs (load_or_zero none)))
unfolding estimate_running_load_by_job_queue lookup
estimate_lem queues s q h m =
    let groups = group_loads s.db.jobs [] in
    (
      fill_loads queues groups,
      rw (query-NoFaults (λ _ db. group_loads db.jobs []) s h),
      fill_loads_lem q queues groups
          ∙ filled-load q queues (lookup q groups) m
          ∙ ap some (group_loads_lem q s.db.jobs []),
    )

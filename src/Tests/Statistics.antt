-- ===== src/Tests/Statistics.antt =====
-- The theorem about job statistics, on concrete rows.
use batchiepatchie.Prelude.{
  ℕ, String, inl, ◌⊎◌, ◌||◌, ◌==◌, if◌then◌else◌, arith, ◌≡◌, refl, some, List, [], ◌∷◌, keep, ◌≤◌,
}
use batchiepatchie.Prelude.Int.{ℤ, pos}
use batchiepatchie.Prelude.Io.{Io, Error, ok}
use batchiepatchie.Jobs.{JobStats, JobStatsOptions}
use batchiepatchie.Store.Db.{JobRow, Session}
use batchiepatchie.Store.Stats.{Key, Sums, make_stats_query, job_stats}
use batchiepatchie.Store.Stats.Groups.{group_of, DistinctKeys, aggregates}
use batchiepatchie.Handlers.{Body}
use batchiepatchie.Handlers.Stats as Handlers
use batchiepatchie.Handlers.Stats.Answered.{entries, in_group, counts, job_stats_answered}
use batchiepatchie.Store.Search.{make_query}
use batchiepatchie.Store.Stats.Typed.{IsTypedQuery, IsTypedStats, queries-IsTyped}
use batchiepatchie.Tests.{noon, row_with, later}
use batchiepatchie.Tests.Searched.{options}

-- Ran for a minute, from noon on.
abbrev ran : JobRow
ran = record (row_with "a" "FAILED") {
  run_started_at = some noon;
  stopped_at = some 1500000060000000000;
}

abbrev after_runs : Session
after_runs = record later {
  db = record (later.db) { jobs = ran ∷ ran ∷ row_with "b" "RUNNING" ∷ [] };
}

abbrev stats_options : JobStatsOptions
stats_options = record {
  queues = "gpu" ∷ [];
  status = [];
  interval = pos 300;
  start = pos 1499999999;
  end = pos 1500000001;
}

abbrev in_nanos : ℤ → ℤ
in_nanos n = n

abbrev unsorted : List (Key × Sums) → List (Key × Sums)
unsorted groups = groups

-- The zone of the session is UTC.
abbrev utc : ℤ → ℤ
utc shown = shown

-- A request that names only the two times.
abbrev param : String → String
param name = if name == "start" || name == "end" then name else ""

abbrev parse_int : String → ℤ ⊎ Error
parse_int text = if text == "start" then inl (pos 1499999999) else inl (pos 1500000001)

abbrev send : ℕ → Body → Io Session (Unit {0})
send code body s = (ok tt, s)

abbrev answer : List (JobStats ℤ) → Io Session (Unit {0})
answer entries s = (ok tt, s)

job_stats_answered_example :
    let opts = Handlers.stats_options send param (pos 1499999999) (pos 1500000001) in
    (n : ℕ) × (opts.interval ≡ pos n)
    × (1 ≤ n)
    × ((groups : List (Key × Sums)) × (Handlers.job_stats send param parse_int
            (job_stats in_nanos unsorted utc)
            answer
            after_runs
          ≡ answer (entries in_nanos unsorted utc send param parse_int answer n groups) after_runs)
        × DistinctKeys groups
        × ((key : Key)
            → group_of key groups
              ≡ aggregates (
                  keep (in_group n key) (
                    keep
                      (counts utc 1499999999 1500000001 opts.status opts.queues)
                      (ran ∷ ran ∷ row_with "b" "RUNNING" ∷ [])))))
job_stats_answered_example =
    job_stats_answered in_nanos unsorted utc send param parse_int answer 1499999999 1500000001
      after_runs refl refl (omega arith) (omega arith) refl

queries-IsTyped_example :
    IsTypedQuery (make_query options) × IsTypedStats (make_stats_query stats_options)
queries-IsTyped_example = queries-IsTyped options stats_options

-- ===== src/Store/Stats.antt =====
-- `JobStats` of jobs/postgres_store.go: the query that is built, and the statistics that it returns.
-- The sums are exact, as those of `numeric`; a float64 holds them only once they are scanned.
pub mod Groups
pub mod Counted
pub mod Typed
use batchiepatchie.Prelude.{
  ℕ, zero, suc, ◌+◌, ◌-◌, ◌*◌, ◌/◌, String, Bool, true, false, ◌&&◌, Option, none, some, List, [],
  ◌∷◌, ◌==◌, if◌then◌else◌, get_elem?, keep, map,
}
use batchiepatchie.Prelude.Dict.{member, is_some}
use batchiepatchie.Prelude.Int.{ℤ, pos, negsuc, ◌+ℤ◌, ◌-ℤ◌, ◌*ℤ◌, ltb_ℤ, eqb_ℤ}
use batchiepatchie.Prelude.Io.{Io, Outcome, ok, err, ◌>>=◌}
use batchiepatchie.Jobs.{Time, JobStats, JobStatsOptions}
use batchiepatchie.Store.Db.{JobRow, Db, Session, query, seconds}
use batchiepatchie.Store.Search.{Arg, number, text, argument, add_in}

-- The conditions of the WHERE clause; a number is that of a placeholder `$n`.
pub data Condition : Type 0 where
  updated_after : ℕ → Condition
  updated_before : ℕ → Condition
  has_stopped : Condition
  has_started : Condition
  status_among : List ℕ → Condition
  queue_among : List ℕ → Condition

pub record StatsQuery : Type 0 where
  pub args : List Arg
  pub conditions : List Condition

unfoldable pub make_stats_query : JobStatsOptions → StatsQuery
make_stats_query opts =
    let (args, conditions) = add_in queue_among opts.queues (
      add_in status_among opts.status (
        number opts.interval ∷ number opts.start ∷ number opts.end ∷ [],
        updated_after 2 ∷ updated_before 3 ∷ has_stopped ∷ has_started ∷ [],
      )) in
    record { args = args; conditions = conditions }

-- The number of a placeholder; one without a number is 0.
abbrev pub arg_number : Option Arg → ℤ
arg_number none = pos 0
arg_number (some (number n)) = n
arg_number (some (text s)) = pos 0

abbrev pub number_argument : List Arg → ℕ → ℤ
number_argument args zero = pos 0
number_argument args (suc n) = arg_number (get_elem? args n)

-- `TO_TIMESTAMP($n) AT TIME ZONE 'UTC'` is what a clock in UTC shows, without a zone. Compared with
-- the column, it is read as what a clock in the zone of the session shows: `local_instant` takes
-- what a clock shows to the instant at which the one in that zone shows it.
module _ (local_instant : ℤ → ℤ) where
  unfoldable pub meets : List Arg → JobRow → Condition → Bool
  meets args row (updated_after n) =
      ltb_ℤ (local_instant (seconds (number_argument args n))) (pos row.last_updated)
  meets args row (updated_before n) =
      ltb_ℤ (pos row.last_updated) (local_instant (seconds (number_argument args n)))
  meets args row has_stopped = is_some row.stopped_at
  meets args row has_started = is_some row.run_started_at
  meets args row (status_among ns) = member row.status (map (argument args) ns)
  meets args row (queue_among ns) = member row.job_queue (map (argument args) ns)

  unfoldable pub meets_all : List Arg → JobRow → List Condition → Bool
  meets_all args row [] = true
  meets_all args row (c ∷ cs) = meets args row c && meets_all args row cs

  abbrev pub selected : StatsQuery → Db → List JobRow
  selected q db = keep (λ row. meets_all q.args row q.conditions) db.jobs

abbrev pub second_nanos : ℕ
second_nanos = 1000000000

-- `FLOOR(t / i) * i` in seconds, of a time in nanoseconds. The quotient by a negative interval is
-- the negated one, whose floor is that of the ceiling.
unfoldable pub interval_alias : ℤ → Time → ℤ
interval_alias (pos i) t = pos (t / (i * second_nanos) * i)
interval_alias (negsuc i) t =
    pos ((t + (suc i * second_nanos - 1)) / (suc i * second_nanos) * suc i)

-- What the rows are grouped by.
pub record Key : Type 0 where
  pub job_queue : String
  pub status : String
  pub timestamp : ℤ

unfoldable pub same_key : Key → Key → Bool
same_key k l = k.job_queue == l.job_queue && (k.status == l.status && eqb_ℤ k.timestamp l.timestamp)

-- The aggregates of a group, with its times in nanoseconds.
pub record Sums : Type 0 where
  pub vcpu_time : ℤ
  pub memory_time : ℤ
  pub instance_time : ℤ
  pub job_count : ℕ

-- A time of a row for which it is not NULL.
abbrev pub time_of : Option Time → Time
time_of none = 0
time_of (some t) = t

-- `stopped_at - run_started_at`, of a row for which neither is NULL.
abbrev pub elapsed : Option Time → Option Time → ℤ
elapsed none started = pos 0
elapsed (some stopped) none = pos 0
elapsed (some stopped) (some started) = pos stopped -ℤ pos started

unfoldable pub run_time : JobRow → ℤ
run_time row = elapsed row.stopped_at row.run_started_at

unfoldable pub key_of : ℤ → JobRow → Key
key_of interval row = record {
  job_queue = row.job_queue;
  status = row.status;
  timestamp = interval_alias interval (time_of row.run_started_at);
}

unfoldable pub sums_of : JobRow → Sums
sums_of row = record {
  vcpu_time = row.vcpus *ℤ run_time row;
  memory_time = row.memory *ℤ run_time row;
  instance_time = run_time row;
  job_count = 1;
}

abbrev pub plus : Sums → Sums → Sums
plus s t = record {
  vcpu_time = s.vcpu_time +ℤ t.vcpu_time;
  memory_time = s.memory_time +ℤ t.memory_time;
  instance_time = s.instance_time +ℤ t.instance_time;
  job_count = s.job_count + t.job_count;
}

unfoldable pub add_sums : Key → Sums → List (Key × Sums) → List (Key × Sums)
add_sums key sums [] = (key, sums) ∷ []
add_sums key sums ((other, found) ∷ groups) =
    if same_key other key
    then (other, plus sums found) ∷ groups
    else (other, found) ∷ add_sums key sums groups

-- `GROUP BY job_queue, status, interval_alias`.
unfoldable pub group_rows : ℤ → List JobRow → List (Key × Sums)
group_rows interval [] = []
group_rows interval (row ∷ rows) =
    add_sums (key_of interval row) (sums_of row) (group_rows interval rows)

-- `GREATEST(n, 0)`.
abbrev pub greatest : ℤ → ℤ
greatest n = if ltb_ℤ n (pos 0) then pos 0 else n

abbrev pub at_least_zero : Key × Sums → Key × Sums
at_least_zero (key, sums) = (
  key,
  record sums {
    vcpu_time = greatest sums.vcpu_time;
    memory_time = greatest sums.memory_time;
    instance_time = greatest sums.instance_time;
  },
)

-- `float` is the float64 that is nearest to a number of nanoseconds, in seconds.
module _ {Float : Type 0} (float : ℤ → Float) where
  unfoldable pub scan_stats : ℤ → Key × Sums → JobStats Float
  scan_stats interval (key, sums) = record {
    job_queue = key.job_queue;
    status = key.status;
    timestamp = float (seconds key.timestamp);
    vcpu_seconds = float sums.vcpu_time;
    memory_seconds = float sums.memory_time;
    instance_seconds = float sums.instance_time;
    job_count = sums.job_count;
    interval = interval;
  }

  -- `order_by` is the ORDER BY of the query.
  module _ (order_by : List (Key × Sums) → List (Key × Sums)) where
    -- The start of each selected row is divided by the interval, which fails for 0.
    abbrev pub divided : ℤ → List JobRow → Outcome (List (JobStats Float))
    divided interval [] = ok (map (scan_stats interval) (order_by []))
    divided interval (row ∷ rows) =
        if eqb_ℤ interval (pos 0)
        then err "division by zero"
        else ok (
            map (scan_stats interval)
              (order_by (map at_least_zero (group_rows interval (row ∷ rows)))))

    module _ (local_instant : ℤ → ℤ) where
      unfoldable pub job_stats : JobStatsOptions → Io Session (List (JobStats Float))
      job_stats opts =
          query (λ _ db. divided opts.interval (selected local_instant (make_stats_query opts) db))
          >>= λ outcome s. (outcome, s)

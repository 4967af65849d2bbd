-- ===== src/Handlers/Stats/Answered.antt =====
-- `JobStats` of handlers/handlers.go over the store of jobs/postgres_store.go.
use mathlib.Core.List.{map_congr_left}
use native.Mathlib.Nat.{div-div-eq-div-mul, mod-add-div', mul_comm}
use batchiepatchie.Prelude.{
  ℕ, ◌+◌, ◌-◌, ◌*◌, ◌/◌, ◌%◌, ◌≤◌, ◌<◌, String, Bool, false, ◌&&◌, ◌≡◌, refl, sym, ◌⊎◌, inl, Option,
  none, some, List, map, keep, keep-ext, ap, ap₂, ◌∙◌, ◌==◌, arith,
}
use batchiepatchie.Prelude.Dict.{is_some}
use batchiepatchie.Prelude.Int.{ℤ, pos, negsuc, two_63, eqb_ℤ, ltb_ℤ}
use batchiepatchie.Prelude.Io.{Io, Error, bind_outcome, attempt_outcome}
use batchiepatchie.Jobs.{Time, JobStats}
use batchiepatchie.Handlers.{Body, respond, answer_to}
use batchiepatchie.Handlers.Stats.{stats_options, stats_of, job_stats}
use batchiepatchie.Handlers.Stats.Intervals.{interval_lem}
use batchiepatchie.Store.Db.{JobRow, Session, seconds}
use batchiepatchie.Store.Transactions.{NoFaults}
use batchiepatchie.Store.Search.Found.{among}
use batchiepatchie.Store.Stats.{
  Key, Sums, time_of, interval_alias, same_key, key_of, greatest, at_least_zero, scan_stats,
}
use batchiepatchie.Store.Stats as Stored
use batchiepatchie.Store.Stats.Groups.{group_of, DistinctKeys, aggregates, has_key}
use batchiepatchie.Store.Stats.Counted.{is_counted, job_stats_lem}

-- The second of a time in nanoseconds.
abbrev pub second_of : Option Time → ℕ
second_of none = 0
second_of (some t) = t / 1000000000

-- The second at which a job started, rounded down to a multiple of `n`.
abbrev pub start_of : ℕ → JobRow → ℤ
start_of n row = let second = second_of row.run_started_at in pos (second - second % n)

-- The job has the queue, the status and the start of a key.
abbrev pub in_group : ℕ → Key → JobRow → Bool
in_group n key row =
    row.job_queue == key.job_queue
    && (row.status == key.status && eqb_ℤ (start_of n row) key.timestamp)

-- A job that the statistics count: it has started and stopped, it was updated strictly between the
-- instants at which a clock in the zone of the session shows the two seconds, and its status and
-- its queue are among those asked for.
abbrev pub counts : (ℤ → ℤ) → ℕ → ℕ → List String → List String → JobRow → Bool
counts local_instant start end statuses queues row =
    (ltb_ℤ (local_instant (pos (start * 1000000000))) (pos row.last_updated)
      && (ltb_ℤ (pos row.last_updated) (local_instant (pos (end * 1000000000)))
          && (is_some row.stopped_at && is_some row.run_started_at)))
    && (among statuses row.status && among queues row.job_queue)

-- A sum as it is shown: one below 0 as 0.
abbrev pub shown : ℤ → ℤ
shown (pos n) = pos n
shown (negsuc n) = pos 0

abbrev pub all_shown : Key × Sums → Key × Sums
all_shown (key, sums) = (
  key,
  record {
    vcpu_time = shown sums.vcpu_time;
    memory_time = shown sums.memory_time;
    instance_time = shown sums.instance_time;
    job_count = sums.job_count;
  },
)

-- A number of seconds in nanoseconds.
abbrev pub in_nanos : ℤ → ℤ
in_nanos (pos n) = pos (n * 1000000000)
in_nanos (negsuc n) = negsuc (n * 1000000000 + 999999999)

-- The entry of a group.
abbrev pub entry_of : {Float : Type 0} → (ℤ → Float) → ℕ → Key × Sums → JobStats Float
entry_of float n (key, sums) = record {
  job_queue = key.job_queue;
  status = key.status;
  timestamp = float (in_nanos key.timestamp);
  vcpu_seconds = float sums.vcpu_time;
  memory_seconds = float sums.memory_time;
  instance_seconds = float sums.instance_time;
  job_count = sums.job_count;
  interval = pos n;
}

greatest_lem : (n : ℤ) → greatest n ≡ shown n
greatest_lem (pos n) = ground arith
greatest_lem (negsuc n) = ground arith

at_least_zero_lem : (g : Key × Sums) → at_least_zero g ≡ all_shown g
at_least_zero_lem (key, sums) =
    rw (greatest_lem sums.vcpu_time, greatest_lem sums.memory_time, greatest_lem sums.instance_time)
      refl

seconds_lem : (n : ℤ) → seconds n ≡ in_nanos n
seconds_lem (pos n) = refl
seconds_lem (negsuc n) = ap negsuc (omega arith)

scan_stats_lem :
    {Float : Type 0} (float : ℤ → Float) (n : ℕ) (g : Key × Sums)
    → scan_stats float (pos n) g ≡ entry_of float n g
unfolding scan_stats
scan_stats_lem float n (key, sums) = rw (seconds_lem key.timestamp) refl

rest_of : (a b c : ℕ) → a + b ≡ c → b ≡ c - a
rest_of a b c h = omega arith

interval_alias_lem :
    (n : ℕ) (t : Time) → interval_alias (pos n) t ≡ pos (t / 1000000000 - (t / 1000000000) % n)
unfolding interval_alias
interval_alias_lem n t =
    let second = t / 1000000000 in
    ap pos (
      ap (λ d. t / d * n) (mul_comm n 1000000000)
      ∙ ap (λ d. d * n) (sym (div-div-eq-div-mul t 1000000000 n))
      ∙ rest_of (second % n) (second / n * n) second (mod-add-div' second n))

start_of_lem :
    (n : ℕ) (started : Option Time)
    → interval_alias (pos n) (time_of started) ≡ pos (second_of started - second_of started % n)
start_of_lem n none = interval_alias_lem n 0
start_of_lem n (some t) = interval_alias_lem n t

has_key_lem : (n : ℕ) (key : Key) (row : JobRow) → has_key (pos n) key row ≡ in_group n key row
unfolding same_key key_of
has_key_lem n key row =
    ap
      (λ start.
        row.job_queue == key.job_queue && (row.status == key.status && eqb_ℤ start key.timestamp))
      (start_of_lem n row.run_started_at)

not_zero : (n : ℕ) → 1 ≤ n → eqb_ℤ (pos n) (pos 0) ≡ false
not_zero n h = ground arith

module _ {Float : Type 0} (float : ℤ → Float) (order_by : List (Key × Sums) → List (Key × Sums))
    (local_instant : ℤ → ℤ) (send : ℕ → Body → Io Session (Unit {0})) (param : String → String)
    (parse_int : String → ℤ ⊎ Error) (answer : List (JobStats Float) → Io Session (Unit {0})) where
  -- The entries of some groups, as they are answered.
  abbrev pub entries : ℕ → List (Key × Sums) → List (JobStats Float)
  entries n groups = map (entry_of float n) (order_by (map all_shown groups))

  entries_lem :
      (n : ℕ) (groups : List (Key × Sums))
      → map (scan_stats float (pos n)) (order_by (map at_least_zero groups)) ≡ entries n groups
  entries_lem n groups =
      map_congr_left (λ g _. scan_stats_lem float n g)
      ∙ ap (λ l. map (entry_of float n) (order_by l)) (map_congr_left (λ g _. at_least_zero_lem g))

  -- Without faults, a request for the statistics of a span of times from the epoch on is answered,
  -- for some positive interval, with one entry for each group of the counted jobs, sorted by the
  -- database, in which no sum is below 0. The keys of the groups are distinct; a key has a group
  -- where a counted job has that queue, that status and that start in seconds, rounded down to a
  -- multiple of the interval; and the group holds the sums, over these jobs, of the times from start
  -- to stop, alone and multiplied by the vcpus and the memory, and their number.
  pub job_stats_answered :
      (start end : ℕ) (s : Session)
      → parse_int (param "start") ≡ inl (pos start)
      → parse_int (param "end") ≡ inl (pos end)
      → start ≤ end
      → end < two_63
      → NoFaults s
      → let opts = stats_options send param (pos start) (pos end) in
        (n : ℕ) × (opts.interval ≡ pos n)
        × (1 ≤ n)
        × ((groups : List (Key × Sums)) × (job_stats send param parse_int
                (Stored.job_stats float order_by local_instant)
                answer
                s
              ≡ answer (entries n groups) s)
            × DistinctKeys groups
            × ((key : Key)
                → group_of key groups
                  ≡ aggregates (
                      keep
                        (in_group n key)
                        (keep (counts local_instant start end opts.status opts.queues) s.db.jobs))))
  unfolding job_stats respond
  job_stats_answered start end s a b h k f =
      let opts = stats_options send param (pos start) (pos end) in
      let (n, e, least, _, _) = interval_lem start end h k in
      let (groups, run, distinct, sums) =
        job_stats_lem float order_by local_instant opts s
          (ap (λ i. eqb_ℤ i (pos 0)) e ∙ not_zero n least) f in
      let rows = keep (is_counted local_instant opts) s.db.jobs in
      (
        n,
        e,
        least,
        (
          groups,
          ap₂
                (λ x y.
                  stats_of send param (Stored.job_stats float order_by local_instant) answer x y s)
                a b
              ∙ ap (λ r. bind_outcome (attempt_outcome r.0) (answer_to send answer) r.1) run
              ∙ ap (λ i. answer (map (scan_stats float i) (order_by (map at_least_zero groups))) s)
                  e
              ∙ ap (λ l. answer l s) (entries_lem n groups),
          distinct,
          λ key.
              sums key
              ∙ ap (λ i. aggregates (keep (has_key i key) rows)) e
              ∙ ap aggregates
                  (keep-ext (has_key (pos n) key) (in_group n key) rows (has_key_lem n key)),
        ),
      )

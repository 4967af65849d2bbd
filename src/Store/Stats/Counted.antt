-- ===== src/Store/Stats/Counted.antt =====
-- What the statistics of jobs/postgres_store.go count, in terms of their options.
use mathlib.Core.List.{append_assoc, append-nil}
use batchiepatchie.Prelude.{
  ℕ, String, Bool, true, false, ◌&&◌, ◌≡◌, refl, sym, ap, ap₂, ◌∙◌, List, [], ◌∷◌, ◌++◌, length,
  map, keep, and_assoc, and_true, keep-ext,
}
use batchiepatchie.Prelude.Dict.{member, is_some}
use batchiepatchie.Prelude.Int.{ℤ, pos, ltb_ℤ, eqb_ℤ}
use batchiepatchie.Prelude.Io.{ok}
use batchiepatchie.Jobs.{JobStatsOptions}
use batchiepatchie.Store.Db.{JobRow, Session, seconds}
use batchiepatchie.Store.Transactions.{NoFaults, query-NoFaults}
use batchiepatchie.Store.Search.{Arg, number, argument}
use batchiepatchie.Store.Search.Clauses.{texts, numbers_from, arguments_from, add_in_lem, in_clause}
use batchiepatchie.Store.Search.Found.{among}
use batchiepatchie.Store.Stats.{
  Condition, updated_after, updated_before, has_stopped, has_started, status_among, queue_among,
  make_stats_query, meets, meets_all, group_rows, at_least_zero, scan_stats, job_stats, Key, Sums,
  divided, selected,
}
use batchiepatchie.Store.Stats.Groups.{
  group_of, DistinctKeys, aggregates, has_key, group_rows_lem, group_rows-DistinctKeys,
}

-- A row that the statistics count: it has started and stopped, it was updated strictly between the
-- two instants at which a clock in the zone of the session shows what is asked for, and its status
-- and its queue are among those asked for.
abbrev pub is_counted : (ℤ → ℤ) → JobStatsOptions → JobRow → Bool
is_counted local_instant opts row =
    (ltb_ℤ (local_instant (seconds opts.start)) (pos row.last_updated)
      && (ltb_ℤ (pos row.last_updated) (local_instant (seconds opts.end))
          && (is_some row.stopped_at && is_some row.run_started_at)))
    && (among opts.status row.status && among opts.queues row.job_queue)

abbrev pub three_numbers : JobStatsOptions → List Arg
three_numbers opts = number opts.interval ∷ number opts.start ∷ number opts.end ∷ []

abbrev pub four_conditions : List Condition
four_conditions = updated_after 2 ∷ updated_before 3 ∷ has_stopped ∷ has_started ∷ []

pub make_stats_query_lem :
    (opts : JobStatsOptions)
    → let b = three_numbers opts ++ texts opts.status in
      make_stats_query opts ≡ record {
        args = b ++ texts opts.queues;
        conditions =
            (four_conditions ++ in_clause status_among 3 opts.status)
            ++ in_clause queue_among (length b) opts.queues;
      }
unfolding make_stats_query
make_stats_query_lem opts =
    let b = three_numbers opts ++ texts opts.status in
    rw (add_in_lem status_among opts.status (three_numbers opts) four_conditions) (
      rw (
        add_in_lem queue_among opts.queues b
          (four_conditions ++ in_clause status_among 3 opts.status)))

regroup :
    (a b c d s q : Bool)
    → (((a && (b && (c && (d && true)))) && s) && q) ≡ ((a && (b && (c && d))) && (s && q))
regroup a b c d s q =
    ap (λ e. ((a && (b && (c && e))) && s) && q) (and_true d)
    ∙ sym (and_assoc (a && (b && (c && d))) s q)

module _ (local_instant : ℤ → ℤ) where
  meets_all-append :
      (args : List Arg) (row : JobRow) (before after : List Condition)
      → meets_all local_instant args row (before ++ after)
        ≡ (meets_all local_instant args row before && meets_all local_instant args row after)
  unfolding meets_all
  meets_all-append args row [] after = refl
  meets_all-append args row (c ∷ before) after = rw (meets_all-append args row before after) (
      and_assoc (meets local_instant args row c) (meets_all local_instant args row before)
        (meets_all local_instant args row after))

  meets-status :
      (args : List Arg) (row : JobRow) (n : ℕ) (items : List String)
      → map (argument args) (numbers_from n items) ≡ items
      → meets_all local_instant args row (in_clause status_among n items) ≡ among items row.status
  unfolding meets_all meets
  meets-status args row n [] e = refl
  meets-status args row n (i ∷ items) e =
      ap (λ l. member row.status l && true) e ∙ and_true (member row.status (i ∷ items))

  meets-queue :
      (args : List Arg) (row : JobRow) (n : ℕ) (items : List String)
      → map (argument args) (numbers_from n items) ≡ items
      → meets_all local_instant args row (in_clause queue_among n items) ≡ among items row.job_queue
  unfolding meets_all meets
  meets-queue args row n [] e = refl
  meets-queue args row n (i ∷ items) e =
      ap (λ l. member row.job_queue l && true) e ∙ and_true (member row.job_queue (i ∷ items))

  is_counted_lem :
      (opts : JobStatsOptions) (row : JobRow)
      → let q = make_stats_query opts in
        meets_all local_instant q.args row q.conditions ≡ is_counted local_instant opts row
  unfolding meets_all meets
  is_counted_lem opts row =
      let a = three_numbers opts in
      let b = a ++ texts opts.status in
      let args = b ++ texts opts.queues in
      let statuses = in_clause status_among 3 opts.status in
      let queues = in_clause queue_among (length b) opts.queues in
      ap (λ q. meets_all local_instant q.args row q.conditions) (make_stats_query_lem opts)
      ∙ meets_all-append args row (four_conditions ++ statuses) queues
      ∙ ap₂ ◌&&◌
          (meets_all-append args row four_conditions statuses
            ∙ ap₂ ◌&&◌ refl (
                meets-status args row 3 opts.status (
                  ap (λ l. map (argument l) (numbers_from 3 opts.status))
                    (append_assoc a (texts opts.status) (texts opts.queues))
                  ∙ arguments_from a opts.status (texts opts.queues))))
          (meets-queue args row (length b) opts.queues (
            ap (λ l. map (argument (b ++ l)) (numbers_from (length b) opts.queues))
              (sym (append-nil (texts opts.queues)))
            ∙ arguments_from b opts.queues []))
      ∙ regroup (ltb_ℤ (local_instant (seconds opts.start)) (pos row.last_updated))
          (ltb_ℤ (pos row.last_updated) (local_instant (seconds opts.end))) (is_some row.stopped_at)
          (is_some row.run_started_at) (among opts.status row.status)
          (among opts.queues row.job_queue)

module _ {Float : Type 0} (float : ℤ → Float) (order_by : List (Key × Sums) → List (Key × Sums))
    (local_instant : ℤ → ℤ) where
  divided_lem :
      (interval : ℤ) (rows : List JobRow)
      → eqb_ℤ interval (pos 0) ≡ false
      → divided float order_by interval rows
        ≡ ok (
            map
              (scan_stats float interval)
              (order_by (map at_least_zero (group_rows interval rows))))
  unfolding group_rows
  divided_lem interval [] h = refl
  divided_lem interval (row ∷ rows) h = rw h

  -- Without faults, and with an interval that is not 0, the statistics are those of some groups,
  -- sorted, whose keys are distinct. A key has a group where a counted job has that queue, that
  -- status and that start, rounded down to an interval; the group's times are the sums of the run
  -- times of these jobs, alone and multiplied by their vcpus and their memory, and its count is
  -- their number.
  pub job_stats_lem :
      (opts : JobStatsOptions) (s : Session)
      → eqb_ℤ opts.interval (pos 0) ≡ false
      → NoFaults s
      → (groups : List (Key × Sums)) × (job_stats float order_by local_instant opts s
          ≡ (ok (map (scan_stats float opts.interval) (order_by (map at_least_zero groups))), s))
        × DistinctKeys groups
        × ((key : Key)
            → group_of key groups
              ≡ aggregates (
                  keep
                    (has_key opts.interval key)
                    (keep (is_counted local_instant opts) s.db.jobs)))
  unfolding job_stats
  job_stats_lem opts s h f =
      let rows = keep (is_counted local_instant opts) s.db.jobs in
      let q = make_stats_query opts in
      (
        group_rows opts.interval rows,
        rw
            (query-NoFaults
              (λ _ db. divided float order_by opts.interval (selected local_instant q db)) s f)
            (ap (λ outcome. (outcome, s))
              (ap (divided float order_by opts.interval) (
                  keep-ext (λ row. meets_all local_instant q.args row q.conditions)
                    (is_counted local_instant opts) s.db.jobs (is_counted_lem local_instant opts))
                ∙ divided_lem opts.interval rows h)),
        group_rows-DistinctKeys opts.interval rows,
        λ key. group_rows_lem opts.interval key rows,
      )

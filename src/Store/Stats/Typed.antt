-- ===== src/Store/Stats/Typed.antt =====
-- The placeholders of the queries that jobs/postgres_store.go builds as texts.
use mathlib.Core.List.{append_assoc, append-nil}
use batchiepatchie.Prelude.{
  ℕ, zero, suc, String, ◌≡◌, ◌≢◌, refl, sym, subst, ◌∙◌, Option, none, some, List, [], ◌∷◌, ◌++◌,
  length, get_elem?, map, All, All-append,
}
use batchiepatchie.Prelude.Int.{ℤ}
use batchiepatchie.Jobs.{Options, JobStatsOptions}
use batchiepatchie.Store.Search.{
  Clause, newer_than, ilike, status_in, job_queue_in, Arg, number, text, glob, fields, Query,
  make_query,
}
use batchiepatchie.Store.Search.Clauses.{texts, numbers_from, length-one, elem-after, in_clause}
use batchiepatchie.Store.Search.Found.{make_query_lem, two_numbers}
use batchiepatchie.Store.Stats.{
  Condition, updated_after, updated_before, has_stopped, has_started, status_among, queue_among,
  StatsQuery, make_stats_query,
}
use batchiepatchie.Store.Stats.Counted.{make_stats_query_lem, three_numbers, four_conditions}

-- The argument of `$n`.
abbrev pub placeholder : List Arg → ℕ → Option Arg
placeholder args zero = none
placeholder args (suc n) = get_elem? args n

abbrev pub IsText : List Arg → ℕ → Type 0
IsText args n = (s : String) × (placeholder args n ≡ some (text s))

abbrev pub IsNumber : List Arg → ℕ → Type 0
IsNumber args n = (i : ℤ) × (placeholder args n ≡ some (number i))

-- `IN (...)` wants a value, and texts.
abbrev pub AreTexts : List Arg → List ℕ → Type 0
AreTexts args ns = (ns ≢ []) × All (IsText args) ns

abbrev pub IsTyped : List Arg → Clause → Type 0
IsTyped args (newer_than age) = Unit {0}
IsTyped args (ilike n) = IsText args n
IsTyped args (status_in ns) = AreTexts args ns
IsTyped args (job_queue_in ns) = AreTexts args ns

abbrev pub IsTypedCondition : List Arg → Condition → Type 0
IsTypedCondition args (updated_after n) = IsNumber args n
IsTypedCondition args (updated_before n) = IsNumber args n
IsTypedCondition args has_stopped = Unit {0}
IsTypedCondition args has_started = Unit {0}
IsTypedCondition args (status_among ns) = AreTexts args ns
IsTypedCondition args (queue_among ns) = AreTexts args ns

-- A search limits by `$1` from `$2` on.
abbrev pub IsTypedQuery : Query → Type 0
IsTypedQuery q =
    IsNumber q.args 1
    × IsNumber q.args 2
    × All (IsTyped q.args) q.unconditional_filters
    × All (IsTyped q.args) q.scanner

-- Statistics divide by `$1`.
abbrev pub IsTypedStats : StatsQuery → Type 0
IsTypedStats q = IsNumber q.args 1 × All (IsTypedCondition q.args) q.conditions

texts-All :
    (before : List Arg) (ss : List String) (after : List Arg)
    → All (IsText (before ++ (texts ss ++ after))) (numbers_from (length before) ss)
texts-All before [] after = tt
texts-All before (s ∷ ss) after = (
  (s, elem-after before (text s) (texts ss ++ after)),
  subst (λ args. All (IsText args) (numbers_from (suc (length before)) ss))
      (append_assoc before (text s ∷ []) (texts ss ++ after))
      (subst
        (λ n. All (IsText ((before ++ text s ∷ []) ++ (texts ss ++ after))) (numbers_from n ss))
        (length-one before (text s)) (texts-All (before ++ text s ∷ []) ss after)),
)

in_clause-All :
    {C : Type 0} (T : C → Type 0) (args : List Arg) (clause : List ℕ → C) (n : ℕ)
    (items : List String)
    → ((ns : List ℕ) → AreTexts args ns → T (clause ns))
    → All (IsText args) (numbers_from n items)
    → All T (in_clause clause n items)
in_clause-All T args clause n [] t a = tt
in_clause-All T args clause n (item ∷ items) t a =
    (t (numbers_from n (item ∷ items)) (λ e. cc, a), tt)

ilike-All :
    (args : List Arg) (ns : List ℕ) → All (IsText args) ns → All (IsTyped args) (map ilike ns)
ilike-All args [] a = tt
ilike-All args (n ∷ ns) a = (a.0, ilike-All args ns a.1)

make_query-IsTypedQuery : (opts : Options) → IsTypedQuery (make_query opts)
make_query-IsTypedQuery opts =
    let words = map glob (fields opts.search) in
    let a = two_numbers opts in
    let b = a ++ texts words in
    let c = b ++ texts opts.status in
    let args = c ++ texts opts.queues in
    subst IsTypedQuery (sym (make_query_lem opts)) (
      (opts.limit, refl),
      (opts.offset, refl),
      All-append (IsTyped args) (in_clause status_in (length b) opts.status)
          (in_clause job_queue_in (length c) opts.queues)
          (in_clause-All (IsTyped args) args status_in (length b) opts.status (λ ns t. t)
            (subst (λ l. All (IsText l) (numbers_from (length b) opts.status))
              (sym (append_assoc b (texts opts.status) (texts opts.queues)))
              (texts-All b opts.status (texts opts.queues))))
          (in_clause-All (IsTyped args) args job_queue_in (length c) opts.queues (λ ns t. t)
            (subst (λ l. All (IsText (c ++ l)) (numbers_from (length c) opts.queues))
              (append-nil (texts opts.queues)) (texts-All c opts.queues []))),
      (
        tt,
        ilike-All args (numbers_from 2 words) (
            subst (λ l. All (IsText l) (numbers_from 2 words))
              (sym (
                append_assoc b (texts opts.status) (texts opts.queues)
                ∙ append_assoc a (texts words) (texts opts.status ++ texts opts.queues)))
              (texts-All a words (texts opts.status ++ texts opts.queues))),
      ),
    )

make_stats_query-IsTypedStats : (opts : JobStatsOptions) → IsTypedStats (make_stats_query opts)
make_stats_query-IsTypedStats opts =
    let a = three_numbers opts in
    let b = a ++ texts opts.status in
    let args = b ++ texts opts.queues in
    subst IsTypedStats (sym (make_stats_query_lem opts)) (
      (opts.interval, refl),
      All-append (IsTypedCondition args) (four_conditions ++ in_clause status_among 3 opts.status)
          (in_clause queue_among (length b) opts.queues)
          (
            (opts.start, refl),
            (
              (opts.end, refl),
              (
                tt,
                (
                  tt,
                  in_clause-All (IsTypedCondition args) args status_among 3 opts.status (λ ns t. t)
                      (subst (λ l. All (IsText l) (numbers_from 3 opts.status))
                        (sym (append_assoc a (texts opts.status) (texts opts.queues)))
                        (texts-All a opts.status (texts opts.queues))),
                ),
              ),
            ),
          )
          (in_clause-All (IsTypedCondition args) args queue_among (length b) opts.queues (λ ns t. t)
            (subst (λ l. All (IsText (b ++ l)) (numbers_from (length b) opts.queues))
              (append-nil (texts opts.queues)) (texts-All b opts.queues []))),
    )

-- Whatever is searched for and counted, each placeholder of the queries of Find and JobStats has an
-- argument, a number where the query wants one and else a text, and no `IN` is empty.
pub queries-IsTyped :
    (opts : Options) (stats : JobStatsOptions)
    → IsTypedQuery (make_query opts) × IsTypedStats (make_stats_query stats)
queries-IsTyped opts stats = (make_query-IsTypedQuery opts, make_stats_query-IsTypedStats stats)

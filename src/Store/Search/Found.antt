-- ===== src/Store/Search/Found.antt =====
-- What the search of jobs/postgres_store.go finds, in terms of its options.
use Prim.Native.Char.{Char}
use mathlib.Core.List.{append_assoc, append-nil}
use batchiepatchie.Prelude.{
  ℕ, ◌+◌, String, Bool, true, false, ◌&&◌, ◌≡◌, refl, sym, ap, ap₂, ◌∙◌, List, [], ◌∷◌, ◌++◌,
  length, ltb, map, keep, take, drop, none, and_assoc, and_true, keep-ext,
}
use batchiepatchie.Prelude.Dict.{member}
use batchiepatchie.Prelude.Int.{pos}
use batchiepatchie.Prelude.Io.{ok}
use batchiepatchie.Jobs.{Time, Options}
use batchiepatchie.Store.Db.{JobRow, Session}
use batchiepatchie.Store.Transactions.{NoFaults, query-NoFaults}
use batchiepatchie.Store.Queries.{job_of_row}
use batchiepatchie.Store.Search.{
  Clause, newer_than, ilike, status_in, job_queue_in, Arg, number, glob, fields, interval_of,
  parse_sort_column, argument, searched, is_like, holds_for, all_hold, make_query, selects, find,
  limited, result, page,
}
use batchiepatchie.Store.Search.Like.{contains, glob-like}
use batchiepatchie.Store.Search.Clauses.{
  texts, numbers_from, arguments_from, add_tokens_lem, add_in_lem, in_clause,
}

-- Any value, where nothing is asked for.
abbrev pub among : List String → String → Bool
among [] s = true
among (asked ∷ more) s = member s (asked ∷ more)

abbrev pub two_numbers : Options → List Arg
two_numbers opts = number opts.limit ∷ number opts.offset ∷ []

pub make_query_lem :
    (opts : Options)
    → let words = map glob (fields opts.search) in
      let b = two_numbers opts ++ texts words in
      let c = b ++ texts opts.status in
      make_query opts ≡ record {
        args = c ++ texts opts.queues;
        unconditional_filters =
            in_clause status_in (length b) opts.status
            ++ in_clause job_queue_in (length c) opts.queues;
        scanner = newer_than (interval_of opts.date_range) ∷ map ilike (numbers_from 2 words);
      }
unfolding make_query
make_query_lem opts =
    let words = map glob (fields opts.search) in
    let b = two_numbers opts ++ texts words in
    let c = b ++ texts opts.status in
    rw
      (add_tokens_lem (fields opts.search) (two_numbers opts)
        (newer_than (interval_of opts.date_range) ∷ []))
      (rw (add_in_lem status_in opts.status b [])
        (rw (add_in_lem job_queue_in opts.queues c (in_clause status_in (length b) opts.status))))

module _ (same : Char → Char → Bool) where
  unfoldable pub contains_all : List String → String → Bool
  contains_all [] s = true
  contains_all (word ∷ words) s = contains same word s && contains_all words s

  -- What a search asks of a row: it is recent, its id, name, queue and image contain each word, and
  -- its status and its queue are among those asked for.
  abbrev pub is_wanted : Options → Time → JobRow → Bool
  is_wanted opts now row =
      (among opts.status row.status && among opts.queues row.job_queue)
      && (ltb now (row.last_updated + interval_of opts.date_range)
          && contains_all (fields opts.search) (searched same row))

  all_hold-append :
      (now : Time) (args : List Arg) (row : JobRow) (before after : List Clause)
      → all_hold same now args row (before ++ after)
        ≡ (all_hold same now args row before && all_hold same now args row after)
  unfolding all_hold
  all_hold-append now args row [] after = refl
  all_hold-append now args row (c ∷ before) after = rw (all_hold-append now args row before after) (
      and_assoc (holds_for same now args row c) (all_hold same now args row before)
        (all_hold same now args row after))

  -- The conditions on the words, by what their placeholders stand for.
  all_ilike :
      (now : Time) (args : List Arg) (row : JobRow) (ns : List ℕ) (words : List String)
      → map (argument args) ns ≡ map glob words
      → all_hold same now args row (map ilike ns) ≡ contains_all words (searched same row)
  unfolding all_hold holds_for contains_all
  all_ilike now args row [] [] e = refl
  all_ilike now args row [] (w ∷ words) e = cc
  all_ilike now args row (n ∷ ns) [] e = cc
  all_ilike now args row (n ∷ ns) (w ∷ words) e =
      let h : argument args n ≡ glob w = cc in
      let t : map (argument args) ns ≡ map glob words = cc in
      ap₂ ◌&&◌
        (ap (λ p. is_like same false p (searched same row)) h
          ∙ glob-like same w (searched same row))
        (all_ilike now args row ns words t)

  all_status :
      (now : Time) (args : List Arg) (row : JobRow) (n : ℕ) (items : List String)
      → map (argument args) (numbers_from n items) ≡ items
      → all_hold same now args row (in_clause status_in n items) ≡ among items row.status
  unfolding all_hold holds_for
  all_status now args row n [] e = refl
  all_status now args row n (i ∷ items) e =
      ap (λ l. member row.status l && true) e ∙ and_true (member row.status (i ∷ items))

  all_queue :
      (now : Time) (args : List Arg) (row : JobRow) (n : ℕ) (items : List String)
      → map (argument args) (numbers_from n items) ≡ items
      → all_hold same now args row (in_clause job_queue_in n items) ≡ among items row.job_queue
  unfolding all_hold holds_for
  all_queue now args row n [] e = refl
  all_queue now args row n (i ∷ items) e =
      ap (λ l. member row.job_queue l && true) e ∙ and_true (member row.job_queue (i ∷ items))

  selects_lem :
      (opts : Options) (now : Time) (row : JobRow)
      → selects same (make_query opts) now row ≡ is_wanted opts now row
  unfolding selects all_hold holds_for
  selects_lem opts now row =
      let words = map glob (fields opts.search) in
      let a = two_numbers opts in
      let b = a ++ texts words in
      let c = b ++ texts opts.status in
      let args = c ++ texts opts.queues in
      let asked_status = in_clause status_in (length b) opts.status in
      let asked_queue = in_clause job_queue_in (length c) opts.queues in
      ap (λ q. selects same q now row) (make_query_lem opts)
      ∙ ap₂ ◌&&◌
          (all_hold-append now args row asked_status asked_queue
            ∙ ap₂ ◌&&◌
                (all_status now args row (length b) opts.status (
                  ap (λ l. map (argument l) (numbers_from (length b) opts.status))
                    (append_assoc b (texts opts.status) (texts opts.queues))
                  ∙ arguments_from b opts.status (texts opts.queues)))
                (all_queue now args row (length c) opts.queues (
                  ap (λ l. map (argument (c ++ l)) (numbers_from (length c) opts.queues))
                    (sym (append-nil (texts opts.queues)))
                  ∙ arguments_from c opts.queues [])))
          (ap (λ t. ltb now (row.last_updated + interval_of opts.date_range) && t)
            (all_ilike now args row (numbers_from 2 words) (fields opts.search) (
              ap (λ l. map (argument l) (numbers_from 2 words))
                (append_assoc b (texts opts.status) (texts opts.queues)
                  ∙ append_assoc a (texts words) (texts opts.status ++ texts opts.queues))
              ∙ arguments_from a words (texts opts.status ++ texts opts.queues))))

  -- Without faults, and with a limit and an offset that are not negative, a search returns that
  -- part of the jobs that it asks for, sorted by its column; each word is taken as it stands.
  pub find_lem :
      (order_by : String → Bool → List JobRow → List JobRow) (opts : Options) (limit offset : ℕ)
      (s : Session)
      → opts.limit ≡ pos limit
      → opts.offset ≡ pos offset
      → NoFaults s
      → find same order_by opts s ≡ (
        ok (
            map
              (λ row. job_of_row row none)
              (take limit (
                drop offset (
                  order_by
                    (parse_sort_column opts.sort_by)
                    opts.sort_asc
                    (keep (is_wanted opts s.now) s.db.jobs))))),
        s,
      )
  unfolding find
  find_lem order_by opts limit offset s e f h =
      ap₂ (λ l o. limited same order_by opts l o s) e f
      ∙ query-NoFaults (result same order_by opts) s h
      ∙ ap₂
          (λ l o. (
            ok (page same l o (sorted (keep (selects same (make_query opts) s.now) s.db.jobs))),
            s,
          ))
          e f
      ∙ ap (λ rows. (ok (page same (pos limit) (pos offset) (sorted rows)), s))
          (keep-ext (selects same (make_query opts) s.now) (is_wanted opts s.now) s.db.jobs
            (selects_lem opts s.now))
    where
      sorted : List JobRow → List JobRow
      sorted = order_by (parse_sort_column opts.sort_by) opts.sort_asc

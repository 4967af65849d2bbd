-- ===== src/Store/ChangeLog/Latest.antt =====
-- What the change logs of jobs/postgres_store.go say after an update.
use batchiepatchie.Prelude.{
  ◌<◌, ◌⊎◌, sym, map, keep, String, ◌≡◌, refl, ◌∙◌, ap, Bool, true, false, Option, none, some, List,
  [], ◌∷◌, ◌++◌, ◌==◌, eq_iff, arith, if◌then◌else◌, All, All-append, Bool-cases, Option-cases, inl,
  inr,
}
use batchiepatchie.Prelude.Dict.{member, Distinct}
use batchiepatchie.Prelude.Io.{ok}
use batchiepatchie.Jobs.{Time}
use batchiepatchie.Store.Db.{Db, Session}
use batchiepatchie.Store.Transactions.{NoFaults, query-NoFaults, exec-NoFaults}
use batchiepatchie.Store.ChangeLog.Newest.{
  IsNewest, All-map, newest_one, newest-append, keep-true, keep-append_one, keep-All,
}
use batchiepatchie.Store.ChangeLog.{Log, latest_row, ok_to_insert, insert_entry, log_each}

abbrev pub viewed : {R E : Type 0} → (R → E) → Option R → Option E
viewed view none = none
viewed view (some row) = some (view row)

-- The facts about a log that its update rests on.
pub record Lawful {R E : Type 0} (log : Log R E) (view : R → E) : Type 0 where
  pub table_set : (rows : List R) (db : Db) → log.table (log.with_table rows db) ≡ rows
  pub set_twice :
      (rows more : List R) (db : Db)
      → log.with_table more (log.with_table rows db) ≡ log.with_table more db
  pub set_same : (db : Db) → log.with_table (log.table db) db ≡ db
  pub name_at : (now : Time) (e : E) → log.name (log.row_at now e) ≡ log.entry_name e
  pub time_at : (now : Time) (e : E) → log.time (log.row_at now e) ≡ now
  pub view_at : (now : Time) (e : E) → view (log.row_at now e) ≡ e
  pub same_view :
      (row : R) (e : E) → log.name row ≡ log.entry_name e → log.same row e ≡ true → view row ≡ e

-- The entry of a name in a batch, or what there was before.
unfoldable pub last_entry : {R E : Type 0} → Log R E → String → List E → Option E → Option E
last_entry log k [] old = old
last_entry log k (e ∷ es) old = last_entry log k es (if log.entry_name e == k then some e else old)

module _ {R E : Type 0} (log : Log R E) (view : R → E) (laws : Lawful log view)
    (newest : List R → Option R) where
  open log use {table, with_table, time, name, entry_name, row_at, same}

  abbrev add_if : Bool → Time → E → List R → List R
  add_if false now e rows = rows
  add_if true now e rows = rows ++ row_at now e ∷ []

  unfoldable pub log_entry : Time → E → List R → List R
  log_entry now e rows =
      add_if (ok_to_insert log (latest_row log newest (entry_name e) rows) e) now e rows

  unfoldable pub log_all : Time → List E → List R → List R
  log_all now [] rows = rows
  log_all now (e ∷ es) rows = log_all now es (log_entry now e rows)

  abbrev pub names : List E → List String
  names es = map entry_name es

  -- The rows of the names that are still to come are from before.
  abbrev pub Before : Time → List E → List R → Type 0
  Before now es rows = All (λ row. (time row < now) ⊎ (member (name row) (names es) ≡ false)) rows

  latest_row-name :
      (k : String) (rows : List R) (r : R)
      → IsNewest time newest
      → latest_row log newest k rows ≡ some r
      → name r ≡ k
  unfolding latest_row
  latest_row-name k rows r n e = (eq_iff (name r) k).0 (
      newest_one time newest (λ row. (name row == k) ≡ true) (keep (λ row. name row == k) rows) r n
        e (keep-true (λ row. name row == k) rows))

  earlier :
      (now : Time) (e : E) (es : List E) (row : R)
      → name row ≡ entry_name e
      → (time row < now) ⊎ (member (name row) (names (e ∷ es)) ≡ false)
      → time row < now
  earlier now e es row m (inl h) = h
  earlier now e es row m (inr h) = ground (arith, eq_iff (entry_name e) (name row), sym m)

  added :
      (now : Time) (k : String) (e : E) (es : List E) (rows : List R)
      → IsNewest time newest
      → Before now (e ∷ es) rows
      → viewed view (latest_row log newest k (rows ++ row_at now e ∷ []))
        ≡ (if entry_name e == k then some e else viewed view (latest_row log newest k rows))
  unfolding latest_row
  added now k e es rows n h =
      rw (keep-append_one (λ row. name row == k) rows (row_at now e), laws.name_at now e)
        (elim (Bool-cases (entry_name e == k)) [
          | inl m ↦ rw m (
              ap (viewed view) (
                newest-append time newest (keep (λ row. name row == k) rows) (row_at now e) n (
                  rw (laws.time_at now e) (
                    keep-All (λ row. name row == k) _ (λ row. time row < now) rows
                      (λ row p q.
                        earlier now e es row
                          ((eq_iff (name row) k).0 p ∙ sym ((eq_iff (entry_name e) k).0 m)) q)
                      h)))
              ∙ ap some (laws.view_at now e))
          | inr m ↦ rw m
        ])

  already_said :
      (k : String) (e : E) (rows : List R) (row : R)
      → IsNewest time newest
      → latest_row log newest (entry_name e) rows ≡ some row
      → same row e ≡ true
      → viewed view (latest_row log newest k rows)
        ≡ (if entry_name e == k then some e else viewed view (latest_row log newest k rows))
  already_said k e rows row n h s = elim (Bool-cases (entry_name e == k)) [
    | inl m ↦
        let l = latest_row-name (entry_name e) rows row n h in
        let same_key : entry_name e ≡ k = (eq_iff (entry_name e) k).0 m in
        rw m (rw (← same_key) (rw h (ap some (laws.same_view row e l s))))
    | inr m ↦ rw m
  ]

  log_entry-latest :
      (now : Time) (k : String) (e : E) (es : List E) (rows : List R)
      → IsNewest time newest
      → Before now (e ∷ es) rows
      → viewed view (latest_row log newest k (log_entry now e rows))
        ≡ (if entry_name e == k then some e else viewed view (latest_row log newest k rows))
  unfolding log_entry
  log_entry-latest now k e es rows n h =
      elim (Option-cases (latest_row log newest (entry_name e) rows)) [
        | inl o ↦ rw o (added now k e es rows n h)
        | inr (row, o) ↦ elim (Bool-cases (same row e)) [
          | inl s ↦ simp (o, s) (already_said k e rows row n o s)
          | inr s ↦ simp (o, s) (added now k e es rows n h)
        ]
      ]

  still_before :
      (now : Time) (e : E) (es : List E) (row : R)
      → (time row < now) ⊎ (member (name row) (names (e ∷ es)) ≡ false)
      → (time row < now) ⊎ (member (name row) (names es) ≡ false)
  still_before now e es row (inl h) = inl h
  still_before now e es row (inr h) = inr (ground arith)

  log_entry-Before :
      (now : Time) (e : E) (es : List E) (rows : List R)
      → member (entry_name e) (names es) ≡ false
      → Before now (e ∷ es) rows
      → Before now es (log_entry now e rows)
  unfolding log_entry
  log_entry-Before now e es rows d h =
      let P : R → Type 0 = λ row. (time row < now) ⊎ (member (name row) (names es) ≡ false) in
      let before : Before now es rows =
        All-map (λ row. (time row < now) ⊎ (member (name row) (names (e ∷ es)) ≡ false)) P rows
          (still_before now e es) h in
      elim (Bool-cases (ok_to_insert log (latest_row log newest (entry_name e) rows) e)) [
        | inl b ↦ rw b (
            All-append P rows (row_at now e ∷ []) before
              (inr (ap (λ k. member k (names es)) (laws.name_at now e) ∙ d), tt))
        | inr b ↦ rw b before
      ]

  all-latest :
      (now : Time) (k : String) (es : List E) (rows : List R)
      → IsNewest time newest
      → Distinct (names es)
      → Before now es rows
      → viewed view (latest_row log newest k (log_all now es rows))
        ≡ last_entry log k es (viewed view (latest_row log newest k rows))
  unfolding log_all last_entry
  all-latest now k [] rows n d h = refl
  all-latest now k (e ∷ es) rows n d h =
      all-latest now k es (log_entry now e rows) n d.1 (log_entry-Before now e es rows d.0 h)
      ∙ ap (last_entry log k es) (log_entry-latest now k e es rows n h)

  -- After a batch of entries with distinct names, on rows that are all from before, the latest row
  -- of each name says the entry of that name, or what it said before where there is none.
  pub log_all-latest :
      (now : Time) (k : String) (es : List E) (rows : List R)
      → IsNewest time newest
      → Distinct (names es)
      → All (λ row. time row < now) rows
      → viewed view (latest_row log newest k (log_all now es rows))
        ≡ last_entry log k es (viewed view (latest_row log newest k rows))
  log_all-latest now k es rows n d h = all-latest now k es rows n d (
      All-map (λ row. time row < now)
        (λ row. (time row < now) ⊎ (member (name row) (names es) ≡ false)) rows (λ _ p. inl p) h)

  insert_entry-NoFaults :
      (b : Bool) (e : E) (s : Session)
      → NoFaults s
      → insert_entry log b e s
        ≡ (ok tt, record s { db = with_table (add_if b s.now e (table s.db)) s.db })
  unfolding insert_entry
  insert_entry-NoFaults false e s h = rw (laws.set_same s.db)
  insert_entry-NoFaults true e s h =
      exec-NoFaults (λ now db. with_table (table db ++ row_at now e ∷ []) db) s h

  pub log_each-NoFaults :
      (es : List E) (s : Session)
      → NoFaults s
      → log_each log newest es s
        ≡ (ok tt, record s { db = with_table (log_all s.now es (table s.db)) s.db })
  unfolding log_each log_all log_entry
  log_each-NoFaults [] s h = rw (laws.set_same s.db)
  log_each-NoFaults (e ∷ es) s h =
      let existing = latest_row log newest (entry_name e) (table s.db) in
      let rows = add_if (ok_to_insert log existing e) s.now e (table s.db) in
      rw (query-NoFaults (λ _ db. latest_row log newest (entry_name e) (table db)) s h) (
        rw (insert_entry-NoFaults (ok_to_insert log existing e) e s h) (
          rw
            (
              log_each-NoFaults es (record s { db = with_table rows s.db }) h,
              laws.table_set rows s.db,
            )
            (rw (laws.set_twice rows (log_all s.now es rows) s.db))))

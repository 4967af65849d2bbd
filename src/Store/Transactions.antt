-- ===== src/Store/Transactions.antt =====
-- What holds of every transaction of jobs/postgres_store.go, and of calls that do not fail.
use batchiepatchie.Prelude.{
  ◌≡◌, refl, ap, ap₂, sym, subst, ◌∙◌, ◌⊎◌, inl, inr, Option, none, some, List, [], ◌∷◌, arith,
}
use batchiepatchie.Prelude.Io.{
  Io, Outcome, ok, err, panic, hang, Error, Returns, bind_outcome, bind-ok,
}
use batchiepatchie.Jobs.{Time}
use batchiepatchie.Store.Db.{
  Db, Session, call, query, exec, answered, finish, logged_commit, returned_commit, transaction,
  strict_finish, strict_transaction, checked_finish, checked_transaction,
}

-- A call changes neither the tables nor the clock.
pub call-db : (s : Session) → (call s).1.db ≡ s.db
unfolding call
call-db s = refl

pub call-now : (s : Session) → (call s).1.now ≡ s.now
unfolding call
call-now s = refl

-- No call to come fails.
abbrev pub NoFaults : Session → Type 0
NoFaults s = s.answers ≡ []

pub call-NoFaults : (s : Session) → NoFaults s → call s ≡ (ok tt, s)
unfolding call
call-NoFaults s h = rw h (ground arith)

-- A call that fails returns its error.
pub call-fault :
    (s : Session) {e : Error} {rest : List (Option Error)}
    → s.answers ≡ some e ∷ rest
    → (call s).0 ≡ err e
unfolding call
call-fault s h = rw h

pub exec-NoFaults :
    (change : Time → Db → Db) (s : Session)
    → NoFaults s
    → exec change s ≡ (ok tt, record s { db = change s.now s.db })
unfolding exec
exec-NoFaults change s h = rw (call-NoFaults s h)

pub query-NoFaults :
    {A : Type 0} (read : Time → Db → A) (s : Session)
    → NoFaults s
    → query read s ≡ (ok (read s.now s.db), s)
unfolding query
query-NoFaults read s h = rw (call-NoFaults s h)

-- A statement that returns has changed the tables, and the clock stands.
pub exec-ok :
    (change : Time → Db → Db) (s : Session) {u : Unit {0}}
    → (exec change s).0 ≡ ok u
    → ((exec change s).1.db ≡ change s.now s.db) × ((exec change s).1.now ≡ s.now)
unfolding exec call
exec-ok change s h =
    let (a, p, q) =
      bind-ok (call s).0 (λ _ t. (ok tt, record t { db = change t.now t.db })) (call s).1 h in
    (ap (λ r. r.1.db) q, ap (λ r. r.1.now) q)

pub query-ok :
    {A : Type 0} (read : Time → Db → A) (s : Session) {a : A}
    → (query read s).0 ≡ ok a
    → (a ≡ read s.now s.db) × ((query read s).1.db ≡ s.db) × ((query read s).1.now ≡ s.now)
unfolding query call
query-ok read s h =
    let (_, p, q) = bind-ok (call s).0 (λ _ t. (ok (read t.now t.db), t)) (call s).1 h in
    (cc (ap (λ r. r.0) q), ap (λ r. r.1.db) q, ap (λ r. r.1.now) q)

-- A transaction leaves the tables as they were, or as its statements left them without an error.
abbrev pub Atomic : {A : Type 0} → Db → Outcome A × Session → Outcome A × Session → Type 0
Atomic {A} before r done =
    (done.1.db ≡ before) ⊎ ((a : A) × (r.0 ≡ ok a) × (done.0 ≡ ok a) × (done.1.db ≡ r.1.db))

logged_commit-Atomic :
    {A : Type 0} (before : Db) (a : A) (s : Session) (c : Outcome (Unit {0}) × Session)
    → c.1.db ≡ s.db
    → Atomic before (ok a, s) (logged_commit before a c)
logged_commit-Atomic before a s (ok _, t) h = inr (a, refl, refl, h)
logged_commit-Atomic before a s (err e, t) h = inl refl
logged_commit-Atomic before a s (panic, t) h = inl refl
logged_commit-Atomic before a s (hang, t) h = inl refl

finish-Atomic :
    {A : Type 0} (before : Db) (r : Outcome A × Session) → Atomic before r (finish before r)
unfolding finish
finish-Atomic before (ok a, s) = logged_commit-Atomic before a s (call s) (call-db s)
finish-Atomic before (err e, s) = inl refl
finish-Atomic before (panic, s) = inl refl
finish-Atomic before (hang, s) = inl refl

begin-Atomic :
    {A : Type 0} (body : Io Session A) (s : Session) (c : Outcome (Unit {0}) × Session)
    → c.1.db ≡ s.db
    → Atomic s.db (body c.1) (bind_outcome c.0 (λ _ t. finish t.db (body t)) c.1)
begin-Atomic body s (ok _, t) h = rw (← h) (finish-Atomic t.db (body t))
begin-Atomic body s (err e, t) h = inl h
begin-Atomic body s (panic, t) h = inl h
begin-Atomic body s (hang, t) h = inl h

pub transaction-Atomic :
    {A : Type 0} (body : Io Session A) (s : Session)
    → Atomic s.db (body (call s).1) (transaction body s)
unfolding transaction
transaction-Atomic body s = begin-Atomic body s (call s) (call-db s)

-- A transaction that returns an error has changed nothing.
pub transaction_error :
    {A : Type 0} (body : Io Session A) (s : Session) {e : Error}
    → (transaction body s).0 ≡ err e
    → (transaction body s).1.db ≡ s.db
transaction_error body s h = elim (transaction-Atomic body s) [
  | inl same ↦ same
  | inr (a, _, p, _) ↦ cc
]

finish-ok :
    {A : Type 0} (before : Db) (r : Outcome A × Session) {a : A}
    → (finish before r).0 ≡ ok a
    → (b : A) × (r.0 ≡ ok b)
unfolding finish
finish-ok before (ok b, s) h = (b, refl)
finish-ok before (err e, s) h = cc
finish-ok before (panic, s) h = cc
finish-ok before (hang, s) h = cc

-- A transaction that returns a value has statements that return one.
pub transaction-ok :
    {A : Type 0} (body : Io Session A) (s : Session) {a : A}
    → (transaction body s).0 ≡ ok a
    → (b : A) × ((body (call s).1).0 ≡ ok b)
unfolding transaction
transaction-ok body s h =
    let (_, _, q) = bind-ok (call s).0 (λ _ t. finish t.db (body t)) (call s).1 h in
    finish-ok (call s).1.db (body (call s).1) (sym (ap (λ r. r.0) q) ∙ h)

-- Without faults a transaction is its statements.
pub transaction-NoFaults :
    {A : Type 0} (body : Io Session A) (s t : Session) (a : A)
    → NoFaults s
    → body s ≡ (ok a, t)
    → NoFaults t
    → transaction body s ≡ (ok a, t)
unfolding transaction finish
transaction-NoFaults body s t a h e k = rw (call-NoFaults s h) (rw e (rw (call-NoFaults t k)))

-- A call of database/sql returns a value or an error.
answered-Returns : (answers : List (Option Error)) → Returns (answered answers)
answered-Returns [] = inl (tt, refl)
answered-Returns (none ∷ rest) = inl (tt, refl)
answered-Returns (some e ∷ rest) = inr (e, refl)

pub call-Returns : (s : Session) → Returns (call s).0
unfolding call
call-Returns s = answered-Returns s.answers

-- Success with the change made, or an error with nothing changed.
abbrev pub AllOrError : Db → Db → Outcome (Unit {0}) × Session → Type 0
AllOrError before after r =
    ((r.0 ≡ ok tt) × (r.1.db ≡ after)) ⊎ ((e : Error) × (r.0 ≡ err e) × (r.1.db ≡ before))

returned_commit_lem :
    (before after : Db) (c : Outcome (Unit {0}) × Session)
    → Returns c.0
    → c.1.db ≡ after
    → AllOrError before after (returned_commit before c)
returned_commit_lem before after (ok u, s) r h = inl (refl, h)
returned_commit_lem before after (err e, s) r h = inr (e, refl, refl)
returned_commit_lem before after (panic, s) (inl (_, h)) _ = cc
returned_commit_lem before after (panic, s) (inr (_, h)) _ = cc
returned_commit_lem before after (hang, s) (inl (_, h)) _ = cc
returned_commit_lem before after (hang, s) (inr (_, h)) _ = cc

strict_finish_ok :
    (before after : Db) (r : Outcome (Unit {0}) × Session) {u : Unit {0}}
    → r.0 ≡ ok u
    → r.1.db ≡ after
    → AllOrError before after (strict_finish before r)
unfolding strict_finish
strict_finish_ok before after (ok a, s) h d =
    returned_commit_lem before after (call s) (call-Returns s) (call-db s ∙ d)
strict_finish_ok before after (err e, s) h d = cc
strict_finish_ok before after (panic, s) h d = cc
strict_finish_ok before after (hang, s) h d = cc

strict_finish_err :
    (before after : Db) (r : Outcome (Unit {0}) × Session) {e : Error}
    → r.0 ≡ err e
    → AllOrError before after (strict_finish before r)
unfolding strict_finish
strict_finish_err before after (ok a, s) h = cc
strict_finish_err before after (err e, s) h = inr (e, refl, refl)
strict_finish_err before after (panic, s) h = cc
strict_finish_err before after (hang, s) h = cc

exec-Returns : (change : Time → Db → Db) (s : Session) → Returns (exec change s).0
unfolding exec
exec-Returns change s = elim (call-Returns s) [
  | inl (u, e) ↦ rw e (inl (tt, refl))
  | inr (x, e) ↦ rw e (inr (x, refl))
]

-- A statement in a transaction of its own is made with success, or not made with an error.
pub strict_exec :
    (change : Time → Db → Db) (s : Session)
    → AllOrError s.db (change s.now s.db) (strict_transaction (exec change) s)
unfolding strict_transaction
strict_exec change s = elim (call-Returns s) [
  | inl (u, e) ↦ rw e (go (call s).1 (call-db s) (call-now s))
  | inr (x, e) ↦ rw e (inr (x, refl, call-db s))
]
  where
    go :
        (t : Session)
        → t.db ≡ s.db
        → t.now ≡ s.now
        → AllOrError s.db (change s.now s.db) (strict_finish t.db (exec change t))
    go t d n =
        subst (λ b. AllOrError s.db (change s.now s.db) (strict_finish b (exec change t))) (sym d)
          (elim (exec-Returns change t) [
            | inl (u, o) ↦
                strict_finish_ok s.db (change s.now s.db) (exec change t) o
                  ((exec-ok change t o).0 ∙ ap₂ change n d)
            | inr (x, o) ↦ strict_finish_err s.db (change s.now s.db) (exec change t) o
          ])

pub checked-NoFaults :
    (body : Io Session (Unit {0})) (s t : Session)
    → NoFaults s
    → body s ≡ (ok tt, t)
    → NoFaults t
    → checked_transaction body s ≡ (ok tt, t)
unfolding checked_transaction checked_finish
checked-NoFaults body s t h e k = rw (call-NoFaults s h) (rw e (rw (call-NoFaults t k)))

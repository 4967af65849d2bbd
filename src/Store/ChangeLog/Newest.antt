-- ===== src/Store/ChangeLog/Newest.antt =====
-- The `ORDER BY timestamp DESC LIMIT 1` of the queries of jobs/postgres_store.go.
use batchiepatchie.Prelude.{
  ◌≤◌, ◌<◌, ◌⊎◌, subst, keep, ◌≡◌, refl, ◌∙◌, ap, Bool, true, Option, none, some, List, [], ◌∷◌,
  ◌++◌, arith, if◌then◌else◌, All, All-append, Bool-cases, inl, inr,
}
use batchiepatchie.Jobs.{Time}

-- What the database promises of `ORDER BY timestamp DESC LIMIT 1`: of some rows it returns one, and
-- no row is later than that one.
pub record IsNewest {R : Type 0} (time : R → Time) (newest : List R → Option R) : Type 0 where
  pub of_none : newest [] ≡ none
  pub of_some : (row : R) (rows : List R) → (r : R) × (newest (row ∷ rows) ≡ some r)
  pub one_of :
      (rows : List R) (r : R)
      → newest rows ≡ some r
      → (before : List R) × (after : List R) × (rows ≡ before ++ r ∷ after)
  pub none_later :
      (rows : List R) (r : R) → newest rows ≡ some r → All (λ row. time row ≤ time r) rows

pub All-map :
    {A : Type 0} (P Q : A → Type 0) (xs : List A) → ((x : A) → P x → Q x) → All P xs → All Q xs
All-map P Q [] f h = tt
All-map P Q (x ∷ xs) f h = (f x h.0, All-map P Q xs f h.1)

All-within : {A : Type 0} (P : A → Type 0) (xs ys : List A) (x : A) → All P (xs ++ x ∷ ys) → P x
All-within P [] ys x h = h.0
All-within P (z ∷ xs) ys x h = All-within P xs ys x h.1

-- What holds of all rows holds of the newest.
pub newest_one :
    {R : Type 0} (time : R → Time) (newest : List R → Option R) (P : R → Type 0) (rows : List R)
    (r : R)
    → IsNewest time newest
    → newest rows ≡ some r
    → All P rows
    → P r
newest_one time newest P rows r n e h =
    let (before, after, s) = n.one_of rows r e in All-within P before after r (subst (All P) s h)

of_append :
    {R : Type 0} (time : R → Time) (newest : List R → Option R) (rows : List R) (r : R)
    → IsNewest time newest
    → (s : R) × (newest (rows ++ r ∷ []) ≡ some s)
of_append time newest [] r n = n.of_some r []
of_append time newest (row ∷ rows) r n = n.of_some row (rows ++ r ∷ [])

-- A row that is later than all others is the newest.
pub newest-append :
    {R : Type 0} (time : R → Time) (newest : List R → Option R) (rows : List R) (r : R)
    → IsNewest time newest
    → All (λ row. time row < time r) rows
    → newest (rows ++ r ∷ []) ≡ some r
newest-append {R} time newest rows r n h =
    let (s, e) = of_append time newest rows r n in
    let earlier_or_same : R → Type 0 = λ row. (time row < time r) ⊎ (row ≡ r) in
    let late : time r ≤ time s =
      All-within (λ row. time row ≤ time s) rows [] r (n.none_later (rows ++ r ∷ []) s e) in
    elim (newest_one time newest earlier_or_same (rows ++ r ∷ []) s n e (
      All-append earlier_or_same rows (r ∷ [])
        (All-map (λ row. time row < time r) earlier_or_same rows (λ _ p. inl p) h)
        (inr refl, tt))) [ inl p ↦ absurd (omega arith) | inr p ↦ e ∙ ap some p ]

module _ {R : Type 0} (p : R → Bool) where
  pub keep-true : (rows : List R) → All (λ row. p row ≡ true) (keep p rows)
  keep-true [] = tt
  keep-true (row ∷ rows) = elim (Bool-cases (p row)) [
    | inl e ↦ rw e (e, keep-true rows)
    | inr e ↦ rw e (keep-true rows)
  ]

  pub keep-append_one :
      (rows : List R) (r : R)
      → keep p (rows ++ r ∷ []) ≡ (if p r then keep p rows ++ r ∷ [] else keep p rows)
  keep-append_one [] r = refl
  keep-append_one (row ∷ rows) r = elim (Bool-cases (p r)) [
    | inl e ↦
        rw (keep-append_one rows r, e) (elim (Bool-cases (p row)) [ inl f ↦ rw f | inr f ↦ rw f ])
    | inr e ↦ rw (keep-append_one rows r, e) refl
  ]

  pub keep-All :
      (P Q : R → Type 0) (rows : List R)
      → ((row : R) → p row ≡ true → P row → Q row)
      → All P rows
      → All Q (keep p rows)
  keep-All P Q [] f h = tt
  keep-All P Q (row ∷ rows) f h = elim (Bool-cases (p row)) [
    | inl e ↦ rw e (f row e h.0, keep-All P Q rows f h.1)
    | inr e ↦ rw e (keep-All P Q rows f h.1)
  ]

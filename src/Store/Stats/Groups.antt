-- ===== src/Store/Stats/Groups.antt =====
-- How jobs/postgres_store.go breaks job statistics down: GROUP BY and its sums.
use batchiepatchie.Prelude.{
  ℕ, suc, ◌+◌, ◌-◌, leb, Bool, true, false, ◌≡◌, refl, sym, ap, ◌∙◌, ◌↔◌, Option, none, some, List,
  [], ◌∷◌, eq_iff, if◌then◌else◌, length, keep, arith, Bool-cases, inl, inr,
}
use batchiepatchie.Prelude.Int.{ℤ, pos, negsuc, ◌+ℤ◌, ◌-ℤ◌, ◌*ℤ◌, eqb_ℤ_iff}
use batchiepatchie.Jobs.{Time}
use batchiepatchie.Store.Db.{JobRow}
use batchiepatchie.Store.Stats.{
  Key, Sums, same_key, plus, elapsed, run_time, key_of, sums_of, add_sums, group_rows,
}

-- The aggregates of a key, if there is a group of it.
unfoldable pub group_of : Key → List (Key × Sums) → Option Sums
group_of key [] = none
group_of key ((other, sums) ∷ groups) =
    if same_key other key then some sums else group_of key groups

-- No two groups have the same key.
abbrev pub DistinctKeys : List (Key × Sums) → Type 0
DistinctKeys [] = Unit {0}
DistinctKeys ((key, sums) ∷ groups) = (group_of key groups ≡ none) × DistinctKeys groups

unfoldable pub total : (JobRow → ℤ) → List JobRow → ℤ
total amount [] = pos 0
total amount (row ∷ rows) = amount row +ℤ total amount rows

-- From one time to another.
abbrev pub from_to : Time → Time → ℤ
from_to started stopped =
    if leb started stopped then pos (stopped - started) else negsuc (started - stopped - 1)

-- How long a job ran that started and stopped at two times.
abbrev pub lasted : Option Time → Option Time → ℤ
lasted none none = pos 0
lasted none (some stopped) = pos 0
lasted (some started) none = pos 0
lasted (some started) (some stopped) = from_to started stopped

abbrev pub job_time : JobRow → ℤ
job_time row = lasted row.run_started_at row.stopped_at

elapsed_lem : (a b : Option Time) → elapsed b a ≡ lasted a b
unfolding ◌-ℤ◌
elapsed_lem none none = refl
elapsed_lem none (some b) = refl
elapsed_lem (some a) none = refl
elapsed_lem (some a) (some b) = ground arith

run_time_lem : (row : JobRow) → run_time row ≡ job_time row
unfolding run_time
run_time_lem row = elapsed_lem row.run_started_at row.stopped_at

-- The aggregates of some rows, which SQL has only for a group that is not empty.
abbrev pub aggregates : List JobRow → Option Sums
aggregates [] = none
aggregates (row ∷ rows) = some (record {
  vcpu_time = total (λ r. r.vcpus *ℤ job_time r) (row ∷ rows);
  memory_time = total (λ r. r.memory *ℤ job_time r) (row ∷ rows);
  instance_time = total job_time (row ∷ rows);
  job_count = length (row ∷ rows);
})

abbrev pub has_key : ℤ → Key → JobRow → Bool
has_key interval key row = same_key (key_of interval row) key

same_key_iff : (k l : Key) → (same_key k l ≡ true) ↔ (k ≡ l)
unfolding same_key
same_key_iff k l = ground (
  arith,
  eq_iff k.job_queue l.job_queue,
  eq_iff k.status l.status,
  eqb_ℤ_iff k.timestamp l.timestamp,
)

abbrev plus_found : Sums → Option Sums → Option Sums
plus_found sums none = some sums
plus_found sums (some found) = some (plus sums found)

add_zero : (a : ℤ) → a +ℤ pos 0 ≡ a
unfolding ◌+ℤ◌
add_zero a = ground arith

one_more : (n : ℕ) → 1 + suc n ≡ suc (suc n)
one_more n = omega arith

aggregates-cons :
    (row : JobRow) (rows : List JobRow)
    → aggregates (row ∷ rows) ≡ plus_found (sums_of row) (aggregates rows)
unfolding total sums_of
aggregates-cons row [] =
    rw
      (
        run_time_lem row,
        add_zero (row.vcpus *ℤ job_time row),
        add_zero (row.memory *ℤ job_time row),
        add_zero (job_time row),
      )
      refl
aggregates-cons row (other ∷ rows) = rw (run_time_lem row, one_more (length rows)) refl

apart :
    (key other asked : Key)
    → same_key other key ≡ false
    → same_key other asked ≡ true
    → same_key key asked ≡ false
apart key other asked e f =
    grind (arith, same_key_iff other key, same_key_iff other asked, same_key_iff key asked)

group_of-add_sums :
    (key asked : Key) (sums : Sums) (groups : List (Key × Sums))
    → group_of asked (add_sums key sums groups) ≡ (
        if same_key key asked
        then plus_found sums (group_of asked groups)
        else group_of asked groups)
unfolding group_of add_sums
group_of-add_sums key asked sums [] = refl
group_of-add_sums key asked sums ((other, found) ∷ groups) =
    elim (Bool-cases (same_key other key)) [
      | inl e ↦
          let h : same_key key asked ≡ same_key other asked =
            ap (λ k. same_key k asked) (sym ((same_key_iff other key).0 e)) in
          rw e (rw h (elim (Bool-cases (same_key other asked)) [ inl f ↦ rw f | inr f ↦ rw f ]))
      | inr e ↦ rw e (elim (Bool-cases (same_key other asked)) [
        | inl f ↦ rw f (rw (apart key other asked e f))
        | inr f ↦ rw f (group_of-add_sums key asked sums groups)
      ])
    ]

swapped : (k l : Key) → same_key k l ≡ false → same_key l k ≡ false
swapped k l e = grind (arith, same_key_iff k l, same_key_iff l k)

add_sums-DistinctKeys :
    (key : Key) (sums : Sums) (groups : List (Key × Sums))
    → DistinctKeys groups
    → DistinctKeys (add_sums key sums groups)
unfolding add_sums group_of
add_sums-DistinctKeys key sums [] d = (refl, tt)
add_sums-DistinctKeys key sums ((other, found) ∷ groups) d =
    elim (Bool-cases (same_key other key)) [
      | inl e ↦ rw e d
      | inr e ↦ rw e (
        group_of-add_sums key other sums groups ∙ rw (swapped other key e) d.0,
        add_sums-DistinctKeys key sums groups d.1,
      )
    ]

pub group_rows-DistinctKeys :
    (interval : ℤ) (rows : List JobRow) → DistinctKeys (group_rows interval rows)
unfolding group_rows
group_rows-DistinctKeys interval [] = tt
group_rows-DistinctKeys interval (row ∷ rows) =
    add_sums-DistinctKeys (key_of interval row) (sums_of row) (group_rows interval rows)
      (group_rows-DistinctKeys interval rows)

pub group_rows_lem :
    (interval : ℤ) (key : Key) (rows : List JobRow)
    → group_of key (group_rows interval rows) ≡ aggregates (keep (has_key interval key) rows)
unfolding group_rows group_of
group_rows_lem interval key [] = refl
group_rows_lem interval key (row ∷ rows) =
    group_of-add_sums (key_of interval row) key (sums_of row) (group_rows interval rows)
    ∙ elim (Bool-cases (has_key interval key row)) [
      | inl e ↦ rw e (
          ap (plus_found (sums_of row)) (group_rows_lem interval key rows)
          ∙ sym (aggregates-cons row (keep (has_key interval key) rows)))
      | inr e ↦ rw e (group_rows_lem interval key rows)
    ]

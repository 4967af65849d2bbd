-- ===== src/Store/Instances/Seen.antt =====
-- What an update of jobs/postgres_store.go makes of each instance.
use batchiepatchie.Prelude.{
  String, ◌≡◌, refl, subst, ◌∙◌, Bool, true, false, not, ◌&&◌, ◌||◌, Option, none, some, List, [],
  ◌∷◌, ◌==◌, eq_iff, arith, if◌then◌else◌, Bool-cases, Option-cases, inl, inr,
}
use batchiepatchie.Prelude.Dict.{
  member, Distinct, lookup, delete, keys, lookup-absent, member-keys-delete,
}
use batchiepatchie.Jobs.{Time, Ec2Info}
use batchiepatchie.Store.Db.{InstanceRow}
use batchiepatchie.Store.Instances.{add_once, alive_ids, earlier, upsert_instance, mark_gone}

unfoldable pub find_instance : String → List InstanceRow → Option InstanceRow
find_instance k [] = none
find_instance k (row ∷ rows) = if row.instance_id == k then some row else find_instance k rows

abbrev pub instance_ids : List InstanceRow → List String
instance_ids [] = []
instance_ids (row ∷ rows) = row.instance_id ∷ instance_ids rows

-- The row of an instance that was described: it is alive, and has appeared now or before.
abbrev pub met : Time → String → Ec2Info → Option InstanceRow → InstanceRow
met now id info none = record {
  appeared_at = now;
  disappeared_at = none;
  instance_id = id;
  info = info;
}
met now id info (some row) = record {
  appeared_at = earlier now row.appeared_at;
  disappeared_at = none;
  instance_id = id;
  info = info;
}

-- The row of an instance that was not: if it was alive, it disappears now.
abbrev pub missed : Time → Option InstanceRow → Option InstanceRow
missed now none = none
missed now (some row) = elim row.disappeared_at [
  | none ↦ some (record row { disappeared_at = some now })
  | some t ↦ some row
]

abbrev pub seen : Time → String → Option Ec2Info → Option InstanceRow → Option InstanceRow
seen now id none old = missed now old
seen now id (some info) old = some (met now id info old)

find_instance-upsert :
    (now : Time) (id k : String) (info : Ec2Info) (rows : List InstanceRow)
    → find_instance k (upsert_instance now id info rows)
      ≡ (if id == k then some (met now id info (find_instance k rows)) else find_instance k rows)
unfolding find_instance upsert_instance
find_instance-upsert now id k info [] = refl
find_instance-upsert now id k info (row ∷ rows) = elim (Bool-cases (row.instance_id == id)) [
  | inl e ↦
      let same : row.instance_id ≡ id = (eq_iff row.instance_id id).0 e in
      rw e (simp same (ground arith))
  | inr e ↦ rw e (
      ground (
        arith,
        find_instance-upsert now id k info rows,
        eq_iff row.instance_id k,
        eq_iff row.instance_id id,
        eq_iff id k,
      ))
]

unfoldable pub upsert_all_instances :
    Time → List (String × Ec2Info) → List InstanceRow → List InstanceRow
upsert_all_instances now [] rows = rows
upsert_all_instances now ((id, info) ∷ rest) rows =
    upsert_all_instances now rest (upsert_instance now id info rows)

abbrev pub with_info : Time → String → Option Ec2Info → Option InstanceRow → Option InstanceRow
with_info now id none old = old
with_info now id (some info) old = some (met now id info old)

pub find_instance-upsert_all :
    (now : Time) (k : String) (infos : List (String × Ec2Info)) (rows : List InstanceRow)
    → Distinct (keys infos)
    → find_instance k (upsert_all_instances now infos rows)
      ≡ with_info now k (lookup k infos) (find_instance k rows)
unfolding upsert_all_instances lookup
find_instance-upsert_all now k [] rows d = refl
find_instance-upsert_all now k ((id, info) ∷ rest) rows d =
    find_instance-upsert_all now k rest (upsert_instance now id info rows) d.1
    ∙ elim (Bool-cases (id == k)) [
      | inl e ↦
          let same : id ≡ k = (eq_iff id k).0 e in
          rw (find_instance-upsert now id k info rows, lookup-absent k rest (rw same at (d.0)), e)
            (rw same)
      | inr e ↦ rw (find_instance-upsert now id k info rows, e)
    ]

unfoldable pub mark_all : Time → List String → List InstanceRow → List InstanceRow
mark_all now [] rows = rows
mark_all now (id ∷ ids) rows = mark_all now ids (mark_gone now id rows)

abbrev pub gone_at : Time → Option InstanceRow → Option InstanceRow
gone_at now none = none
gone_at now (some row) = some (record row { disappeared_at = some now })

find_instance-mark_gone :
    (now : Time) (id k : String) (rows : List InstanceRow)
    → find_instance k (mark_gone now id rows)
      ≡ (if id == k then gone_at now (find_instance k rows) else find_instance k rows)
unfolding find_instance mark_gone
find_instance-mark_gone now id k [] = ground arith
find_instance-mark_gone now id k (row ∷ rows) = ground (
  arith,
  find_instance-mark_gone now id k rows,
  eq_iff row.instance_id id,
  eq_iff row.instance_id k,
  eq_iff id k,
)

pub find_instance-mark_all :
    (now : Time) (k : String) (ids : List String) (rows : List InstanceRow)
    → find_instance k (mark_all now ids rows)
      ≡ (if member k ids then gone_at now (find_instance k rows) else find_instance k rows)
unfolding mark_all
find_instance-mark_all now k [] rows = refl
find_instance-mark_all now k (id ∷ ids) rows =
    find_instance-mark_all now k ids (mark_gone now id rows)
    ∙ rw (find_instance-mark_gone now id k rows)
        (twice (id == k) (member k ids) (find_instance k rows))
  where
    twice :
        (a b : Bool) (o : Option InstanceRow)
        → (if b
            then gone_at now (if a then gone_at now o else o)
            else if a
            then gone_at now o
            else o)
          ≡ (if a || b then gone_at now o else o)
    twice true true none = refl
    twice true true (some row) = refl
    twice true false o = refl
    twice false true o = refl
    twice false false o = refl

abbrev pub is_alive : Option InstanceRow → Bool
is_alive none = false
is_alive (some row) = elim row.disappeared_at [ none ↦ true | some t ↦ false ]

find_instance-absent :
    (k : String) (rows : List InstanceRow)
    → member k (instance_ids rows) ≡ false
    → find_instance k rows ≡ none
unfolding find_instance
find_instance-absent k [] h = refl
find_instance-absent k (row ∷ rows) h = ground (arith, find_instance-absent k rows)

pub member-add_once :
    (k id : String) (ids : List String) → member k (add_once id ids) ≡ (id == k || member k ids)
member-add_once k id ids = ground (arith, eq_iff id k)

pub member-alive_ids :
    (k : String) (rows : List InstanceRow)
    → Distinct (instance_ids rows)
    → member k (alive_ids rows) ≡ is_alive (find_instance k rows)
unfolding alive_ids find_instance
member-alive_ids k [] d = refl
member-alive_ids k (row ∷ rows) d = elim (Option-cases row.disappeared_at) [
  | inl n ↦
      simp (n, member-add_once, member-alive_ids k rows d.1)
        (elim (Bool-cases (row.instance_id == k)) [
          | inl e ↦ simp (e, n) refl
          | inr e ↦ simp (e) refl
        ])
  | inr (t, n) ↦
      simp (n, member-alive_ids k rows d.1)
        (elim (Bool-cases (row.instance_id == k)) [
          | inl e ↦
              let same : row.instance_id ≡ k = (eq_iff row.instance_id k).0 e in
              let absent =
                find_instance-absent k rows
                  (subst (λ (i : String). member i (instance_ids rows) ≡ false) same (d.0)) in
              simp (e, n, absent) refl
          | inr e ↦ simp (e) refl
        ])
]

-- What is left of the set of instances that were alive.
unfoldable pub left_alive :
    List (String × Ec2Info) → List (String × Unit {0}) → List (String × Unit {0})
left_alive [] alive = alive
left_alive ((id, info) ∷ rest) alive = left_alive rest (delete id alive)

pub member-left_alive :
    (k : String) (infos : List (String × Ec2Info)) (alive : List (String × Unit {0}))
    → member k (keys (left_alive infos alive))
      ≡ (member k (keys alive) && not (member k (keys infos)))
unfolding left_alive
member-left_alive k [] alive = ground arith
member-left_alive k ((id, info) ∷ rest) alive =
    ground (arith, member-left_alive k rest (delete id alive), member-keys-delete id k alive)

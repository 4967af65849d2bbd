-- ===== src/Prelude/Dict.antt =====
-- Go's map[string]V as an association list with distinct keys: assignment replaces the entry of a
-- key or adds one, `delete` drops it, `range` walks the entries in list order.
use Prim.Native.String.{String}
use mathlib.Core.Path.{◌≡◌, refl}
use mathlib.Core.Bool.{Bool, true, false, not, ◌&&◌, ◌||◌}
use mathlib.Core.Option.{Option, none, some}
use mathlib.Core.List.{List, [], ◌∷◌, ◌++◌}
use native.Mathlib.Omega.{arith}
use text.Mathlib.Text.{◌==◌}
use text.Mathlib.TextEquality.{eq_iff}
use batchiepatchie.Prelude.Tests.{if◌then◌else◌}

-- Whether a text is among those of a list.
abbrev pub member : String → List String → Bool
member k [] = false
member k (j ∷ js) = j == k || member k js

abbrev pub is_some {ℓ} : {A : Type ℓ} → Option A → Bool
is_some none = false
is_some (some a) = true

-- No text stands twice.
abbrev pub Distinct : List String → Type 0
Distinct [] = Unit {0}
Distinct (k ∷ ks) = (member k ks ≡ false) × Distinct ks

module _ {ℓ} {V : Type ℓ} where
  unfoldable pub lookup : String → List (String × V) → Option V
  lookup key [] = none
  lookup key ((other, found) ∷ entries) = if other == key then some found else lookup key entries

  unfoldable pub insert : String → V → List (String × V) → List (String × V)
  insert key value [] = (key, value) ∷ []
  insert key value ((other, old) ∷ entries) =
      if other == key then (key, value) ∷ entries else (other, old) ∷ insert key value entries

  unfoldable pub delete : String → List (String × V) → List (String × V)
  delete k [] = []
  delete k ((j, w) ∷ m) = if j == k then delete k m else (j, w) ∷ delete k m

  abbrev pub keys : List (String × V) → List String
  keys [] = []
  keys ((k, v) ∷ m) = k ∷ keys m

  pub lookup-insert :
      (key asked : String) (value : V) (entries : List (String × V))
      → lookup asked (insert key value entries)
        ≡ (if key == asked then some value else lookup asked entries)
  unfolding lookup insert
  lookup-insert key asked value [] = refl
  lookup-insert key asked value ((other, old) ∷ entries) = ground (
    arith,
    lookup-insert key asked value entries,
    eq_iff other asked,
    eq_iff other key,
    eq_iff key asked,
  )

  pub lookup-delete :
      (k j : String) (m : List (String × V))
      → lookup j (delete k m) ≡ (if k == j then none else lookup j m)
  unfolding lookup delete
  lookup-delete k j [] = ground arith
  lookup-delete k j ((i, w) ∷ m) =
      ground (arith, eq_iff k j, eq_iff i k, eq_iff i j, lookup-delete k j m)

  pub lookup-absent :
      (k : String) (m : List (String × V)) → member k (keys m) ≡ false → lookup k m ≡ none
  unfolding lookup
  lookup-absent k [] h = refl
  lookup-absent k ((j, v) ∷ m) h = ground (arith, lookup-absent k m)

  pub member-lookup :
      (k : String) (m : List (String × V)) → member k (keys m) ≡ is_some (lookup k m)
  unfolding lookup
  member-lookup k [] = refl
  member-lookup k ((j, v) ∷ m) = ground (arith, member-lookup k m)

  pub member-keys-delete :
      (k j : String) (m : List (String × V))
      → member j (keys (delete k m)) ≡ (member j (keys m) && not (k == j))
  unfolding delete
  member-keys-delete k j [] = refl
  member-keys-delete k j ((i, v) ∷ m) =
      ground (arith, member-keys-delete k j m, eq_iff k j, eq_iff i k, eq_iff i j)

  pub member-keys-insert :
      (k j : String) (v : V) (m : List (String × V))
      → member j (keys (insert k v m)) ≡ (k == j || member j (keys m))
  unfolding insert
  member-keys-insert k j v [] = refl
  member-keys-insert k j v ((i, w) ∷ m) =
      ground (arith, eq_iff k j, eq_iff i k, eq_iff i j, member-keys-insert k j v m)

  pub insert-Distinct :
      (k : String) (v : V) (m : List (String × V))
      → Distinct (keys m)
      → Distinct (keys (insert k v m))
  unfolding insert
  insert-Distinct k v [] d = (refl, tt)
  insert-Distinct k v ((i, w) ∷ m) d =
      ground (arith, eq_iff i k, eq_iff k i, member-keys-insert k i v m, insert-Distinct k v m d.1)

-- A map used as a set: what stands in it after each text of a list was set.
unfoldable pub insert_all {ℓ} :
    {V : Type ℓ} → V → List String → List (String × V) → List (String × V)
insert_all v [] m = m
insert_all v (k ∷ ks) m = insert_all v ks (insert k v m)

pub member-keys-insert_all {ℓ} :
    {V : Type ℓ} (v : V) (ks : List String) (j : String) (m : List (String × V))
    → member j (keys (insert_all v ks m)) ≡ (member j ks || member j (keys m))
unfolding insert_all
member-keys-insert_all v [] j m = refl
member-keys-insert_all v (k ∷ ks) j m =
    ground (arith, member-keys-insert_all v ks j (insert k v m), member-keys-insert k j v m)

pub insert_all-Distinct {ℓ} :
    {V : Type ℓ} (v : V) (ks : List String) (m : List (String × V))
    → Distinct (keys m)
    → Distinct (keys (insert_all v ks m))
unfolding insert_all
insert_all-Distinct v [] m d = d
insert_all-Distinct v (k ∷ ks) m d =
    insert_all-Distinct v ks (insert k v m) (insert-Distinct k v m d)

pub member-append :
    (k : String) (xs ys : List String) → member k (xs ++ ys) ≡ (member k xs || member k ys)
member-append k [] ys = refl
member-append k (x ∷ xs) ys = ground (arith, member-append k xs ys)

-- In a list without repetition, a text is not among those before it.
pub Distinct-before :
    (k : String) (xs ys : List String) → Distinct (xs ++ k ∷ ys) → member k xs ≡ false
Distinct-before k [] ys d = refl
Distinct-before k (x ∷ xs) ys d =
    ground (arith, Distinct-before k xs ys d.1, member-append x xs (k ∷ ys), eq_iff x k, eq_iff k x)

-- ===== src/Store/Sql.antt =====
-- SQL's three-valued logic, as the WHERE clauses of jobs/postgres_store.go use it.
use batchiepatchie.Prelude.{Bool, true, false, not, ◌&&◌, ◌||◌, ◌≡◌, refl, Option, none, some}

-- `none` is NULL.
abbrev pub Truth : Type 0
Truth = Option Bool

infixr 30 ◌or◌
abbrev pub ◌or◌ : Truth → Truth → Truth
some true or q = some true
some false or q = q
none or some true = some true
none or some false = none
none or none = none

infixr 35 ◌and◌
abbrev pub ◌and◌ : Truth → Truth → Truth
some false and q = some false
some true and q = q
none and some false = some false
none and some true = none
none and none = none

-- `a <> b`: NULL if a side is.
abbrev pub differs {ℓ} : {A : Type ℓ} → (A → A → Bool) → Option A → Option A → Truth
differs eq none b = none
differs eq (some a) none = none
differs eq (some a) (some b) = some (not (eq a b))

abbrev pub is_null {ℓ} : {A : Type ℓ} → Option A → Truth
is_null none = some true
is_null (some a) = some false

abbrev pub is_not_null {ℓ} : {A : Type ℓ} → Option A → Truth
is_not_null none = some false
is_not_null (some a) = some true

-- A WHERE clause keeps a row only if it is true.
abbrev pub holds : Truth → Bool
holds none = false
holds (some b) = b

-- A disjunction is true if a side is, a conjunction if both are.
pub holds-or : (p q : Truth) → holds (p or q) ≡ (holds p || holds q)
holds-or none none = refl
holds-or none (some true) = refl
holds-or none (some false) = refl
holds-or (some true) q = refl
holds-or (some false) q = refl

pub holds-and : (p q : Truth) → holds (p and q) ≡ (holds p && holds q)
holds-and none none = refl
holds-and none (some true) = refl
holds-and none (some false) = refl
holds-and (some true) q = refl
holds-and (some false) q = refl

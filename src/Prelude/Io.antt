-- ===== src/Prelude/Io.antt =====
-- Code with effects: a function of the state of the world. A call of Go ends in a value, in an
-- error that it returns, in a panic, or (for a loop on fuel) in fuel that ran out.
use Prim.Native.String.{String}
use mathlib.Core.Path.{◌≡◌, refl}
use mathlib.Core.Logic.{◌⊎◌, inl, inr}
use mathlib.Core.Option.{Option, none, some}

-- The text of a Go `error`.
abbrev pub Error : Type 0
Error = String

pub data Outcome {ℓ} (A : Type ℓ) : Type ℓ where
  ok : A → Outcome A
  err : Error → Outcome A
  panic : Outcome A
  hang : Outcome A

-- A call that ends in a value or in an error.
abbrev pub Returns : {A : Type 0} → Outcome A → Type 0
Returns {A} outcome = ((value : A) × (outcome ≡ ok value)) ⊎ ((e : Error) × (outcome ≡ err e))

abbrev pub Io : Type 0 → Type 0 → Type 0
Io W A = W → Outcome A × W

-- `v, err := m`: the code looks at the error itself.
abbrev pub attempt_outcome : {A : Type 0} → Outcome A → Outcome (A ⊎ Error)
attempt_outcome (ok a) = ok (inl a)
attempt_outcome (err e) = ok (inr e)
attempt_outcome panic = panic
attempt_outcome hang = hang

module _ {W : Type 0} where
  abbrev pub pure : {A : Type 0} → A → Io W A
  pure a w = (ok a, w)

  abbrev pub fail : {A : Type 0} → Error → Io W A
  fail e w = (err e, w)

  abbrev pub crash : {A : Type 0} → Io W A
  crash w = (panic, w)

  abbrev pub out_of_fuel : {A : Type 0} → Io W A
  out_of_fuel w = (hang, w)

  -- What follows a call that returned.
  abbrev pub bind_outcome : {A B : Type 0} → Outcome A → (A → Io W B) → Io W B
  bind_outcome (ok a) f w = f a w
  bind_outcome (err e) f w = (err e, w)
  bind_outcome panic f w = (panic, w)
  bind_outcome hang f w = (hang, w)

  infixl 5 ◌>>=◌ ◌>>◌
  abbrev pub ◌>>=◌ : {A B : Type 0} → Io W A → (A → Io W B) → Io W B
  ◌>>=◌ m f w = bind_outcome (m w).0 f (m w).1

  abbrev pub ◌>>◌ : {B : Type 0} → Io W (Unit {0}) → Io W B → Io W B
  m >> k = m >>= λ _. k

  abbrev pub attempt : {A : Type 0} → Io W A → Io W (A ⊎ Error)
  attempt m w = (attempt_outcome (m w).0, (m w).1)

  -- A value, or the error in its place.
  abbrev pub returned : {A : Type 0} → A ⊎ Error → Io W A
  returned (inl a) = pure a
  returned (inr e) = fail e

  -- `*p`: a nil pointer panics.
  abbrev pub deref : {A : Type 0} → Option A → Io W A
  deref none w = (panic, w)
  deref (some a) w = (ok a, w)

-- A sequence that returned: its first part did, and the rest went on from there.
pub bind-ok :
    {W A B : Type 0} (r : Outcome A) (f : A → Io W B) (w : W) {b : B}
    → (bind_outcome r f w).0 ≡ ok b
    → (a : A) × (r ≡ ok a) × (bind_outcome r f w ≡ f a w)
bind-ok (ok a) f w h = (a, refl, refl)
bind-ok (err e) f w h = cc
bind-ok panic f w h = cc
bind-ok hang f w h = cc

-- Sequences with equal rests, and a sequence that only returns.
pub bind-ext :
    {W A B : Type 0} (r : Outcome A) (f g : A → Io W B) (w : W)
    → ((a : A) → f a w ≡ g a w)
    → bind_outcome r f w ≡ bind_outcome r g w
bind-ext (ok a) f g w h = h a
bind-ext (err e) f g w h = refl
bind-ext panic f g w h = refl
bind-ext hang f g w h = refl

pub bind-pure : {W A : Type 0} (r : Outcome A) (w : W) → bind_outcome r pure w ≡ (r, w)
bind-pure (ok a) w = refl
bind-pure (err e) w = refl
bind-pure panic w = refl
bind-pure hang w = refl

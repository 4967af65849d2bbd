-- ===== src/Aws/Paging.antt =====
-- The loops over the pages of an answer of AWS, as jobs/ and handlers/ write them: a call for each
-- page, until one has no token for the next.
use batchiepatchie.Prelude.{
  ℕ, zero, suc, ◌<◌, String, ◌≡◌, Option, none, some, List, [], ◌∷◌, arith, length,
}
use batchiepatchie.Prelude.Io.{Io, ok, ◌>>=◌, pure, out_of_fuel}

pub record PageOf (A : Type 0) : Type 0 where
  pub items : List A
  pub next_token : Option String

module _ {W A S : Type 0} (fetch : Option String → Io W (PageOf A)) where
  -- The loop, on fuel; the last argument is what the pages so far have given.
  unfoldable pub read_pages : ℕ → (S → List A → Io W S) → Option String → S → Io W S
  read_pages zero step token s = out_of_fuel
  read_pages (suc fuel) step token s = do
    page ← fetch token
    s' ← step s page.items
    elim page.next_token [ none ↦ pure s' | some next ↦ read_pages fuel step (some next) s' ]

module _ {W A : Type 0} (fetch : Option String → Io W (PageOf A)) where
  -- From the state `w` the pages from a token on hold these items, and the calls for them leave
  -- the world in the state `w'`.
  pub data Served : Option String → List A → List (List A) → W → W → Type 0 where
    last_served :
        {token : Option String} {items : List A} {w w' : W}
        → fetch token w ≡ (ok (record { items = items; next_token = none }), w')
        → Served token items [] w w'
    more_served :
        {token : Option String} {items next : List A} {more : List (List A)} {w w' w'' : W}
        {t : String}
        → fetch token w ≡ (ok (record { items = items; next_token = some t }), w')
        → Served (some t) next more w' w''
        → Served token items (next ∷ more) w w''

-- What a step makes of all pages.
abbrev pub over_pages : {A S : Type 0} → (S → List A → S) → List A → List (List A) → S → S
over_pages step page [] s = step s page
over_pages step page (next ∷ more) s = over_pages step next more (step s page)

-- With fuel for every page, a loop without other effects ends with what its step makes of them.
pub read_pages_lem :
    {W A S : Type 0} (fetch : Option String → Io W (PageOf A)) (step : S → List A → S) (fuel : ℕ)
    {token : Option String} {page : List A} {more : List (List A)} {w w' : W} (s : S)
    → Served fetch token page more w w'
    → length more < fuel
    → read_pages fetch fuel (λ s items. pure (step s items)) token s w
      ≡ (ok (over_pages step page more s), w')
unfolding read_pages
read_pages_lem fetch step zero s p h = absurd (omega arith)
read_pages_lem fetch step (suc fuel) s (last_served e) h = rw e
read_pages_lem fetch step (suc fuel) {page} s (more_served e p) h =
    rw e (read_pages_lem fetch step fuel (step s page) p (omega arith))

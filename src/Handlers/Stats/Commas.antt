-- ===== src/Handlers/Stats/Commas.antt =====
-- `strings.Split` by commas, as the searches of handlers/handlers.go use it.
use Prim.Native.Char.{Char, code}
use text.Mathlib.TextEquality.{Char-path}
use text.Mathlib.TextLemmas.{nil-append, cons-append}
use batchiepatchie.Prelude.{
  String, true, false, ◌≡◌, refl, ap, sym, ◌∙◌, List, [], ◌∷◌, eqb, Bool-cases, inl, inr, All,
  arith,
}
use batchiepatchie.Prelude.Text.{concat, has}
use batchiepatchie.Handlers.Stats.{comma, split_commas}

-- Texts joined by commas.
unfoldable pub join_commas : List String → String
join_commas [] = ""
join_commas (s ∷ []) = s
join_commas (s ∷ t ∷ ss) = concat s (concat "," (join_commas (t ∷ ss)))

join-extend :
    (c : Char) (first : String) (rest : List String)
    → join_commas (String.◌∷◌ c first ∷ rest) ≡ String.◌∷◌ c (join_commas (first ∷ rest))
unfolding join_commas
join-extend c first [] = refl
join-extend c first (t ∷ ss) = cons-append c first (concat "," (join_commas (t ∷ ss)))

join-comma :
    (c : Char) (texts s : String)
    → eqb (code c) comma ≡ true
    → texts ≡ s
    → concat "" (concat "," texts) ≡ String.◌∷◌ c s
join-comma c texts s h j =
    nil-append (concat "," texts)
    ∙ cons-append "," "" texts
    ∙ ap (String.◌∷◌ ",") (nil-append texts ∙ j)
    ∙ ap (λ d. String.◌∷◌ d s) (sym (Char-path c "," (ground arith)))

-- The texts of a split hold no comma, there is at least one, and joined they are the text.
pub split_commas_lem :
    (s : String)
    → (first : String) × (rest : List String) × (split_commas s ≡ first ∷ rest)
      × (join_commas (first ∷ rest) ≡ s)
      × All (λ t. has comma t ≡ false) (first ∷ rest)
unfolding split_commas join_commas
split_commas_lem String.[] = ("", [], refl, refl, (refl, tt))
split_commas_lem (String.◌∷◌ c s) =
    let (first, rest, e, j, (a, all)) = split_commas_lem s in
    rw e (elim (Bool-cases (eqb (code c) comma)) [
      | inl h ↦ rw h (
        "",
        first ∷ rest,
        refl,
        join-comma c (join_commas (first ∷ rest)) s h j,
        (refl, (a, all)),
      )
      | inr h ↦ rw h (
        String.◌∷◌ c first,
        rest,
        refl,
        join-extend c first rest ∙ ap (String.◌∷◌ c) j,
        (ground arith, all),
      )
    ])

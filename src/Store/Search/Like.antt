-- ===== src/Store/Search/Like.antt =====
-- The patterns that `Find` of jobs/postgres_store.go makes of the words of a search.
use Prim.Native.Char.{Char, code}
use text.Mathlib.TextLemmas.{nil-append, cons-append}
use batchiepatchie.Prelude.{
  String, Bool, true, false, ◌≡◌, refl, ap, ◌∙◌, eqb, Bool-cases, inl, inr, arith,
}
use batchiepatchie.Prelude.Text.{concat}
use batchiepatchie.Store.Search.{backslash, percent, underscore, glob, begins, some_suffix, is_like}
use batchiepatchie.Store.Search.Escape.{is_special, escaped, search_escape_lem}

module _ (same : Char → Char → Bool) where
  -- The text begins with the word, up to case.
  unfoldable pub starts_with : String → String → Bool
  starts_with String.[] s = true
  starts_with (String.◌∷◌ c word) s = begins same c (starts_with word) s

  -- The text contains the word, up to case.
  abbrev pub contains : String → String → Bool
  contains word s = some_suffix same (starts_with word) s

  some_suffix-ext :
      (p q : String → Bool) (s : String)
      → ((s : String) → p s ≡ q s)
      → some_suffix same p s ≡ some_suffix same q s
  unfolding some_suffix
  some_suffix-ext p q String.[] h = h ""
  some_suffix-ext p q (String.◌∷◌ d s) h = rw (h (String.◌∷◌ d s), some_suffix-ext p q s h)

  begins-ext :
      (c : Char) (p q : String → Bool) (s : String)
      → ((s : String) → p s ≡ q s)
      → begins same c p s ≡ begins same c q s
  begins-ext c p q String.[] h = refl
  begins-ext c p q (String.◌∷◌ d s) h = rw (h s)

  some_suffix-empty : (p : String → Bool) (s : String) → p "" ≡ true → some_suffix same p s ≡ true
  unfolding some_suffix
  some_suffix-empty p String.[] h = h
  some_suffix-empty p (String.◌∷◌ d s) h = rw (some_suffix-empty p s h) (ground arith)

  percent_step :
      (p s : String)
      → is_like same false (String.◌∷◌ "%" p) s ≡ some_suffix same (is_like same false p) s
  unfolding is_like
  percent_step p s = refl

  escape_step :
      (c : Char) (p s : String)
      → is_like same false (String.◌∷◌ "\\" (String.◌∷◌ c p)) s
        ≡ begins same c (is_like same false p) s
  unfolding is_like
  escape_step c p s = refl

  plain_step :
      (c : Char) (p s : String)
      → is_special c ≡ false
      → is_like same false (String.◌∷◌ c p) s ≡ begins same c (is_like same false p) s
  unfolding is_like
  plain_step c p s h =
      let b : eqb (code c) backslash ≡ false = ground arith in
      let q : eqb (code c) percent ≡ false = ground arith in
      let u : eqb (code c) underscore ≡ false = ground arith in rw (b, q, u)

  empty_like : is_like same false "" "" ≡ true
  unfolding is_like
  empty_like = refl

  escaped-like :
      (word s : String) → is_like same false (concat (escaped word) "%") s ≡ starts_with word s
  unfolding starts_with escaped
  escaped-like String.[] s =
      ap (λ p. is_like same false p s) (nil-append "%")
      ∙ percent_step "" s
      ∙ some_suffix-empty (is_like same false "") s empty_like
  escaped-like (String.◌∷◌ c word) s =
      let rest = concat (escaped word) "%" in
      let ih = begins-ext c (is_like same false rest) (starts_with word) s (escaped-like word) in
      elim (Bool-cases (is_special c)) [
        | inl h ↦ rw h (
            ap (λ p. is_like same false p s)
              (cons-append "\\" (String.◌∷◌ c (escaped word)) "%"
                ∙ ap (String.◌∷◌ "\\") (cons-append c (escaped word) "%"))
            ∙ escape_step c rest s
            ∙ ih)
        | inr h ↦ rw h (
            ap (λ p. is_like same false p s) (cons-append c (escaped word) "%")
            ∙ plain_step c rest s h
            ∙ ih)
      ]

  -- The pattern of a word matches exactly the texts that contain it, also where the word has
  -- characters that a pattern gives a meaning.
  pub glob-like : (word s : String) → is_like same false (glob word) s ≡ contains word s
  glob-like word s =
      ap (λ p. is_like same false p s)
        (ap (λ e. concat "%" (concat e "%")) (search_escape_lem word)
          ∙ cons-append "%" "" (concat (escaped word) "%")
          ∙ ap (String.◌∷◌ "%") (nil-append (concat (escaped word) "%")))
      ∙ percent_step (concat (escaped word) "%") s
      ∙ some_suffix-ext (is_like same false (concat (escaped word) "%")) (starts_with word) s
          (escaped-like word)

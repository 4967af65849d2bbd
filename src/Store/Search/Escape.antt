-- ===== src/Store/Search/Escape.antt =====
-- `searchEscape` of jobs/postgres_store.go, as one pass over the text.
use Prim.Native.Char.{Char, code}
use batchiepatchie.Prelude.{
  String, Bool, false, ◌||◌, ◌≡◌, refl, eqb, if◌then◌else◌, Bool-cases, inl, inr, arith,
}
use batchiepatchie.Store.Search.{backslash, percent, underscore, prefixed, search_escape}

-- The characters that a pattern gives a meaning.
abbrev pub is_special : Char → Bool
is_special c = eqb (code c) backslash || (eqb (code c) percent || eqb (code c) underscore)

unfoldable pub escaped : String → String
escaped String.[] = ""
escaped (String.◌∷◌ c s) =
    let rest = escaped s in
    if is_special c then String.◌∷◌ "\\" (String.◌∷◌ c rest) else String.◌∷◌ c rest

passes : (s : String) → prefixed underscore (prefixed percent (prefixed backslash s)) ≡ escaped s
unfolding escaped prefixed
passes String.[] = refl
passes (String.◌∷◌ c s) = elim (Bool-cases (eqb (code c) backslash)) [
  | inl b ↦
      let p : eqb (code c) percent ≡ false = ground arith in
      let u : eqb (code c) underscore ≡ false = ground arith in rw b (rw (p, passes s) (rw (u)))
  | inr b ↦ rw b (elim (Bool-cases (eqb (code c) percent)) [
    | inl p ↦ let u : eqb (code c) underscore ≡ false = ground arith in rw p (rw (u, passes s))
    | inr p ↦ rw p (rw (passes s))
  ])
]

-- The three replacements escape each special character once, with the backslashes first.
pub search_escape_lem : (s : String) → search_escape s ≡ escaped s
unfolding search_escape
search_escape_lem s = passes s

-- ===== src/Program/Paths/Clean.antt =====
-- What `path.Clean` leaves, as batchiepatchie.go uses it: a cleaned path is never on S3.
use Prim.Native.Char.{Char, code}
use text.Mathlib.TextLemmas.{nil-append, cons-append}
use batchiepatchie.Prelude.{
  String, Bool, true, false, ◌&&◌, ◌||◌, ◌≡◌, ◌≢◌, refl, ap, sym, ◌∙◌, none, List, [], ◌∷◌, ◌==◌,
  eq_iff, eqb, All, Bool-cases, Option-cases, inl, inr, arith,
}
use batchiepatchie.Prelude.Text.{concat, has, slash}
use batchiepatchie.Fetcher.{s3_match, after_prefix}
use batchiepatchie.Fetcher.Locations.{s3_match_iff}
use batchiepatchie.Program.Paths.{
  prepend, split_path, is_rooted, up, clean_elements, joined, join_reversed, or_dot, clean,
}

abbrev IsFree : String → Type 0
IsFree s = has slash s ≡ false

abbrev IsElement : String → Type 0
IsElement s = (s ≢ "") × IsFree s

prepend-All :
    (c : Char) (ss : List String)
    → eqb (code c) slash ≡ false
    → All IsFree ss
    → All IsFree (prepend c ss)
prepend-All c [] h a = (ground arith, tt)
prepend-All c (s ∷ ss) h a = (ground arith, a.1)

split_path-All : (s : String) → All IsFree (split_path s)
unfolding split_path
split_path-All String.[] = (refl, tt)
split_path-All (String.◌∷◌ c s) = elim (Bool-cases (eqb (code c) slash)) [
  | inl e ↦ rw e (refl, split_path-All s)
  | inr e ↦ rw e (prepend-All c (split_path s) e (split_path-All s))
]

up-All : (rooted : Bool) (kept : List String) → All IsElement kept → All IsElement (up rooted kept)
up-All true [] a = tt
up-All false [] a = ((λ e. cc, refl), tt)
up-All rooted (last ∷ before) a = elim (Bool-cases (last == "..")) [
  | inl e ↦ rw e ((λ n. cc, refl), a)
  | inr e ↦ rw e a.1
]

clean_elements-All :
    (rooted : Bool) (rest kept : List String)
    → All IsFree rest
    → All IsElement kept
    → All IsElement (clean_elements rooted rest kept)
unfolding clean_elements
clean_elements-All rooted [] kept f a = a
clean_elements-All rooted (element ∷ rest) kept f a =
    clean_elements-All rooted rest _ f.1 (elim (Bool-cases (element == "")) [
      | inl e ↦ rw e a
      | inr e ↦ rw e (elim (Bool-cases (element == ".")) [
        | inl d ↦ rw d a
        | inr d ↦ rw d (elim (Bool-cases (element == "..")) [
          | inl u ↦ rw u (up-All rooted kept a)
          | inr u ↦ rw u ((λ n. ground (arith, eq_iff element ""), f.0), a)
        ])
      ])
    ])

-- Two slashes in a row.
unfoldable twice : String → Bool
twice String.[] = false
twice (String.◌∷◌ c s) = (eqb (code c) slash && is_rooted s) || twice s

twice-free : (s : String) → IsFree s → twice s ≡ false
unfolding twice
twice-free String.[] f = refl
twice-free (String.◌∷◌ c s) f = ground (arith, twice-free s)

rooted-element : (s t : String) → IsElement s → is_rooted (concat s t) ≡ false
rooted-element String.[] t e = absurd (e.0 refl)
rooted-element (String.◌∷◌ c s) t e = ap is_rooted (cons-append c s t) ∙ ground arith

twice-concat :
    (s t : String)
    → IsFree s
    → is_rooted t ≡ false
    → twice t ≡ false
    → twice (concat s (concat "/" t)) ≡ false
unfolding twice
twice-concat String.[] t f r h =
    ap twice (nil-append (concat "/" t) ∙ cons-append "/" "" t ∙ ap (String.◌∷◌ "/") (nil-append t))
    ∙ rw (r, h) refl
twice-concat (String.◌∷◌ c s) t f r h =
    ap twice (cons-append c s (concat "/" t)) ∙ ground (arith, twice-concat s t (ground arith) r h)

twice-joined :
    (kept : List String) (path : String)
    → All IsElement kept
    → is_rooted path ≡ false
    → twice path ≡ false
    → twice (joined kept path) ≡ false
unfolding joined
twice-joined [] path a r h = h
twice-joined (element ∷ before) path a r h =
    twice-joined before (concat element (concat "/" path)) a.1
      (rooted-element element (concat "/" path) a.0) (twice-concat element path a.0.1 r h)

twice-join_reversed : (kept : List String) → All IsElement kept → twice (join_reversed kept) ≡ false
unfolding twice
twice-join_reversed [] a = refl
twice-join_reversed (last ∷ before) a =
    twice-joined before last a.1 (not_rooted last a.0) (twice-free last a.0.1)
  where
    not_rooted : (s : String) → IsElement s → is_rooted s ≡ false
    not_rooted String.[] e = refl
    not_rooted (String.◌∷◌ c s) e = ground arith

twice-or_dot : (path : String) → twice path ≡ false → twice (or_dot path) ≡ false
unfolding twice
twice-or_dot path h = elim (Bool-cases (path == "")) [ inl e ↦ rw e refl | inr e ↦ rw e h ]

rooted-concat : (s t : String) → is_rooted s ≡ true → is_rooted (concat s t) ≡ true
rooted-concat String.[] t h = cc
rooted-concat (String.◌∷◌ c s) t h = ap is_rooted (cons-append c s t) ∙ h

twice-prefix : (s t : String) → twice s ≡ true → twice (concat s t) ≡ true
unfolding twice
twice-prefix String.[] t h = cc
twice-prefix (String.◌∷◌ c s) t h =
    ap twice (cons-append c s t) ∙ ground (arith, rooted-concat s t, twice-prefix s t)

twice-local : (path : String) → twice path ≡ false → s3_match path ≡ none
unfolding twice
twice-local path h = elim (Option-cases (s3_match path)) [
  | inl n ↦ n
  | inr ((bucket, key), e) ↦
      let (l, _) = (s3_match_iff path bucket key).0 e in
      cc (sym h ∙ ap twice l ∙ twice-prefix "s3://" (concat bucket (concat "/" key)) refl)
]

rooted-local : (path : String) → s3_match (concat "/" path) ≡ none
unfolding s3_match after_prefix
rooted-local path = ap s3_match (cons-append "/" "" path)

-- A path that is cleaned has no two slashes in a row, so it is read as a local file.
pub clean-local : (path : String) → s3_match (clean path) ≡ none
unfolding clean
clean-local path = elim (Bool-cases (is_rooted path)) [
  | inl r ↦ rw r (rooted-local (join_reversed (clean_elements true (split_path path) [])))
  | inr r ↦ rw r (
      twice-local (or_dot (join_reversed (clean_elements false (split_path path) []))) (
        twice-or_dot (join_reversed (clean_elements false (split_path path) [])) (
          twice-join_reversed (clean_elements false (split_path path) [])
            (clean_elements-All false (split_path path) [] (split_path-All path) tt))))
]

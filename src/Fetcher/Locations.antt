-- ===== src/Fetcher/Locations.antt =====
-- Which locations of fetcher/fetcher.go are on S3.
use Prim.Native.Char.{code}
use text.Mathlib.TextEquality.{Char-path}
use text.Mathlib.TextLemmas.{nil-append, cons-append}
use batchiepatchie.Prelude.{
  String, false, not, ◌&&◌, ◌≡◌, ◌≢◌, ◌↔◌, subst, ap, ap₂, sym, ◌∙◌, some, eqb, ◌==◌, eq_iff,
  Bool-cases, Option-cases, inl, inr, arith,
}
use batchiepatchie.Prelude.Text.{concat, has, slash, newline}
use batchiepatchie.Fetcher.{after_prefix, split_slash, split_rest, checked_match, is_key, s3_match}

-- What is on S3: a bucket without a slash and a key without a newline, neither empty.
abbrev pub IsObject : String → String → Type 0
IsObject bucket key =
    (bucket ≢ "") × (has slash bucket ≡ false) × (key ≢ "") × (has newline key ≡ false)

abbrev pub s3_location : String → String → String
s3_location bucket key = concat "s3://" (concat bucket (concat "/" key))

after_prefix-concat : (p rest : String) → after_prefix p (concat p rest) ≡ some rest
unfolding after_prefix
after_prefix-concat String.[] rest = ap some (nil-append rest)
after_prefix-concat (String.◌∷◌ c p) rest =
    ap (after_prefix (String.◌∷◌ c p)) (cons-append c p rest)
    ∙ rw (after_prefix-concat p rest) (ground arith)

after_prefix_lem : (p s : String) {rest : String} → after_prefix p s ≡ some rest → s ≡ concat p rest
unfolding after_prefix
after_prefix_lem String.[] s {rest} h = cc (nil-append rest)
after_prefix_lem (String.◌∷◌ c p) String.[] h = cc
after_prefix_lem (String.◌∷◌ c p) (String.◌∷◌ d s) {rest} h =
    elim (Bool-cases (eqb (code c) (code d))) [
      | inl e ↦
          ap₂ String.◌∷◌ (sym (Char-path c d (ground arith))) (after_prefix_lem p s (rw e at h))
          ∙ sym (cons-append c p rest)
      | inr e ↦ cc (rw e at h)
    ]

split_slash-concat :
    (bucket key : String)
    → has slash bucket ≡ false
    → split_slash (concat bucket (concat "/" key)) ≡ some (bucket, key)
unfolding split_slash
split_slash-concat String.[] key h =
    ap split_slash (nil-append (concat "/" key) ∙ cons-append "/" "" key)
    ∙ ap (λ k. some ("", k)) (nil-append key)
split_slash-concat (String.◌∷◌ c bucket) key h =
    ap split_slash (cons-append c bucket (concat "/" key))
    ∙ rw (split_slash-concat bucket key (ground arith)) (ground arith)

split_slash_lem :
    (s : String) {bucket key : String}
    → split_slash s ≡ some (bucket, key)
    → (s ≡ concat bucket (concat "/" key)) × (has slash bucket ≡ false)
unfolding split_slash
split_slash_lem String.[] h = cc
split_slash_lem (String.◌∷◌ c s) {bucket} {key} h = elim (Bool-cases (eqb (code c) slash)) [
  | inl e ↦
      let b : "" ≡ bucket = cc (rw e at h) in
      let k : s ≡ key = cc (rw e at h) in
      (
        ap₂ String.◌∷◌ (Char-path c "/" (ground arith)) (k ∙ sym (nil-append key))
            ∙ sym (cons-append "/" "" key)
            ∙ sym (nil-append (concat "/" key))
            ∙ ap (λ t. concat t (concat "/" key)) b,
        ap (has slash) (sym b),
      )
  | inr e ↦ elim (Option-cases (split_slash s)) [
    | inl n ↦ cc (rw (e, n) at h)
    | inr ((before, after), f) ↦
        let (i, j) = split_slash_lem s f in
        let b : String.◌∷◌ c before ≡ bucket = cc (rw (e, f) at h) in
        let k : after ≡ key = cc (rw (e, f) at h) in
        (
          ap (String.◌∷◌ c) i
              ∙ sym (cons-append c before (concat "/" after))
              ∙ ap₂ (λ t l. concat t (concat "/" l)) b k,
          ap (has slash) (sym b) ∙ ground arith,
        )
  ]
]

checked-object :
    (bucket key : String)
    → IsObject bucket key
    → checked_match (some (bucket, key)) ≡ some (bucket, key)
checked-object bucket key h = ground (arith, eq_iff bucket "", eq_iff key "")

checked-IsObject :
    (bucket key : String) {b k : String}
    → has slash bucket ≡ false
    → checked_match (some (bucket, key)) ≡ some (b, k)
    → (bucket ≡ b) × (key ≡ k) × IsObject bucket key
checked-IsObject bucket key s h = elim (Bool-cases (not (bucket == "") && is_key key)) [
  | inl e ↦ (
    cc (rw e at h),
    cc (rw e at h),
    (λ n. ground (arith, eq_iff bucket ""), s, λ n. ground (arith, eq_iff key ""), ground arith),
  )
  | inr e ↦ cc (rw e at h)
]

-- A location is the object with this key of this bucket exactly if it is spelt so, the bucket has
-- no slash, the key no newline, and neither is empty.
pub s3_match_iff :
    (location bucket key : String)
    → (s3_match location ≡ some (bucket, key))
      ↔ ((location ≡ s3_location bucket key) × IsObject bucket key)
unfolding s3_match
s3_match_iff location bucket key = (there, back)
  where
    back :
        (location ≡ s3_location bucket key) × IsObject bucket key
        → checked_match (split_rest (after_prefix "s3://" location)) ≡ some (bucket, key)
    back (e, o) =
        ap (λ l. checked_match (split_rest (after_prefix "s3://" l))) e
        ∙ ap (λ r. checked_match (split_rest r))
            (after_prefix-concat "s3://" (concat bucket (concat "/" key)))
        ∙ ap checked_match (split_slash-concat bucket key o.1)
        ∙ checked-object bucket key o

    there :
        checked_match (split_rest (after_prefix "s3://" location)) ≡ some (bucket, key)
        → (location ≡ s3_location bucket key) × IsObject bucket key
    there h = elim (Option-cases (after_prefix "s3://" location)) [
      | inl n ↦ cc (rw n at h)
      | inr (rest, e) ↦ elim (Option-cases (split_slash rest)) [
        | inl n ↦ cc (rw (e, n) at h)
        | inr ((before, after), f) ↦
            let (i, s) = split_slash_lem rest f in
            let (b, k, o) = checked-IsObject before after s (rw (e, f) at h) in
            (
              after_prefix_lem "s3://" location e
                  ∙ ap (concat "s3://") (i ∙ ap₂ (λ t l. concat t (concat "/" l)) b k),
              subst (λ t. IsObject t key) b (subst (IsObject before) k o),
            )
      ]
    ]

-- ===== src/Store/Search/Clauses.antt =====
-- The conditions and the arguments that `Find` of jobs/postgres_store.go builds, in closed form.
use mathlib.Core.List.{append_assoc, append-nil}
use batchiepatchie.Prelude.{
  ℕ, suc, String, ◌≡◌, refl, sym, ap, ap₂, ◌∙◌, some, List, [], ◌∷◌, ◌++◌, arith, length,
  length-append, get_elem?, map,
}
use batchiepatchie.Store.Search.{
  Clause, ilike, Arg, text, glob, add_tokens, add_items, add_in, arg_text, argument,
}

abbrev pub texts : List String → List Arg
texts [] = []
texts (s ∷ ss) = text s ∷ texts ss

-- The numbers of the placeholders of some texts, after `n` others.
abbrev pub numbers_from : ℕ → List String → List ℕ
numbers_from n [] = []
numbers_from n (s ∷ ss) = suc n ∷ numbers_from (suc n) ss

pub length-one : (args : List Arg) (a : Arg) → length (args ++ a ∷ []) ≡ suc (length args)
length-one args a = omega (arith, length-append args (a ∷ []))

pub elem-after :
    (before : List Arg) (a : Arg) (after : List Arg)
    → get_elem? (before ++ a ∷ after) (length before) ≡ some a
elem-after [] a after = refl
elem-after (b ∷ before) a after = elem-after before a after

-- The placeholders stand for the texts, whatever arguments come after.
pub arguments_from :
    (before : List Arg) (ss : List String) (after : List Arg)
    → map (argument (before ++ (texts ss ++ after))) (numbers_from (length before) ss) ≡ ss
arguments_from before [] after = refl
arguments_from before (s ∷ ss) after =
    ap₂ ◌∷◌ (ap arg_text (elem-after before (text s) (texts ss ++ after))) (
      ap₂ (λ args n. map (argument args) (numbers_from n ss))
        (sym (append_assoc before (text s ∷ []) (texts ss ++ after)))
        (sym (length-one before (text s)))
      ∙ arguments_from (before ++ text s ∷ []) ss after)

pub add_tokens_lem :
    (tokens : List String) (args : List Arg) (scan : List Clause)
    → add_tokens tokens args scan ≡ (
      args ++ texts (map glob tokens),
      scan ++ map ilike (numbers_from (length args) (map glob tokens)),
    )
unfolding add_tokens
add_tokens_lem [] args scan = ap₂ (λ a s. (a, s)) (sym (append-nil args)) (sym (append-nil scan))
add_tokens_lem (token ∷ tokens) args scan =
    let args' = args ++ text (glob token) ∷ [] in
    let words = map glob tokens in
    let n = length-one args (text (glob token)) in
    add_tokens_lem tokens args' (scan ++ ilike (length args') ∷ [])
    ∙ ap₂ (λ a c. (a, c)) (append_assoc args (text (glob token) ∷ []) (texts words))
        (append_assoc scan (ilike (length args') ∷ [])
            (map ilike (numbers_from (length args') words))
          ∙ ap (λ k. scan ++ ilike k ∷ map ilike (numbers_from k words)) n)

pub add_items_lem :
    (items : List String) (args : List Arg) (numbers : List ℕ)
    → add_items items args numbers
      ≡ (args ++ texts items, numbers ++ numbers_from (length args) items)
unfolding add_items
add_items_lem [] args numbers =
    ap₂ (λ a s. (a, s)) (sym (append-nil args)) (sym (append-nil numbers))
add_items_lem (item ∷ items) args numbers =
    let args' = args ++ text item ∷ [] in
    let n = length-one args (text item) in
    add_items_lem items args' (numbers ++ length args' ∷ [])
    ∙ ap₂ (λ a c. (a, c)) (append_assoc args (text item ∷ []) (texts items))
        (append_assoc numbers (length args' ∷ []) (numbers_from (length args') items)
          ∙ ap (λ k. numbers ++ k ∷ numbers_from k items) n)

-- The condition on a list that is not empty.
abbrev pub in_clause : {C : Type 0} → (List ℕ → C) → ℕ → List String → List C
in_clause clause n [] = []
in_clause clause n (item ∷ items) = clause (numbers_from n (item ∷ items)) ∷ []

pub add_in_lem :
    {C : Type 0} (clause : List ℕ → C) (items : List String) (args : List Arg) (filters : List C)
    → add_in clause items (args, filters)
      ≡ (args ++ texts items, filters ++ in_clause clause (length args) items)
unfolding add_in
add_in_lem clause [] args filters =
    ap₂ (λ a s. (a, s)) (sym (append-nil args)) (sym (append-nil filters))
add_in_lem clause (item ∷ items) args filters = rw (add_items_lem (item ∷ items) args [])

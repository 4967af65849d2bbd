-- ===== src/Env/Pieces.antt =====
-- How envsubstituter/envsubstituter.go reads a text: as a sequence of bytes and of names in `${...}`.
use batchiepatchie.Prelude.{
  ℕ, ◌≡◌, refl, sym, subst, ◌∙◌, ap, ◌⊎◌, Bool, true, false, ◌&&◌, Option, none, some, List, [],
  ◌∷◌, ◌++◌, arith, eqb, Bool-cases, inl, inr,
}
use mathlib.Core.List.{append_assoc}
use batchiepatchie.Env.{Bytes, dollar, open_brace, close_brace}

pub data Piece : Type 0 where
  byte : ℕ → Piece
  variable : Bytes → Piece

-- The text of a piece.
abbrev pub write : Piece → Bytes
write (byte c) = c ∷ []
write (variable name) = dollar ∷ open_brace ∷ (name ++ close_brace ∷ [])

abbrev pub render : List Piece → Bytes
render [] = []
render (p ∷ ps) = write p ++ render ps

-- A name that is opened and not closed may stand at the end.
abbrev pub unclosed : Option Bytes → Bytes
unclosed none = []
unclosed (some name) = dollar ∷ open_brace ∷ name

abbrev pub LacksBrace : Bytes → Type 0
LacksBrace [] = Unit {0}
LacksBrace (c ∷ s) = (eqb c close_brace ≡ false) × LacksBrace s

-- Whether a byte with what follows would open a name.
abbrev pub opens : ℕ → List Piece → Bool
opens c [] = false
opens c (byte d ∷ ps) = eqb c dollar && eqb d open_brace
opens c (variable name ∷ ps) = false

-- The pieces are those that a reader sees: no two bytes open a name, and no name holds a brace.
abbrev pub IsRead : List Piece → Type 0
IsRead [] = Unit {0}
IsRead (byte c ∷ ps) = (opens c ps ≡ false) × IsRead ps
IsRead (variable name ∷ ps) = LacksBrace name × IsRead ps

abbrev pub IsReadTail : Option Bytes → Type 0
IsReadTail none = Unit {0}
IsReadTail (some name) = LacksBrace name

pub name_and_rest :
    (name more tail : Bytes)
    → dollar ∷ open_brace ∷ (name ++ close_brace ∷ []) ++ more ++ tail
      ≡ dollar ∷ open_brace ∷ (name ++ close_brace ∷ (more ++ tail))
name_and_rest name more tail =
    ap (λ s. dollar ∷ open_brace ∷ s)
      (append_assoc (name ++ close_brace ∷ []) more tail
        ∙ append_assoc name (close_brace ∷ []) (more ++ tail))

-- A text as its reader sees it.
pub record Reading (s : Bytes) : Type 0 where
  pub pieces : List Piece
  pub tail : Option Bytes
  pub is_read : IsRead pieces
  pub tail_is_read : IsReadTail tail
  pub written : s ≡ render pieces ++ unclosed tail

-- The same for a text that begins inside a name.
pub record Inside (s : Bytes) : Type 0 where
  pub name : Bytes
  pub lacks : LacksBrace name
  pub ends : (s ≡ name) ⊎ ((after : Bytes) × (s ≡ name ++ close_brace ∷ after) × Reading after)

Inside-cons : (c : ℕ) (s : Bytes) → eqb c close_brace ≡ false → Inside s → Inside (c ∷ s)
Inside-cons c s e i = record {
  name = c ∷ i.name;
  lacks = (e, i.lacks);
  ends = elim i.ends [
    | inl p ↦ inl (ap (λ t. c ∷ t) p)
    | inr (after, p, r) ↦ inr (after, ap (λ t. c ∷ t) p, r)
  ];
}

Inside-end : (c : ℕ) (s : Bytes) → eqb c close_brace ≡ true → Reading s → Inside (c ∷ s)
Inside-end c s e r =
    let same : c ≡ close_brace = ground arith in
    record { name = []; lacks = tt; ends = inr (s, ap (λ b. b ∷ s) same, r) }

to_inside : (c : ℕ) (s : Bytes) → Reading s → Inside s → Inside (c ∷ s)
to_inside c s r i = elim (Bool-cases (eqb c close_brace)) [
  | inl e ↦ Inside-end c s e r
  | inr e ↦ Inside-cons c s e i
]

opened : (s : Bytes) → Inside s → Reading (dollar ∷ open_brace ∷ s)
opened s i = elim i.ends [
  | inl p ↦ record {
    pieces = [];
    tail = some i.name;
    is_read = tt;
    tail_is_read = i.lacks;
    written = ap (λ t. dollar ∷ open_brace ∷ t) p;
  }
  | inr (after, p, r) ↦ record {
    pieces = variable i.name ∷ r.pieces;
    tail = r.tail;
    is_read = (i.lacks, r.is_read);
    tail_is_read = r.tail_is_read;
    written =
        ap (λ t. dollar ∷ open_brace ∷ t) (p ∙ ap (λ t. i.name ++ close_brace ∷ t) r.written)
        ∙ sym (name_and_rest i.name (render r.pieces) (unclosed r.tail));
  }
]

not_opened :
    (c d : ℕ) (s : Bytes) (ps : List Piece) (tail : Option Bytes)
    → (eqb c dollar && eqb d open_brace) ≡ false
    → d ∷ s ≡ render ps ++ unclosed tail
    → opens c ps ≡ false
not_opened c d s [] tail h e = refl
not_opened c d s (byte d' ∷ ps) tail h e = let same : d ≡ d' = cc in ground arith
not_opened c d s (variable name ∷ ps) tail h e = refl

copied :
    (c d : ℕ) (s : Bytes)
    → (eqb c dollar && eqb d open_brace) ≡ false
    → Reading (d ∷ s)
    → Reading (c ∷ d ∷ s)
copied c d s h r = record {
  pieces = byte c ∷ r.pieces;
  tail = r.tail;
  is_read = (not_opened c d s r.pieces r.tail h r.written, r.is_read);
  tail_is_read = r.tail_is_read;
  written = ap (λ t. c ∷ t) r.written;
}

single : (c : ℕ) → Reading (c ∷ [])
single c = record {
  pieces = byte c ∷ [];
  tail = none;
  is_read = (refl, tt);
  tail_is_read = tt;
  written = refl;
}

at_opening :
    (c d : ℕ) (s : Bytes)
    → (eqb c dollar && eqb d open_brace) ≡ true
    → Inside s
    → Reading (c ∷ d ∷ s)
at_opening c d s h i =
    let p : c ≡ dollar = ground arith in
    let q : d ≡ open_brace = ground arith in
    subst (λ b. Reading (b ∷ d ∷ s)) (sym p)
      (subst (λ b. Reading (dollar ∷ b ∷ s)) (sym q) (opened s i))

pub read_all : (s : Bytes) → Reading s × Inside s
read_all [] = (
  record { pieces = []; tail = none; is_read = tt; tail_is_read = tt; written = refl },
  record { name = []; lacks = tt; ends = inl refl },
)
read_all (c ∷ []) = let (r, i) = read_all [] in (single c, to_inside c [] r i)
read_all (c ∷ d ∷ s) =
    let (r, i) = read_all (d ∷ s) in
    let (r', i') = read_all s in
    (
      elim (Bool-cases (eqb c dollar && eqb d open_brace)) [
        | inl h ↦ at_opening c d s h i'
        | inr h ↦ copied c d s h r
      ],
      to_inside c (d ∷ s) r i,
    )

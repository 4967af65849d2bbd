-- ===== src/Env/Meaning.antt =====
-- What the substitution of envsubstituter/envsubstituter.go does to the pieces of a text.
use batchiepatchie.Prelude.{
  ℕ, ◌≡◌, refl, ◌∙◌, ap, false, Option, none, some, List, [], ◌∷◌, ◌++◌, arith,
}
use mathlib.Core.List.{append_assoc, append-nil}
use batchiepatchie.Env.{
  Bytes, Substituted, substituted, no_brace, dollar, open_brace, close_brace, with_value, scan,
  environment_substitute,
}
use batchiepatchie.Env.Pieces.{
  Piece, byte, variable, render, unclosed, LacksBrace, opens, IsRead, IsReadTail, name_and_rest,
  read_all,
}

module _ (lookup_env : Bytes → Option Bytes) where
  -- The bytes as they are and the values of the variables, up to the first that is not defined.
  unfoldable pub expand : Bytes → List Piece → Option Bytes → Substituted
  expand out [] none = substituted out
  expand out [] (some name) = no_brace
  expand out (byte c ∷ ps) tail = expand (out ++ c ∷ []) ps tail
  expand out (variable name ∷ ps) tail =
      with_value name out (lookup_env name) (λ out'. expand out' ps tail)

  scan_name :
      (name more out rest : Bytes)
      → LacksBrace more
      → scan lookup_env (some name) out (more ++ close_brace ∷ rest)
        ≡ with_value
            (name ++ more)
            out
            (lookup_env (name ++ more))
            (λ out'. scan lookup_env none out' rest)
  unfolding scan
  scan_name name [] out rest h = rw append-nil
  scan_name name (c ∷ more) out rest h = rw (h.0) (
      scan_name (name ++ c ∷ []) more out rest h.1
      ∙ ap (λ n. with_value n out (lookup_env n) (λ out'. scan lookup_env none out' rest))
          (append_assoc name (c ∷ []) more))

  scan_unclosed :
      (name more out : Bytes) → LacksBrace more → scan lookup_env (some name) out more ≡ no_brace
  unfolding scan
  scan_unclosed name [] out h = refl
  scan_unclosed name (c ∷ more) out h = rw (h.0) (scan_unclosed (name ++ c ∷ []) more out h.1)

  -- A byte is copied unless it opens a name with what follows.
  scan_byte :
      (c : ℕ) (out : Bytes) (ps : List Piece) (tail : Option Bytes)
      → opens c ps ≡ false
      → scan lookup_env none out (c ∷ (render ps ++ unclosed tail))
        ≡ scan lookup_env none (out ++ c ∷ []) (render ps ++ unclosed tail)
  unfolding scan
  scan_byte c out [] none h = refl
  scan_byte c out [] (some name) h = ground arith
  scan_byte c out (byte d ∷ ps) tail h = rw h
  scan_byte c out (variable name ∷ ps) tail h = ground arith

  scan_open :
      (out s : Bytes)
      → scan lookup_env none out (dollar ∷ open_brace ∷ s) ≡ scan lookup_env (some []) out s
  unfolding scan
  scan_open out s = refl

  then_rest :
      (name out : Bytes) (ps : List Piece) (tail : Option Bytes) (value : Option Bytes)
      → ((out' : Bytes)
          → scan lookup_env none out' (render ps ++ unclosed tail) ≡ expand out' ps tail)
      → with_value name out value (λ out'. scan lookup_env none out' (render ps ++ unclosed tail))
        ≡ with_value name out value (λ out'. expand out' ps tail)
  then_rest name out ps tail none ih = refl
  then_rest name out ps tail (some value) ih = ih (out ++ value)

  scan_lem :
      (out : Bytes) (ps : List Piece) (tail : Option Bytes)
      → IsRead ps
      → IsReadTail tail
      → scan lookup_env none out (render ps ++ unclosed tail) ≡ expand out ps tail
  unfolding expand
  scan_lem out [] none h t = unfold scan in refl
  scan_lem out [] (some name) h t = unfold scan in scan_unclosed [] name out t
  scan_lem out (byte c ∷ ps) tail h t =
      scan_byte c out ps tail h.0 ∙ scan_lem (out ++ c ∷ []) ps tail h.1 t
  scan_lem out (variable name ∷ ps) tail h t = rw (name_and_rest name (render ps) (unclosed tail)) (
      scan_open out (name ++ close_brace ∷ (render ps ++ unclosed tail))
      ∙ scan_name [] name out (render ps ++ unclosed tail) h.0
      ∙ then_rest name out ps tail (lookup_env name) (λ out'. scan_lem out' ps tail h.1 t))

  -- Every text is made of bytes and of closed names, with at most one unclosed name at its end; the
  -- substitution copies the bytes and puts the values of the names, and reports the first name that
  -- is not defined, or else the unclosed one.
  pub environment_substitute_lem :
      (subject : Bytes)
      → (pieces : List Piece) × (tail : Option Bytes) × (subject ≡ render pieces ++ unclosed tail)
        × IsRead pieces
        × IsReadTail tail
        × (environment_substitute lookup_env subject ≡ expand [] pieces tail)
  unfolding environment_substitute
  environment_substitute_lem subject =
      let r = (read_all subject).0 in
      (
        r.pieces,
        r.tail,
        r.written,
        r.is_read,
        r.tail_is_read,
        ap (scan lookup_env none []) r.written
            ∙ scan_lem [] r.pieces r.tail r.is_read r.tail_is_read,
      )

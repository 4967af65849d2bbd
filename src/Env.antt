-- ===== src/Env.antt =====
-- envsubstituter/envsubstituter.go: `EnvironmentSubstitute`, on the bytes of a text. The environment
-- is a parameter; the texts of the two errors are left out.
pub mod Pieces
pub mod Meaning
use batchiepatchie.Prelude.{ℕ, ◌&&◌, Option, none, some, List, [], ◌∷◌, ◌++◌, if◌then◌else◌, eqb}

abbrev pub Bytes : Type 0
Bytes = List ℕ

-- The text that is returned, or the error: a variable that is not defined, or a missing brace.
pub data Substituted : Type 0 where
  substituted : Bytes → Substituted
  not_defined : Bytes → Substituted
  no_brace : Substituted

abbrev pub dollar : ℕ
dollar = b'$'

abbrev pub open_brace : ℕ
open_brace = b'{'

abbrev pub close_brace : ℕ
close_brace = b'}'

-- What follows the closing brace of a name, with the value that the environment has for it.
abbrev pub with_value : Bytes → Bytes → Option Bytes → (Bytes → Substituted) → Substituted
with_value name out none rest = not_defined name
with_value name out (some value) rest = rest (out ++ value)

module _ (lookup_env : Bytes → Option Bytes) where
  -- The two loops. Outside a name the first argument is `none`, inside it is `env_name`; the
  -- second is `result`. A `$` at the end of the text begins no name.
  unfoldable pub scan : Option Bytes → Bytes → Bytes → Substituted
  scan none out [] = substituted out
  scan none out (c ∷ []) = substituted (out ++ c ∷ [])
  scan none out (c ∷ d ∷ s) =
      let name = scan (some []) out s in
      let copy = scan none (out ++ c ∷ []) (d ∷ s) in
      if eqb c dollar && eqb d open_brace then name else copy
  scan (some name) out [] = no_brace
  scan (some name) out (c ∷ s) =
      let closed = with_value name out (lookup_env name) (λ out'. scan none out' s) in
      let longer = scan (some (name ++ c ∷ [])) out s in
      if eqb c close_brace then closed else longer

  unfoldable pub environment_substitute : Bytes → Substituted
  environment_substitute subject = scan none [] subject

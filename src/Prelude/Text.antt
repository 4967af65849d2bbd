-- ===== src/Prelude/Text.antt =====
-- Texts by their bytes, and Go's `strconv.Atoi`.
use Prim.Native.Nat.{ℕ, zero, suc, ◌+◌, ◌-◌, ◌*◌}
use Prim.Native.Char.{code}
use Prim.Native.String.{String, ◌++◌}
use mathlib.Core.Bool.{Bool, false, ◌&&◌, ◌||◌}
use mathlib.Core.Option.{Option, none, some}
use mathlib.Core.List.{List, [], ◌∷◌}
use batchiepatchie.Prelude.Tests.{ltb, leb, eqb, if◌then◌else◌}
use batchiepatchie.Prelude.Int.{ℤ, pos, negsuc, two_63}

-- Go's `+` on strings.
abbrev pub concat : String → String → String
concat s t = s ++ t

-- The code points of a text: its bytes, if it is ASCII.
abbrev pub codes : String → List ℕ
codes String.[] = []
codes (String.◌∷◌ c s) = code c ∷ codes s

-- The value of a run of decimal digits after those read so far.
unfoldable pub digits_value : ℕ → List ℕ → Option ℕ
digits_value n [] = some n
digits_value n (c ∷ cs) =
    let rest = digits_value (n * 10 + (c - b'0')) cs in
    if leb b'0' c && leb c b'9' then rest else none

unfoldable pub magnitude : List ℕ → Option ℕ
magnitude [] = none
magnitude (c ∷ cs) = digits_value 0 (c ∷ cs)

abbrev positive : Option ℕ → Option ℤ
positive none = none
positive (some n) = if ltb n two_63 then some (pos n) else none

abbrev negative : Option ℕ → Option ℤ
negative none = none
negative (some zero) = some (pos 0)
negative (some (suc n)) = if ltb n two_63 then some (negsuc n) else none

-- `strconv.Atoi`: a sign or none, then digits, in the range of an int64; `none` is an error.
unfoldable pub atoi_codes : List ℕ → Option ℤ
unfolding magnitude digits_value
atoi_codes [] = none
atoi_codes (c ∷ cs) =
    if eqb c b'-'
    then negative (magnitude cs)
    else if eqb c b'+'
    then positive (magnitude cs)
    else positive (magnitude (c ∷ cs))

unfoldable pub atoi : String → Option ℤ
unfolding atoi_codes
atoi s = atoi_codes (codes s)

abbrev pub slash : ℕ
slash = b'/'

-- `.` of a regular expression is any character but this.
abbrev pub newline : ℕ
newline = 10

-- Whether a text has a character of some code.
abbrev pub has : ℕ → String → Bool
has n String.[] = false
has n (String.◌∷◌ c s) = eqb (code c) n || has n s

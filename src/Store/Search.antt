-- ===== src/Store/Search.antt =====
-- `Find` of jobs/postgres_store.go: the query that is built for a search, and what it selects.
pub mod Like
pub mod Escape
pub mod Clauses
pub mod Found
use Prim.Native.Char.{Char, code}
use batchiepatchie.Prelude.{
  ℕ, zero, suc, ◌+◌, ◌*◌, String, Bool, true, false, ◌&&◌, ◌||◌, Option, none, some, List, [], ◌∷◌,
  ◌++◌, ◌==◌, eqb, leb, ltb, if◌then◌else◌, length, get_elem?, take, drop, keep, map,
}
use batchiepatchie.Prelude.Dict.{member}
use batchiepatchie.Prelude.Int.{ℤ, pos, negsuc}
use batchiepatchie.Prelude.Io.{Io, ◌>>◌, fail}
use batchiepatchie.Prelude.Text.{concat}
use batchiepatchie.Jobs.{Time, Job, Options}
use batchiepatchie.Store.Db.{JobRow, Db, Session, call, query}
use batchiepatchie.Store.Queries.{job_of_row}

unfoldable pub parse_sort_column : String → String
parse_sort_column input =
    if input == "id"
    then "job_id"
    else if input == "name"
    then "job_name"
    else if input == "status"
    then "status"
    else if input == "stopped_at"
    then "stopped_at"
    else "last_updated"

abbrev pub backslash : ℕ
backslash = 92

abbrev pub percent : ℕ
percent = b'%'

abbrev pub underscore : ℕ
underscore = b'_'

-- `strings.Replace` of every character of a code by a backslash and itself.
unfoldable pub prefixed : ℕ → String → String
prefixed n String.[] = ""
prefixed n (String.◌∷◌ c s) =
    let rest = prefixed n s in
    if eqb (code c) n then String.◌∷◌ "\\" (String.◌∷◌ c rest) else String.◌∷◌ c rest

unfoldable pub search_escape : String → String
search_escape search = prefixed underscore (prefixed percent (prefixed backslash search))

abbrev pub glob : String → String
glob token = concat "%" (concat (search_escape token) "%")

-- `unicode.IsSpace`.
abbrev pub is_space : ℕ → Bool
is_space n =
    (leb 9 n && leb n 13)
    || eqb n 32
    || eqb n 133
    || eqb n 160
    || eqb n 5760
    || (leb 8192 n && leb n 8202)
    || eqb n 8232
    || eqb n 8233
    || eqb n 8239
    || eqb n 8287
    || eqb n 12288

-- A character put before the first word of a text, or as a word of its own.
abbrev pub put : Char → Bool → List String → List String
put c true words = String.◌∷◌ c String.[] ∷ words
put c false [] = String.◌∷◌ c String.[] ∷ []
put c false (word ∷ words) = String.◌∷◌ c word ∷ words

abbrev pub at_end : String → Bool
at_end String.[] = true
at_end (String.◌∷◌ c s) = is_space (code c)

-- `strings.Fields`.
unfoldable pub fields : String → List String
fields String.[] = []
fields (String.◌∷◌ c s) =
    let rest = fields s in if is_space (code c) then rest else put c (at_end s) rest

-- The conditions that `Find` builds; a number is that of a placeholder `$n`.
pub data Clause : Type 0 where
  newer_than : Time → Clause
  ilike : ℕ → Clause
  status_in : List ℕ → Clause
  job_queue_in : List ℕ → Clause

pub data Arg : Type 0 where
  number : ℤ → Arg
  text : String → Arg

-- `interval` of the date range, in nanoseconds.
unfoldable pub interval_of : String → Time
interval_of range =
    if range == "10m"
    then 600000000000
    else if range == "1h"
    then 3600000000000
    else if range == "1d"
    then 86400000000000
    else if range == "2d"
    then 172800000000000
    else if range == "3d"
    then 259200000000000
    else if range == "7d"
    then 604800000000000
    else 2592000000000000

-- The loop over the tokens: the arguments and the conditions so far get one more of each.
unfoldable pub add_tokens : List String → List Arg → List Clause → List Arg × List Clause
add_tokens [] args scan = (args, scan)
add_tokens (token ∷ tokens) args scan =
    let args' = args ++ text (glob token) ∷ [] in
    add_tokens tokens args' (scan ++ ilike (length args') ∷ [])

-- The loops over `opts.Status` and `opts.Queues`: the placeholders of one `IN`.
unfoldable pub add_items : List String → List Arg → List ℕ → List Arg × List ℕ
add_items [] args numbers = (args, numbers)
add_items (item ∷ items) args numbers =
    let args' = args ++ text item ∷ [] in add_items items args' (numbers ++ length args' ∷ [])

unfoldable pub add_in :
    {C : Type 0} → (List ℕ → C) → List String → List Arg × List C → List Arg × List C
add_in clause [] (args, filters) = (args, filters)
add_in clause (item ∷ items) (args, filters) =
    let (args', numbers) = add_items (item ∷ items) args [] in
    (args', filters ++ clause numbers ∷ [])

pub record Query : Type 0 where
  pub args : List Arg
  pub unconditional_filters : List Clause
  pub scanner : List Clause

unfoldable pub make_query : Options → Query
make_query opts =
    let (args, scan) =
      add_tokens (fields opts.search) (number opts.limit ∷ number opts.offset ∷ [])
        (newer_than (interval_of opts.date_range) ∷ []) in
    let (args', filters) =
      add_in job_queue_in opts.queues (add_in status_in opts.status (args, [])) in
    record { args = args'; unconditional_filters = filters; scanner = scan }

-- The value of a placeholder; one without an argument is the empty text.
abbrev pub arg_text : Option Arg → String
arg_text none = ""
arg_text (some (number n)) = ""
arg_text (some (text s)) = s

abbrev pub argument : List Arg → ℕ → String
argument args zero = ""
argument args (suc n) = arg_text (get_elem? args n)

-- `same` is whether two characters are equal up to case.
module _ (same : Char → Char → Bool) where
  -- A text that begins with this character and goes on so.
  abbrev pub begins : Char → (String → Bool) → String → Bool
  begins c rest String.[] = false
  begins c rest (String.◌∷◌ d s) = same c d && rest s

  abbrev pub any_character : (String → Bool) → String → Bool
  any_character rest String.[] = false
  any_character rest (String.◌∷◌ d s) = rest s

  -- Some rest of a text passes a test.
  unfoldable pub some_suffix : (String → Bool) → String → Bool
  some_suffix test String.[] = test String.[]
  some_suffix test (String.◌∷◌ d s) = test (String.◌∷◌ d s) || some_suffix test s

  abbrev pub is_empty : String → Bool
  is_empty String.[] = true
  is_empty (String.◌∷◌ d s) = false

  -- `text ILIKE pattern`; the flag says that the character before was an escape.
  unfoldable pub is_like : Bool → String → String → Bool
  is_like true String.[] s = false
  is_like false String.[] s = is_empty s
  is_like true (String.◌∷◌ c p) s = begins c (is_like false p) s
  is_like false (String.◌∷◌ c p) s =
      if eqb (code c) backslash
      then is_like true p s
      else if eqb (code c) percent
      then some_suffix (is_like false p) s
      else if eqb (code c) underscore
      then any_character (is_like false p) s
      else begins c (is_like false p) s

  -- `job_id || job_name || job_queue || image`.
  abbrev pub searched : JobRow → String
  searched row = concat row.job_id (concat row.job_name (concat row.job_queue row.image))

  unfoldable pub holds_for : Time → List Arg → JobRow → Clause → Bool
  holds_for now args row (newer_than age) = ltb now (row.last_updated + age)
  holds_for now args row (ilike n) = is_like false (argument args n) (searched row)
  holds_for now args row (status_in ns) = member row.status (map (argument args) ns)
  holds_for now args row (job_queue_in ns) = member row.job_queue (map (argument args) ns)

  unfoldable pub all_hold : Time → List Arg → JobRow → List Clause → Bool
  all_hold now args row [] = true
  all_hold now args row (clause ∷ clauses) =
      holds_for now args row clause && all_hold now args row clauses

  unfoldable pub selects : Query → Time → JobRow → Bool
  selects q now row =
      all_hold now q.args row q.unconditional_filters && all_hold now q.args row q.scanner

  abbrev pub page : ℤ → ℤ → List JobRow → List Job
  page (pos limit) (pos offset) rows =
      map (λ row. job_of_row row none) (take limit (drop offset rows))
  page (pos limit) (negsuc n) rows = []
  page (negsuc n) offset rows = []

  -- `order_by` sorts rows by a column, ascending or not.
  module _ (order_by : String → Bool → List JobRow → List JobRow) where
    abbrev pub result : Options → Time → Db → List Job
    result opts now db = page opts.limit opts.offset (
        order_by (parse_sort_column opts.sort_by) opts.sort_asc
          (keep (selects (make_query opts) now) db.jobs))

    abbrev pub limited : Options → ℤ → ℤ → Io Session (List Job)
    limited opts (negsuc n) offset = call >> fail "LIMIT must not be negative"
    limited opts (pos limit) (negsuc n) = call >> fail "OFFSET must not be negative"
    limited opts (pos limit) (pos offset) = query (result opts)

    unfoldable pub find : Options → Io Session (List Job)
    find opts = limited opts opts.limit opts.offset

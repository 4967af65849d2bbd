-- ===== src/Tests/Searched.antt =====
-- The theorem about the search, on concrete rows.
use Prim.Native.Char.{Char, code}
use batchiepatchie.Prelude.{String, Bool, true, ◌≡◌, refl, none, List, [], ◌∷◌, eqb}
use batchiepatchie.Prelude.Int.{pos}
use batchiepatchie.Prelude.Io.{ok}
use batchiepatchie.Jobs.{Options}
use batchiepatchie.Store.Db.{JobRow}
use batchiepatchie.Store.Queries.{job_of_row}
use batchiepatchie.Store.Search.{find, interval_of, fields, some_suffix}
use batchiepatchie.Store.Search.Found.{contains_all, find_lem}
use batchiepatchie.Store.Search.Like.{starts_with}
use batchiepatchie.Tests.{row_with, later}

abbrev same : Char → Char → Bool
same c d = eqb (code c) (code d)

abbrev as_stored : String → Bool → List JobRow → List JobRow
as_stored column ascending rows = rows

abbrev pub options : Options
options = record {
  search = "a train";
  date_range = "1h";
  limit = pos 10;
  offset = pos 0;
  queues = "gpu" ∷ [];
  sort_by = "id";
  sort_asc = true;
  status = "RUNNING" ∷ "PENDING" ∷ [];
}

find_example :
    find same as_stored options later ≡ (ok (job_of_row (row_with "a" "RUNNING") none ∷ []), later)
unfolding interval_of contains_all fields some_suffix starts_with
find_example = find_lem same as_stored options 10 0 later refl refl refl

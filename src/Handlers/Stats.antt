-- ===== src/Handlers/Stats.antt =====
-- handlers/handlers.go: the searches, and the interval that job statistics are broken down by.
pub mod Intervals
pub mod Commas
pub mod Answered
use Prim.Native.Char.{Char, code}
use batchiepatchie.Prelude.{
  ℕ, suc, ◌*◌, ◌-◌, String, Bool, List, [], ◌∷◌, ◌⊎◌, inl, inr, ◌==◌, Option, none, some, eqb,
  if◌then◌else◌,
}
use batchiepatchie.Prelude.Int.{ℤ, pos, negsuc, ◌-ℤ◌, int64, leb_ℤ}
use batchiepatchie.Prelude.Io.{Io, Error, ◌>>=◌}
use batchiepatchie.Prelude.Text.{atoi}
use batchiepatchie.Jobs.{Job, Options, JobStatsOptions}
use batchiepatchie.Handlers.{Body, jobs_body, failed, respond}

abbrev pub minute_seconds : ℤ
minute_seconds = pos 60

abbrev pub hour_seconds : ℤ
hour_seconds = pos 3600

abbrev pub day_seconds : ℤ
day_seconds = pos 86400

-- `end - start`, an int64.
unfoldable pub duration : ℤ → ℤ → ℤ
duration start end = int64 (end -ℤ start)

unfoldable pub interval : ℤ → ℤ
interval duration =
    if leb_ℤ (pos 2592000) duration
    then day_seconds
    else if leb_ℤ (pos 259200) duration
    then pos 21600
    else if leb_ℤ (pos 14400) duration
    then hour_seconds
    else if leb_ℤ hour_seconds duration
    then pos 900
    else pos 300

abbrev pub comma : ℕ
comma = b','

-- A character put before the first text of a list.
abbrev pub extend : Char → List String → List String
extend c [] = String.◌∷◌ c String.[] ∷ []
extend c (s ∷ ss) = String.◌∷◌ c s ∷ ss

-- `strings.Split(s, ",")`.
unfoldable pub split_commas : String → List String
split_commas String.[] = "" ∷ []
split_commas (String.◌∷◌ c s) =
    let rest = split_commas s in if eqb (code c) comma then "" ∷ rest else extend c rest

-- No text, or the texts between commas.
unfoldable pub listed : String → List String
listed s = if s == "" then [] else split_commas s

abbrev pub or_zero : Option ℤ → ℤ
or_zero none = pos 0
or_zero (some n) = n

abbrev pub times_100 : ℤ → ℤ
times_100 (pos n) = pos (n * 100)
times_100 (negsuc n) = negsuc (suc n * 100 - 1)

-- `param` is `c.QueryParam`, `to_upper` is `strings.ToUpper`, `parse_int` is `strconv.ParseInt` in
-- base 10 with 64 bits.
module _ {W : Type 0} (send : ℕ → Body → Io W (Unit {0})) (param : String → String) where
  unfoldable pub find_options : (String → String) → Options
  find_options to_upper = record {
    search = param "q";
    date_range = param "dateRange";
    limit = pos 100;
    offset = int64 (times_100 (or_zero (atoi (param "page"))));
    queues = listed (param "queue");
    sort_by = param "sortColumn";
    sort_asc = to_upper (param "sortDirection") == "ASC";
    status = listed (param "status");
  }

  unfoldable pub find : (String → String) → (Options → Io W (List Job)) → Io W (Unit {0})
  find to_upper storage =
      respond send (storage (find_options to_upper)) (λ jobs. send 200 (jobs_body jobs))

  abbrev pub stats_options : ℤ → ℤ → JobStatsOptions
  stats_options start end = record {
    queues = listed (param "queue");
    status = listed (param "status");
    interval = interval (duration start end);
    start = start;
    end = end;
  }

  -- `answer` writes the statistics with the code 200.
  abbrev pub stats_of :
      {Stats : Type 0}
      → (JobStatsOptions → Io W Stats)
      → (Stats → Io W (Unit {0}))
      → ℤ ⊎ Error
      → ℤ ⊎ Error
      → Io W (Unit {0})
  stats_of storage answer (inr e) end = failed send e
  stats_of storage answer (inl start) (inr e) = failed send e
  stats_of storage answer (inl start) (inl end) =
      respond send (storage (stats_options start end)) answer

  unfoldable pub job_stats :
      {Stats : Type 0}
      → (String → ℤ ⊎ Error)
      → (JobStatsOptions → Io W Stats)
      → (Stats → Io W (Unit {0}))
      → Io W (Unit {0})
  job_stats parse_int storage answer =
      stats_of storage answer (parse_int (param "start")) (parse_int (param "end"))

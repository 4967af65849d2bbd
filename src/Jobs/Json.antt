-- ===== src/Jobs/Json.antt =====
-- jobs/jobs.go: ArrayProperties and its JSON form, as `Value` writes it and `Scan` reads it.
use batchiepatchie.Prelude.{String, Option, none, some, ◌==◌, if◌then◌else◌}
use batchiepatchie.Prelude.Int.{ℤ, pos}

-- Counts of the statuses of the children of an array job.
pub record StatusSummary : Type 0 where
  pub starting : ℤ
  pub failed : ℤ
  pub running : ℤ
  pub succeeded : ℤ
  pub runnable : ℤ
  pub submitted : ℤ
  pub pending : ℤ

pub record ArrayProperties : Type 0 where
  pub size : ℤ
  pub status_summary : StatusSummary

-- JSON as far as these records need it.
mutual
  pub data Json : Type 0 where
    number : ℤ → Json
    object : Fields → Json

  pub data Fields : Type 0 where
    end : Fields
    field : String → Json → Fields → Fields

-- SQL's `->`: the value of a key, NULL where the key is missing.
unfoldable pub get_field : String → Fields → Option Json
get_field k end = none
get_field k (field j v fs) = if j == k then some v else get_field k fs

unfoldable pub get_key : String → Json → Option Json
get_key k (number n) = none
get_key k (object fs) = get_field k fs

abbrev pub get_in : Option Json → String → Option Json
get_in none k = none
get_in (some j) k = get_key k j

-- `->>` with a cast to numeric.
abbrev pub as_number : Option Json → Option ℤ
as_number none = none
as_number (some (number n)) = some n
as_number (some (object fs)) = none

-- `json.Marshal` of a StatusSummary, by its struct tags.
unfoldable pub marshal_summary : StatusSummary → Json
marshal_summary s = object (
    field "starting" (number s.starting) (
      field "failed" (number s.failed) (
        field "running" (number s.running) (
          field "succeeded" (number s.succeeded) (
            field "runnable" (number s.runnable)
              (field "submitted" (number s.submitted) (field "pending" (number s.pending) end)))))))

-- `ArrayProperties.Value`.
unfoldable pub value : ArrayProperties → Json
unfolding marshal_summary
value a =
    object
      (field "size" (number a.size) (field "status_summary" (marshal_summary a.status_summary) end))

-- `json.Unmarshal` into an int64 field: a missing key leaves the zero value.
abbrev pub number_or_zero : Option ℤ → ℤ
number_or_zero none = pos 0
number_or_zero (some n) = n

unfoldable pub unmarshal_summary : Option Json → StatusSummary
unmarshal_summary j = record {
  starting = number_or_zero (as_number (get_in j "starting"));
  failed = number_or_zero (as_number (get_in j "failed"));
  running = number_or_zero (as_number (get_in j "running"));
  succeeded = number_or_zero (as_number (get_in j "succeeded"));
  runnable = number_or_zero (as_number (get_in j "runnable"));
  submitted = number_or_zero (as_number (get_in j "submitted"));
  pending = number_or_zero (as_number (get_in j "pending"));
}

-- `ArrayProperties.Scan`, on a JSON value of the shape that `Value` writes.
unfoldable pub scan : Json → ArrayProperties
unfolding unmarshal_summary
scan j = record {
  size = number_or_zero (as_number (get_key "size" j));
  status_summary = unmarshal_summary (get_key "status_summary" j);
}

-- ===== src/AwsClients.antt =====
-- awsclients/awsclients.go: the clients of S3, one for each region, that are kept for the buckets.
-- The sessions themselves are the SDK's; a client is known by its region and a number.
pub mod Shared
pub mod Ends
use batchiepatchie.Prelude.{ℕ, zero, suc, String, Option, none, some, List, []}
use batchiepatchie.Prelude.Dict.{lookup, insert}
use batchiepatchie.Prelude.Io.{Io, Error, Outcome, ok, err, panic, hang}

-- `*s3.S3`.
pub record Client : Type 0 where
  pub region : String
  pub address : ℕ

-- `s3B` and `s3R`, and how many clients there are so far.
pub record Clients : Type 0 where
  pub of_bucket : List (String × Client)
  pub of_region : List (String × Client)
  pub opened : ℕ

-- `OpenSessions`: the maps are made anew.
abbrev pub open_sessions : ℕ → Clients
open_sessions n = record { of_bucket = []; of_region = []; opened = n }

-- A call of `GetS3ClientForBucket` between two of its sections.
pub data Call : Type 0 where
  begun : (bucket : String) → Call
  asking : (bucket : String) → Call
  located : (bucket region : String) → Call
  opening : (bucket region : String) → Call
  ready : (bucket : String) (client : Client) → Call
  returned : (bucket : String) (client : Client) → Call
  failed : (bucket : String) (error : Error) → Call
  panicked : (bucket : String) → Call

abbrev pub looked : String → Option Client → Call
looked bucket none = asking bucket
looked bucket (some client) = returned bucket client

abbrev pub kept : String → String → Option Client → Clients → Call × Clients
kept bucket region none s = (opening bucket region, s)
kept bucket region (some client) s =
    (returned bucket client, record s { of_bucket = insert bucket client s.of_bucket })

-- `GetBucketRegion`.
abbrev pub answered : String → Outcome String → Call
answered bucket (ok region) = located bucket region
answered bucket (err e) = failed bucket e
answered bucket panic = panicked bucket
answered bucket hang = panicked bucket

-- `session.Must(session.NewSession(...))` panics on an error.
abbrev pub opened_client : String → String → Outcome (Unit {0}) → Clients → Call × Clients
opened_client bucket region (ok _) s = (
  ready bucket (record { region = region; address = s.opened }),
  record s { opened = suc s.opened },
)
opened_client bucket region (err e) s = (panicked bucket, s)
opened_client bucket region panic s = (panicked bucket, s)
opened_client bucket region hang s = (panicked bucket, s)

abbrev pub keep_client : String → Client → Clients → Clients
keep_client bucket client s = record s {
  of_bucket = insert bucket client s.of_bucket;
  of_region = insert client.region client s.of_region;
}

abbrev pub outcome_of : Call → Outcome Client
outcome_of (returned bucket client) = ok client
outcome_of (failed bucket e) = err e
outcome_of (panicked bucket) = panic
outcome_of call = hang

module _ {V : Type 0} (get_bucket_region : String → Io V String)
    (new_session : String → Io V (Unit {0})) where
  -- One section: `begun`, `located` and `ready` run with the lock, and see no other call; `asking`
  -- and `opening` call AWS without it.
  unfoldable pub next : Call → Clients × V → Call × (Clients × V)
  next (begun bucket) (s, v) = (looked bucket (lookup bucket s.of_bucket), (s, v))
  next (asking bucket) (s, v) =
      let (outcome, v') = get_bucket_region bucket v in (answered bucket outcome, (s, v'))
  next (located bucket region) (s, v) =
      let (call, s') = kept bucket region (lookup region s.of_region) s in (call, (s', v))
  next (opening bucket region) (s, v) =
      let (outcome, v') = new_session region v in
      let (call, s') = opened_client bucket region outcome s in (call, (s', v'))
  next (ready bucket client) (s, v) = (returned bucket client, (keep_client bucket client s, v))
  next (returned bucket client) (s, v) = (returned bucket client, (s, v))
  next (failed bucket e) (s, v) = (failed bucket e, (s, v))
  next (panicked bucket) (s, v) = (panicked bucket, (s, v))

  unfoldable pub run_call : ℕ → Call → Clients × V → Call × (Clients × V)
  run_call zero call w = (call, w)
  run_call (suc n) call w = let (call', w') = next call w in run_call n call' w'

  -- A call that no other interrupts has at most five sections.
  unfoldable pub get_s3_client_for_bucket : String → Io (Clients × V) Client
  get_s3_client_for_bucket bucket w =
      let (call, w') = run_call 5 (begun bucket) w in (outcome_of call, w')

-- ===== src/AwsClients/Ends.antt =====
-- A call of `GetS3ClientForBucket` of awsclients/awsclients.go ends, within its five sections.
use batchiepatchie.Prelude.{ℕ, String, ◌≢◌, Option, none, some}
use batchiepatchie.Prelude.Dict.{lookup}
use batchiepatchie.Prelude.Io.{Io, Outcome, ok, err, panic, hang}
use batchiepatchie.AwsClients.{
  Clients, Client, Call, get_s3_client_for_bucket, run_call, next, outcome_of, looked, kept,
  answered, opened_client,
}

module _ {V : Type 0} (get_bucket_region : String → Io V String)
    (new_session : String → Io V (Unit {0})) where
  abbrev Ends : ℕ → Call → Clients × V → Type 0
  Ends n call w = outcome_of (run_call get_bucket_region new_session n call w).0 ≢ hang

  opened-Ends :
      (bucket region : String) (o : Outcome (Unit {0})) (s : Clients) (v : V)
      → let (call, s') = opened_client bucket region o s in Ends 1 call (s', v)
  unfolding run_call next
  opened-Ends bucket region (ok _) s v = λ e. cc
  opened-Ends bucket region (err _) s v = λ e. cc
  opened-Ends bucket region panic s v = λ e. cc
  opened-Ends bucket region hang s v = λ e. cc

  kept-Ends :
      (bucket region : String) (o : Option Client) (s : Clients) (v : V)
      → let (call, s') = kept bucket region o s in Ends 2 call (s', v)
  unfolding run_call next
  kept-Ends bucket region none s v = opened-Ends bucket region (new_session region v).0 s _
  kept-Ends bucket region (some client) s v = λ e. cc

  answered-Ends :
      (bucket : String) (o : Outcome String) (s : Clients) (v : V)
      → Ends 3 (answered bucket o) (s, v)
  unfolding run_call next
  answered-Ends bucket (ok region) s v = kept-Ends bucket region (lookup region s.of_region) s v
  answered-Ends bucket (err _) s v = λ e. cc
  answered-Ends bucket panic s v = λ e. cc
  answered-Ends bucket hang s v = λ e. cc

  looked-Ends :
      (bucket : String) (o : Option Client) (s : Clients) (v : V) → Ends 4 (looked bucket o) (s, v)
  unfolding run_call next
  looked-Ends bucket none s v = answered-Ends bucket (get_bucket_region bucket v).0 s _
  looked-Ends bucket (some client) s v = λ e. cc

  -- The five sections are enough.
  get_s3_client_for_bucket_lem :
      (bucket : String) (w : Clients × V)
      → (get_s3_client_for_bucket get_bucket_region new_session bucket w).0 ≢ hang
  unfolding get_s3_client_for_bucket run_call next
  get_s3_client_for_bucket_lem bucket w = looked-Ends bucket (lookup bucket w.0.of_bucket) w.0 w.1

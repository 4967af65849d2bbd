-- ===== src/Tests/Fetched.antt =====
-- The theorems about locations and the clients of S3, on concrete data.
use batchiepatchie.Prelude.{ℕ, suc, String, ◌≡◌, ◌↔◌, some, [], ◌∷◌, map}
use batchiepatchie.Prelude.Dict.{lookup, insert}
use batchiepatchie.Prelude.Io.{Io, ok}
use batchiepatchie.Fetcher.{s3_match}
use batchiepatchie.Fetcher.Locations.{IsObject, s3_location, s3_match_iff}
use batchiepatchie.AwsClients.{
  Client, Clients, begun, asking, located, opening, ready, returned, next, open_sessions,
}
use batchiepatchie.AwsClients.Shared.{Runs, started, pick, IsRegionOf, IsAnswered, Runs-IsAnswered}

s3_match_example : (s3_match "s3://assets/v1/index.html" ≡ some ("assets", "v1/index.html")) ↔ (
    ("s3://assets/v1/index.html" ≡ s3_location "assets" "v1/index.html")
    × IsObject "assets" "v1/index.html")
s3_match_example = s3_match_iff "s3://assets/v1/index.html" "assets" "v1/index.html"

-- AWS counts what it is asked.
abbrev region_of : String → Io ℕ String
region_of bucket n = (ok "us-west-2", suc n)

abbrev session_of : String → Io ℕ (Unit {0})
session_of region n = (ok tt, suc n)

abbrev client : Client
client = record { region = "us-west-2"; address = 0 }

abbrev kept_client : Clients
kept_client = record {
  of_bucket = ("logs", client) ∷ [];
  of_region = ("us-west-2", client) ∷ [];
  opened = 1;
}

-- The second of two calls for a bucket begins before the first one has its client.
two_calls :
    Runs region_of session_of
      (map begun ("logs" ∷ "logs" ∷ []))
      (open_sessions 0, 0)
      (returned "logs" client ∷ asking "logs" ∷ [])
      (kept_client, 2)
unfolding next lookup insert
two_calls = pick [] (ready "logs" client) (asking "logs" ∷ []) (
    pick [] (opening "logs" "us-west-2") (asking "logs" ∷ []) (
      pick [] (located "logs" "us-west-2") (asking "logs" ∷ []) (
        pick [] (asking "logs") (asking "logs" ∷ []) (
          pick (asking "logs" ∷ []) (begun "logs") []
            (pick [] (begun "logs") (begun "logs" ∷ []) started)))))

Runs-IsAnswered_example :
    IsRegionOf region_of session_of "logs" "us-west-2"
    × IsAnswered region_of session_of "logs" (kept_client, 2)
Runs-IsAnswered_example =
    Runs-IsAnswered region_of session_of ("logs" ∷ "logs" ∷ []) 0 0 [] "logs" client
      (asking "logs" ∷ []) (kept_client, 2) two_calls

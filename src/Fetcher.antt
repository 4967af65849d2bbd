-- ===== src/Fetcher.antt =====
-- fetcher/fetcher.go: files read by a location, which is local or on S3. The calls of AWS, the
-- clients and the local files are parameters.
pub mod Locations
use Prim.Native.Char.{Char, code}
use batchiepatchie.Prelude.{
  ℕ, String, Bool, true, false, not, ◌&&◌, Option, none, some, eqb, if◌then◌else◌, ◌==◌,
}
use batchiepatchie.Prelude.Io.{Io, ◌>>=◌}
use batchiepatchie.Prelude.Text.{has, slash, newline}

-- What follows a prefix in a text.
unfoldable pub after_prefix : String → String → Option String
after_prefix String.[] s = some s
after_prefix (String.◌∷◌ c p) String.[] = none
after_prefix (String.◌∷◌ c p) (String.◌∷◌ d s) =
    let rest = after_prefix p s in if eqb (code c) (code d) then rest else none

abbrev pub longer : Char → Option (String × String) → Option (String × String)
longer c none = none
longer c (some (before, after)) = some (String.◌∷◌ c before, after)

-- A text around its first slash.
unfoldable pub split_slash : String → Option (String × String)
split_slash String.[] = none
split_slash (String.◌∷◌ c s) =
    let rest = split_slash s in if eqb (code c) slash then some ("", s) else longer c rest

-- `(.+)$`: some text without a newline.
abbrev pub is_key : String → Bool
is_key key = not (key == "") && not (has newline key)

abbrev pub checked_match : Option (String × String) → Option (String × String)
checked_match none = none
checked_match (some (bucket, key)) =
    if not (bucket == "") && is_key key then some (bucket, key) else none

abbrev pub split_rest : Option String → Option (String × String)
split_rest none = none
split_rest (some rest) = split_slash rest

-- `^s3://([^/]+)/(.+)$`: the bucket is all up to the next slash.
unfoldable pub s3_match : String → Option (String × String)
s3_match location = checked_match (split_rest (after_prefix "s3://" location))

-- What files are read with. `get_bucket_region` and `new_client` open sessions of their own, and
-- `get_s3_client_for_bucket` is the one of awsclients/.
pub record Files (W Client Object : Type 0) : Type 0 where
  pub read_all_local_file : String → Io W String
  pub get_s3_client_for_bucket : String → Io W Client
  pub get_bucket_region : String → Io W String
  pub new_client : String → Io W Client
  pub get_object : Client → String → String → Io W Object
  pub read_body : Object → Io W String

module _ {W Client Object : Type 0} (files : Files W Client Object) where
  unfoldable pub read_object : String → String → Io W String
  read_object bucket key = do
    client ← files.get_s3_client_for_bucket bucket
    object ← files.get_object client bucket key
    files.read_body object

  unfoldable pub read_object_no_sessions : String → String → Io W String
  read_object_no_sessions bucket key = do
    region ← files.get_bucket_region bucket
    client ← files.new_client region
    object ← files.get_object client bucket key
    files.read_body object

  abbrev pub read_matched :
      (String → String → Io W String) → String → Option (String × String) → Io W String
  read_matched read location none = files.read_all_local_file location
  read_matched read location (some (bucket, key)) = read bucket key

  unfoldable pub read_all : String → Io W String
  read_all location = read_matched read_object location (s3_match location)

  unfoldable pub read_all_no_sessions : String → Io W String
  read_all_no_sessions location = read_matched read_object_no_sessions location (s3_match location)

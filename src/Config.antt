-- ===== src/Config.antt =====
-- config/config.go: how the configuration is read, completed and checked. The TOML decoder, the files
-- and the sessions of AWS are parameters. `log.Fatal` ends the process; it is a panic of the model.
pub mod Checked
use batchiepatchie.Prelude.{
  String, Bool, true, false, not, ◌&&◌, ◌||◌, ◌==◌, ◌⊎◌, inl, inr, if◌then◌else◌,
}
use batchiepatchie.Prelude.Int.{ℤ, pos, ltb_ℤ}
use batchiepatchie.Prelude.Text.{concat}
use batchiepatchie.Prelude.Io.{Io, Error, pure, fail, crash, attempt, returned, ◌>>=◌, ◌>>◌}

pub record Config : Type 0 where
  pub port : ℤ
  pub host : String
  pub database_host : String
  pub database_port : ℤ
  pub database_username : String
  pub database_name : String
  pub database_password : String
  pub database_root_certificate : String
  pub log_entries_host : String
  pub log_entries_key : String
  pub region : String
  pub password_bucket : String
  pub password_key : String
  pub frontend_assets : String
  pub frontend_assets_local_prefix : String
  pub frontend_assets_bucket : String
  pub frontend_assets_key : String
  pub sync_period : ℤ
  pub scale_period : ℤ
  pub clean_period : ℤ
  pub kill_stuck_jobs : Bool
  pub use_datadog_tracing : Bool
  pub use_auto_scaler : Bool
  pub use_cleaner : Bool

-- The zero value of a `Config`.
abbrev pub no_config : Config
no_config = record {
  port = pos 0;
  host = "";
  database_host = "";
  database_port = pos 0;
  database_username = "";
  database_name = "";
  database_password = "";
  database_root_certificate = "";
  log_entries_host = "";
  log_entries_key = "";
  region = "";
  password_bucket = "";
  password_key = "";
  frontend_assets = "";
  frontend_assets_local_prefix = "";
  frontend_assets_bucket = "";
  frontend_assets_key = "";
  sync_period = pos 0;
  scale_period = pos 0;
  clean_period = pos 0;
  kill_stuck_jobs = false;
  use_datadog_tracing = false;
  use_auto_scaler = false;
  use_cleaner = false;
}

abbrev pub default_config : Config
default_config = record no_config {
  sync_period = pos 30;
  scale_period = pos 30;
  clean_period = pos 1800;
  use_auto_scaler = true;
}

-- What the configuration is read with: files by their location, with and without sessions of AWS,
-- the TOML decoder over a configuration, and the substitution of environment variables in a text.
pub record ConfigService (W : Type 0) : Type 0 where
  pub read_all_no_sessions : String → Io W String
  pub read_all : String → Io W String
  pub open_sessions : String → Io W (Unit {0})
  pub decode : String → Config → Config ⊎ Error
  pub environment_substitute : String → String ⊎ Error

abbrev pub is_port : ℤ → Bool
is_port n = not (ltb_ℤ n (pos 1) || ltb_ℤ (pos 65535) n)

abbrev pub is_set : String → Bool
is_set s = not (s == "")

-- The checks before the sessions are opened.
unfoldable pub basics_ok : Config → Bool
basics_ok c =
    is_set c.region
    && (is_port c.port
        && ((is_set c.database_host && (is_set c.database_username && is_set c.database_name))
            && (is_port c.database_port
                && (c.frontend_assets == "local" || c.frontend_assets == "s3"))))

abbrev pub local_ok : Config → Bool
local_ok c = c.frontend_assets_bucket == "" && c.frontend_assets_key == ""

abbrev pub s3_ok : Config → Bool
s3_ok c =
    c.frontend_assets_local_prefix == ""
    && (is_set c.frontend_assets_bucket && is_set c.frontend_assets_key)

-- The checks of where the frontend is.
unfoldable pub assets_ok : Config → Bool
assets_ok c =
    if c.frontend_assets == "local"
    then local_ok c
    else if c.frontend_assets == "s3"
    then s3_ok c
    else true

module _ {W : Type 0} where
  -- `log.Fatal` unless a check holds.
  abbrev pub require : Bool → Io W (Unit {0})
  require true = pure tt
  require false = crash

  abbrev pub or_fatal : {A : Type 0} → A ⊎ Error → Io W A
  or_fatal (inl a) = pure a
  or_fatal (inr e) = crash

module _ {W : Type 0} (service : ConfigService W) where
  abbrev pub sub : String → Io W String
  sub s = returned (service.environment_substitute s)

  -- The loop over the text fields, in the order of the struct.
  unfoldable pub substitute_all : Config → Io W Config
  substitute_all c = do
    host ← sub c.host
    database_host ← sub c.database_host
    database_username ← sub c.database_username
    database_name ← sub c.database_name
    database_password ← sub c.database_password
    database_root_certificate ← sub c.database_root_certificate
    log_entries_host ← sub c.log_entries_host
    log_entries_key ← sub c.log_entries_key
    region ← sub c.region
    password_bucket ← sub c.password_bucket
    password_key ← sub c.password_key
    frontend_assets ← sub c.frontend_assets
    frontend_assets_local_prefix ← sub c.frontend_assets_local_prefix
    frontend_assets_bucket ← sub c.frontend_assets_bucket
    frontend_assets_key ← sub c.frontend_assets_key
    pure (record c {
      host = host;
      database_host = database_host;
      database_username = database_username;
      database_name = database_name;
      database_password = database_password;
      database_root_certificate = database_root_certificate;
      log_entries_host = log_entries_host;
      log_entries_key = log_entries_key;
      region = region;
      password_bucket = password_bucket;
      password_key = password_key;
      frontend_assets = frontend_assets;
      frontend_assets_local_prefix = frontend_assets_local_prefix;
      frontend_assets_bucket = frontend_assets_bucket;
      frontend_assets_key = frontend_assets_key;
    })

  abbrev pub set_password : Config ⊎ Error → String ⊎ Error
  set_password (inr e) = inr e
  set_password (inl c) =
      if c.database_password == ""
      then inr "No passwords specified in password file."
      else inl c.database_password

  unfoldable pub read_password_configuration : String → String ⊎ Error
  read_password_configuration contents = set_password (service.decode contents no_config)

  abbrev pub use_password : Config → String → Io W Config
  use_password c password = pure (record c { database_password = password })

  abbrev pub use_text : Config → String → Io W Config
  use_text c contents = or_fatal (read_password_configuration contents) >>= use_password c

  abbrev pub use_file : Config → String ⊎ Error → Io W Config
  use_file c out = or_fatal out >>= use_text c

  abbrev pub read_password_file : Config → Io W (String ⊎ Error)
  read_password_file c =
      attempt
        (service.read_all (concat "s3://" (concat c.password_bucket (concat "/" c.password_key))))

  -- The password from its own file.
  abbrev pub fetched_password : Config → Io W Config
  fetched_password c = require (c.database_password == "") >> (read_password_file c >>= use_file c)

  unfoldable pub with_password : Config → Io W Config
  with_password c = if c.password_key == "" then pure c else fetched_password c

  abbrev pub open_aws : Config → Io W (Unit {0})
  open_aws c = attempt (service.open_sessions c.region) >>= or_fatal

  -- The checks, with `log.Fatal` where one fails.
  unfoldable pub checked : Config → Io W Config
  checked c = require (basics_ok c) >> (open_aws c >> (require (assets_ok c) >> with_password c))

  abbrev pub complete : Config → Io W Config
  complete decoded = substitute_all decoded >>= checked

  abbrev pub read_text : String → Io W Config
  read_text toml = returned (service.decode toml default_config) >>= complete

  unfoldable pub read_configuration : String → Io W Config
  read_configuration filename = service.read_all_no_sessions filename >>= read_text

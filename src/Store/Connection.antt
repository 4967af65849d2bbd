-- ===== src/Store/Connection.antt =====
-- `NewPostgreSQLStore` of jobs/postgres_store.go, over the driver of the database.
use batchiepatchie.Prelude.{ℕ, String, [], ◌==◌, if◌then◌else◌}
use batchiepatchie.Prelude.Int.{ℤ}
use batchiepatchie.Prelude.Io.{Io, ok, ◌>>=◌, ◌>>◌, pure}
use batchiepatchie.Prelude.Text.{concat}
use batchiepatchie.Config.{Config}
use batchiepatchie.Store.Subscriptions.{Hub}

-- `probe` is the query that is expected to succeed; `itoa` writes a number in decimal.
pub record Driver (W Connection : Type 0) : Type 0 where
  pub itoa : ℤ → String
  pub open_database : String → Io W Connection
  pub set_max_open_conns : Connection → ℕ → W → W
  pub probe : Connection → Io W (Unit {0})

abbrev pub ssl_mode : String → String
ssl_mode certificate =
    if certificate == ""
    then " sslmode=disable"
    else concat " sslmode=verify-full sslrootcert=" certificate

-- `dbstr`.
unfoldable pub connection_text : (ℤ → String) → Config → String
connection_text itoa c = concat "user=" (
    concat c.database_username (
      concat " dbname=" (
        concat c.database_name (
          concat " host=" (
            concat c.database_host (
              concat " port=" (
                concat (itoa c.database_port) (
                  concat " password="
                    (concat c.database_password (ssl_mode c.database_root_certificate))))))))))

-- The connection, and a map without subscribers.
pub record NewStore (Connection : Type 0) : Type 0 where
  pub connection : Connection
  pub hub : Hub

module _ {W Connection : Type 0} (driver : Driver W Connection) where
  unfoldable pub new_postgresql_store : Config → Io W (NewStore Connection)
  new_postgresql_store c = do
    db ← driver.open_database (connection_text driver.itoa c)
    λ w. (ok tt, driver.set_max_open_conns db 500 w)
    driver.probe db
    pure (record {
      connection = db;
      hub = record { subscribers = []; next_channel = 0; buffer = λ _. [] };
    })

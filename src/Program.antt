-- ===== src/Program.antt =====
-- batchiepatchie.go: how the program starts. What it starts runs beside it: the periodic loops, of
-- which Syncer/Periodic has the rounds, and the web server, which answers by Handlers.
pub mod Paths
pub mod Index
pub mod Preparations
pub mod Started
use batchiepatchie.Prelude.{
  String, Bool, true, false, Option, none, some, List, [], ◌∷◌, ◌⊎◌, inl, inr, ◌==◌, if◌then◌else◌,
}
use batchiepatchie.Prelude.Int.{ℤ}
use batchiepatchie.Prelude.Io.{Io, Error, ok, ◌>>=◌, ◌>>◌, pure, crash, attempt}
use batchiepatchie.Prelude.Text.{concat}
use batchiepatchie.Config.{Config, ConfigService, read_configuration, or_fatal}
use batchiepatchie.Fetcher.{Files, read_all, read_all_no_sessions}
use batchiepatchie.Store.Connection.{Driver, NewStore, new_postgresql_store}
use Paths.{join_path}

-- The global tracer; an agent has an address of its own, or the usual one.
pub data Tracer : Type 0 where
  no_tracer : Tracer
  datadog : (agent : Option String) → Tracer

-- What the program is given: the environment, the SDKs, and what it starts.
pub record Machine (W Connection Killer Hook Client Object : Type 0) : Type 0 where
  pub getenv : String → String
  pub files : Files W Client Object
  pub open_sessions : String → Io W (Unit {0})
  pub decode : String → Config → Config ⊎ Error
  pub environment_substitute : String → String ⊎ Error
  pub new_logentries_hook : String → String → Io W Hook
  pub add_hook : Hook → W → W
  pub set_global_tracer : Tracer → W → W
  pub driver : Driver W Connection
  pub new_killer_handler : Io W Killer
  pub run_periodic_synchronizer : NewStore Connection → Killer → W → W
  pub run_periodic_scaler : NewStore Connection → W → W
  pub run_periodic_cleaner : NewStore Connection → W → W
  pub start_server : NewStore Connection → Killer → String → String → Io W (Unit {0})

-- The configuration's file, of the arguments after the program's name; `none` ends the program.
unfoldable pub configuration_file : (String → String) → List String → Option String
configuration_file getenv [] =
    let file = getenv "BATCHIEPATCHIE_CONFIG" in if file == "" then none else some file
configuration_file getenv (file ∷ []) = some file
configuration_file getenv (file ∷ other ∷ rest) = none

unfoldable pub log_host : Config → String
log_host c = if c.log_entries_host == "" then "data.logentries.com:443" else c.log_entries_host

abbrev pub agent_at : String → Option String
agent_at ip = if ip == "" then none else some (concat ip ":8126")

unfoldable pub tracer_of : (String → String) → Config → Tracer
tracer_of getenv c =
    if c.use_datadog_tracing then datadog (agent_at (getenv "BATCHIEPATCHIE_IP")) else no_tracer

-- The page that is served when index.html cannot be fetched.
unfoldable pub basic_index : String → String
basic_index version =
    if version == ""
    then "<h1>Cannot find index.html. VERSION environment variable is not set. Check that frontend has been deployed correctly and then restart backend.</h1>"
    else "<h1>Cannot find index.html. (VERSION environment variable has been set but no file could be fetched). Check that frontend has been deployed correctly and then restart backend.</h1>"

abbrev pub index_path : String → String
index_path prefix = join_path prefix "index.html"

-- Where `fetchIndex` reads from.
unfoldable pub index_location : Config → String
index_location c =
    if c.frontend_assets == "local"
    then index_path c.frontend_assets_local_prefix
    else concat "s3://" (concat c.frontend_assets_bucket (concat "/" c.frontend_assets_key))

-- What `main` has when it launches the loops.
pub record Ready (Connection Killer : Type 0) : Type 0 where
  pub config : Config
  pub storage : NewStore Connection
  pub killer : Killer
  pub index : String

module _ {W Connection Killer Hook Client Object : Type 0}
    (machine : Machine W Connection Killer Hook Client Object) where
  abbrev pub act : (W → W) → Io W (Unit {0})
  act change w = (ok tt, change w)

  -- `log.Fatal` on an error.
  abbrev pub fatal : {A : Type 0} → Io W A → Io W A
  fatal m = attempt m >>= or_fatal

  abbrev pub of_option : {A : Type 0} → Option A → Io W A
  of_option none = crash
  of_option (some a) = pure a

  -- The configuration is read with the files of fetcher/.
  abbrev pub config_service : ConfigService W
  config_service = record {
    read_all_no_sessions = read_all_no_sessions machine.files;
    read_all = read_all machine.files;
    open_sessions = machine.open_sessions;
    decode = machine.decode;
    environment_substitute = machine.environment_substitute;
  }

  unfoldable pub set_up_log_entries_hooks : String → String → Io W (Unit {0})
  set_up_log_entries_hooks host key =
      fatal (machine.new_logentries_hook host key) >>= λ hook. act (machine.add_hook hook)

  unfoldable pub connect_logs : Config → Io W (Unit {0})
  connect_logs c =
      if c.log_entries_key == ""
      then pure tt
      else set_up_log_entries_hooks (log_host c) c.log_entries_key

  unfoldable pub fetch_index : Config → Io W String
  fetch_index c = read_all machine.files (index_location c)

  abbrev pub or_basic : String ⊎ Error → String
  or_basic (inl index) = index
  or_basic (inr e) = basic_index (machine.getenv "VERSION")

  unfoldable pub index_of : Config → Io W String
  index_of c = attempt (fetch_index c) >>= λ fetched. pure (or_basic fetched)

  abbrev pub with_index :
      Config → NewStore Connection → Killer → String → Io W (Ready Connection Killer)
  with_index c storage killer index =
      pure (record { config = c; storage = storage; killer = killer; index = index })

  abbrev pub with_killer : Config → NewStore Connection → Killer → Io W (Ready Connection Killer)
  with_killer c storage killer = index_of c >>= with_index c storage killer

  abbrev pub with_storage : Config → NewStore Connection → Io W (Ready Connection Killer)
  with_storage c storage = fatal machine.new_killer_handler >>= with_killer c storage

  abbrev pub trace : Config → Io W (Unit {0})
  trace c = act (machine.set_global_tracer (tracer_of machine.getenv c))

  abbrev pub open_storage : Config → Io W (Ready Connection Killer)
  open_storage c = fatal (new_postgresql_store machine.driver c) >>= with_storage c

  -- With a configuration, the steps up to the loops.
  unfoldable pub prepare_with : Config → Io W (Ready Connection Killer)
  prepare_with c = connect_logs c >> (trace c >> open_storage c)

  -- With a configuration's file.
  abbrev pub prepare_from : String → Io W (Ready Connection Killer)
  prepare_from file = fatal (read_configuration config_service file) >>= prepare_with

  unfoldable pub prepare : List String → Io W (Ready Connection Killer)
  prepare args = of_option (configuration_file machine.getenv args) >>= prepare_from

  abbrev pub when : Bool → (W → W) → W → W
  when true change w = change w
  when false change w = w

  -- The loops are launched in this order.
  unfoldable pub launch : Ready Connection Killer → W → W
  launch ready w = when ready.config.use_cleaner (machine.run_periodic_cleaner ready.storage) (
      when ready.config.use_auto_scaler (machine.run_periodic_scaler ready.storage)
        (machine.run_periodic_synchronizer ready.storage ready.killer w))

  abbrev pub address : Config → String
  address c = concat c.host (concat ":" (machine.driver.itoa c.port))

  -- The server only returns an error, which is fatal.
  unfoldable pub serve : Ready Connection Killer → Io W (Unit {0})
  serve ready =
      attempt (machine.start_server ready.storage ready.killer ready.index (address ready.config))
      >>= λ _. crash

  abbrev pub run : Ready Connection Killer → Io W (Unit {0})
  run ready = act (launch ready) >> serve ready

  unfoldable pub main : List String → Io W (Unit {0})
  main args = prepare args >>= run

-- ===== src/Tests/Started.antt =====
-- The theorems about the start of the program, on a machine that writes down what it is asked.
use batchiepatchie.Prelude.{ℕ, String, true, ◌≡◌, refl, ◌⊎◌, inl, List, [], ◌∷◌, ◌++◌}
use batchiepatchie.Prelude.Int.{pos}
use batchiepatchie.Prelude.Io.{Returns, ok, err}
use batchiepatchie.Config.{
  Config, no_config, read_configuration, basics_ok, assets_ok, with_password, substitute_all,
  checked,
}
use batchiepatchie.Config.Checked.{IsUsable, read_configuration_lem}
use batchiepatchie.Fetcher.{read_object, read_all_no_sessions, s3_match, after_prefix}
use batchiepatchie.Program.{Machine, config_service, fetch_index, index_path, main}
use batchiepatchie.Program.Index.{fetch_index_lem}
use batchiepatchie.Program.Paths.{join_path, clean, split_path, clean_elements, joined}
use batchiepatchie.Program.Started.{Stopped, Running, main_lem}

abbrev on_s3 : Config
on_s3 = record no_config {
  port = pos 8080;
  database_host = "db";
  database_port = pos 5432;
  database_username = "batchie";
  database_name = "jobs";
  region = "us-west-2";
  frontend_assets = "s3";
  frontend_assets_bucket = "assets";
  frontend_assets_key = "v1/index.html";
  use_cleaner = true;
}

abbrev Recorder : Type 0
Recorder = Machine (List String) ℕ ℕ ℕ ℕ String

abbrev machine : Recorder
machine = record {
  getenv = λ name. "";
  files = record {
    read_all_local_file = λ path w. (ok "", w);
    get_s3_client_for_bucket = λ bucket w. (ok 1, w);
    get_bucket_region = λ bucket w. (ok "us-west-2", w);
    new_client = λ region w. (ok 1, w);
    get_object = λ client bucket key w. (err "no such key", w);
    read_body = λ object w. (ok object, w);
  };
  open_sessions = λ region w. (ok tt, w);
  decode = λ text start. inl on_s3;
  environment_substitute = λ text. inl text;
  new_logentries_hook = λ host key w. (ok 1, w);
  add_hook = λ hook w. w;
  set_global_tracer = λ tracer w. w;
  driver = record {
    itoa = λ n. "8080";
    open_database = λ text w. (ok 1, w ++ text ∷ []);
    set_max_open_conns = λ db n w. w;
    probe = λ db w. (ok tt, w);
  };
  new_killer_handler = λ w. (ok 1, w);
  run_periodic_synchronizer = λ store killer w. w ++ "synchronizer" ∷ [];
  run_periodic_scaler = λ store w. w ++ "scaler" ∷ [];
  run_periodic_cleaner = λ store w. w ++ "cleaner" ∷ [];
  start_server = λ store killer index address w. (err "address in use", w ++ address ∷ []);
}

on_s3-IsUsable : IsUsable on_s3
unfolding read_configuration basics_ok assets_ok with_password substitute_all checked
    read_all_no_sessions s3_match after_prefix
on_s3-IsUsable = read_configuration_lem (config_service machine) "conf.toml" [] refl

fetch_index_example :
    ((on_s3.frontend_assets ≡ "local")
      × (fetch_index machine on_s3 ≡ machine.files.read_all_local_file (index_path "")))
    ⊎ ((on_s3.frontend_assets ≡ "s3")
        × (fetch_index machine on_s3 ≡ read_object machine.files "assets" "v1/index.html"))
fetch_index_example = fetch_index_lem machine on_s3 on_s3-IsUsable refl refl

main_example :
    (¬ Returns (main machine ("conf.toml" ∷ []) []).0)
    × (Stopped machine ("conf.toml" ∷ []) [] ⊎ Running machine ("conf.toml" ∷ []) [])
main_example = main_lem machine ("conf.toml" ∷ []) []

join_path_up : join_path "../x/./y/.." "index.html" ≡ "../x/index.html"
unfolding join_path clean split_path clean_elements joined
join_path_up = refl

join_path_rooted : join_path "/srv//www/" "index.html" ≡ "/srv/www/index.html"
unfolding join_path clean split_path clean_elements joined
join_path_rooted = refl

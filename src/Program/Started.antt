-- ===== src/Program/Started.antt =====
-- What runs once batchiepatchie.go has started.
use batchiepatchie.Prelude.{
  String, ◌≡◌, refl, sym, ap, ◌∙◌, ◌⊎◌, inl, inr, Option, none, some, List, subst, Bool, true,
  false, if◌then◌else◌,
}
use batchiepatchie.Prelude.Io.{
  Io, Outcome, Returns, ok, err, panic, hang, attempt, attempt_outcome, crash, ◌>>◌, bind_outcome,
}
use batchiepatchie.Prelude.Text.{concat}
use batchiepatchie.Config.{Config, read_configuration, or_fatal}
use batchiepatchie.Config.Checked.{IsUsable, or_fatal-ok, after-ok, read_configuration_lem}
use batchiepatchie.Store.Connection.{new_postgresql_store}
use batchiepatchie.Program.Preparations.{prepare-NeverErrs}
use batchiepatchie.Program.{
  Machine, Ready, configuration_file, of_option, fatal, config_service, connect_logs, index_of,
  prepare_with, prepare_from, prepare, address, with_index, with_killer, with_storage, trace,
  open_storage, when, launch, serve, run, main,
}

attempted : {A : Type 0} (r : Outcome A) {a : A} → attempt_outcome r ≡ ok (inl a) → r ≡ ok a
attempted (ok b) h = cc
attempted (err e) h = cc
attempted panic h = cc
attempted hang h = cc

abbrev config_in :
    {Connection Killer : Type 0} → Config → Outcome (Ready Connection Killer) → Config
config_in c (ok ready) = ready.config
config_in c other = c

module _ {W Connection Killer Hook Client Object : Type 0}
    (machine : Machine W Connection Killer Hook Client Object) where
  prepare_with-config :
      (c : Config) (w : W) {ready : Ready Connection Killer}
      → (prepare_with machine c w).0 ≡ ok ready
      → ready.config ≡ c
  unfolding prepare_with
  prepare_with-config c w h =
      let (_, w1, _, h1) =
        after-ok (connect_logs machine c) (λ _. trace machine c >> open_storage machine c) w h in
      let (_, w2, _, h2) = after-ok (trace machine c) (λ _. open_storage machine c) w1 h1 in
      let (storage, w3, _, h3) =
        after-ok (fatal machine (new_postgresql_store machine.driver c)) (with_storage machine c) w2
          h2 in
      let (killer, w4, _, h4) =
        after-ok (fatal machine machine.new_killer_handler) (with_killer machine c storage) w3 h3 in
      let (index, w5, _, h5) =
        after-ok (index_of machine c) (with_index machine c storage killer) w4 h4 in
      sym (ap (λ o. config_in c o) h5)

  fatal-ok :
      {A : Type 0} (m : Io W A) (w : W) {a : A} → (fatal machine m w).0 ≡ ok a → (m w).0 ≡ ok a
  fatal-ok m w h =
      let (r, w1, e, f) = after-ok (attempt m) or_fatal w h in
      attempted (m w).0 (e ∙ ap ok (or_fatal-ok r w1 f))

  of_option-ok :
      (file : Option String) (w : W) {a : String}
      → (of_option machine file w).0 ≡ ok a
      → file ≡ some a
  of_option-ok none w h = cc
  of_option-ok (some f) w h = cc

  prepare-IsUsable :
      (args : List String) (w : W) {ready : Ready Connection Killer}
      → (prepare machine args w).0 ≡ ok ready
      → ((file : String) × (configuration_file machine.getenv args ≡ some file))
        × IsUsable ready.config
  unfolding prepare
  prepare-IsUsable args w h =
      let (file, w1, e, h1) =
        after-ok (of_option machine (configuration_file machine.getenv args)) (prepare_from machine)
          w h in
      let (c, w2, f, h2) =
        after-ok (fatal machine (read_configuration (config_service machine) file))
          (prepare_with machine) w1 h1 in
      (
        (file, of_option-ok (configuration_file machine.getenv args) w e),
        subst IsUsable (sym (prepare_with-config c w2 h2)) (
            read_configuration_lem (config_service machine) file w1
              (fatal-ok (read_configuration (config_service machine) file) w1 f)),
      )

  -- After what `prepare` has left, the synchronizer is launched, then the scaler and the cleaner
  -- if the configuration asks for them, and then the server is started with the host and the port.
  abbrev pub Running : List String → W → Type 0
  Running args w =
      (ready : Ready Connection Killer) × (w' : W) × (prepare machine args w ≡ (ok ready, w'))
      × ((file : String) × (configuration_file machine.getenv args ≡ some file))
      × IsUsable ready.config
      × let synchronizing = machine.run_periodic_synchronizer ready.storage ready.killer w' in
        let scaling =
          if ready.config.use_auto_scaler
          then machine.run_periodic_scaler ready.storage synchronizing
          else synchronizing in
        let launched =
          if ready.config.use_cleaner
          then machine.run_periodic_cleaner ready.storage scaling
          else scaling in
        (main machine args w).1
        ≡ (machine.start_server ready.storage ready.killer ready.index
            (concat ready.config.host (concat ":" (machine.driver.itoa ready.config.port)))
            launched).1

  -- The process ends in the preparations.
  abbrev pub Stopped : List String → W → Type 0
  Stopped args w =
      (outcome : Outcome (Unit {0})) × ((outcome ≡ panic) ⊎ (outcome ≡ hang))
      × (main machine args w ≡ (outcome, (prepare machine args w).1))

  serve-ends :
      (ready : Ready Connection Killer) (w : W)
      → ((serve machine ready w).0 ≡ panic) ⊎ ((serve machine ready w).0 ≡ hang)
  unfolding serve
  serve-ends ready w =
      crashed
        (machine.start_server ready.storage ready.killer ready.index (address machine ready.config)
          w).0
        (machine.start_server ready.storage ready.killer ready.index (address machine ready.config)
          w).1
    where
      crashed :
          (r : Outcome (Unit {0})) (v : W)
          → ((bind_outcome (attempt_outcome r) (λ _. crash {A = Unit {0}}) v).0 ≡ panic)
            ⊎ ((bind_outcome (attempt_outcome r) (λ _. crash {A = Unit {0}}) v).0 ≡ hang)
      crashed (ok _) v = inl refl
      crashed (err _) v = inl refl
      crashed panic v = inl refl
      crashed hang v = inr refl

  when_lem :
      (b : Bool) (change : W → W) (w : W) → when machine b change w ≡ (if b then change w else w)
  when_lem true change w = refl
  when_lem false change w = refl

  serve-world :
      (ready : Ready Connection Killer) (w : W)
      → (serve machine ready w).1
        ≡ (machine.start_server ready.storage ready.killer ready.index
            (address machine ready.config)
            w).1
  unfolding serve
  serve-world ready w =
      crashed
        (machine.start_server ready.storage ready.killer ready.index (address machine ready.config)
          w).0
        (machine.start_server ready.storage ready.killer ready.index (address machine ready.config)
          w).1
    where
      crashed :
          (r : Outcome (Unit {0})) (v : W)
          → (bind_outcome (attempt_outcome r) (λ _. crash {A = Unit {0}}) v).1 ≡ v
      crashed (ok _) v = refl
      crashed (err _) v = refl
      crashed panic v = refl
      crashed hang v = refl

  running_world :
      (ready : Ready Connection Killer) (w : W)
      → let synchronizing = machine.run_periodic_synchronizer ready.storage ready.killer w in
        let scaling =
          if ready.config.use_auto_scaler
          then machine.run_periodic_scaler ready.storage synchronizing
          else synchronizing in
        let launched =
          if ready.config.use_cleaner
          then machine.run_periodic_cleaner ready.storage scaling
          else scaling in
        (serve machine ready (launch machine ready w)).1
        ≡ (machine.start_server ready.storage ready.killer ready.index
            (address machine ready.config)
            launched).1
  unfolding launch
  running_world ready w =
      let synchronizing = machine.run_periodic_synchronizer ready.storage ready.killer w in
      let scaling =
        if ready.config.use_auto_scaler
        then machine.run_periodic_scaler ready.storage synchronizing
        else synchronizing in
      let cleaner = machine.run_periodic_cleaner ready.storage in
      serve-world ready (launch machine ready w)
      ∙ ap
          (λ v.
            (machine.start_server ready.storage ready.killer ready.index
              (address machine ready.config) v).1)
          (ap (when machine ready.config.use_cleaner cleaner) (
              when_lem ready.config.use_auto_scaler (machine.run_periodic_scaler ready.storage)
                synchronizing)
            ∙ when_lem ready.config.use_cleaner cleaner scaling)

  runs :
      (args : List String) (w : W) {ready : Ready Connection Killer}
      → (prepare machine args w).0 ≡ ok ready
      → main machine args w ≡ serve machine ready (launch machine ready (prepare machine args w).1)
  unfolding main
  runs args w h = ap (λ r. bind_outcome r (run machine) (prepare machine args w).1) h

  by_outcome :
      (args : List String) (w : W) (r : Outcome (Ready Connection Killer))
      → (prepare machine args w).0 ≡ r
      → Stopped args w ⊎ Running args w
  unfolding main
  by_outcome args w (ok ready) h =
      let (file, usable) = prepare-IsUsable args w h in
      inr (
        ready,
        (prepare machine args w).1,
        ap (λ r. (r, (prepare machine args w).1)) h,
        file,
        usable,
        ap (λ p. p.1) (runs args w h) ∙ running_world ready (prepare machine args w).1,
      )
  by_outcome args w (err e) h = absurd (prepare-NeverErrs machine args w e h)
  by_outcome args w panic h =
      inl (panic, inl refl, ap (λ r. bind_outcome r (run machine) (prepare machine args w).1) h)
  by_outcome args w hang h =
      inl (hang, inr refl, ap (λ r. bind_outcome r (run machine) (prepare machine args w).1) h)

  ends-Returns :
      (outcome : Outcome (Unit {0})) → (outcome ≡ panic) ⊎ (outcome ≡ hang) → ¬ Returns outcome
  ends-Returns outcome (inl p) (inl (v, q)) = cc
  ends-Returns outcome (inl p) (inr (e, q)) = cc
  ends-Returns outcome (inr p) (inl (v, q)) = cc
  ends-Returns outcome (inr p) (inr (e, q)) = cc

  -- The program never returns. Either it ends in its preparations, and then launches nothing; or a
  -- file was named for the configuration, the configuration that was read is usable, and then the
  -- synchronizer is launched, the scaler and the cleaner if the configuration asks for them, and
  -- after them the server with the configured host and port, all on the store that was opened.
  pub main_lem :
      (args : List String) (w : W)
      → (¬ Returns (main machine args w).0) × (Stopped args w ⊎ Running args w)
  main_lem args w = elim (by_outcome args w (prepare machine args w).0 refl) [
    | inl (outcome, e, m) ↦
        (λ r. ends-Returns outcome e (subst (λ p. Returns p.0) m r), inl (outcome, e, m))
    | inr (ready, w', p, file, usable, m) ↦ (
      λ r.
          ends-Returns (serve machine ready (launch machine ready (prepare machine args w).1)).0
            (serve-ends ready (launch machine ready (prepare machine args w).1))
            (subst (λ p. Returns p.0) (runs args w (ap (λ q. q.0) p)) r),
      inr (ready, w', p, file, usable, m),
    )
  ]

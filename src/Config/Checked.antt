-- ===== src/Config/Checked.antt =====
-- What the checks of config/config.go leave to the rest of the program.
use batchiepatchie.Prelude.{
  String, Bool, true, false, ◌||◌, ◌==◌, ◌≡◌, ◌≢◌, ◌⊎◌, inl, inr, refl, sym, subst, ap, ◌∙◌,
  Bool-cases, eq_iff, arith,
}
use batchiepatchie.Prelude.Int.{ℤ, pos, ◌≤ℤ◌}
use batchiepatchie.Prelude.Io.{returned, Io, Error, ok, bind-ok, ◌>>=◌, ◌>>◌}
use batchiepatchie.Config.{
  Config, ConfigService, is_port, is_set, basics_ok, assets_ok, with_password, read_configuration,
  substitute_all, default_config, checked, complete, read_text, open_aws, set_password,
  use_password, use_text, use_file, read_password_file, no_config, local_ok, s3_ok, require,
  or_fatal, read_password_configuration,
}

-- Where the frontend is.
abbrev pub Assets : Config → Type 0
Assets c =
    ((c.frontend_assets ≡ "local") × (c.frontend_assets_bucket ≡ "") × (c.frontend_assets_key ≡ ""))
    ⊎ ((c.frontend_assets ≡ "s3")
        × (c.frontend_assets_local_prefix ≡ "")
        × (c.frontend_assets_bucket ≢ "")
        × (c.frontend_assets_key ≢ ""))

-- What the rest of the program relies on.
pub record IsUsable (c : Config) : Type 0 where
  pub region : c.region ≢ ""
  pub port_low : pos 1 ≤ℤ c.port
  pub port_high : c.port ≤ℤ pos 65535
  pub database_host : c.database_host ≢ ""
  pub database_username : c.database_username ≢ ""
  pub database_name : c.database_name ≢ ""
  pub database_port_low : pos 1 ≤ℤ c.database_port
  pub database_port_high : c.database_port ≤ℤ pos 65535
  pub assets : Assets c
  pub password : (c.password_key ≡ "") ⊎ (c.database_password ≢ "")

port_lem : (n : ℤ) → is_port n ≡ true → (pos 1 ≤ℤ n) × (n ≤ℤ pos 65535)
port_lem n h = (ground arith, ground arith)

set_lem : (s : String) → is_set s ≡ true → s ≢ ""
set_lem s h e = cc (rw e at h)

unset_lem : (s : String) → (s == "") ≡ false → s ≢ ""
unset_lem s h e = cc (rw e at h)

pub or_fatal-ok :
    {W A : Type 0} (r : A ⊎ Error) (w : W) {a : A} → (or_fatal r w).0 ≡ ok a → r ≡ inl a
or_fatal-ok (inl a) w h = cc
or_fatal-ok (inr e) w h = cc

-- What follows a call that returns, when the whole returns.
pub after-ok :
    {W A B : Type 0} (m : Io W A) (f : A → Io W B) (w : W) {b : B}
    → ((m >>= f) w).0 ≡ ok b
    → (a : A) × (w' : W) × ((m w).0 ≡ ok a) × ((f a w').0 ≡ ok b)
after-ok m f w h =
    let (a, p, q) = bind-ok (m w).0 f (m w).1 h in (a, (m w).1, p, sym (ap (λ r. r.0) q) ∙ h)

require-ok :
    {W A : Type 0} (b : Bool) (m : Io W A) (w : W) {a : A}
    → ((require b >> m) w).0 ≡ ok a
    → (b ≡ true) × ((m w).0 ≡ ok a)
require-ok true m w h = (refl, h)
require-ok false m w h = cc

abbrev PasswordOf : Config → Config → Type 0
PasswordOf c c' =
    (p : String) × (c' ≡ record c { database_password = p }) × ((c.password_key ≡ "") ⊎ (p ≢ ""))

assets_lem :
    (c : Config)
    → (c.frontend_assets == "local" || c.frontend_assets == "s3") ≡ true
    → assets_ok c ≡ true
    → Assets c
unfolding assets_ok
assets_lem c k a = elim (Bool-cases (c.frontend_assets == "local")) [
  | inl e ↦
      let l : local_ok c ≡ true = rw e at a in
      inl (
        (eq_iff c.frontend_assets "local").0 e,
        (eq_iff c.frontend_assets_bucket "").0 (ground arith),
        (eq_iff c.frontend_assets_key "").0 (ground arith),
      )
  | inr e ↦
      let f : (c.frontend_assets == "s3") ≡ true = rw e at k in
      let l : s3_ok c ≡ true = rw (e, f) at a in
      inr (
        (eq_iff c.frontend_assets "s3").0 f,
        (eq_iff c.frontend_assets_local_prefix "").0 (ground arith),
        set_lem c.frontend_assets_bucket (ground arith),
        set_lem c.frontend_assets_key (ground arith),
      )
]

basics_lem :
    (c : Config) (p : String)
    → basics_ok c ≡ true
    → assets_ok c ≡ true
    → (c.password_key ≡ "") ⊎ (p ≢ "")
    → IsUsable (record c { database_password = p })
unfolding basics_ok assets_ok
basics_lem c p b a o = record {
  region = set_lem c.region (ground arith);
  port_low = (port_lem c.port (ground arith)).0;
  port_high = (port_lem c.port (ground arith)).1;
  database_host = set_lem c.database_host (ground arith);
  database_username = set_lem c.database_username (ground arith);
  database_name = set_lem c.database_name (ground arith);
  database_port_low = (port_lem c.database_port (ground arith)).0;
  database_port_high = (port_lem c.database_port (ground arith)).1;
  assets = assets_lem c (ground arith) a;
  password = o;
}

module _ {W : Type 0} (service : ConfigService W) where
  password_lem :
      (decoded : Config ⊎ Error) {p : String} → set_password service decoded ≡ inl p → p ≢ ""
  password_lem (inr e) h = cc
  password_lem (inl c) {p} h = elim (Bool-cases (c.database_password == "")) [
    | inl e ↦ cc (rw e at h)
    | inr e ↦
        let q : c.database_password ≡ p = cc (rw e at h) in
        subst (λ s. s ≢ "") q (unset_lem c.database_password e)
  ]

  file_password_lem :
      (contents : String) {p : String}
      → read_password_configuration service contents ≡ inl p
      → p ≢ ""
  unfolding read_password_configuration
  file_password_lem contents h = password_lem (service.decode contents no_config) h

  with_password-ok :
      (c : Config) (w : W) {c' : Config} → (with_password service c w).0 ≡ ok c' → PasswordOf c c'
  unfolding with_password
  with_password-ok c w {c'} h = elim (Bool-cases (c.password_key == "")) [
    | inl e ↦
        let q : c ≡ c' = cc (rw e at h) in
        (c.database_password, sym q, inl ((eq_iff c.password_key "").0 e))
    | inr e ↦
        let (_, h1) =
          require-ok (c.database_password == "")
            (read_password_file service c >>= use_file service c) w (rw e at h) in
        let (out, w1, _, h2) = after-ok (read_password_file service c) (use_file service c) w h1 in
        let (contents, w2, _, h3) = after-ok (or_fatal out) (use_text service c) w1 h2 in
        let (password, w3, p, h4) =
          after-ok (or_fatal (read_password_configuration service contents))
            (use_password service c) w2 h3 in
        (
          password,
          cc,
          inr (
              file_password_lem contents
                (or_fatal-ok (read_password_configuration service contents) w2 p)),
        )
  ]

  -- A configuration that is read is one that the rest of the program can use.
  pub read_configuration_lem :
      (filename : String) (w : W) {c : Config}
      → (read_configuration service filename w).0 ≡ ok c
      → IsUsable c
  unfolding read_configuration checked
  read_configuration_lem filename w h =
      let (toml, w1, _, h1) =
        after-ok (service.read_all_no_sessions filename) (read_text service) w h in
      let (decoded, w2, _, h2) =
        after-ok (returned (service.decode toml default_config)) (complete service) w1 h1 in
      let (c, w3, _, h3) = after-ok (substitute_all service decoded) (checked service) w2 h2 in
      let (b, h4) =
        require-ok (basics_ok c)
          (open_aws service c >> (require (assets_ok c) >> with_password service c)) w3 h3 in
      let (_, w5, _, h5) =
        after-ok (open_aws service c) (λ _. require (assets_ok c) >> with_password service c) w3
          h4 in
      let (a, h6) = require-ok (assets_ok c) (with_password service c) w5 h5 in
      let (p, e, o) = with_password-ok c w5 h6 in subst IsUsable (sym e) (basics_lem c p b a o)

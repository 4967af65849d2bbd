-- ===== src/Program/Index.antt =====
-- Where `fetchIndex` of batchiepatchie.go finds the page of the frontend.
use batchiepatchie.Prelude.{String, false, ◌≡◌, refl, ap, ◌⊎◌, inl, inr, none, ◌==◌, if◌then◌else◌}
use batchiepatchie.Prelude.Text.{concat, has, slash, newline}
use batchiepatchie.Config.{Config}
use batchiepatchie.Config.Checked.{IsUsable}
use batchiepatchie.Fetcher.{s3_match, read_object, read_all, read_matched}
use batchiepatchie.Fetcher.Locations.{s3_match_iff, s3_location}
use batchiepatchie.Program.{Machine, index_location, index_path, fetch_index}
use batchiepatchie.Program.Paths.{join_path}
use batchiepatchie.Program.Paths.Clean.{clean-local}

local_path : (prefix : String) → s3_match (index_path prefix) ≡ none
unfolding join_path
local_path prefix =
    clean-local (if prefix == "" then "index.html" else concat prefix (concat "/" "index.html"))

module _ {W Connection Killer Hook Client Object : Type 0}
    (machine : Machine W Connection Killer Hook Client Object) where
  -- With a configuration that was read, and where the bucket's name holds no slash and the key no
  -- newline: a local frontend's index.html is read from a local file, whatever its prefix is, and
  -- that of one on S3 is the object with the key that is configured, in the bucket that is.
  pub fetch_index_lem :
      (c : Config)
      → IsUsable c
      → has slash c.frontend_assets_bucket ≡ false
      → has newline c.frontend_assets_key ≡ false
      → ((c.frontend_assets ≡ "local")
          × (fetch_index machine c
              ≡ machine.files.read_all_local_file (index_path c.frontend_assets_local_prefix)))
        ⊎ ((c.frontend_assets ≡ "s3")
            × (fetch_index machine c
                ≡ read_object machine.files c.frontend_assets_bucket c.frontend_assets_key))
  unfolding fetch_index index_location read_all
  fetch_index_lem c u s n = elim u.assets [
    | inl (e, b, k) ↦ inl (
      e,
      rw e (
          ap
            (read_matched machine.files (read_object machine.files)
              (index_path c.frontend_assets_local_prefix))
            (local_path c.frontend_assets_local_prefix)),
    )
    | inr (e, p, b, k) ↦ inr (
      e,
      rw e (
          ap
            (read_matched machine.files (read_object machine.files)
              (s3_location c.frontend_assets_bucket c.frontend_assets_key))
            ((s3_match_iff (s3_location c.frontend_assets_bucket c.frontend_assets_key)
                c.frontend_assets_bucket c.frontend_assets_key).1
              (refl, (b, s, k, n)))),
    )
  ]

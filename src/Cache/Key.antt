-- ===== src/Cache/Key.antt =====
-- `New`, `Key` and `PathForKey` of pkg/cache/cache.go.
pub mod Laws
use gitrepo_csi_driver.Base.{
  ◌*◌, List, [], ◌∷◌, ◌++◌, if◌then◌else◌, is_nil, Result, ok, err, errorf, ◌>>◌,
}
use gitrepo_csi_driver.Base.Int.{ℤ, pos, leb_ℤ}
use gitrepo_csi_driver.Text.{Text}
use gitrepo_csi_driver.Paths.{join_path}

pub record Config : Type 0 where
  pub root_dir : Text
  pub max_size : ℤ
  pub max_age : ℤ

abbrev default_max_size : ℤ
default_max_size = pos (10 * 1024 * 1024 * 1024)

-- 24 * time.Hour
abbrev default_max_age : ℤ
default_max_age = pos (24 * 3600 * 1000000000)

-- `New`; making the root directory is a parameter.
unfoldable pub new_manager : (Text → Result (Unit {0})) → Config → Result Config
new_manager mkdir_all cfg =
    if is_nil cfg.root_dir then err (errorf "cache root dir is required" []) else do
      mkdir_all cfg.root_dir
      ok (record {
        root_dir = cfg.root_dir;
        max_size = if leb_ℤ cfg.max_size (pos 0) then default_max_size else cfg.max_size;
        max_age = if leb_ℤ cfg.max_age (pos 0) then default_max_age else cfg.max_age;
      })

-- What `Key` writes to the hash: each part and a newline.
unfoldable pub key_input : List Text → Text
key_input [] = []
key_input (p ∷ ps) = p ++ b'\n' ∷ key_input ps

-- `Key` and `PathForKey`.
unfoldable pub key : (sha256_hex : Text → Text) → List Text → Text
key sha256_hex parts = sha256_hex (key_input parts)

unfoldable pub path_for_key : Config → Text → Text
path_for_key cfg k = join_path cfg.root_dir k

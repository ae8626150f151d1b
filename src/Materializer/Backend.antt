-- ===== src/Materializer/Backend.antt =====
-- The `Result` of a backend, of pkg/materializer/materializer.go.
use gitrepo_csi_driver.Base.{ℕ, Bool}
use gitrepo_csi_driver.Base.Int.{ℤ}
use gitrepo_csi_driver.Text.{Text}

pub record Materialized : Type 0 where
  pub resolved_revision : Text
  pub repo_path : Text
  pub mounted_path : Text
  pub file_count : ℤ
  pub size_bytes : ℤ
  pub cache_hit : Bool

abbrev pub public_dir_perm : ℕ
public_dir_perm = 0o755

abbrev pub private_dir_perm : ℕ
private_dir_perm = 0o750

-- ===== src/NodePlugin/TargetPath.antt =====
-- `safeTargetPath` of cmd/nodeplugin/main.go: where a mount request may put its link.
pub mod Laws
use gitrepo_csi_driver.Base.{
  Bool, true, false, not, ◌||◌, List, [], ◌∷◌, if◌then◌else◌, is_nil, Result, ok, err, ◌>>=◌, Error,
  errorf, bytes,
}
use gitrepo_csi_driver.Text.{Text, same}
use gitrepo_csi_driver.Paths.{dot, is_abs, is_local, clean, rel, join_path}

-- The last test and the path that is returned.
unfoldable pub below_root : Text → Text → Result Text
below_root clean_root rel_path =
    if same rel_path dot || not (is_local rel_path)
    then err (errorf "target path must stay within %s" (bytes clean_root ∷ []))
    else ok (join_path clean_root rel_path)

unfoldable pub safe_target_path : Text → Text → Result Text
safe_target_path root candidate =
    if is_nil root
    then err (errorf "target root is required" [])
    else if not (is_abs root)
    then err (errorf "target root must be absolute" [])
    else if not (is_abs candidate)
    then err (errorf "target path must be absolute" [])
    else do rel_path ← rel (clean root) (clean candidate); below_root (clean root) rel_path

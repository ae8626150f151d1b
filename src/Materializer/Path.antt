-- ===== src/Materializer/Path.antt =====
-- The paths of pkg/materializer/materializer.go: `ensureInside`, `safeJoin` and their tests.
pub mod Laws
pub mod Inside
pub mod Join
use gitrepo_csi_driver.Base.{
  Bool, true, false, not, ◌||◌, List, [], ◌∷◌, Result, ok, err, Error, errorf, bytes, ◌>>=◌, ◌>>◌,
  if◌then◌else◌, is_nil, any,
}
use gitrepo_csi_driver.Text.{Text, slash, same, split}
use gitrepo_csi_driver.Paths.{dotdot, is_abs, is_local, is_parent, clean, rel, join_path, dir}
use gitrepo_csi_driver.Volume.RepoPath.{has_git_path_segment}

-- The test of `ensureInside` on the relative path.
unfoldable pub check_inside : Text → Result (Unit {0})
check_inside rel_path =
    if is_parent rel_path || is_abs rel_path
    then err (errorf "requested path escapes repository" [])
    else ok tt

unfoldable pub ensure_inside : Text → Text → Result (Unit {0})
ensure_inside root candidate = do rel_path ← rel root candidate; check_inside rel_path

unfoldable pub has_parent_path_segment : Text → Bool
has_parent_path_segment path = any (λ part. same part dotdot) (split path slash)

-- The part of `safeJoin` behind `filepath.Clean`.
unfoldable pub join_cleaned : Text → Text → Result Text
join_cleaned root cleaned =
    if not (is_local cleaned) || has_parent_path_segment cleaned
    then err (errorf "path escapes root" [])
    else if has_git_path_segment cleaned
    then err (errorf "path must not reference .git" [])
    else do ensure_inside root (join_path root cleaned); ok (join_path root cleaned)

unfoldable pub safe_join : Text → Text → Result Text
safe_join root path = if is_nil path then ok (clean root) else join_cleaned root (clean path)

-- `validateSymlinkTarget`
unfoldable pub validate_symlink_target : Text → Text → Text → Result (Unit {0})
validate_symlink_target root link_path link_target =
    if is_abs link_target
    then err (errorf "repository symlink %s uses an absolute target" (bytes link_path ∷ []))
    else elim (ensure_inside root (clean (join_path (dir link_path) link_target))) [
      | err _ ↦ err (errorf "repository symlink %s escapes source root" (bytes link_path ∷ []))
      | ok _ ↦ ok tt
    ]

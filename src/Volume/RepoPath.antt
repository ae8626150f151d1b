-- ===== src/Volume/RepoPath.antt =====
-- `normalizeRepoPath` of pkg/volume/attributes.go.
pub mod Laws
use gitrepo_csi_driver.Base.{
  Bool, true, false, ◌||◌, List, [], ◌∷◌, if◌then◌else◌, is_nil, any, Result, ok, err, errorf,
}
use gitrepo_csi_driver.Text.{Text, codes, slash, same, contains, split}
use gitrepo_csi_driver.Paths.{dot, is_abs, clean, is_parent}

abbrev pub dot_git : Text
dot_git = codes ".git"

-- Whether a part of the path is ".git", as `hasGitPathSegment` of pkg/materializer also tests.
unfoldable pub has_git_path_segment : Text → Bool
has_git_path_segment path = any (λ part. same part dot_git) (split path slash)

-- The tests on the cleaned path.
unfoldable pub check_cleaned : Text → Result Text
check_cleaned cleaned =
    if same cleaned dot
    then ok []
    else if is_parent cleaned
    then err (errorf "volume attribute path must stay within the repository" [])
    else if has_git_path_segment cleaned
    then err (errorf "volume attribute path must not reference .git" [])
    else ok cleaned

unfoldable pub normalize_repo_path : Text → Result Text
normalize_repo_path raw =
    if is_nil raw
    then ok []
    else if contains raw (b'\\' ∷ [])
    then err (errorf "volume attribute path must use forward slash separators" [])
    else if is_abs raw
    then err (errorf "volume attribute path must be relative" [])
    else check_cleaned (clean raw)

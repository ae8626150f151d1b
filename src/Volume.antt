-- ===== src/Volume.antt =====
-- pkg/volume/attributes.go: the attributes of an inline volume. `Parse` validates what a workload
-- asks for. The URL parser of `net/url` is a parameter.
pub mod Repo
pub mod Revision
pub mod RepoPath
pub mod Options
pub mod Context
pub mod Laws
use gitrepo_csi_driver.Base.{
  Bool, true, false, List, [], ◌∷◌, if◌then◌else◌, is_nil, Result, ok, err, ◌>>=◌, ◌>>◌, errorf,
  Option, none, some, String,
}
use gitrepo_csi_driver.Base.Int.{ℤ, pos}
use gitrepo_csi_driver.Text.{Text, codes, same}
use gitrepo_csi_driver.Text.Space.{trim_space}
use gitrepo_csi_driver.Volume.Repo.{validate_repo}
use gitrepo_csi_driver.Library.{Url}
use gitrepo_csi_driver.Volume.Revision.{validate_revision}
use gitrepo_csi_driver.Volume.RepoPath.{normalize_repo_path}
use gitrepo_csi_driver.Volume.Options.{parse_depth, parse_submodules, parse_lfs, parse_refresh}

pub record Attributes : Type 0 where
  pub repo : Text
  pub revision : Text
  pub revision_kind : Text
  pub path : Text
  pub depth : ℤ
  pub submodules : Bool
  pub lfs : Bool
  pub policy : Text
  pub credential_profile : Text
  pub refresh_seconds : ℤ

-- A `map[string]string`; of two entries with one key the first counts.
abbrev pub StringMap : Type 0
StringMap = List (Text × Text)

-- `raw[key]`: the empty string where the key is missing.
unfoldable pub get : StringMap → Text → Text
get [] key = []
get ((k, v) ∷ raw) key = if same k key then v else get raw key

-- `strings.TrimSpace(raw[key])`
unfoldable pub attribute : StringMap → String → Text
attribute raw key = trim_space (get raw (codes key))

module _ (url_parse : Text → Option Url) where
  unfoldable pub parse : StringMap → Result Attributes
  parse raw =
      let repo = attribute raw "repo" in
      let revision = attribute raw "revision" in
      if is_nil repo
      then err (errorf "volume attribute repo is required" [])
      else if is_nil revision
      then err (errorf "volume attribute revision is required" [])
      else do
        validate_repo url_parse repo
        validate_revision revision
        path ← normalize_repo_path (attribute raw "path")
        depth ← parse_depth (attribute raw "depth")
        submodules ← parse_submodules (attribute raw "submodules")
        lfs ← parse_lfs (attribute raw "lfs")
        refresh_seconds ← parse_refresh (attribute raw "refreshSeconds")
        ok (record {
          repo = repo;
          revision = revision;
          revision_kind = attribute raw "revisionKind";
          path = path;
          depth = depth;
          submodules = submodules;
          lfs = lfs;
          policy = attribute raw "policy";
          credential_profile = attribute raw "credentialProfile";
          refresh_seconds = refresh_seconds;
        })

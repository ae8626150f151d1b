-- ===== src/Volume/Laws.antt =====
-- What `Parse` promises of the attributes that it returns.
use gitrepo_csi_driver.Base.{
  ◌≡◌, refl, false, [], ◌∷◌, ok, ok_inj, >>=-eq-ok, >>-eq-ok, is_nil, arith, Option,
}
use gitrepo_csi_driver.Base.Int.{ℤ, pos, ◌≤ℤ◌}
use gitrepo_csi_driver.Text.{Text}
use gitrepo_csi_driver.Library.{Url}
use gitrepo_csi_driver.Volume.{Attributes, StringMap, attribute, parse}
use gitrepo_csi_driver.Volume.Repo.{validate_repo}
use gitrepo_csi_driver.Volume.Revision.{validate_revision}
use gitrepo_csi_driver.Volume.RepoPath.{normalize_repo_path}
use gitrepo_csi_driver.Volume.RepoPath.Laws.{IsRepoPath, normalize_repo_path_iff}
use gitrepo_csi_driver.Volume.Options.{parse_depth, parse_submodules, parse_lfs, parse_refresh}

-- Attributes that are what the map says, and valid.
pub record IsValid (url_parse : Text → Option Url) (raw : StringMap) (attrs : Attributes)
    : Type 0 where
  pub repo_given : attrs.repo ≡ attribute raw "repo"
  pub repo : validate_repo url_parse attrs.repo ≡ ok tt
  pub repo_nonempty : is_nil attrs.repo ≡ false
  pub revision_given : attrs.revision ≡ attribute raw "revision"
  pub revision : validate_revision attrs.revision ≡ ok tt
  pub revision_nonempty : is_nil attrs.revision ≡ false
  pub path : IsRepoPath (attribute raw "path") attrs.path
  pub depth : pos 0 ≤ℤ attrs.depth
  pub refresh_seconds : pos 0 ≤ℤ attrs.refresh_seconds
  pub revision_kind_given : attrs.revision_kind ≡ attribute raw "revisionKind"
  pub policy_given : attrs.policy ≡ attribute raw "policy"
  pub profile_given : attrs.credential_profile ≡ attribute raw "credentialProfile"
  pub depth_given : parse_depth (attribute raw "depth") ≡ ok attrs.depth
  pub submodules_given : parse_submodules (attribute raw "submodules") ≡ ok attrs.submodules
  pub lfs_given : parse_lfs (attribute raw "lfs") ≡ ok attrs.lfs
  pub refresh_given : parse_refresh (attribute raw "refreshSeconds") ≡ ok attrs.refresh_seconds

depth_sign : (s : Text) (n : ℤ) → parse_depth s ≡ ok n → pos 0 ≤ℤ n
unfolding parse_depth
depth_sign [] n h = ground arith
depth_sign (c ∷ s) n h = ground arith

refresh_sign : (s : Text) (n : ℤ) → parse_refresh s ≡ ok n → pos 0 ≤ℤ n
unfolding parse_refresh
refresh_sign [] n h = ground arith
refresh_sign (c ∷ s) n h = ground arith

module _ (url_parse : Text → Option Url) where
  given :
      (raw : StringMap) (attrs : Attributes)
      → parse url_parse raw ≡ ok attrs
      → (is_nil (attribute raw "repo") ≡ false) × (is_nil (attribute raw "revision") ≡ false)
  unfolding parse
  given raw attrs h = (ground arith, ground arith)

  -- Each of the attributes that `parse` returns is read from its own key of the map: the repository, the
  -- revision and its kind, the policy and the credential profile as the map gives them, without the
  -- spaces around them, and the depth, submodules, LFS and the refresh interval as the numbers and flags
  -- that are given. The repository and the revision are not empty and pass their tests, the path stays
  -- inside the repository, and the depth and the refresh interval are not negative.
  pub parse-IsValid :
      (raw : StringMap) (attrs : Attributes)
      → parse url_parse raw ≡ ok attrs
      → IsValid url_parse raw attrs
  unfolding parse
  parse-IsValid raw attrs h =
      let (n, m) = given raw attrs h in
      let (r, h1) = >>-eq-ok (validate_repo url_parse (attribute raw "repo")) _ (rw (n, m) at h) in
      let (v, h2) = >>-eq-ok (validate_revision (attribute raw "revision")) _ h1 in
      let (path, p, h3) = >>=-eq-ok (normalize_repo_path (attribute raw "path")) _ h2 in
      let (depth, d, h4) = >>=-eq-ok (parse_depth (attribute raw "depth")) _ h3 in
      let (submodules, s, h5) = >>=-eq-ok (parse_submodules (attribute raw "submodules")) _ h4 in
      let (lfs, l, h6) = >>=-eq-ok (parse_lfs (attribute raw "lfs")) _ h5 in
      let (refresh, f, h7) = >>=-eq-ok (parse_refresh (attribute raw "refreshSeconds")) _ h6 in
      rw (← ok_inj h7) (record {
        repo_given = refl;
        repo = r;
        repo_nonempty = n;
        revision_given = refl;
        revision = v;
        revision_nonempty = m;
        path = (normalize_repo_path_iff (attribute raw "path") path).0 p;
        depth = depth_sign (attribute raw "depth") depth d;
        refresh_seconds = refresh_sign (attribute raw "refreshSeconds") refresh f;
        revision_kind_given = refl;
        policy_given = refl;
        profile_given = refl;
        depth_given = d;
        submodules_given = s;
        lfs_given = l;
        refresh_given = f;
      })

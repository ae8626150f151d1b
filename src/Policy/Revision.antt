-- ===== src/Policy/Revision.antt =====
-- `checkRevisionPolicy` of pkg/policy/evaluator.go.
pub mod Laws
use gitrepo_csi_driver.Base.{
  ℕ, Bool, true, false, not, ◌||◌, ◌&&◌, List, [], ◌∷◌, Result, ok, err, errorf, if◌then◌else◌,
  is_nil,
}
use gitrepo_csi_driver.Text.{Text, codes, has_prefix}
use gitrepo_csi_driver.Library.{Library}
use gitrepo_csi_driver.Volume.Revision.{is_hex_sha}
use gitrepo_csi_driver.Policy.Types.{RevisionPolicy}
use gitrepo_csi_driver.Policy.Match.{matches_any_regex}

-- `isCommitSHA`, a copy of pkg/volume's `isHexSHA`.
abbrev pub is_commit_sha : Text → Bool
is_commit_sha = is_hex_sha

unfoldable pub is_tag : Text → Bool
is_tag rev = has_prefix rev (codes "refs/tags/") || has_prefix rev (codes "tag:")

unfoldable pub is_branch : Text → Bool
is_branch rev =
    has_prefix rev (codes "refs/heads/")
    || has_prefix rev (codes "branch:")
    || (not (is_commit_sha rev) && not (is_tag rev))

module _ (lib : Library) where
  unfoldable pub check_revision_policy : Text → RevisionPolicy → Result (Unit {0})
  check_revision_policy rev rp =
      if rp.require_pinned_commit && not (is_commit_sha rev)
      then err (errorf "revision must be a pinned commit SHA" [])
      else if is_branch rev && not rp.allow_branches && not rp.require_pinned_commit
      then err (errorf "branch revisions are not allowed by policy" [])
      else if is_tag rev && not rp.allow_tags && not rp.require_pinned_commit
      then err (errorf "tag revisions are not allowed by policy" [])
      else if is_branch rev
          && not (is_nil rp.allowed_branch_regex)
          && not (matches_any_regex lib rp.allowed_branch_regex rev)
      then err (errorf "branch does not match allowed branch patterns" [])
      else if is_tag rev
          && not (is_nil rp.allowed_tag_regex)
          && not (matches_any_regex lib rp.allowed_tag_regex rev)
      then err (errorf "tag does not match allowed tag patterns" [])
      else ok tt

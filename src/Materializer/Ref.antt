-- ===== src/Materializer/Ref.antt =====
-- The revisions of pkg/materializer: `isPinnedCommit`, `mutableRef` and the test of git operands.
pub mod Laws
use gitrepo_csi_driver.Base.{
  Bool, true, false, not, List, [], ◌∷◌, Result, ok, err, Error, errorf, bytes, if◌then◌else◌,
}
use gitrepo_csi_driver.Text.{Text, codes, same, has_prefix, trim_prefix}
use gitrepo_csi_driver.Volume.{Attributes}
use gitrepo_csi_driver.Volume.Revision.{is_hex_sha}

-- `isPinnedCommit` and `isHex`, the test of pkg/volume's `isHexSHA` once more.
abbrev pub is_pinned_commit : Text → Bool
is_pinned_commit = is_hex_sha

-- `mutableRef` of a revision kind and a revision.
unfoldable pub mutable_ref_of : Text → Text → Text
mutable_ref_of kind rev =
    if same kind (codes "tag")
    then trim_prefix (trim_prefix rev (codes "refs/tags/")) (codes "tag:")
    else if same kind (codes "branch")
    then trim_prefix (trim_prefix rev (codes "refs/heads/")) (codes "branch:")
    else if has_prefix rev (codes "refs/tags/")
    then trim_prefix rev (codes "refs/tags/")
    else if has_prefix rev (codes "refs/heads/")
    then trim_prefix rev (codes "refs/heads/")
    else if has_prefix rev (codes "tag:")
    then trim_prefix rev (codes "tag:")
    else if has_prefix rev (codes "branch:")
    then trim_prefix rev (codes "branch:")
    else if is_pinned_commit rev
    then []
    else rev

abbrev pub mutable_ref : Attributes → Text
mutable_ref attrs = mutable_ref_of attrs.revision_kind attrs.revision

-- `rejectGitFlagOperand`; the name is the operand's, for the message.
unfoldable pub reject_git_flag_operand : Text → Text → Result (Unit {0})
reject_git_flag_operand arg name =
    if has_prefix arg (codes "--")
    then err (errorf "%s must not start with '--'" (bytes name ∷ []))
    else ok tt

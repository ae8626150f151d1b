-- ===== src/Tests/Target.antt =====
-- `safeTargetPath` of cmd/nodeplugin/main.go and `mutableRef` of pkg/materializer/materializer.go,
-- on the inputs of their unit tests.
use gitrepo_csi_driver.Base.{◌≢◌, ◌≡◌, refl, true, [], ◌∷◌, ok, err, errorf, bytes}
use gitrepo_csi_driver.Materializer.Path.{
  check_inside, ensure_inside, has_parent_path_segment, join_cleaned, safe_join,
}
use gitrepo_csi_driver.Materializer.Path.Laws.{IsInside, safe_join-IsInside}
use gitrepo_csi_driver.Materializer.Ref.{mutable_ref_of, reject_git_flag_operand}
use gitrepo_csi_driver.Materializer.Ref.Laws.{NotDash, reject_git_flag_operand-mutable_ref}
use gitrepo_csi_driver.NodePlugin.TargetPath.{below_root, safe_target_path}
use gitrepo_csi_driver.NodePlugin.TargetPath.Laws.{IsBelow, safe_target_path_iff}
use gitrepo_csi_driver.Paths.{
  is_local, join_path, parse_path, rel, rel_parts, rel_rest, render, strip, is_abs, clean,
}
use gitrepo_csi_driver.Text.{
  contains, contains_any, has_prefix, has_suffix, same, split, trim_prefix, Text, codes,
}
use gitrepo_csi_driver.Volume.RepoPath.{has_git_path_segment}
use gitrepo_csi_driver.Volume.Revision.{
  is_hex_sha, is_safe_git_ref_name, is_unsafe_part, strip_ref_prefix, validate_revision,
}

abbrev pub kubelet : Text
kubelet = codes "/var/lib/kubelet"

abbrev pub pod_mount : Text
pod_mount = codes "/var/lib/kubelet/pods/../pods/a/mount/"

abbrev pod_mount_cleaned : Text
pod_mount_cleaned = codes "/var/lib/kubelet/pods/a/mount"

accepted_target : safe_target_path kubelet pod_mount ≡ ok pod_mount_cleaned
unfolding safe_target_path is_abs rel same clean render parse_path rel_rest strip rel_parts
    below_root is_local join_path
accepted_target = refl

root_itself :
    safe_target_path kubelet (codes "/var/lib/kubelet/pods/..")
    ≡ err (errorf "target path must stay within %s" (bytes kubelet ∷ []))
unfolding safe_target_path is_abs rel same clean render parse_path below_root
root_itself = refl

outside :
    safe_target_path kubelet (codes "/var/lib/kubelet/../other")
    ≡ err (errorf "target path must stay within %s" (bytes kubelet ∷ []))
unfolding safe_target_path is_abs rel same clean render parse_path rel_rest strip rel_parts
    below_root is_local
outside = refl

sibling :
    safe_target_path kubelet (codes "/var/lib/kubelet-other")
    ≡ err (errorf "target path must stay within %s" (bytes kubelet ∷ []))
unfolding safe_target_path is_abs rel same clean render parse_path rel_rest strip rel_parts
    below_root is_local
sibling = refl

safe_target_path_iff_example :
    (is_abs kubelet ≡ true)
    × (is_abs pod_mount ≡ true)
    × IsBelow kubelet pod_mount
    × (pod_mount_cleaned ≡ clean pod_mount)
safe_target_path_iff_example =
    (safe_target_path_iff kubelet pod_mount pod_mount_cleaned).0 accepted_target

abbrev tag_revision : Text
tag_revision = codes "refs/tags/v1.2.3"

accepted_revision : validate_revision tag_revision ≡ ok tt
unfolding validate_revision contains_any has_prefix is_hex_sha is_safe_git_ref_name strip_ref_prefix
    trim_prefix has_suffix contains split is_unsafe_part same
accepted_revision = refl

-- A kind that disagrees with the prefix leaves the prefix on.
kind_branch : mutable_ref_of (codes "branch") tag_revision ≡ tag_revision
unfolding mutable_ref_of same trim_prefix
kind_branch = refl

kind_tag : mutable_ref_of (codes "tag") tag_revision ≡ codes "v1.2.3"
unfolding mutable_ref_of same trim_prefix
kind_tag = refl

reject_git_flag_operand-mutable_ref_example :
    NotDash (mutable_ref_of (codes "tag") tag_revision)
    × (reject_git_flag_operand (mutable_ref_of (codes "tag") tag_revision) (codes "ref") ≡ ok tt)
reject_git_flag_operand-mutable_ref_example =
    reject_git_flag_operand-mutable_ref (codes "tag") tag_revision (codes "ref") accepted_revision

joined_path : safe_join (codes "/cache/key/repo") (codes "a/./b") ≡ ok (codes "/cache/key/repo/a/b")
unfolding safe_join join_cleaned is_local render parse_path has_parent_path_segment
    has_git_path_segment ensure_inside rel join_path rel_rest strip rel_parts check_inside
joined_path = refl

repo_root-ne-nil : codes "/cache/key/repo" ≢ []
repo_root-ne-nil e = cc

safe_join-IsInside_example :
    IsInside (codes "/cache/key/repo") (codes "a/./b") (codes "/cache/key/repo/a/b")
safe_join-IsInside_example =
    safe_join-IsInside (codes "/cache/key/repo") (codes "a/./b") (codes "/cache/key/repo/a/b")
      repo_root-ne-nil joined_path

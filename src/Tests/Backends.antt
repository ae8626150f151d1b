-- ===== src/Tests/Backends.antt =====
-- A run of the git binary backend on a small repository.
use gitrepo_csi_driver.Base.{◌≡◌, refl, true, false, [], ◌++◌, ok}
use gitrepo_csi_driver.Base.Int.{pos}
use gitrepo_csi_driver.Files.{walk, walk_entries}
use gitrepo_csi_driver.Files.Mode.{perm, read_only_perm}
use gitrepo_csi_driver.Materializer.Action.{◌>>=◌, ◌>>◌, lift, wrap, call}
use gitrepo_csi_driver.Materializer.Argv.{
  validate_git_args, git_args, string_trim, is_mutable_revision, reject_given, clone_args,
  clone_commit_args, fetch_args, depth_or, checkout_ref, check_sha, rev_parse_args, check_directory,
  source_path_of,
}
use gitrepo_csi_driver.Materializer.Backend.{Materialized}
use gitrepo_csi_driver.Materializer.Copy.{
  write, write_file, copy_regular_file, copy_node, copy_relative, copy_entry, copy_content_tree,
}
use gitrepo_csi_driver.Materializer.GitCommand.{
  new, git_credential, ignore_permission, share_work_dir, prepare_work_dir_for_git, git_command,
  run_git, git_output, Environment,
}
use gitrepo_csi_driver.Materializer.Git.{
  counted, fetch_mutable_revision, clone_commit, clone_ref, clone_repository, found, refresh,
  clone_or_refresh, checkout, checkout_resolved, checkout_revision, update_submodules, check_source,
  copy_tree, count_content, lay_out, materialize,
}
use gitrepo_csi_driver.Materializer.Git.Outcome.{IsWithinLimits, materialize-IsWithinLimits}
use gitrepo_csi_driver.Materializer.Limits.{
  add_counts, size_of, count_node, count_files, check_limits,
}
use gitrepo_csi_driver.Materializer.Path.{
  check_inside, ensure_inside, has_parent_path_segment, join_cleaned, safe_join,
  validate_symlink_target,
}
use gitrepo_csi_driver.Materializer.Ref.{mutable_ref_of, reject_git_flag_operand}
use gitrepo_csi_driver.Paths.{
  is_abs, go_down, resolve_part, resolve, clean_parts, parse_path, parts, render_parts, render,
  clean, is_parent, is_local, rel_parts, strip, rel_rest, rel, join_path, up_to_slash, dir,
}
use gitrepo_csi_driver.Tests.Content.{tree, small, small-IsBounded}
use gitrepo_csi_driver.Text.{
  same, has_prefix, has_suffix, trim_prefix, contains, contains_any, index, cons_head, split, join,
  Text, codes,
}
use gitrepo_csi_driver.Text.Itoa.{digits, itoa}
use gitrepo_csi_driver.Volume.{Attributes}
use gitrepo_csi_driver.Volume.RepoPath.{has_git_path_segment, check_cleaned, normalize_repo_path}
use gitrepo_csi_driver.Volume.Revision.{
  is_hex_digit, is_hex_sha, strip_ref_prefix, is_unsafe_part, is_safe_git_ref_name,
  validate_revision,
}

abbrev pub sha : Text
sha = codes "0123456789abcdef0123456789abcdef01234567"

abbrev pub work_dir : Text
work_dir = codes "/w"

pub work_abs : is_abs work_dir ≡ true
unfolding is_abs has_prefix
work_abs = refl

abbrev pub attrs : Attributes
attrs = record {
  repo = codes "https://github.com/org/repo";
  revision = codes "main";
  revision_kind = codes "branch";
  path = [];
  depth = pos 0;
  submodules = true;
  lfs = false;
  policy = [];
  credential_profile = [];
  refresh_seconds = pos 0;
}

-- A git whose every command succeeds, on a repository that is there already.
abbrev pub git_environment : Environment
git_environment = record {
  getenv = λ name. [];
  is_root = false;
  is_permission = λ e. false;
  answer = λ trace. ok tt;
  output = λ trace. ok (sha ++ codes "\n");
  node_at = λ trace path. ok tree;
  write_answer = λ trace log. ok tt;
}

abbrev git_result : Materialized
git_result = record {
  resolved_revision = sha;
  repo_path = codes "/w/repo";
  mounted_path = codes "/w/content";
  file_count = pos 3;
  size_bytes = pos 11;
  cache_hit = false;
}

git_succeeds : (materialize git_environment attrs small work_dir []).0 ≡ ok git_result
unfolding new counted git_credential ignore_permission share_work_dir prepare_work_dir_for_git
    git_command run_git git_output fetch_mutable_revision clone_commit clone_ref clone_repository
    found refresh clone_or_refresh checkout checkout_resolved checkout_revision update_submodules
    check_source copy_tree count_content lay_out materialize ◌>>=◌ ◌>>◌ lift wrap call
    validate_git_args git_args string_trim is_mutable_revision reject_given clone_args
    clone_commit_args fetch_args depth_or checkout_ref check_sha rev_parse_args check_directory
    source_path_of write write_file copy_regular_file copy_node copy_relative copy_entry
    copy_content_tree add_counts size_of count_node count_files check_limits check_inside
    ensure_inside has_parent_path_segment join_cleaned safe_join validate_symlink_target
    mutable_ref_of reject_git_flag_operand walk walk_entries perm read_only_perm is_abs go_down
    resolve_part resolve clean_parts parse_path parts render_parts render clean is_parent is_local
    rel_parts strip rel_rest rel join_path up_to_slash dir same has_prefix has_suffix trim_prefix
    contains contains_any index cons_head split join digits itoa has_git_path_segment check_cleaned
    normalize_repo_path is_hex_digit is_hex_sha strip_ref_prefix is_unsafe_part is_safe_git_ref_name
    validate_revision
git_succeeds = refl

materialize-IsWithinLimits_example :
    IsWithinLimits git_environment attrs small work_dir git_result
      (materialize git_environment attrs small work_dir []).1
materialize-IsWithinLimits_example =
    materialize-IsWithinLimits git_environment attrs small work_dir small-IsBounded [] git_result
      git_succeeds

-- ===== src/Tests/GoGit.antt =====
-- A run of the go-git backend on a small repository.
use gitrepo_csi_driver.Base.{◌≡◌, refl, true, false, [], ◌∷◌, ◌++◌, ok, none, some, All}
use gitrepo_csi_driver.Base.Int.{pos}
use gitrepo_csi_driver.Files.{walk, walk_entries}
use gitrepo_csi_driver.Files.Mode.{perm, read_only_perm}
use gitrepo_csi_driver.Materializer.Action.{◌>>=◌, ◌>>◌, lift, wrap, call}
use gitrepo_csi_driver.Materializer.Argv.{
  validate_git_args, git_args, string_trim, is_mutable_revision, reject_given, clone_args,
  clone_commit_args, fetch_args, depth_or, checkout_ref, check_sha, rev_parse_args, check_directory,
  source_path_of,
}
use gitrepo_csi_driver.Materializer.Backend.{Materialized}
use gitrepo_csi_driver.Materializer.Copy.{
  write_file, copy_regular_file, copy_node, copy_relative, copy_entry, copy_content_tree,
}
use gitrepo_csi_driver.Materializer.GoGit.Calls.{materialize-SafeGoGitCall}
use gitrepo_csi_driver.Materializer.GoGit.Export.{
  write, export_symlink, export_regular_file, export_at, export_contained, export_file,
  export_files, export_tree,
}
use gitrepo_csi_driver.Materializer.GoGit.Library.{GoGit, System, symlink_mode}
use gitrepo_csi_driver.Materializer.GoGit.Numbers.{IsCounted, materialize-IsCounted}
use gitrepo_csi_driver.Materializer.GoGit.Run.{
  new_go_git, chown_entry, chown_node, chown_tree, chown_content, http_auth, names_tag, has_ref,
  reference_name_of, clone_options, resolve_hash, tree_at, export_all, lay_out, materialize,
}
use gitrepo_csi_driver.Materializer.GoGit.Safe.{SafeGoGitCall}
use gitrepo_csi_driver.Materializer.GoGit.Submodules.{
  fold_long_s, is_submodule_section, url_of, add_subsection, add_subsections, add_sections,
  parse_contents, parse_modules_file, parse_git_modules, head_commit, commit_or_head,
  clone_and_export, export_submodule, export_known, export_entry, export_entries, export_modules,
  export_submodules,
}
use gitrepo_csi_driver.Materializer.Limits.{
  add_counts, size_of, count_node, count_files, check_limits,
}
use gitrepo_csi_driver.Materializer.Path.{
  check_inside, ensure_inside, has_parent_path_segment, join_cleaned, safe_join,
  validate_symlink_target,
}
use gitrepo_csi_driver.Materializer.Ref.{mutable_ref_of, reject_git_flag_operand}
use gitrepo_csi_driver.Paths.{
  is_abs, go_down, resolve_part, resolve, clean_parts, parse_path, parts, render_parts, render,
  clean, is_parent, is_local, rel_parts, strip, rel_rest, rel, join_path, up_to_slash, dir,
}
use gitrepo_csi_driver.Tests.Backends.{sha, work_dir, attrs, work_abs}
use gitrepo_csi_driver.Tests.Content.{tree, small, small-IsBounded}
use gitrepo_csi_driver.Text.{
  same, has_prefix, has_suffix, trim_prefix, contains, contains_any, index, cons_head, split, join,
  Text, codes,
}
use gitrepo_csi_driver.Text.Itoa.{digits, itoa}
use gitrepo_csi_driver.Text.Number.{read_number, atoi, parse_uint32, to_lower, equal_fold}
use gitrepo_csi_driver.Volume.RepoPath.{has_git_path_segment, check_cleaned, normalize_repo_path}
use gitrepo_csi_driver.Volume.Revision.{
  is_hex_digit, is_hex_sha, strip_ref_prefix, is_unsafe_part, is_safe_git_ref_name,
  validate_revision,
}

abbrev pub library : GoGit
library = record {
  Repository = Unit {0};
  Commit = Text;
  Tree = Unit {0};
  clone = λ trace. ok tt;
  head = λ repo. ok sha;
  commit_object = λ repo hash. ok hash;
  commit_hash = λ commit. commit;
  commit_tree = λ commit. ok tt;
  subtree = λ t path. ok t;
  files = λ t. (
    record { name = codes "docs/a.txt"; mode = 0o100644; reader = ok (codes "hi") }
        ∷ record { name = codes "link"; mode = symlink_mode; reader = ok (codes "docs/a.txt") }
        ∷ record { name = codes ".git/config"; mode = 0o100644; reader = ok [] }
        ∷ [],
    ok tt,
  );
  entries = λ t. ([], ok tt);
  file = λ t name. ok none;
  decode = λ text. ok [];
  is_file = λ mode. true;
  new_hash = λ text. text;
  tag_reference_name = λ name. codes "refs/tags/" ++ name;
  branch_reference_name = λ name. codes "refs/heads/" ++ name;
}

abbrev pub system : System
system = record { getenv = λ name. []; answer = λ trace. ok tt; node_at = λ trace path. ok tree }

materialize-SafeGoGitCall_example :
    All
      (SafeGoGitCall work_dir
        (join_path work_dir (codes "content"))
        (some (1000, 1000))
        system.node_at)
      (materialize system library (some (1000, 1000)) attrs small work_dir []).1
materialize-SafeGoGitCall_example =
    materialize-SafeGoGitCall system library (some (1000, 1000)) attrs small work_dir [] work_abs tt

abbrev go_git_result : Materialized
go_git_result = record {
  resolved_revision = sha;
  repo_path = [];
  mounted_path = codes "/w/content";
  file_count = pos 1;
  size_bytes = pos 2;
  cache_hit = false;
}

go_git_succeeds :
    (materialize system library (some (1000, 1000)) attrs small work_dir []).0 ≡ ok go_git_result
unfolding new_go_git chown_entry chown_node chown_tree chown_content http_auth names_tag has_ref
    reference_name_of clone_options resolve_hash tree_at export_all lay_out materialize write
    export_symlink export_regular_file export_at export_contained export_file export_files
    export_tree fold_long_s is_submodule_section url_of add_subsection add_subsections add_sections
    parse_contents parse_modules_file parse_git_modules head_commit commit_or_head clone_and_export
    export_submodule export_known export_entry export_entries export_modules export_submodules
    read_number atoi parse_uint32 to_lower equal_fold ◌>>=◌ ◌>>◌ lift wrap call validate_git_args
    git_args string_trim is_mutable_revision reject_given clone_args clone_commit_args fetch_args
    depth_or checkout_ref check_sha rev_parse_args check_directory source_path_of write_file
    copy_regular_file copy_node copy_relative copy_entry copy_content_tree add_counts size_of
    count_node count_files check_limits check_inside ensure_inside has_parent_path_segment
    join_cleaned safe_join validate_symlink_target mutable_ref_of reject_git_flag_operand walk
    walk_entries perm read_only_perm is_abs go_down resolve_part resolve clean_parts parse_path
    parts render_parts render clean is_parent is_local rel_parts strip rel_rest rel join_path
    up_to_slash dir same has_prefix has_suffix trim_prefix contains contains_any index cons_head
    split join digits itoa has_git_path_segment check_cleaned normalize_repo_path is_hex_digit
    is_hex_sha strip_ref_prefix is_unsafe_part is_safe_git_ref_name validate_revision
go_git_succeeds = refl

materialize-IsCounted_example :
    IsCounted small work_dir go_git_result
      (materialize system library (some (1000, 1000)) attrs small work_dir []).1
materialize-IsCounted_example =
    materialize-IsCounted system library (some (1000, 1000)) attrs small work_dir go_git_result
      small-IsBounded go_git_succeeds

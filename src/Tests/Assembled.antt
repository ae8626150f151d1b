-- ===== src/Tests/Assembled.antt =====
-- A plugin that is started without any configuration, and a pod's volume.
use gitrepo_csi_driver.Base.{
  ◌&&◌, all, ok_inj, List, if◌then◌else◌, All, ◌≡◌, refl, ap, ◌∙◌, true, false, [], ◌∷◌, ◌++◌, ok,
  none, some,
}
use gitrepo_csi_driver.Base.Int.{pos}
use gitrepo_csi_driver.Cache.Key.{new_manager, key_input, key, path_for_key}
use gitrepo_csi_driver.Files.{Node, walk, walk_entries}
use gitrepo_csi_driver.Files.Mode.{perm, read_only_perm}
use gitrepo_csi_driver.Materializer.Action.{◌>>=◌, ◌>>◌, lift, wrap, call}
use gitrepo_csi_driver.Materializer.Argv.{
  validate_git_args, git_args, string_trim, is_mutable_revision, reject_given, clone_args,
  clone_commit_args, fetch_args, depth_or, checkout_ref, check_sha, rev_parse_args, check_directory,
  source_path_of,
}
use gitrepo_csi_driver.Materializer.Copy.{
  write_file, copy_regular_file, copy_node, copy_relative, copy_entry, copy_content_tree,
}
use gitrepo_csi_driver.Materializer.Copy.Success.{IsNamed}
use gitrepo_csi_driver.Materializer.GitCommand.{
  new, git_credential, ignore_permission, share_work_dir, prepare_work_dir_for_git, git_command,
  run_git, git_output,
}
use gitrepo_csi_driver.Materializer.GoGit.Export.{
  write, export_symlink, export_regular_file, export_at, export_contained, export_file,
  export_files, export_tree,
}
use gitrepo_csi_driver.Materializer.GoGit.Run.{
  new_go_git, chown_entry, chown_node, chown_tree, chown_content, http_auth, names_tag, has_ref,
  reference_name_of, clone_options, resolve_hash, tree_at, export_all, lay_out, materialize,
}
use gitrepo_csi_driver.Materializer.GoGit.Submodules.{
  fold_long_s, is_submodule_section, url_of, add_subsection, add_subsections, add_sections,
  parse_contents, parse_modules_file, parse_git_modules, head_commit, commit_or_head,
  clone_and_export, export_submodule, export_known, export_entry, export_entries, export_modules,
  export_submodules,
}
use gitrepo_csi_driver.Materializer.Limits.{
  add_counts, size_of, count_node, count_files, check_limits,
}
use gitrepo_csi_driver.Materializer.Path.{
  check_inside, ensure_inside, has_parent_path_segment, join_cleaned, safe_join,
  validate_symlink_target,
}
use gitrepo_csi_driver.Materializer.Ref.{mutable_ref_of, reject_git_flag_operand}
use gitrepo_csi_driver.Metadata.{fields, meta_dir, write_fields}
use gitrepo_csi_driver.NodePlugin.Assembly.{
  run_metadata, last, run_backend, run_copy, run_chmod, answer_to, deliver, assemble, World,
}
use gitrepo_csi_driver.NodePlugin.Assembly.Delivery.{IsDelivered, node_publish_volume-IsDelivered}
use gitrepo_csi_driver.NodePlugin.Errors.{
  is_deadline_exceeded, as_mount_error, mount_status, csi_error, http_status_of,
}
use gitrepo_csi_driver.NodePlugin.Metrics.{updates_by}
use gitrepo_csi_driver.NodePlugin.Metrics.Observed.{mounts, counted_as, materialize-mounts}
use gitrepo_csi_driver.NodePlugin.Metrics.Ready.{IsAccepted, register-IsAccepted}
use gitrepo_csi_driver.NodePlugin.Pipeline.{
  Call, key_parts, policy_host, link_at, link_target, finish, inputs_of, with_content, permitted,
  with_attributes,
}
use gitrepo_csi_driver.NodePlugin.Publish.{change, chmod_node, chmod_read_only}
use gitrepo_csi_driver.NodePlugin.Service.{
  namespace_of, parse_endpoint, publish_read_only, published, publish, node_publish_volume,
  node_unpublish_volume,
}
use gitrepo_csi_driver.NodePlugin.Start.{
  get_env, host_name, new_materializer, cache_config, start, Outside, Settings, go_git,
}
use gitrepo_csi_driver.NodePlugin.TargetPath.{below_root, safe_target_path}
use gitrepo_csi_driver.Observability.{
  gauge, Collector, new_metrics, collectors, Prometheus, Registration, register, handler,
}
use gitrepo_csi_driver.Observability.Laws.{distinct, apart, is_valid, Registers}
use gitrepo_csi_driver.Paths.{
  is_abs, go_down, resolve_part, resolve, clean_parts, parse_path, parts, render_parts, render,
  clean, is_parent, is_local, rel_parts, strip, rel_rest, rel, join_path, up_to_slash, dir,
}
use gitrepo_csi_driver.Policy.Defaults.{
  apply_policy_defaults, parse_duration, unmarshal_clone, load_parsed, load_policies,
}
use gitrepo_csi_driver.Policy.Evaluate.{
  in_namespace, selects, select_policy, profile_of, check_profile, exceeds_depth, check_policy,
  evaluate,
}
use gitrepo_csi_driver.Policy.Match.{
  scp_host, has_url_scheme, host_from_repo, matches_any_glob, matches_any_regex,
}
use gitrepo_csi_driver.Policy.Revision.{is_tag, is_branch, check_revision_policy}
use gitrepo_csi_driver.Tests.Access.{library, team, read_file, unmarshal}
use gitrepo_csi_driver.Tests.Backends.{git_environment}
use gitrepo_csi_driver.Tests.Content.{tree}
use gitrepo_csi_driver.Tests.Copying.{tree-IsNamed}
use gitrepo_csi_driver.Tests.Node.{
  environment, kubelet_keys, namespace_given, context_parsed, publish_request,
}
use gitrepo_csi_driver.Tests.Target.{pod_mount}
use gitrepo_csi_driver.Tests.Volume.{url_parse, volume, volume_attributes}
use gitrepo_csi_driver.Text.{
  Text, same, has_prefix, has_suffix, trim_prefix, contains_any, index, cons_head, split, join,
  contains, codes,
}
use gitrepo_csi_driver.Text.Itoa.{digits, itoa}
use gitrepo_csi_driver.Text.Number.{
  is_digit, read_digits, read_number, atoi, parse_uint32, to_lower, equal_fold,
}
use gitrepo_csi_driver.Volume.{parse}
use gitrepo_csi_driver.Volume.RepoPath.{has_git_path_segment, check_cleaned, normalize_repo_path}
use gitrepo_csi_driver.Volume.Revision.{
  is_hex_digit, is_hex_sha, strip_ref_prefix, is_unsafe_part, is_safe_git_ref_name,
  validate_revision,
}
use mathlib.Core.Path.{subst}
use gitrepo_csi_driver.Metadata as Metadata
use gitrepo_csi_driver.NodePlugin.Pipeline as Pipeline
use gitrepo_csi_driver.Policy.Match as Match
use gitrepo_csi_driver.Materializer.Copy as Copy
use gitrepo_csi_driver.Tests.GoGit as GoGit

abbrev pub outside : Outside
outside = record {
  getenv = λ name. [];
  hostname = ok (codes "node-1");
  read_file = read_file;
  unmarshal = unmarshal;
  mkdir_all = λ path. ok tt;
  look_path = ok (codes "/usr/bin/git");
}

abbrev pub settings : Settings
settings = record {
  policies = team ∷ [];
  cache = record {
    root_dir = codes "/tmp/gitcontent-cache";
    max_size = pos 10737418240;
    max_age = pos 86400000000000;
  };
  backend = go_git none;
  target_root = codes "/var/lib/kubelet";
  http_addr = codes ":8080";
  endpoint = codes "unix:///csi/csi.sock";
  node_id = codes "node-1";
}

pub started : start outside ≡ ok settings
unfolding get_env host_name new_materializer cache_config start new_manager key_input key
    path_for_key apply_policy_defaults parse_duration unmarshal_clone load_parsed load_policies
    new_go_git chown_entry chown_node chown_tree chown_content http_auth names_tag has_ref
    reference_name_of clone_options resolve_hash tree_at export_all lay_out materialize new
    git_credential ignore_permission share_work_dir prepare_work_dir_for_git git_command run_git
    git_output same has_prefix has_suffix trim_prefix contains contains_any index cons_head split
    join
started = refl

abbrev pub world : World
world = record {
  lib = library;
  sha256_hex = λ text. codes "key";
  exists = λ trace path. false;
  expired = λ trace. false;
  answer = λ trace. ok tt;
  node_at = λ trace path. ok tree;
  write_answer = λ trace log. ok tt;
  meta_answer = λ trace calls. ok tt;
  order = λ trace fields. fields;
  now = λ trace. codes "2026-01-02T03:04:05Z";
  chmod_answer = λ trace changes. ok tt;
  git = λ trace. git_environment;
  go_git_library = λ trace. GoGit.library;
  system = λ trace. GoGit.system;
}

cache_abs : is_abs settings.cache.root_dir ≡ true
unfolding is_abs
cache_abs = refl

mount_abs : is_abs pod_mount ≡ true
unfolding is_abs
mount_abs = refl

delivered_attributes :
    (publish
      (assemble world settings)
      pod_mount
      (with_attributes (assemble world settings) (codes "payments") [] (ok volume_attributes) [])).0
    ≡ none
unfolding run_metadata fields meta_dir write_fields Metadata.write Match.contains Copy.write
    new_go_git chown_entry chown_node chown_tree chown_content http_auth names_tag has_ref
    reference_name_of clone_options resolve_hash tree_at export_all lay_out materialize write
    export_symlink export_regular_file export_at export_contained export_file export_files
    export_tree fold_long_s is_submodule_section url_of add_subsection add_subsections add_sections
    parse_contents parse_modules_file parse_git_modules head_commit commit_or_head clone_and_export
    export_submodule export_known export_entry export_entries export_modules export_submodules ◌>>=◌
    ◌>>◌ lift wrap call validate_git_args git_args string_trim is_mutable_revision reject_given
    clone_args clone_commit_args fetch_args depth_or checkout_ref check_sha rev_parse_args
    check_directory source_path_of write_file copy_regular_file copy_node copy_relative copy_entry
    copy_content_tree add_counts size_of count_node count_files check_limits check_inside
    ensure_inside has_parent_path_segment join_cleaned safe_join validate_symlink_target
    mutable_ref_of reject_git_flag_operand last run_backend run_copy run_chmod answer_to deliver
    assemble key_parts policy_host link_at link_target finish inputs_of with_content permitted
    with_attributes namespace_of parse_endpoint publish_read_only published publish
    node_publish_volume node_unpublish_volume is_deadline_exceeded as_mount_error mount_status
    csi_error http_status_of below_root safe_target_path change chmod_node chmod_read_only
    new_manager key_input key path_for_key in_namespace selects select_policy profile_of
    check_profile exceeds_depth check_policy evaluate contains scp_host has_url_scheme
    host_from_repo matches_any_glob matches_any_regex is_tag is_branch check_revision_policy walk
    walk_entries perm read_only_perm is_abs go_down resolve_part resolve clean_parts parse_path
    parts render_parts render clean is_parent is_local rel_parts strip rel_rest rel join_path
    up_to_slash dir same has_prefix has_suffix trim_prefix contains_any index cons_head split join
    digits itoa is_digit read_digits read_number atoi parse_uint32 to_lower equal_fold
    has_git_path_segment check_cleaned normalize_repo_path is_hex_digit is_hex_sha strip_ref_prefix
    is_unsafe_part is_safe_git_ref_name validate_revision
delivered_attributes = refl

world_names :
    (at : Pipeline.Trace) (path : Text) (node : Node)
    → world.node_at at path ≡ ok node
    → IsNamed node
world_names at path node e = subst IsNamed (ok_inj e) tree-IsNamed

delivered_request : (node_publish_volume (assemble world settings) publish_request []).0 ≡ none
unfolding node_publish_volume Pipeline.materialize assemble
delivered_request =
    ap
      (λ ns.
        (publish (assemble world settings) pod_mount (
          with_attributes (assemble world settings) ns [] (parse url_parse (volume ++ kubelet_keys))
            [])).0)
      namespace_given
    ∙ ap
        (λ r.
          (publish (assemble world settings) pod_mount
            (with_attributes (assemble world settings) (codes "payments") [] r [])).0)
        context_parsed
    ∙ delivered_attributes

node_publish_volume-IsDelivered_example :
    IsDelivered world settings publish_request []
      (node_publish_volume (assemble world settings) publish_request []).1
node_publish_volume-IsDelivered_example =
    node_publish_volume-IsDelivered outside world settings publish_request [] started world_names
      cache_abs mount_abs delivered_request

materialize-mounts_example :
    mounts (Pipeline.materialize environment (codes "payments") [] volume []).1
    ≡ mounts []
      ++ counted_as environment
          (codes "payments")
          (parse url_parse volume)
          (Pipeline.materialize environment (codes "payments") [] volume []).0
materialize-mounts_example = materialize-mounts environment (codes "payments") volume []

-- A client whose registry is the list of its collectors.
abbrev prometheus : Prometheus
prometheus = record {
  Registry = List Collector;
  held = λ registry. registry;
  must_register = λ registry cs.
      if distinct (registry ++ cs) && all is_valid cs then some (registry ++ cs) else none;
}

prometheus-Registers : Registers prometheus
prometheus-Registers registry cs d v = (registry ++ cs, rw (d, v) refl, refl)

abbrev go_goroutines : Collector
go_goroutines = record { kind = gauge; name = codes "go_goroutines"; labels = [] }

one_name : distinct (go_goroutines ∷ []) ≡ true
unfolding distinct
one_name = refl

names_apart : apart (go_goroutines ∷ []) (collectors new_metrics) ≡ true
unfolding apart collectors new_metrics same
names_apart = refl

register-IsAccepted_example :
    (s : Registration prometheus) × (register prometheus new_metrics
        (record { done = false; registry = go_goroutines ∷ [] })
      ≡ some s)
    × (handler prometheus new_metrics s ≡ some s)
    × ((c : Call) → All (IsAccepted s.registry) (updates_by new_metrics c))
register-IsAccepted_example =
    register-IsAccepted prometheus (go_goroutines ∷ []) prometheus-Registers one_name names_apart

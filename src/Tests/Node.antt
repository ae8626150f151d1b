-- ===== src/Tests/Node.antt =====
-- The node plugin, cmd/nodeplugin, on the volume and the policies of the other tests.
use gitrepo_csi_driver.Base.{
  ◌≡◌, refl, sym, ap, ◌∙◌, true, false, [], ◌∷◌, ◌++◌, ok, err, errorf, wrapf, deadline_exceeded,
  Error, none,
}
use gitrepo_csi_driver.Base.Int.{pos}
use gitrepo_csi_driver.Cache.Key.{key, key_input, path_for_key}
use gitrepo_csi_driver.NodePlugin.Errors.{
  as_mount_error, mount_status, bad_request, csi_error, http_status_of, is_deadline_exceeded,
}
use gitrepo_csi_driver.NodePlugin.Errors.Laws.{code_of, csi_error-http_status_of}
use gitrepo_csi_driver.Materializer.Backend.{Materialized}
use gitrepo_csi_driver.NodePlugin.Pipeline.{
  MountResult, finish, inputs_of, key_parts, link_at, link_target, permitted, policy_host,
  with_content, Environment, with_attributes, materialize,
}
use gitrepo_csi_driver.NodePlugin.Pipeline.Laws.{Grows, SafeCall, IsPermitted, materialize-SafeCall}
use gitrepo_csi_driver.NodePlugin.Pipeline.Refusal.{IsRefusal, materialize-IsRefusal}
use gitrepo_csi_driver.NodePlugin.Service.{
  publish_read_only, published, NodePublishVolumeRequest, namespace_of, publish,
  node_publish_volume,
}
use gitrepo_csi_driver.NodePlugin.Service.Laws.{IsPublished, node_publish_volume-IsPublished}
use gitrepo_csi_driver.NodePlugin.TargetPath.{below_root, safe_target_path}
use gitrepo_csi_driver.Paths.{
  dir, up_to_slash, clean, clean_parts, go_down, is_abs, is_local, is_parent, join_path, parse_path,
  parts, rel, rel_parts, rel_rest, render, render_parts, resolve, resolve_part, strip,
}
use gitrepo_csi_driver.Policy.Evaluate.{
  check_policy, check_profile, evaluate, exceeds_depth, in_namespace, profile_of, select_policy,
  selects,
}
use gitrepo_csi_driver.Policy.Match.{
  contains, has_url_scheme, host_from_repo, matches_any_glob, matches_any_regex, scp_host,
}
use gitrepo_csi_driver.Policy.Revision.{check_revision_policy, is_branch, is_tag}
use gitrepo_csi_driver.Tests.Access.{library, policies}
use gitrepo_csi_driver.Tests.Target.{kubelet, pod_mount}
use gitrepo_csi_driver.Tests.Volume.{url_parse, volume, volume_attributes, parsed_volume}
use gitrepo_csi_driver.Text.{cons_head, index, join, split, codes, same, has_prefix}
use gitrepo_csi_driver.Text.Space.{drop_spaces, trim_left, trim_right, trim_space}
use gitrepo_csi_driver.Volume.{attribute, StringMap, get, parse}
use gitrepo_csi_driver.Volume.Context.{parse-append}
use gitrepo_csi_driver.Volume.Revision.{is_hex_digit, is_hex_sha}

abbrev pub delivered : Materialized
delivered = record {
  resolved_revision = codes "main";
  repo_path = codes "/cache/key/repo";
  mounted_path = codes "/cache/key/content";
  file_count = pos 2;
  size_bytes = pos 7;
  cache_hit = false;
}

-- An environment in which every call succeeds.
abbrev pub environment : Environment
environment = record {
  lib = library;
  policies = policies;
  cache = record { root_dir = codes "/cache"; max_size = pos 0; max_age = pos 0 };
  target_root = kubelet;
  sha256_hex = λ text. codes "key";
  exists = λ trace path. false;
  materialize = λ trace. ok delivered;
  expired = λ trace. false;
  answer = λ trace. ok tt;
}

materialize-SafeCall_example :
    Grows
      (SafeCall environment pod_mount)
      []
      (materialize environment (codes "payments") pod_mount volume []).1
materialize-SafeCall_example =
    materialize-SafeCall environment pod_mount (codes "payments") volume []

no_repo : parse url_parse [] ≡ err (errorf "volume attribute repo is required" [])
unfolding parse attribute trim_space trim_right drop_spaces trim_left get
no_repo = refl

pub nothing-IsPermitted : ¬ (IsPermitted environment (codes "payments") [])
nothing-IsPermitted p = let k = sym no_repo ∙ p.parsed in cc

materialize-IsRefusal_example :
    IsRefusal [] (materialize environment (codes "payments") pod_mount [] [])
materialize-IsRefusal_example =
    materialize-IsRefusal environment (codes "payments") pod_mount [] [] nothing-IsPermitted

abbrev pub kubelet_keys : StringMap
kubelet_keys = (codes "csi.storage.k8s.io/pod.namespace", codes "payments") ∷ []

pub namespace_given : namespace_of (volume ++ kubelet_keys) ≡ codes "payments"
unfolding namespace_of get same
namespace_given = refl

pub kubelet_key :
    has_prefix (codes "csi.storage.k8s.io/pod.namespace") (codes "csi.storage.k8s.io/") ≡ true
unfolding has_prefix
kubelet_key = refl

abbrev pub publish_request : NodePublishVolumeRequest
publish_request = record {
  volume_id = codes "csi-1";
  target_path = pod_mount;
  mount_capability = true;
  readonly = true;
  volume_context = volume ++ kubelet_keys;
}

pub context_parsed : parse url_parse (volume ++ kubelet_keys) ≡ ok volume_attributes
context_parsed = parse-append url_parse volume kubelet_keys (kubelet_key, tt) ∙ parsed_volume

pub published_attributes :
    (publish environment pod_mount
      (with_attributes environment (codes "payments") [] (ok volume_attributes) [])).0
    ≡ none
unfolding publish with_attributes evaluate select_policy selects in_namespace contains same
    check_policy matches_any_glob has_prefix host_from_repo has_url_scheme exceeds_depth
    check_revision_policy is_branch is_tag matches_any_regex key key_input path_for_key
    as_mount_error csi_error is_deadline_exceeded mount_status dir finish inputs_of key_parts
    link_at link_target permitted policy_host up_to_slash with_content publish_read_only published
    below_root safe_target_path clean clean_parts go_down is_abs is_local is_parent join_path
    parse_path parts rel rel_parts rel_rest render render_parts resolve resolve_part strip
    check_profile profile_of scp_host cons_head index join split is_hex_digit is_hex_sha
published_attributes = refl

published_request : (node_publish_volume environment publish_request []).0 ≡ none
unfolding node_publish_volume materialize
published_request =
    ap
      (λ ns.
        (publish environment pod_mount
          (with_attributes environment ns [] (parse url_parse (volume ++ kubelet_keys)) [])).0)
      namespace_given
    ∙ ap
        (λ r.
          (publish environment pod_mount
            (with_attributes environment (codes "payments") [] r [])).0)
        context_parsed
    ∙ published_attributes

node_publish_volume-IsPublished_example :
    (true ≡ true)
    × (true ≡ true)
    × IsPermitted environment (namespace_of (volume ++ kubelet_keys)) (volume ++ kubelet_keys)
    × (res : MountResult) × ((materialize environment
          (namespace_of (volume ++ kubelet_keys))
          []
          (volume ++ kubelet_keys)
          []).0
        ≡ ok res)
    × IsPublished environment res.source_path pod_mount
        (materialize environment
          (namespace_of (volume ++ kubelet_keys))
          []
          (volume ++ kubelet_keys)
          []).1
        (node_publish_volume environment publish_request []).1
node_publish_volume-IsPublished_example =
    node_publish_volume-IsPublished environment publish_request [] published_request

abbrev late : Error
late = wrapf "git clone: %w" deadline_exceeded

abbrev malformed : Error
malformed = bad_request (errorf "volume attribute repo is required" [])

late_codes : (http_status_of late ≡ 504) × (http_status_of malformed ≡ 400)
unfolding http_status_of as_mount_error is_deadline_exceeded
late_codes = (refl, refl)

csi_error-http_status_of_example :
    (csi_error malformed).code ≡ code_of (is_deadline_exceeded malformed) (http_status_of malformed)
csi_error-http_status_of_example = csi_error-http_status_of malformed

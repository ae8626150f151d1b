-- ===== src/Tests/Access.antt =====
-- The policies and the webhook, pkg/policy and cmd/admission-webhook, on one pod.
use gitrepo_csi_driver.Admission.{
  check_attributes, check_source, CsiSource, Pod, driver_name, request_of, check_volumes,
}
use gitrepo_csi_driver.Admission.Laws.{SoundVolume, check_volumes_iff}
use gitrepo_csi_driver.Base.{
  ◌≡◌, refl, ap, ◌∙◌, ◌&&◌, ◌++◌, true, false, List, [], ◌∷◌, Result, ok, errorf, none, some, All,
}
use gitrepo_csi_driver.Base.Int.{pos}
use gitrepo_csi_driver.Library.{Library}
use gitrepo_csi_driver.Policy.Defaults.{load_parsed, apply_policy_defaults, load_policies}
use gitrepo_csi_driver.Policy.Defaults.Laws.{IsBounded, load_policies-IsBounded}
use gitrepo_csi_driver.Policy.Evaluate.{
  check_policy, check_profile, exceeds_depth, profile_of, in_namespace, selects, allowed, denied,
  select_policy, evaluate,
}
use gitrepo_csi_driver.Policy.Evaluate.Laws.{Grants, evaluate_iff}
use gitrepo_csi_driver.Policy.Evaluate.Select.{IsSelected, select_policy_iff}
use gitrepo_csi_driver.Policy.Match.{
  has_url_scheme, host_from_repo, matches_any_glob, scp_host, contains, matches_any_regex,
}
use gitrepo_csi_driver.Policy.Revision.{is_branch, is_tag, check_revision_policy}
use gitrepo_csi_driver.Policy.Revision.Laws.{PermitsRevision, check_revision_policy_iff}
use gitrepo_csi_driver.Policy.Types.{GitContentPolicy, RevisionPolicy, zero_policy, Request}
use gitrepo_csi_driver.Tests.Volume.{url_parse, volume, volume_attributes, parsed_volume}
use gitrepo_csi_driver.Text.{index, Text, codes, same, has_prefix}
use gitrepo_csi_driver.Volume.Revision.{is_hex_digit, is_hex_sha}

-- One shell pattern, and regular expressions without operators between their anchors.
abbrev pub library : Library
library = record {
  url_parse = url_parse;
  path_match = λ pattern name.
      same pattern (codes "https://github.com/acme/*")
      && has_prefix name (codes "https://github.com/acme/");
  regexp_compile = λ raw. some (λ s. same raw (codes "^" ++ s ++ codes "$"));
}

abbrev branches : RevisionPolicy
branches = record {
  require_pinned_commit = false;
  allow_branches = true;
  allow_tags = false;
  allowed_branch_regex = codes "^refs/heads/main$" ∷ [];
  allowed_tag_regex = [];
}

abbrev loaded : GitContentPolicy
loaded = record zero_policy {
  name = codes "team";
  allowed_repositories = codes "https://github.com/acme/*" ∷ [];
  allowed_hosts = codes "github.com" ∷ [];
  revisions = branches;
  namespaces = codes "payments" ∷ [];
}

abbrev pub team : GitContentPolicy
team = record loaded {
  clone = record {
    default_depth = pos 1;
    max_depth = pos 10;
    timeout = pos 30000000000;
    max_repository_size = pos 104857600;
    max_file_count = pos 5000;
    allow_sparse_checkout = false;
  };
  submodules = record {
    enabled = false;
    recursive = false;
    max_depth = pos 1;
    allowed_repositories = [];
    allowed_hosts = [];
  };
}

abbrev pub read_file : Text → Result Text
read_file path = ok path

abbrev pub unmarshal : Text → Result (List GitContentPolicy)
unmarshal raw = ok (loaded ∷ [])

loaded_policies : load_policies read_file unmarshal (codes "policies.yaml") ≡ ok (team ∷ [])
unfolding load_policies load_parsed apply_policy_defaults
loaded_policies = refl

load_policies-IsBounded_example : All IsBounded (team ∷ [])
load_policies-IsBounded_example =
    load_policies-IsBounded read_file unmarshal (codes "policies.yaml") (team ∷ []) loaded_policies

-- The policy of another namespace stands in front.
abbrev pub policies : List GitContentPolicy
policies = record team { name = codes "other"; namespaces = codes "web" ∷ [] } ∷ team ∷ []

abbrev request : Request
request = request_of (codes "payments") volume_attributes

accepted_revision : check_revision_policy library (codes "refs/heads/main") branches ≡ ok tt
unfolding check_revision_policy is_branch has_prefix is_tag matches_any_regex same
accepted_revision = refl

check_revision_policy_iff_example : PermitsRevision library branches (codes "refs/heads/main")
check_revision_policy_iff_example =
    (check_revision_policy_iff library (codes "refs/heads/main") branches).0 accepted_revision

selected_team : select_policy policies (codes "payments") [] ≡ some team
unfolding select_policy selects in_namespace contains same
selected_team = refl

select_policy_iff_example : IsSelected policies (codes "payments") [] team
select_policy_iff_example = (select_policy_iff (codes "payments") [] policies team).0 selected_team

selected_none : select_policy policies (codes "payments") (codes "other") ≡ none
unfolding select_policy selects same in_namespace contains
selected_none = refl

pub allowed_request : evaluate library policies request [] ≡ (allowed [], team)
unfolding evaluate select_policy selects in_namespace contains same check_policy matches_any_glob
    has_prefix host_from_repo has_url_scheme exceeds_depth check_revision_policy is_branch is_tag
    matches_any_regex check_profile profile_of scp_host index is_hex_digit is_hex_sha
allowed_request = refl

evaluate_iff_example :
    IsSelected policies (codes "payments") [] team × Grants library team request []
evaluate_iff_example = (evaluate_iff library policies request [] [] team).0 allowed_request

denied_namespace :
    evaluate library policies (request_of (codes "default") volume_attributes) []
    ≡ (denied "policy_not_found" (errorf "no matching policy found" []), zero_policy)
unfolding evaluate select_policy selects in_namespace contains same
denied_namespace = refl

abbrev pub source : CsiSource
source = record { driver = driver_name; read_only = true; volume_attributes = volume }

-- A volume of another kind, one of another driver, and one of this driver.
abbrev pub foreign : CsiSource
foreign = record source { driver = codes "other.example"; read_only = false }

foreign_admitted : check_source library policies (codes "payments") foreign ≡ none
unfolding check_source same
foreign_admitted = refl

abbrev pub pod : Pod
pod =
    none
    ∷ some (record source { driver = codes "other.example"; read_only = false })
    ∷ some source
    ∷ []

attributes_admitted :
    check_attributes library policies (codes "payments") (ok volume_attributes) ≡ none
unfolding check_attributes
attributes_admitted = rw allowed_request

source_admitted : check_source library policies (codes "payments") source ≡ none
unfolding check_source same
source_admitted =
    ap (check_attributes library policies (codes "payments")) parsed_volume ∙ attributes_admitted

pub pod_allowed :
    (check_volumes library policies (codes "uid") (codes "payments") pod).allowed ≡ true
unfolding check_volumes
pod_allowed = rw (check_volumes, foreign_admitted, source_admitted)

check_volumes_iff_example : All (SoundVolume library policies (codes "payments")) pod
check_volumes_iff_example =
    (check_volumes_iff library policies (codes "payments") (codes "uid") pod).0 pod_allowed

writable_volume :
    (check_volumes library policies
      (codes "uid")
      (codes "payments")
      (some (record source { read_only = false }) ∷ [])).message
    ≡ errorf "git content volume must be readOnly" []
unfolding check_volumes check_source same
writable_volume = refl

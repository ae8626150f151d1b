-- ===== src/Tests/Admitted.antt =====
-- A webhook and a plugin, both started without any configuration, and the review of a pod.
use gitrepo_csi_driver.Admission.{
  AdmissionRequest, Pod, check_attributes, check_source, check_volumes, request_of, validate,
}
use gitrepo_csi_driver.Admission.Start.{Webhook, get_env, start_webhook}
use gitrepo_csi_driver.Base.{
  ◌≡◌, refl, ap, ◌∙◌, ◌++◌, true, [], ◌∷◌, Option, none, some, ok, if◌then◌else◌,
}
use gitrepo_csi_driver.NodePlugin.Assembly.{assemble}
use gitrepo_csi_driver.NodePlugin.Assembly.Admitted.{validate-IsPermitted}
use gitrepo_csi_driver.NodePlugin.Pipeline.Laws.{IsPermitted}
use gitrepo_csi_driver.NodePlugin.Service.{namespace_of}
use gitrepo_csi_driver.Policy.Defaults.{load_policies, load_parsed, apply_policy_defaults}
use gitrepo_csi_driver.Policy.Evaluate.{
  check_policy, check_profile, exceeds_depth, profile_of, in_namespace, selects, allowed,
  select_policy, evaluate,
}
use gitrepo_csi_driver.Policy.Match.{
  has_url_scheme, host_from_repo, matches_any_glob, scp_host, contains, matches_any_regex,
}
use gitrepo_csi_driver.Policy.Revision.{is_branch, is_tag, check_revision_policy}
use gitrepo_csi_driver.Tests.Access.{library, team, read_file, unmarshal, source, foreign}
use gitrepo_csi_driver.Tests.Assembled.{outside, settings, started, world}
use gitrepo_csi_driver.Tests.Node.{kubelet_keys, kubelet_key, namespace_given}
use gitrepo_csi_driver.Tests.Volume.{volume, volume_attributes, parsed_volume}
use gitrepo_csi_driver.Text.{index, Text, codes, same, has_prefix}
use gitrepo_csi_driver.Volume.Revision.{is_hex_digit, is_hex_sha}

abbrev hook : Webhook
hook = record { policies = team ∷ []; addr = codes ":8443" }

hook_started : start_webhook (λ name. []) read_file unmarshal ≡ ok hook
unfolding start_webhook get_env load_policies load_parsed apply_policy_defaults
hook_started = refl

abbrev review : AdmissionRequest
review = record { uid = codes "uid"; namespace = codes "payments"; object = codes "pod" }

abbrev decode_review : Text → Option (Option AdmissionRequest)
decode_review body = if same body (codes "review") then some (some review) else none

abbrev decode_pod : Text → Option Pod
decode_pod object =
    if same object (codes "pod") then some (none ∷ some foreign ∷ some source ∷ []) else none

review_decoded : decode_review (codes "review") ≡ some (some review)
unfolding same
review_decoded = refl

pod_decoded : decode_pod review.object ≡ some (none ∷ some foreign ∷ some source ∷ [])
unfolding same
pod_decoded = refl

team_allows :
    evaluate library (team ∷ []) (request_of (codes "payments") volume_attributes) []
    ≡ (allowed [], team)
unfolding evaluate select_policy selects in_namespace contains same check_policy matches_any_glob
    has_prefix host_from_repo has_url_scheme exceeds_depth check_revision_policy is_branch is_tag
    matches_any_regex check_profile profile_of scp_host index is_hex_digit is_hex_sha
team_allows = refl

attributes_pass :
    check_attributes library (team ∷ []) (codes "payments") (ok volume_attributes) ≡ none
unfolding check_attributes
attributes_pass = rw team_allows

source_passes : check_source library (team ∷ []) (codes "payments") source ≡ none
unfolding check_source same
source_passes =
    ap (check_attributes library (team ∷ []) (codes "payments")) parsed_volume ∙ attributes_pass

foreign_passes : check_source library (team ∷ []) (codes "payments") foreign ≡ none
unfolding check_source same
foreign_passes = refl

review_allowed :
    (validate library (team ∷ []) decode_review decode_pod (codes "review")).allowed ≡ true
unfolding validate check_volumes
review_allowed =
    rw (validate, review_decoded, pod_decoded, check_volumes, foreign_passes, source_passes) refl

validate-IsPermitted_example :
    IsPermitted
      (assemble world settings)
      (namespace_of (volume ++ kubelet_keys))
      (volume ++ kubelet_keys)
validate-IsPermitted_example =
    validate-IsPermitted (λ name. []) outside world hook settings decode_review decode_pod
      (codes "review") review (none ∷ some foreign ∷ []) [] source kubelet_keys hook_started started
      refl review_decoded pod_decoded review_allowed refl (kubelet_key, tt) namespace_given

-- ===== src/NodePlugin/Assembly/Admitted.antt =====
-- The two programs, each as its `main` starts it, on one file of policies.
use gitrepo_csi_driver.Admission.{
  AdmissionResponse, check_volumes, AdmissionRequest, CsiSource, Pod, driver_name, validate,
}
use gitrepo_csi_driver.Admission.Start.{Webhook, start_webhook}
use gitrepo_csi_driver.Base.{
  refl, ◌≡◌, ◌∙◌, sym, ap, true, List, ◌∷◌, ◌++◌, Option, some, Result, ok, ok_inj, All, >>=-eq-ok,
}
use gitrepo_csi_driver.Library.{Library}
use gitrepo_csi_driver.NodePlugin.Assembly.{World, assemble}
use gitrepo_csi_driver.NodePlugin.Assembly.Delivery.{start-policies}
use gitrepo_csi_driver.NodePlugin.Pipeline.Laws.{IsPermitted}
use gitrepo_csi_driver.NodePlugin.Service.{namespace_of}
use gitrepo_csi_driver.NodePlugin.Service.Agreement.{check_volumes-IsPermitted}
use gitrepo_csi_driver.NodePlugin.Start.{Outside, Settings, start, cache_config, new_materializer}
use gitrepo_csi_driver.Policy.Defaults.{load_policies}
use gitrepo_csi_driver.Policy.Types.{GitContentPolicy}
use gitrepo_csi_driver.Text.{Text, codes}
use gitrepo_csi_driver.Volume.{StringMap}
use gitrepo_csi_driver.Volume.Context.{IsKubeletKey}
use mathlib.Core.Path.{subst}
use gitrepo_csi_driver.Admission.Start as Webhook
use gitrepo_csi_driver.NodePlugin.Start as Plugin

abbrev pub policy_file : Text
policy_file = codes "GITCONTENT_POLICY_FILE"

-- The same for the webhook.
start_webhook-policies :
    (getenv : Text → Text) (read_file : Text → Result Text)
    (unmarshal : Text → Result (List GitContentPolicy)) (hook : Webhook)
    → start_webhook getenv read_file unmarshal ≡ ok hook
    → load_policies read_file unmarshal
        (Webhook.get_env getenv "GITCONTENT_POLICY_FILE" (codes "./examples/policies.yaml"))
      ≡ ok hook.policies
unfolding start_webhook
start_webhook-policies getenv read_file unmarshal hook h =
    let (policies, l, h1) = >>=-eq-ok (load_policies read_file unmarshal _) _ h in
    l ∙ ap (λ (hook : Webhook). ok hook.policies) (ok_inj h1)

module _ (getenv : Text → Text) (outside : Outside) (hook : Webhook) (s : Settings) where
  same_file :
      getenv policy_file ≡ outside.getenv policy_file
      → Webhook.get_env getenv "GITCONTENT_POLICY_FILE" (codes "./examples/policies.yaml")
        ≡ Plugin.get_env outside.getenv "GITCONTENT_POLICY_FILE" (codes "./examples/policies.yaml")
  unfolding Webhook.get_env Plugin.get_env
  same_file e = rw e

  same_policies :
      start_webhook getenv outside.read_file outside.unmarshal ≡ ok hook
      → start outside ≡ ok s
      → getenv policy_file ≡ outside.getenv policy_file
      → hook.policies ≡ s.policies
  same_policies h p e = ok_inj (
      sym (start_webhook-policies getenv outside.read_file outside.unmarshal hook h)
      ∙ ap (load_policies outside.read_file outside.unmarshal) (same_file e)
      ∙ start-policies outside s p)

validate-decoded :
    (lib : Library) (policies : List GitContentPolicy)
    (decode_review : Text → Option (Option AdmissionRequest)) (decode_pod : Text → Option Pod)
    (body : Text) (request : AdmissionRequest) (pod : Pod)
    → decode_review body ≡ some (some request)
    → decode_pod request.object ≡ some pod
    → validate lib policies decode_review decode_pod body
      ≡ check_volumes lib policies request.uid request.namespace pod
unfolding validate
validate-decoded lib policies decode_review decode_pod body request pod r d =
    rw (validate, r, d) refl

-- If the two programs start, with the same variable for the file of the policies and the same files,
-- and the webhook's handler allows the review of a pod, then the node plugin permits each volume of
-- this driver in the pod: the context is the volume's attributes with keys of the kubelet's, among
-- them the namespace of the review.
pub validate-IsPermitted :
    (getenv : Text → Text) (outside : Outside) (w : World) (hook : Webhook) (s : Settings)
    (decode_review : Text → Option (Option AdmissionRequest)) (decode_pod : Text → Option Pod)
    (body : Text) (request : AdmissionRequest) (before after : Pod) (csi : CsiSource)
    (added : StringMap)
    → start_webhook getenv outside.read_file outside.unmarshal ≡ ok hook
    → start outside ≡ ok s
    → getenv policy_file ≡ outside.getenv policy_file
    → decode_review body ≡ some (some request)
    → decode_pod request.object ≡ some (before ++ some csi ∷ after)
    → (validate w.lib hook.policies decode_review decode_pod body).allowed ≡ true
    → csi.driver ≡ driver_name
    → All IsKubeletKey added
    → namespace_of (csi.volume_attributes ++ added) ≡ request.namespace
    → IsPermitted
        (assemble w s)
        (namespace_of (csi.volume_attributes ++ added))
        (csi.volume_attributes ++ added)
unfolding assemble
validate-IsPermitted getenv outside w hook s decode_review decode_pod body request before after csi
      added h p e r d a =
    check_volumes-IsPermitted (assemble w s) request.uid request.namespace before after csi added (
      subst
        (λ ps.
          (check_volumes w.lib ps request.uid request.namespace
            (before ++ some csi ∷ after)).allowed
          ≡ true)
        (same_policies getenv outside hook s h p e)
        (ap (λ (answer : AdmissionResponse). answer.allowed)
            (sym (
              validate-decoded w.lib hook.policies decode_review decode_pod body request
                (before ++ some csi ∷ after) r d))
          ∙ a))

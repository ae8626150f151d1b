-- ===== src/NodePlugin/Service/Agreement.antt =====
-- The webhook and the node plugin agree: what the one admits the other permits.
use gitrepo_csi_driver.Base.{◌≡◌, ◌∙◌, true, ◌∷◌, ◌++◌, some, All, All-append_right}
use gitrepo_csi_driver.Text.{Text}
use gitrepo_csi_driver.Volume.{StringMap}
use gitrepo_csi_driver.Volume.Context.{IsKubeletKey, parse-append}
use gitrepo_csi_driver.Admission.{CsiSource, Pod, driver_name, check_volumes}
use gitrepo_csi_driver.Admission.Laws.{IsSound, SoundVolume, check_volumes_iff}
use gitrepo_csi_driver.NodePlugin.Pipeline.{Environment}
use gitrepo_csi_driver.NodePlugin.Pipeline.Laws.{IsPermitted}
use gitrepo_csi_driver.NodePlugin.Service.{namespace_of}

module _ (env : Environment) where
  -- The kubelet's keys do not change what is permitted.
  IsPermitted-of_sound :
      (namespace : Text) (csi : CsiSource) (added : StringMap)
      → All IsKubeletKey added
      → IsSound env.lib env.policies namespace csi
      → IsPermitted env namespace (csi.volume_attributes ++ added)
  IsPermitted-of_sound namespace csi added k s = record {
    attrs = s.attrs;
    parsed = parse-append env.lib.url_parse csi.volume_attributes added k ∙ s.parsed;
    allowed = s.allowed;
  }

  -- If the webhook admits a pod, the node plugin, with the same policies, permits each volume of this
  -- driver in it: the context is the volume's attributes with keys of the kubelet's, among them the
  -- namespace that the webhook saw.
  pub check_volumes-IsPermitted :
      (uid namespace : Text) (before after : Pod) (csi : CsiSource) (added : StringMap)
      → (check_volumes env.lib env.policies uid namespace (before ++ some csi ∷ after)).allowed
        ≡ true
      → csi.driver ≡ driver_name
      → All IsKubeletKey added
      → namespace_of (csi.volume_attributes ++ added) ≡ namespace
      → IsPermitted env
          (namespace_of (csi.volume_attributes ++ added))
          (csi.volume_attributes ++ added)
  check_volumes-IsPermitted uid namespace before after csi added h d k n =
      let all_sound =
        (check_volumes_iff env.lib env.policies namespace uid (before ++ some csi ∷ after)).0 h in
      let sound =
        (All-append_right (SoundVolume env.lib env.policies namespace) before (some csi ∷ after)
            all_sound).0
          d in
      rw n (IsPermitted-of_sound namespace csi added k sound)

-- ===== src/Tests/Metadata.antt =====
-- The metadata of one volume.
use gitrepo_csi_driver.Base.{◌≡◌, refl, true, [], ok}
use gitrepo_csi_driver.Text.{Text, codes}
use gitrepo_csi_driver.NodePlugin.Pipeline.{Inputs}
use gitrepo_csi_driver.Metadata.{write}
use gitrepo_csi_driver.Metadata.Laws.{description, write-Perm}
use mathlib.Core.List.{Perm}
use mathlib.Core.List.Perm

abbrev inputs : Inputs
inputs = record {
  repo = codes "https://github.com/org/repo";
  requested_rev = codes "main";
  resolved_rev = codes "0123456789abcdef0123456789abcdef01234567";
  policy = codes "default";
  submodules = true;
  credential_profile = [];
}

abbrev now : Text
now = codes "2024-01-01T00:00:00Z"

write-Perm_example :
    ((write (λ trace. ok tt) (λ fs. fs) (codes "/w/content") inputs now []).0 ≡ ok tt)
    × Perm
        (write (λ trace. ok tt) (λ fs. fs) (codes "/w/content") inputs now []).1
        (description (codes "/w/content") inputs now)
write-Perm_example =
    write-Perm (λ trace. ok tt) (λ fs. fs) (codes "/w/content") inputs now (λ trace. refl)
      (λ fs. Perm.refl fs)

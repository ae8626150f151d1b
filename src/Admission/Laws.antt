-- ===== src/Admission/Laws.antt =====
-- The webhook admits a pod exactly when every git volume is sound.
use gitrepo_csi_driver.Base.{
  ◌≡◌, ◌↔◌, inl, inr, refl, true, false, List, [], ◌∷◌, Option, none, some, Result, ok, err, All,
  arith, Bool-cases, Option-cases,
}
use gitrepo_csi_driver.Text.{Text, same}
use gitrepo_csi_driver.Text.Search.{eq_of_same, same_refl}
use gitrepo_csi_driver.Library.{Library}
use gitrepo_csi_driver.Volume.{Attributes, parse}
use gitrepo_csi_driver.Policy.Types.{GitContentPolicy}
use gitrepo_csi_driver.Policy.Evaluate.{evaluate}
use gitrepo_csi_driver.Admission.{
  CsiSource, Pod, driver_name, request_of, check_attributes, check_source, check_volumes,
}

module _ (lib : Library) (policies : List GitContentPolicy) (namespace : Text) where
  -- A read-only volume whose attributes parse and whose request the evaluator allows.
  pub record IsSound (csi : CsiSource) : Type 0 where
    pub read_only : csi.read_only ≡ true
    pub attrs : Attributes
    pub parsed : parse lib.url_parse csi.volume_attributes ≡ ok attrs
    pub allowed : (evaluate lib policies (request_of namespace attrs) attrs.policy).0.allowed ≡ true

  -- What is required of a volume: nothing, unless it is one of this driver's.
  abbrev pub SoundVolume : Option CsiSource → Type 0
  SoundVolume none = Unit {0}
  SoundVolume (some csi) = csi.driver ≡ driver_name → IsSound csi

  module _ (csi : CsiSource) where
    IsSound-of_attributes :
        (r : Result Attributes)
        → parse lib.url_parse csi.volume_attributes ≡ r
        → csi.read_only ≡ true
        → check_attributes lib policies namespace r ≡ none
        → IsSound csi
    unfolding check_attributes
    IsSound-of_attributes (err e) p o h = cc
    IsSound-of_attributes (ok attrs) p o h = record {
      read_only = o;
      attrs = attrs;
      parsed = p;
      allowed = ground arith;
    }

    IsSound-of_none :
        check_source lib policies namespace csi ≡ none → csi.driver ≡ driver_name → IsSound csi
    unfolding check_source
    IsSound-of_none h d =
        let k : same csi.driver driver_name ≡ true = rw d (same_refl driver_name) in
        IsSound-of_attributes (parse lib.url_parse csi.volume_attributes) refl (ground arith)
          (ground arith)

    none_of_sound :
        (csi.driver ≡ driver_name → IsSound csi) → check_source lib policies namespace csi ≡ none
    unfolding check_source check_attributes
    none_of_sound s = elim (Bool-cases (same csi.driver driver_name)) [
      | inr n ↦ rw n
      | inl d ↦
          let k = s (eq_of_same csi.driver driver_name d) in
          rw (d, k.read_only, k.parsed, k.allowed)
    ]

  -- The webhook allows a request exactly when each volume of this driver is read-only, has valid
  -- attributes, and asks for what the policies allow in the request's namespace.
  pub check_volumes_iff :
      (uid : Text) (pod : Pod)
      → ((check_volumes lib policies uid namespace pod).allowed ≡ true) ↔ All SoundVolume pod
  unfolding check_volumes
  check_volumes_iff uid [] = (λ h. tt, λ h. refl)
  check_volumes_iff uid (none ∷ pod) =
      (λ h. (tt, (check_volumes_iff uid pod).0 h), λ h. (check_volumes_iff uid pod).1 h.1)
  check_volumes_iff uid (some csi ∷ pod) =
      elim (Option-cases (check_source lib policies namespace csi)) [
        | inl n ↦ (
          (λ h.
              (IsSound-of_none csi n, (check_volumes_iff uid pod).0 (rw (n, check_volumes) at h))),
          (λ h. rw (n, check_volumes) ((check_volumes_iff uid pod).1 h.1)),
        )
        | inr (e, n) ↦ (
          (λ h. let k : false ≡ true = rw (n, check_volumes) at h in cc),
          (λ h. let k = none_of_sound csi h.0 in cc),
        )
      ]

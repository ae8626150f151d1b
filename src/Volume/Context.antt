-- ===== src/Volume/Context.antt =====
-- Keys that the kubelet adds to the attributes of a volume do not change what `Parse` reads.
use gitrepo_csi_driver.Base.{
  ◌≡◌, refl, true, false, [], ◌∷◌, ◌++◌, All, Bool-cases, inl, inr, Option,
}
use gitrepo_csi_driver.Text.{Text, codes, same, has_prefix}
use gitrepo_csi_driver.Text.Search.{eq_of_same}
use gitrepo_csi_driver.Library.{Url}
use gitrepo_csi_driver.Volume.{StringMap, get, attribute, parse}

-- A key of the kubelet's, such as the pod's namespace.
abbrev pub IsKubeletKey : Text × Text → Type 0
IsKubeletKey entry = has_prefix entry.0 (codes "csi.storage.k8s.io/") ≡ true

-- What is added counts only where a key is missing, and no attribute has such a key.
get-append :
    (raw added : StringMap) (key : Text)
    → has_prefix key (codes "csi.storage.k8s.io/") ≡ false
    → All IsKubeletKey added
    → get (raw ++ added) key ≡ get raw key
unfolding get
get-append [] [] key n h = refl
get-append [] ((k, v) ∷ added) key n (p, h) = elim (Bool-cases (same k key)) [
  | inl e ↦ absurd (let q = eq_of_same k key e in not_both (rw q at p) n)
  | inr e ↦ rw e (get-append [] added key n h)
]
  where
    not_both :
        has_prefix key (codes "csi.storage.k8s.io/") ≡ true
        → has_prefix key (codes "csi.storage.k8s.io/") ≡ false
        → ⊥
    not_both a b = cc
get-append ((k, v) ∷ raw) added key n h = elim (Bool-cases (same k key)) [
  | inl e ↦ rw e
  | inr e ↦ rw e (get-append raw added key n h)
]

-- `parse` reads the same attributes with keys of the kubelet's added.
pub parse-append :
    (url_parse : Text → Option Url) (raw added : StringMap)
    → All IsKubeletKey added
    → parse url_parse (raw ++ added) ≡ parse url_parse raw
unfolding parse attribute has_prefix
parse-append url_parse raw added h = rw (
  get-append raw added (codes "repo") refl h,
  get-append raw added (codes "revision") refl h,
  get-append raw added (codes "path") refl h,
  get-append raw added (codes "depth") refl h,
  get-append raw added (codes "submodules") refl h,
  get-append raw added (codes "lfs") refl h,
  get-append raw added (codes "refreshSeconds") refl h,
  get-append raw added (codes "revisionKind") refl h,
  get-append raw added (codes "policy") refl h,
  get-append raw added (codes "credentialProfile") refl h,
)

-- ===== src/Admission.antt =====
-- cmd/admission-webhook/main.go: the webhook that checks pods before they are stored. Decoding JSON
-- is a parameter; the HTTP server is left out.
pub mod Laws
pub mod Start
use gitrepo_csi_driver.Base.{
  Bool, true, false, not, List, [], ◌∷◌, Option, none, some, Result, ok, err, Error, errorf,
  if◌then◌else◌,
}
use gitrepo_csi_driver.Text.{Text, codes, same}
use gitrepo_csi_driver.Library.{Library}
use gitrepo_csi_driver.Volume.{Attributes, StringMap, parse}
use gitrepo_csi_driver.Policy.Types.{GitContentPolicy, Request, Verdict}
use gitrepo_csi_driver.Policy.Evaluate.{evaluate}

pub record CsiSource : Type 0 where
  pub driver : Text
  pub read_only : Bool
  pub volume_attributes : StringMap

-- A pod is the list of its volumes; `none` is a volume that is not a CSI volume.
abbrev pub Pod : Type 0
Pod = List (Option CsiSource)

pub record AdmissionRequest : Type 0 where
  pub uid : Text
  pub namespace : Text
  pub object : Text

-- The message is kept as the format and the arguments of its text.
pub record AdmissionResponse : Type 0 where
  pub uid : Text
  pub allowed : Bool
  pub message : Error

abbrev pub deny : Text → Error → AdmissionResponse
deny uid message = record { uid = uid; allowed = false; message = message }

abbrev pub allow : Text → AdmissionResponse
allow uid = record { uid = uid; allowed = true; message = errorf "" [] }

abbrev pub driver_name : Text
driver_name = codes "gitcontent.csi.example.io"

-- The request to the evaluator that both programs make of the attributes.
abbrev pub request_of : Text → Attributes → Request
request_of namespace attrs = record {
  namespace = namespace;
  repo = attrs.repo;
  revision = attrs.revision;
  path = attrs.path;
  depth = attrs.depth;
  submodules = attrs.submodules;
  lfs = attrs.lfs;
  credential_profile = attrs.credential_profile;
}

module _ (lib : Library) (policies : List GitContentPolicy) where
  -- The part of the loop behind `volume.Parse`.
  unfoldable pub check_attributes : Text → Result Attributes → Option Error
  check_attributes namespace (err e) = some e
  check_attributes namespace (ok attrs) =
      let res = (evaluate lib policies (request_of namespace attrs) attrs.policy).0 in
      if not res.allowed then some res.denial_reason else none

  -- Why a volume is denied; `none` if it is not.
  unfoldable pub check_source : Text → CsiSource → Option Error
  check_source namespace csi =
      if not (same csi.driver driver_name)
      then none
      else if not csi.read_only
      then some (errorf "git content volume must be readOnly" [])
      else check_attributes namespace (parse lib.url_parse csi.volume_attributes)

  -- The loop over the pod's volumes.
  unfoldable pub check_volumes : Text → Text → Pod → AdmissionResponse
  check_volumes uid namespace [] = allow uid
  check_volumes uid namespace (none ∷ volumes) = check_volumes uid namespace volumes
  check_volumes uid namespace (some csi ∷ volumes) = elim (check_source namespace csi) [
    | some e ↦ deny uid e
    | none ↦ check_volumes uid namespace volumes
  ]

  -- The handler of /validate. The decoders return `none` for malformed JSON; a review may have no
  -- request.
  module _ (decode_review : Text → Option (Option AdmissionRequest))
      (decode_pod : Text → Option Pod) where
    unfoldable pub validate : Text → AdmissionResponse
    validate body = elim (decode_review body) [
      | none ↦ deny [] (errorf "invalid admission review" [])
      | some none ↦ deny [] (errorf "missing request" [])
      | some (some request) ↦ elim (decode_pod request.object) [
        | none ↦ deny request.uid (errorf "invalid pod object" [])
        | some pod ↦ check_volumes request.uid request.namespace pod
      ]
    ]

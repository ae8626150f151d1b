-- ===== src/NodePlugin/Http.antt =====
-- The `/mount` handler of `serveHTTP`, the small RPCs and the choice of a backend, of
-- cmd/nodeplugin/main.go.
pub mod Laws
use gitrepo_csi_driver.Base.{
  ℕ, Bool, true, false, List, [], ◌∷◌, Result, ok, err, Error, errorf, bytes, String, ◌||◌, is_nil,
  if◌then◌else◌, not, Option, none, some,
}
use gitrepo_csi_driver.Text.{Text, codes, same}
use gitrepo_csi_driver.Volume.{StringMap}
use gitrepo_csi_driver.NodePlugin.Errors.{http_status_of}
use gitrepo_csi_driver.NodePlugin.Pipeline.{Trace, Environment, MountResult, materialize}

-- `mountRequest`
pub record MountRequest : Type 0 where
  pub namespace : Text
  pub target_path : Text
  pub volume_attributes : StringMap

-- What the response says: an error, or the revision and the policy.
pub data Body : Type 0 where
  empty : Body
  failure : Error → Body
  mounted : (resolved_revision policy : Text) → Body

pub record Response : Type 0 where
  pub status : ℕ
  pub body : Body

abbrev pub mount_answer : Result MountResult → Response
mount_answer (err e) = record { status = http_status_of e; body = failure e }
mount_answer (ok res) = record { status = 200; body = mounted res.resolved_revision res.policy }

module _ (env : Environment) where
  -- The request behind the decoder of the body.
  unfoldable pub handle_decoded : Result MountRequest → Trace → Response × Trace
  handle_decoded (err e) trace = (record { status = 400; body = failure e }, trace)
  handle_decoded (ok req) trace =
      let (r, later) = materialize env req.namespace req.target_path req.volume_attributes trace in
      (mount_answer r, later)

  unfoldable pub handle_mount : Text → Result MountRequest → Trace → Response × Trace
  handle_mount method decoded trace =
      if not (same method (codes "POST"))
      then (record { status = 405; body = empty }, trace)
      else handle_decoded decoded trace

-- ===== src/NodePlugin/Http/Laws.antt =====
-- What the `/mount` handler answers.
use gitrepo_csi_driver.Base.{◌≡◌, ◌⊎◌, inl, inr, refl, ap, true, false, Result, ok, err, Error}
use gitrepo_csi_driver.Text.{Text, codes, same}
use gitrepo_csi_driver.NodePlugin.Errors.{http_status_of, as_mount_error, bad_request, forbidden}
use gitrepo_csi_driver.NodePlugin.Pipeline.{Trace, Environment, MountResult}
use gitrepo_csi_driver.NodePlugin.Pipeline.Laws.{IsPermitted, Grows}
use gitrepo_csi_driver.NodePlugin.Pipeline.Refusal.{IsMetric, materialize-IsRefusal}
use gitrepo_csi_driver.NodePlugin.Http.{MountRequest, mount_answer, handle_decoded, handle_mount}

refused_status :
    (e : Error) (r : Result MountResult)
    → (r ≡ err (bad_request e)) ⊎ (r ≡ err (forbidden e))
    → ((mount_answer r).status ≡ 400) ⊎ ((mount_answer r).status ≡ 403)
unfolding http_status_of as_mount_error
refused_status e r (inl h) = inl (ap (λ x. (mount_answer x).status) h)
refused_status e r (inr h) = inr (ap (λ x. (mount_answer x).status) h)

-- A request by another method is answered with 405, whatever its body is; a POST whose body cannot be
-- decoded is answered with 400; neither adds anything to the trace. A POST whose request the policies do
-- not permit is answered with 400 or 403, and adds nothing to the trace but updates of metrics.
pub handle_mount-refusal :
    (env : Environment) (method : Text) (decoded : Result MountRequest) (trace : Trace)
    → ((same method (codes "POST") ≡ false)
        → ((handle_mount env method decoded trace).0.status ≡ 405)
          × ((handle_mount env method decoded trace).1 ≡ trace))
      × ((same method (codes "POST") ≡ true)
          → (e : Error) → decoded ≡ err e
          → ((handle_mount env method decoded trace).0.status ≡ 400)
            × ((handle_mount env method decoded trace).1 ≡ trace))
      × ((same method (codes "POST") ≡ true)
          → (req : MountRequest) → decoded ≡ ok req
          → ¬ (IsPermitted env req.namespace req.volume_attributes)
          → (((handle_mount env method decoded trace).0.status ≡ 400)
              ⊎ ((handle_mount env method decoded trace).0.status ≡ 403))
            × Grows IsMetric trace (handle_mount env method decoded trace).1)
unfolding handle_mount handle_decoded
handle_mount-refusal env method decoded trace = (
  (λ p. rw (p, handle_mount) (refl, refl)),
  (λ p e d. rw (p, d, handle_mount, handle_decoded) (refl, refl)),
  (λ p req d n.
      let i =
        materialize-IsRefusal env req.namespace req.target_path req.volume_attributes trace n in
      rw (p, d, handle_mount, handle_decoded)
        (refused_status i.reason _ i.refused, i.only_metrics)),
)

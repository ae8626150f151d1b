-- ===== src/NodePlugin/Pipeline/Refusal.antt =====
-- A request that does not parse or is denied touches nothing but the metrics.
use gitrepo_csi_driver.Base.{
  ◌≡◌, ◌⊎◌, inl, inr, refl, false, [], ◌∷◌, Result, ok, err, Error, Bool-cases, Result-cases,
}
use gitrepo_csi_driver.Text.{Text}
use gitrepo_csi_driver.Volume.{Attributes, StringMap, parse}
use gitrepo_csi_driver.Policy.Evaluate.{evaluate}
use gitrepo_csi_driver.Admission.{request_of}
use gitrepo_csi_driver.NodePlugin.Errors.{bad_request, forbidden}
use gitrepo_csi_driver.NodePlugin.Pipeline.{
  Call, Metric, metric, observe_mount, policy_denial, Trace, Environment, MountResult,
  with_attributes, materialize,
}
use gitrepo_csi_driver.NodePlugin.Pipeline.Laws.{Grows, Grows-refl, Grows-by, IsPermitted}

abbrev pub IsMetric : Call → Type 0
IsMetric call = (m : Metric) × (call ≡ metric m)

-- The outcome of a request that is refused: a client's error, and metrics.
pub record IsRefusal (trace : Trace) (outcome : Result MountResult × Trace) : Type 0 where
  pub reason : Error
  pub refused : (outcome.0 ≡ err (bad_request reason)) ⊎ (outcome.0 ≡ err (forbidden reason))
  pub only_metrics : Grows IsMetric trace outcome.1

module _ (env : Environment) (namespace target : Text) where
  denied-IsRefusal :
      (attrs : Attributes) (trace : Trace)
      → (evaluate env.lib env.policies (request_of namespace attrs) attrs.policy).0.allowed ≡ false
      → IsRefusal trace (with_attributes env namespace target (ok attrs) trace)
  unfolding with_attributes
  denied-IsRefusal attrs trace d =
      let (res, pol) = evaluate env.lib env.policies (request_of namespace attrs) attrs.policy in
      rw (d, with_attributes)
        (record {
          reason = res.denial_reason;
          refused = inr refl;
          only_metrics =
              Grows-by trace
                (metric (observe_mount namespace pol.name "denied")
                  ∷ metric (policy_denial namespace pol.name res.denial_reason_code)
                  ∷ [])
                ((_, refl), ((_, refl), tt));
        })

  invalid-IsRefusal :
      (e : Error) (trace : Trace)
      → IsRefusal trace (with_attributes env namespace target (err e) trace)
  unfolding with_attributes
  invalid-IsRefusal e trace = record {
    reason = e;
    refused = inl refl;
    only_metrics = Grows-refl trace;
  }

  -- A request whose attributes do not parse, or which the evaluator denies, is answered with an error
  -- for the client, and adds nothing to the trace but updates of metrics: no content is fetched.
  pub materialize-IsRefusal :
      (raw : StringMap) (trace : Trace)
      → ¬ (IsPermitted env namespace raw)
      → IsRefusal trace (materialize env namespace target raw trace)
  unfolding materialize
  materialize-IsRefusal raw trace n = elim (Result-cases (parse env.lib.url_parse raw)) [
    | inl (e, k) ↦ rw k (invalid-IsRefusal e trace)
    | inr (attrs, k) ↦
        elim (Bool-cases
          (evaluate env.lib env.policies (request_of namespace attrs) attrs.policy).0.allowed) [
            | inl a ↦ absurd (n (record { attrs = attrs; parsed = k; allowed = a }))
            | inr d ↦ rw k (denied-IsRefusal attrs trace d)
          ]
  ]

  with_attributes-IsPermitted :
      (raw : StringMap) (trace : Trace) (r : Result Attributes) {res : MountResult}
      → parse env.lib.url_parse raw ≡ r
      → (with_attributes env namespace target r trace).0 ≡ ok res
      → IsPermitted env namespace raw
  unfolding with_attributes
  with_attributes-IsPermitted raw trace (err e) p h = cc
  with_attributes-IsPermitted raw trace (ok attrs) p h =
      elim (Bool-cases
        (evaluate env.lib env.policies (request_of namespace attrs) attrs.policy).0.allowed) [
          | inl a ↦ record { attrs = attrs; parsed = p; allowed = a }
          | inr d ↦ let k = rw (d, with_attributes) at h in cc
        ]

  -- What is materialized was permitted.
  pub materialize-IsPermitted :
      (raw : StringMap) (trace : Trace) {res : MountResult}
      → (materialize env namespace target raw trace).0 ≡ ok res
      → IsPermitted env namespace raw
  unfolding materialize
  materialize-IsPermitted raw trace h =
      with_attributes-IsPermitted raw trace (parse env.lib.url_parse raw) refl h

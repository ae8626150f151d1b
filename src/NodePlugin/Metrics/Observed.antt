-- ===== src/NodePlugin/Metrics/Observed.antt =====
-- How the counter of mount requests agrees with what the requests were answered.
use gitrepo_csi_driver.Admission.{request_of}
use gitrepo_csi_driver.Base.{
  String, Bool, ◌≡◌, inl, inr, refl, sym, ap, ◌∙◌, true, false, [], ◌∷◌, ◌++◌, append_assoc,
  append-nil, List, Result, ok, err, if◌then◌else◌, Bool-cases, Result-cases,
}
use gitrepo_csi_driver.Cache.Key.{key, path_for_key}
use gitrepo_csi_driver.Materializer.Backend.{Materialized}
use gitrepo_csi_driver.NodePlugin.Metrics.{policy_denial, updates, values_of, recorded, updates_by}
use gitrepo_csi_driver.NodePlugin.Pipeline.{
  evict_cache, metric, observe_mount, cache_hit, cache_miss, repository_size, repository_files,
  policy_host, inputs_of, key_parts, materialize_call, write_metadata, Trace, Environment,
  MountResult, link_target, finish, with_content, permitted, with_attributes, materialize,
}
use gitrepo_csi_driver.Observability.{Collector, Update, new_metrics}
use gitrepo_csi_driver.Policy.Evaluate.{evaluate}
use gitrepo_csi_driver.Policy.Types.{GitContentPolicy}
use gitrepo_csi_driver.Text.{same, Text, codes}
use gitrepo_csi_driver.Volume.{Attributes, StringMap, parse}
use gitrepo_csi_driver.Observability as Observability

values_of-append :
    (c : Collector) (us vs : List Update)
    → values_of c (us ++ vs) ≡ values_of c us ++ values_of c vs
unfolding values_of
values_of-append c [] vs = refl
values_of-append c (u ∷ us) vs =
    let h = values_of-append c us vs in
    elim (Bool-cases (same u.collector.name c.name)) [
      | inl k ↦ rw k (ap (λ vs. u.values ∷ vs) h)
      | inr k ↦ rw k h
    ]

-- The namespace, policy and result of each mount that a trace counts.
unfoldable pub mounts : Trace → List (List Text)
mounts trace = values_of new_metrics.mount_requests (recorded new_metrics trace)

mounts-append : (s t : Trace) → mounts (s ++ t) ≡ mounts s ++ mounts t
unfolding mounts recorded values_of
mounts-append [] t = refl
mounts-append (c ∷ s) t =
    let c_vec = new_metrics.mount_requests in
    let here = updates_by new_metrics c in
    values_of-append c_vec here (recorded new_metrics (s ++ t))
    ∙ ap (λ vs. values_of c_vec here ++ vs) (mounts-append s t)
    ∙ sym (append_assoc (values_of c_vec here) (mounts s) (mounts t))
    ∙ ap (λ vs. vs ++ mounts t) (sym (values_of-append c_vec here (recorded new_metrics s)))

-- Calls that count no mount, and some that follow.
mounts-quiet :
    (trace calls rest : Trace)
    → mounts calls ≡ []
    → mounts ((trace ++ calls) ++ rest) ≡ mounts trace ++ mounts rest
mounts-quiet trace calls rest q =
    mounts-append (trace ++ calls) rest
    ∙ ap (λ vs. vs ++ mounts rest)
        (mounts-append trace calls ∙ ap (λ vs. mounts trace ++ vs) q ∙ append-nil (mounts trace))

-- The value of the label "result".
abbrev result_of : Result MountResult → String
result_of (err e) = "error"
result_of (ok res) = "success"

module _ (env : Environment) (namespace : Text) where
  abbrev one_mount : GitContentPolicy → String → List (List Text)
  one_mount pol outcome = (namespace ∷ pol.name ∷ codes outcome ∷ []) ∷ []

  -- What a request adds to the counter, from its attributes and its answer: nothing if they do not parse,
  -- and else one mount, which was denied, failed or succeeded.
  unfoldable pub counted_as : Result Attributes → Result MountResult → List (List Text)
  counted_as (err e) r = []
  counted_as (ok attrs) r =
      let (verdict, pol) =
        evaluate env.lib env.policies (request_of namespace attrs) attrs.policy in
      one_mount pol (if verdict.allowed then result_of r else "denied")

  with_content-mounts :
      (attrs : Attributes) (profile : Text) (pol : GitContentPolicy) (mr : Materialized)
      (trace : Trace)
      → let (r, after) = with_content env namespace [] attrs profile pol mr trace in
        mounts after ≡ mounts trace ++ one_mount pol (result_of r)
  unfolding with_content link_target finish mounts recorded values_of updates_by updates new_metrics
      Observability.observe_mount same
  with_content-mounts attrs profile pol mr trace =
      let host = policy_host env attrs.repo in
      let calls =
        metric (repository_size host mr.size_bytes)
        ∷ metric (repository_files host mr.file_count)
        ∷ write_metadata mr.mounted_path (inputs_of env namespace [] attrs profile pol mr)
        ∷ [] in
      elim (Result-cases (env.answer (trace ++ calls))) [
        | inl (x, k) ↦
            rw (k, with_content)
              (mounts-quiet trace calls (metric (observe_mount namespace pol.name "error") ∷ [])
                refl)
        | inr (u, k) ↦
            rw (k, with_content)
              (mounts-quiet trace calls
                (evict_cache ∷ metric (observe_mount namespace pol.name "success") ∷ []) refl)
      ]

  -- Looking at the cache and calling the backend counts no mount.
  fetch-mounts :
      (b : Bool) (host : Text) (attrs : Attributes) (pol : GitContentPolicy) (path : Text)
      → mounts (
          metric (if b then cache_hit host else cache_miss host)
          ∷ materialize_call attrs pol path
          ∷ [])
        ≡ []
  unfolding mounts recorded values_of updates_by updates new_metrics same
  fetch-mounts true host attrs pol path = refl
  fetch-mounts false host attrs pol path = refl

  permitted-mounts :
      (attrs : Attributes) (profile : Text) (pol : GitContentPolicy) (trace : Trace)
      → let (r, after) = permitted env namespace [] attrs profile pol trace in
        mounts after ≡ mounts trace ++ one_mount pol (result_of r)
  unfolding permitted mounts recorded values_of updates_by updates new_metrics
      Observability.observe_mount same
  permitted-mounts attrs profile pol trace =
      let host = policy_host env attrs.repo in
      let cache_path = path_for_key env.cache (key env.sha256_hex (key_parts attrs profile)) in
      let hit = env.exists trace cache_path in
      let stat = if hit then cache_hit host else cache_miss host in
      let calls = metric stat ∷ materialize_call attrs pol cache_path ∷ [] in
      let quiet = fetch-mounts hit host attrs pol cache_path in
      elim (Result-cases (env.materialize (trace ++ calls))) [
        | inl (x, k) ↦
            rw (k, permitted)
              (mounts-quiet trace calls (metric (observe_mount namespace pol.name "error") ∷ [])
                quiet)
        | inr (mr, k) ↦
            rw (k, permitted)
              (with_content-mounts attrs profile pol mr (trace ++ calls)
                ∙ ap
                    (λ vs.
                      vs
                      ++ one_mount pol (
                          result_of
                            (with_content env namespace [] attrs profile pol mr
                              (trace ++ calls)).0))
                    (mounts-append trace calls
                      ∙ ap (λ vs. mounts trace ++ vs) quiet
                      ∙ append-nil (mounts trace)))
      ]

  with_attributes-mounts :
      (r : Result Attributes) (trace : Trace)
      → let (answer, after) = with_attributes env namespace [] r trace in
        mounts after ≡ mounts trace ++ counted_as r answer
  unfolding with_attributes counted_as mounts recorded values_of updates_by updates new_metrics
      Observability.observe_mount same
  with_attributes-mounts (err e) trace = sym (append-nil (mounts trace))
  with_attributes-mounts (ok attrs) trace =
      let (res, pol) = evaluate env.lib env.policies (request_of namespace attrs) attrs.policy in
      elim (Bool-cases res.allowed) [
        | inl a ↦ rw (a, with_attributes) (permitted-mounts attrs res.resolved_profile pol trace)
        | inr a ↦
            rw (a, with_attributes)
              (mounts-append trace (
                metric (observe_mount namespace pol.name "denied")
                ∷ metric (policy_denial namespace pol.name res.denial_reason_code)
                ∷ []))
      ]

  -- A request without a target path, as the CSI call makes it, adds to the counter of mount requests one
  -- mount if its attributes parse, and nothing else: with the result "denied" if the evaluator denies it,
  -- and else "success" or "error", as it is answered.
  pub materialize-mounts :
      (raw : StringMap) (trace : Trace)
      → let (answer, after) = materialize env namespace [] raw trace in
        mounts after ≡ mounts trace ++ counted_as (parse env.lib.url_parse raw) answer
  unfolding materialize
  materialize-mounts raw trace = with_attributes-mounts (parse env.lib.url_parse raw) trace

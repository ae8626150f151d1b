-- ===== src/NodePlugin/Pipeline/Fetch.antt =====
-- Where a result of `materialize` comes from: the call of the backend.
use gitrepo_csi_driver.Admission.{request_of}
use gitrepo_csi_driver.Base.{
  refl, sym, deadline_exceeded, ◌≡◌, inl, inr, ap, ◌∙◌, [], ◌∷◌, ◌++◌, append_assoc, Result, ok,
  err, if◌then◌else◌, Result-cases, ok_inj,
}
use gitrepo_csi_driver.Cache.Key.{key, path_for_key}
use gitrepo_csi_driver.Materializer.Backend.{Materialized}
use gitrepo_csi_driver.NodePlugin.Pipeline.{
  Call, metric, cache_hit, cache_miss, repository_size, repository_files, policy_host, inputs_of,
  key_parts, materialize_call, write_metadata, Trace, Environment, MountResult, link_target, finish,
  with_content, permitted, with_attributes, materialize,
}
use gitrepo_csi_driver.NodePlugin.Pipeline.Laws.{
  Grows-trans, link_target-SafeCall, finish-SafeCall, IsPermitted,
}
use gitrepo_csi_driver.NodePlugin.Pipeline.Refusal.{materialize-IsPermitted}
use gitrepo_csi_driver.Policy.Evaluate.{evaluate}
use gitrepo_csi_driver.Policy.Types.{GitContentPolicy}
use gitrepo_csi_driver.Text.{Text}
use gitrepo_csi_driver.Volume.{Attributes, StringMap}

-- The result that is made of the backend's.
abbrev pub mounted : GitContentPolicy → Materialized → MountResult
mounted pol mr = record {
  resolved_revision = mr.resolved_revision;
  policy = pol.name;
  source_path = mr.mounted_path;
}

module _ (env : Environment) (namespace target : Text) where
  -- The cache directory of a request.
  unfoldable pub work_dir_of : Attributes → Text → Text
  work_dir_of attrs profile = path_for_key env.cache (key env.sha256_hex (key_parts attrs profile))

  -- Between the two traces, the backend was called for a permitted request, with the policy that permits it
  -- and the request's cache directory, then the metadata was written to what it returned, and the result is
  -- made of that.
  pub record IsFetched (raw : StringMap) (res : MountResult) (trace after : Trace) : Type 0 where
    pub permission : IsPermitted env namespace raw
    pub content : Materialized
    pub before : Trace
    pub seen : Call
    pub begun : before ≡ trace ++ seen ∷ []
    pub delivered :
        let attrs = permission.attrs in
        let (verdict, pol) =
          evaluate env.lib env.policies (request_of namespace attrs) attrs.policy in
        env.materialize
          (before ++ materialize_call attrs pol (work_dir_of attrs verdict.resolved_profile) ∷ [])
        ≡ ok content
    pub behind : Trace
    pub sizes : Trace
    pub fetched :
        let attrs = permission.attrs in
        let (verdict, pol) =
          evaluate env.lib env.policies (request_of namespace attrs) attrs.policy in
        behind
        ≡ (before ++ materialize_call attrs pol (work_dir_of attrs verdict.resolved_profile) ∷ [])
          ++ sizes
    pub described :
        let attrs = permission.attrs in
        let (verdict, pol) =
          evaluate env.lib env.policies (request_of namespace attrs) attrs.policy in
        env.answer (
          behind
          ++ write_metadata content.mounted_path
              (inputs_of env namespace target attrs verdict.resolved_profile pol content)
            ∷ [])
        ≡ ok tt
    pub rest : Trace
    pub ended :
        let attrs = permission.attrs in
        let (verdict, pol) =
          evaluate env.lib env.policies (request_of namespace attrs) attrs.policy in
        after
        ≡ (behind
            ++ write_metadata content.mounted_path
                (inputs_of env namespace target attrs verdict.resolved_profile pol content)
              ∷ [])
          ++ rest
    pub result :
        let attrs = permission.attrs in
        mounted (evaluate env.lib env.policies (request_of namespace attrs) attrs.policy).1 content
        ≡ res

  finish-mounted :
      (pol : GitContentPolicy) (mr : Materialized) (r : Result (Unit {0}) × Trace)
      (res : MountResult)
      → (finish env namespace target pol mr r).0 ≡ ok res
      → mounted pol mr ≡ res
  unfolding finish
  finish-mounted pol mr (err e, trace) res h = cc
  finish-mounted pol mr (ok u, trace) res h = ok_inj h

  with_content-described :
      (attrs : Attributes) (profile : Text) (pol : GitContentPolicy) (mr : Materialized)
      (trace : Trace) (res : MountResult)
      → (with_content env namespace target attrs profile pol mr trace).0 ≡ ok res
      → let described =
          write_metadata mr.mounted_path (inputs_of env namespace target attrs profile pol mr) in
        (sizes : Trace) × (env.answer ((trace ++ sizes) ++ described ∷ []) ≡ ok tt)
        × (rest : Trace) × ((with_content env namespace target attrs profile pol mr trace).1
            ≡ ((trace ++ sizes) ++ described ∷ []) ++ rest)
        × (mounted pol mr ≡ res)
  unfolding with_content
  with_content-described attrs profile pol mr trace res h =
      let host = policy_host env attrs.repo in
      let sizes : Trace =
        metric (repository_size host mr.size_bytes)
        ∷ metric (repository_files host mr.file_count)
        ∷ [] in
      let described =
        write_metadata mr.mounted_path (inputs_of env namespace target attrs profile pol mr) in
      let written = trace ++ (sizes ++ described ∷ []) in
      elim (Result-cases (env.answer written)) [
        | inl (x, k) ↦ let l : err x ≡ ok res = rw (k, with_content) at h in cc
        | inr (u, k) ↦
            let linked = link_target env mr.mounted_path target written in
            let g =
              Grows-trans (link_target-SafeCall env target mr.mounted_path written)
                (finish-SafeCall env target namespace pol mr linked) in
            (
              sizes,
              ap env.answer (append_assoc trace sizes (described ∷ [])) ∙ k,
              g.calls,
              rw (k, with_content)
                  (g.longer
                    ∙ ap (λ t. t ++ g.calls) (sym (append_assoc trace sizes (described ∷ [])))),
              finish-mounted pol mr (link_target env mr.mounted_path target written) res
                  (rw (k, with_content) at h),
            )
      ]

  permitted-delivered :
      (attrs : Attributes) (profile : Text) (pol : GitContentPolicy) (trace : Trace)
      (res : MountResult)
      → (permitted env namespace target attrs profile pol trace).0 ≡ ok res
      → let fetch = materialize_call attrs pol (work_dir_of attrs profile) in
        (mr : Materialized) × (seen : Call) × (env.materialize ((trace ++ seen ∷ []) ++ fetch ∷ [])
          ≡ ok mr)
        × (sizes : Trace) × (env.answer (
              (((trace ++ seen ∷ []) ++ fetch ∷ []) ++ sizes)
              ++ write_metadata mr.mounted_path
                  (inputs_of env namespace target attrs profile pol mr)
                ∷ [])
            ≡ ok tt)
        × (rest : Trace) × ((permitted env namespace target attrs profile pol trace).1
            ≡ ((((trace ++ seen ∷ []) ++ fetch ∷ []) ++ sizes)
                ++ write_metadata mr.mounted_path
                    (inputs_of env namespace target attrs profile pol mr)
                  ∷ [])
              ++ rest)
        × (mounted pol mr ≡ res)
  unfolding permitted work_dir_of
  permitted-delivered attrs profile pol trace res h =
      let host = policy_host env attrs.repo in
      let cache_path = path_for_key env.cache (key env.sha256_hex (key_parts attrs profile)) in
      let stat = if env.exists trace cache_path then cache_hit host else cache_miss host in
      let called = trace ++ metric stat ∷ materialize_call attrs pol cache_path ∷ [] in
      elim (Result-cases (env.materialize called)) [
        | inl (x, k) ↦
            let l : err (if env.expired called then deadline_exceeded else x) ≡ ok res =
              rw (k, permitted) at h in
            cc
        | inr (mr, k) ↦
            let (sizes, a, rest, g, m) =
              with_content-described attrs profile pol mr called res (rw (k, permitted) at h) in
            let fetch = materialize_call attrs pol cache_path in
            let e = append_assoc trace (metric stat ∷ []) (fetch ∷ []) in
            let described =
              write_metadata mr.mounted_path
                (inputs_of env namespace target attrs profile pol mr) in
            let f : Trace → Trace = λ t. (t ++ sizes) ++ described ∷ [] in
            (
              mr,
              metric stat,
              ap env.materialize e ∙ k,
              sizes,
              ap (λ t. env.answer (f t)) e ∙ a,
              rest,
              rw (k, permitted) (g ∙ ap (λ t. f t ++ rest) (sym e)),
              m,
            )
      ]

  -- A result of `materialize` is fetched.
  pub materialize-IsFetched :
      (raw : StringMap) (trace : Trace) (res : MountResult)
      → (materialize env namespace target raw trace).0 ≡ ok res
      → IsFetched raw res trace (materialize env namespace target raw trace).1
  unfolding materialize with_attributes
  materialize-IsFetched raw trace res h =
      let p = materialize-IsPermitted env namespace target raw trace h in
      let attrs = p.attrs in
      let (verdict, pol) =
        evaluate env.lib env.policies (request_of namespace attrs) attrs.policy in
      let (mr, seen, d, sizes, a, rest, g, m) =
        permitted-delivered attrs verdict.resolved_profile pol trace res
          (rw (p.parsed, p.allowed, with_attributes) at h) in
      record {
        permission = p;
        content = mr;
        before = trace ++ seen ∷ [];
        seen = seen;
        begun = refl;
        delivered = d;
        behind = _;
        sizes = sizes;
        fetched = refl;
        described = a;
        rest = rest;
        ended = rw (p.parsed, p.allowed, with_attributes) g;
        result = m;
      }

-- ===== src/NodePlugin/Pipeline/Laws.antt =====
-- What `materialize` touches: metrics only, unless the request is permitted; and, of the paths that
-- it removes or links, only the safe target path.
use gitrepo_csi_driver.Base.{
  ◌≡◌, inl, inr, refl, sym, ◌∙◌, true, [], ◌∷◌, ◌++◌, append_assoc, append-nil, Result, ok, err,
  if◌then◌else◌, is_nil, All, All-append, Bool-cases, Result-cases,
}
use gitrepo_csi_driver.Text.{Text}
use gitrepo_csi_driver.Paths.{dir, is_abs, clean}
use gitrepo_csi_driver.Volume.{Attributes, StringMap, parse}
use gitrepo_csi_driver.Policy.Types.{GitContentPolicy}
use gitrepo_csi_driver.Policy.Evaluate.{evaluate}
use gitrepo_csi_driver.Admission.{request_of}
use gitrepo_csi_driver.Cache.Key.{key, path_for_key}
use gitrepo_csi_driver.NodePlugin.TargetPath.{safe_target_path}
use gitrepo_csi_driver.NodePlugin.TargetPath.Laws.{IsBelow, safe_target_path_iff}
use gitrepo_csi_driver.Materializer.Backend.{Materialized}
use gitrepo_csi_driver.NodePlugin.Pipeline.{
  Call, metric, observe_mount, policy_denial, cache_hit, cache_miss, repository_size,
  repository_files, policy_host, inputs_of, key_parts, materialize_call, write_metadata, mkdir_all,
  remove_all, symlink, evict_cache, copy_content_tree, chmod_read_only, Trace, Environment, link_at,
  link_target, finish, with_content, permitted, with_attributes, materialize,
}

-- The calls behind a trace, each with a property.
pub record Grows (P : Call → Type 0) (before after : Trace) : Type 0 where
  pub calls : Trace
  pub longer : after ≡ before ++ calls
  pub each : All P calls

module _ {P : Call → Type 0} where
  pub Grows-refl : (t : Trace) → Grows P t t
  Grows-refl t = record { calls = []; longer = sym (append-nil t); each = tt }

  pub Grows-by : (t cs : Trace) → All P cs → Grows P t (t ++ cs)
  Grows-by t cs h = record { calls = cs; longer = refl; each = h }

  pub Grows-trans : {a b c : Trace} → Grows P a b → Grows P b c → Grows P a c
  Grows-trans {a} g h = record {
    calls = g.calls ++ h.calls;
    longer = h.longer ∙ rw (g.longer) (append_assoc a g.calls h.calls);
    each = All-append P g.calls h.calls g.each h.each;
  }

module _ (env : Environment) where
  -- The attributes parse, and the evaluator allows the request.
  pub record IsPermitted (namespace : Text) (raw : StringMap) : Type 0 where
    pub attrs : Attributes
    pub parsed : parse env.lib.url_parse raw ≡ ok attrs
    pub allowed :
        (evaluate env.lib env.policies (request_of namespace attrs) attrs.policy).0.allowed ≡ true

  module _ (target : Text) where
    -- The target path as the plugin may use it: cleaned, and strictly below the target root.
    abbrev pub IsTarget : Text → Type 0
    IsTarget path =
        (is_abs env.target_root ≡ true)
        × (is_abs target ≡ true)
        × IsBelow env.target_root target
        × (path ≡ clean target)

    -- What the calls may do to the file system: remove and link the accepted target path, make its
    -- parent directory, and fetch, describe and evict content.
    abbrev pub SafeCall : Call → Type 0
    SafeCall (mkdir_all path) = (t : Text) × IsTarget t × (path ≡ dir t)
    SafeCall (remove_all path) = IsTarget path
    SafeCall (symlink old new) = IsTarget new
    SafeCall (copy_content_tree source to) = ⊥
    SafeCall (chmod_read_only root) = ⊥
    SafeCall (metric m) = Unit {0}
    SafeCall (materialize_call attrs pol work_dir) = Unit {0}
    SafeCall (write_metadata root inputs) = Unit {0}
    SafeCall evict_cache = Unit {0}

    link_at-SafeCall :
        (mounted t : Text) (trace : Trace)
        → IsTarget t
        → Grows SafeCall trace (link_at env mounted t trace).1
    unfolding link_at
    link_at-SafeCall mounted t trace e =
        let step = Grows-by trace (mkdir_all (dir t) ∷ []) ((t, e, refl), tt) in
        let made = trace ++ mkdir_all (dir t) ∷ [] in
        elim (Result-cases (env.answer made)) [
          | inl (x, k) ↦ rw (k, link_at) step
          | inr (u, k) ↦
              rw (k, link_at)
                (Grows-trans step
                  (Grows-by made (remove_all t ∷ symlink mounted t ∷ []) (e, (e, tt))))
        ]

    pub link_target-SafeCall :
        (mounted : Text) (trace : Trace)
        → Grows SafeCall trace (link_target env mounted target trace).1
    unfolding link_target
    link_target-SafeCall mounted trace = elim (Bool-cases (is_nil target)) [
      | inl n ↦ rw (n, link_target) (Grows-refl trace)
      | inr n ↦ elim (Result-cases (safe_target_path env.target_root target)) [
        | inl (x, k) ↦ rw (n, k, link_target) (Grows-refl trace)
        | inr (t, k) ↦
            rw (n, k, link_target)
              (link_at-SafeCall mounted t trace
                ((safe_target_path_iff env.target_root target t).0 k))
      ]
    ]

    module _ (namespace : Text) where
      pub finish-SafeCall :
          (pol : GitContentPolicy) (mr : Materialized) (r : Result (Unit {0}) × Trace)
          → Grows SafeCall r.1 (finish env namespace target pol mr r).1
      unfolding finish
      finish-SafeCall pol mr (err e, trace) = Grows-refl trace
      finish-SafeCall pol mr (ok u, trace) =
          Grows-by trace (evict_cache ∷ metric (observe_mount namespace pol.name "success") ∷ [])
            (tt, (tt, tt))

      with_content-SafeCall :
          (attrs : Attributes) (profile : Text) (pol : GitContentPolicy) (mr : Materialized)
          (trace : Trace)
          → Grows SafeCall trace (with_content env namespace target attrs profile pol mr trace).1
      unfolding with_content
      with_content-SafeCall attrs profile pol mr trace =
          let host = policy_host env attrs.repo in
          let calls =
            metric (repository_size host mr.size_bytes)
            ∷ metric (repository_files host mr.file_count)
            ∷ write_metadata mr.mounted_path (inputs_of env namespace target attrs profile pol mr)
            ∷ [] in
          let step = Grows-by trace calls (tt, (tt, (tt, tt))) in
          let written = trace ++ calls in
          elim (Result-cases (env.answer written)) [
            | inl (x, k) ↦
                rw (k, with_content)
                  (Grows-trans step (
                    Grows-by written (metric (observe_mount namespace pol.name "error") ∷ [])
                      (tt, tt)))
            | inr (u, k) ↦
                rw (k, with_content)
                  (Grows-trans step (
                    Grows-trans (link_target-SafeCall mr.mounted_path written)
                      (finish-SafeCall pol mr (link_target env mr.mounted_path target written))))
          ]

      permitted-SafeCall :
          (attrs : Attributes) (profile : Text) (pol : GitContentPolicy) (trace : Trace)
          → Grows SafeCall trace (permitted env namespace target attrs profile pol trace).1
      unfolding permitted
      permitted-SafeCall attrs profile pol trace =
          let host = policy_host env attrs.repo in
          let cache_path = path_for_key env.cache (key env.sha256_hex (key_parts attrs profile)) in
          let stat = if env.exists trace cache_path then cache_hit host else cache_miss host in
          let calls = metric stat ∷ materialize_call attrs pol cache_path ∷ [] in
          let step = Grows-by trace calls (tt, (tt, tt)) in
          let called = trace ++ calls in
          elim (Result-cases (env.materialize called)) [
            | inl (x, k) ↦
                rw (k, permitted)
                  (Grows-trans step (
                    Grows-by called (metric (observe_mount namespace pol.name "error") ∷ [])
                      (tt, tt)))
            | inr (mr, k) ↦
                rw (k, permitted)
                  (Grows-trans step (with_content-SafeCall attrs profile pol mr called))
          ]

      with_attributes-SafeCall :
          (r : Result Attributes) (trace : Trace)
          → Grows SafeCall trace (with_attributes env namespace target r trace).1
      unfolding with_attributes
      with_attributes-SafeCall (err e) trace = Grows-refl trace
      with_attributes-SafeCall (ok attrs) trace =
          let (res, pol) =
            evaluate env.lib env.policies (request_of namespace attrs) attrs.policy in
          elim (Bool-cases res.allowed) [
            | inl a ↦
                rw (a, with_attributes) (permitted-SafeCall attrs res.resolved_profile pol trace)
            | inr a ↦
                rw (a, with_attributes)
                  (Grows-by trace
                    (metric (observe_mount namespace pol.name "denied")
                      ∷ metric (policy_denial namespace pol.name res.denial_reason_code)
                      ∷ [])
                    (tt, (tt, tt)))
          ]

      -- Of the calls that `materialize` adds to the trace, none copies content to a pod or changes
      -- permissions; a path that one removes or links is the cleaned target path, which lies
      -- strictly below the target root, and a directory that one makes is the parent of that path.
      pub materialize-SafeCall :
          (raw : StringMap) (trace : Trace)
          → Grows SafeCall trace (materialize env namespace target raw trace).1
      unfolding materialize
      materialize-SafeCall raw trace = with_attributes-SafeCall (parse env.lib.url_parse raw) trace

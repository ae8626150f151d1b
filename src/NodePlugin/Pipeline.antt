-- ===== src/NodePlugin/Pipeline.antt =====
-- `mountPipeline.materialize` of cmd/nodeplugin/main.go. Its calls of the system, of the backend and
-- of the metrics are recorded in a trace, in their order; what they answer is a function of the
-- trace so far.
pub mod Laws
pub mod Refusal
pub mod CacheKey
pub mod Fetch
use gitrepo_csi_driver.Base.{
  ℕ, Bool, true, false, not, List, [], ◌∷◌, ◌++◌, Result, ok, err, Error, errorf, deadline_exceeded,
  if◌then◌else◌, is_nil, String,
}
use gitrepo_csi_driver.Base.Int.{ℤ}
use gitrepo_csi_driver.Text.{Text, codes}
use gitrepo_csi_driver.Paths.{dir}
use gitrepo_csi_driver.Library.{Library}
use gitrepo_csi_driver.Volume.{Attributes, StringMap, parse}
use gitrepo_csi_driver.Policy.Types.{GitContentPolicy, Request, Verdict}
use gitrepo_csi_driver.Policy.Match.{host_from_repo}
use gitrepo_csi_driver.Policy.Evaluate.{evaluate}
use gitrepo_csi_driver.Materializer.Backend.{Materialized}
use gitrepo_csi_driver.Cache.Key.{Config, key, path_for_key}
use gitrepo_csi_driver.Admission.{request_of}
use gitrepo_csi_driver.NodePlugin.Errors.{bad_request, forbidden}
use gitrepo_csi_driver.NodePlugin.TargetPath.{safe_target_path}

-- `metadata.Inputs`
pub record Inputs : Type 0 where
  pub repo : Text
  pub requested_rev : Text
  pub resolved_rev : Text
  pub policy : Text
  pub submodules : Bool
  pub credential_profile : Text

-- An update of a metric, without the durations.
pub data Metric : Type 0 where
  observe_mount : (namespace policy : Text) → (outcome : String) → Metric
  policy_denial : (namespace policy : Text) → (code : String) → Metric
  cache_hit : (host : Text) → Metric
  cache_miss : (host : Text) → Metric
  repository_size : (host : Text) → (bytes : ℤ) → Metric
  repository_files : (host : Text) → (files : ℤ) → Metric

pub data Call : Type 0 where
  metric : Metric → Call
  materialize_call : Attributes → GitContentPolicy → (work_dir : Text) → Call
  write_metadata : (root : Text) → Inputs → Call
  mkdir_all : (path : Text) → Call
  remove_all : (path : Text) → Call
  symlink : (old new : Text) → Call
  evict_cache : Call
  copy_content_tree : (source target : Text) → Call
  chmod_read_only : (root : Text) → Call

abbrev pub Trace : Type 0
Trace = List Call

-- The server's configuration and what its calls answer behind a trace.
pub record Environment : Type 0 where
  pub lib : Library
  pub policies : List GitContentPolicy
  pub cache : Config
  pub target_root : Text
  pub sha256_hex : Text → Text
  -- whether `os.Stat` finds a path
  pub exists : Trace → Text → Bool
  -- `Backend.Materialize`, and whether its context's deadline has passed behind it
  pub materialize : Trace → Result Materialized
  pub expired : Trace → Bool
  -- the error of the last call
  pub answer : Trace → Result (Unit {0})

pub record MountResult : Type 0 where
  pub resolved_revision : Text
  pub policy : Text
  pub source_path : Text

-- `strconv.FormatBool`, the format %t.
abbrev pub format_bool : Bool → Text
format_bool b = if b then codes "true" else codes "false"

-- The parts of the cache key.
unfoldable pub key_parts : Attributes → Text → List Text
key_parts attrs profile =
    attrs.repo
    ∷ attrs.revision
    ∷ attrs.path
    ∷ (codes "submodules=" ++ format_bool attrs.submodules)
    ∷ (codes "lfs=" ++ format_bool attrs.lfs)
    ∷ profile
    ∷ []

module _ (env : Environment) where
  unfoldable pub policy_host : Text → Text
  policy_host repo = let h = host_from_repo env.lib repo in if is_nil h then codes "unknown" else h

  -- The link at a target path that has passed `safeTargetPath`.
  unfoldable pub link_at : Text → Text → Trace → Result (Unit {0}) × Trace
  link_at mounted safe_target trace =
      let made = trace ++ mkdir_all (dir safe_target) ∷ [] in
      let linked = made ++ remove_all safe_target ∷ symlink mounted safe_target ∷ [] in
      elim (env.answer made) [ err e ↦ (err e, made) | ok _ ↦ (env.answer linked, linked) ]

  -- `if targetPath != "" { ... }`
  unfoldable pub link_target : Text → Text → Trace → Result (Unit {0}) × Trace
  link_target mounted target_path trace =
      if is_nil target_path
      then (ok tt, trace)
      else elim (safe_target_path env.target_root target_path) [
        | err e ↦ (err e, trace)
        | ok safe_target ↦ link_at mounted safe_target trace
      ]

  module _ (namespace target_path : Text) where
    -- What follows the link.
    unfoldable pub finish :
        GitContentPolicy → Materialized → Result (Unit {0}) × Trace → Result MountResult × Trace
    finish pol mr (err e, trace) = (err e, trace)
    finish pol mr (ok _, trace) = (
      ok (record {
        resolved_revision = mr.resolved_revision;
        policy = pol.name;
        source_path = mr.mounted_path;
      }),
      trace ++ evict_cache ∷ metric (observe_mount namespace pol.name "success") ∷ [],
    )

    unfoldable pub inputs_of : Attributes → Text → GitContentPolicy → Materialized → Inputs
    inputs_of attrs profile pol mr = record {
      repo = attrs.repo;
      requested_rev = attrs.revision;
      resolved_rev = mr.resolved_revision;
      policy = pol.name;
      submodules = attrs.submodules;
      credential_profile = profile;
    }

    -- What follows the backend's success.
    unfoldable pub with_content :
        Attributes → Text → GitContentPolicy → Materialized → Trace → Result MountResult × Trace
    with_content attrs profile pol mr trace =
        let host = policy_host attrs.repo in
        let written =
          trace
          ++ metric (repository_size host mr.size_bytes)
            ∷ metric (repository_files host mr.file_count)
            ∷ write_metadata mr.mounted_path (inputs_of attrs profile pol mr)
            ∷ [] in
        elim (env.answer written) [
          | err e ↦ (err e, written ++ metric (observe_mount namespace pol.name "error") ∷ [])
          | ok _ ↦ finish pol mr (link_target mr.mounted_path target_path written)
        ]

    -- What follows the evaluator's permission.
    unfoldable pub permitted :
        Attributes → Text → GitContentPolicy → Trace → Result MountResult × Trace
    permitted attrs profile pol trace =
        let host = policy_host attrs.repo in
        let cache_path = path_for_key env.cache (key env.sha256_hex (key_parts attrs profile)) in
        let stat = if env.exists trace cache_path then cache_hit host else cache_miss host in
        let called = trace ++ metric stat ∷ materialize_call attrs pol cache_path ∷ [] in
        let failed = called ++ metric (observe_mount namespace pol.name "error") ∷ [] in
        elim (env.materialize called) [
          | err e ↦ (err (if env.expired called then deadline_exceeded else e), failed)
          | ok mr ↦ with_content attrs profile pol mr called
        ]

    -- What follows `volume.Parse`.
    unfoldable pub with_attributes : Result Attributes → Trace → Result MountResult × Trace
    with_attributes (err e) trace = (err (bad_request e), trace)
    with_attributes (ok attrs) trace =
        let (res, pol) = evaluate env.lib env.policies (request_of namespace attrs) attrs.policy in
        if not res.allowed
        then (
          err (forbidden res.denial_reason),
          trace
              ++ metric (observe_mount namespace pol.name "denied")
                ∷ metric (policy_denial namespace pol.name res.denial_reason_code)
                ∷ [],
        )
        else permitted attrs res.resolved_profile pol trace

    unfoldable pub materialize : StringMap → Trace → Result MountResult × Trace
    materialize raw_attrs trace = with_attributes (parse env.lib.url_parse raw_attrs) trace

-- ===== src/NodePlugin/Service/Liveness.antt =====
-- What a permitted request meets where nothing fails.
use gitrepo_csi_driver.Admission.{request_of}
use gitrepo_csi_driver.Base.{
  sym, ap, ◌∙◌, append_assoc, ok_inj, List, if◌then◌else◌, ◌≡◌, refl, true, false, [], ◌∷◌, ◌++◌,
  none, Result, ok, err, is_nil,
}
use gitrepo_csi_driver.Cache.Key.{key, path_for_key}
use gitrepo_csi_driver.Files.{Node, Entries, directory}
use gitrepo_csi_driver.Materializer.Backend.{Materialized}
use gitrepo_csi_driver.Materializer.Copy.Refine.{copy_content_tree-exact}
use gitrepo_csi_driver.Materializer.Copy.Spec.{AllCopyable}
use gitrepo_csi_driver.Materializer.Limits.Laws.{IsListable}
use gitrepo_csi_driver.Metadata.Laws.{write-Perm}
use gitrepo_csi_driver.NodePlugin.Pipeline.{
  Inputs, metric, cache_hit, cache_miss, repository_size, repository_files, materialize_call,
  write_metadata, policy_host, inputs_of, key_parts, remove_all, copy_content_tree, chmod_read_only,
  Trace, Environment, MountResult, materialize, with_attributes, permitted, with_content, finish,
  link_target,
}
use gitrepo_csi_driver.NodePlugin.Pipeline.Laws.{IsPermitted}
use gitrepo_csi_driver.NodePlugin.Publish.Laws.{chmod_read_only-modes}
use gitrepo_csi_driver.NodePlugin.Service.{
  NodePublishVolumeRequest, namespace_of, publish_read_only, published, publish,
  node_publish_volume,
}
use gitrepo_csi_driver.Paths.{is_abs, clean}
use gitrepo_csi_driver.Policy.Evaluate.{evaluate}
use gitrepo_csi_driver.Policy.Types.{GitContentPolicy}
use gitrepo_csi_driver.Text.{Text}
use gitrepo_csi_driver.Volume.{Attributes, StringMap}
use mathlib.Core.List.{Perm}
use gitrepo_csi_driver.Materializer.Copy as Copy
use gitrepo_csi_driver.Metadata as Metadata
use gitrepo_csi_driver.NodePlugin.Publish as Publish

module _ (env : Environment) (mr : Materialized) (target : Text)
    (fetches : (trace : Trace) (attrs : Attributes) (pol : GitContentPolicy) (work_dir : Text)
      → env.materialize (trace ++ materialize_call attrs pol work_dir ∷ []) ≡ ok mr)
    (describes : (trace : Trace) (inputs : Inputs)
      → env.answer (trace ++ write_metadata mr.mounted_path inputs ∷ []) ≡ ok tt)
    (removes : (trace : Trace) → env.answer (trace ++ remove_all target ∷ []) ≡ ok tt)
    (copies : (trace : Trace)
      → env.answer (trace ++ copy_content_tree mr.mounted_path target ∷ []) ≡ ok tt)
    (protects : (trace : Trace) → env.answer (trace ++ chmod_read_only target ∷ []) ≡ ok tt) where
  with_content-ok :
      (namespace : Text) (attrs : Attributes) (profile : Text) (pol : GitContentPolicy)
      (trace : Trace)
      → (with_content env namespace [] attrs profile pol mr trace).0
        ≡ ok (record {
          resolved_revision = mr.resolved_revision;
          policy = pol.name;
          source_path = mr.mounted_path;
        })
  unfolding with_content link_target finish
  with_content-ok namespace attrs profile pol trace =
      let host = policy_host env attrs.repo in
      let sizes : Trace =
        metric (repository_size host mr.size_bytes)
        ∷ metric (repository_files host mr.file_count)
        ∷ [] in
      let inputs = inputs_of env namespace [] attrs profile pol mr in
      let e =
        sym (ap env.answer (append_assoc trace sizes (write_metadata mr.mounted_path inputs ∷ [])))
        ∙ describes (trace ++ sizes) inputs in
      rw (e, with_content) refl

  permitted-ok :
      (namespace : Text) (attrs : Attributes) (profile : Text) (pol : GitContentPolicy)
      (trace : Trace)
      → (permitted env namespace [] attrs profile pol trace).0
        ≡ ok (record {
          resolved_revision = mr.resolved_revision;
          policy = pol.name;
          source_path = mr.mounted_path;
        })
  unfolding permitted
  permitted-ok namespace attrs profile pol trace =
      let host = policy_host env attrs.repo in
      let cache_path = path_for_key env.cache (key env.sha256_hex (key_parts attrs profile)) in
      let stat = if env.exists trace cache_path then cache_hit host else cache_miss host in
      let e =
        sym (
          ap env.materialize
            (append_assoc trace (metric stat ∷ []) (materialize_call attrs pol cache_path ∷ [])))
        ∙ fetches (trace ++ metric stat ∷ []) attrs pol cache_path in
      rw (e, permitted) (with_content-ok namespace attrs profile pol _)

  materialize-ok :
      (namespace : Text) (raw : StringMap) (trace : Trace)
      → IsPermitted env namespace raw
      → (res : MountResult) × ((materialize env namespace [] raw trace).0 ≡ ok res)
        × (res.source_path ≡ mr.mounted_path)
  unfolding materialize with_attributes
  materialize-ok namespace raw trace h =
      let pol = (evaluate env.lib env.policies (request_of namespace h.attrs) h.attrs.policy).1 in
      (
        record {
          resolved_revision = mr.resolved_revision;
          policy = pol.name;
          source_path = mr.mounted_path;
        },
        rw (h.parsed, h.allowed, with_attributes) (permitted-ok namespace h.attrs _ pol trace),
        refl,
      )

  publish_read_only-ok :
      (trace : Trace) → (publish_read_only env mr.mounted_path target trace).0 ≡ ok tt
  unfolding publish_read_only
  publish_read_only-ok trace =
      let removed = trace ++ remove_all target ∷ [] in
      let copied = removed ++ copy_content_tree mr.mounted_path target ∷ [] in
      rw (removes trace, copies removed, publish_read_only) (protects copied)

  published-ok : (r : Result (Unit {0}) × Trace) → r.0 ≡ ok tt → (published env r).0 ≡ none
  unfolding published
  published-ok (err e, trace) h = cc
  published-ok (ok u, trace) h = refl

  publish-none :
      (r : Result MountResult × Trace) (res : MountResult)
      → r.0 ≡ ok res
      → res.source_path ≡ mr.mounted_path
      → (publish env target r).0 ≡ none
  unfolding publish
  publish-none (err e, trace) res h p = cc
  publish-none (ok x, trace) res h p =
      let q = ap (λ (y : MountResult). y.source_path) (ok_inj h) ∙ p in
      rw q (
        published-ok (publish_read_only env mr.mounted_path target trace)
          (publish_read_only-ok trace))

  publishes :
      (req : NodePublishVolumeRequest) (trace : Trace)
      → req.target_path ≡ target
      → is_nil req.volume_id ≡ false
      → is_nil target ≡ false
      → req.mount_capability ≡ true
      → req.readonly ≡ true
      → IsPermitted env (namespace_of req.volume_context) req.volume_context
      → (node_publish_volume env req trace).0 ≡ none
  unfolding node_publish_volume
  publishes req trace g v t c r h =
      let (res, m, p) =
        materialize-ok (namespace_of req.volume_context) req.volume_context trace h in
      rw (v, g, t, c, r, node_publish_volume) (publish-none _ res m p)

-- A well-formed request for a read-only volume that the policies permit is answered without an error, if
-- the backend returns a content directory that is readable and whose links outside ".git" are relative and
-- stay inside it, nothing in what then stands at the target path is unreadable, and no removal, write or
-- change of a mode fails. What `metadata.Write`, `CopyContentTree` and `chmodReadOnly` answer is what
-- their own code does with that.
pub node_publish_volume-none :
    (env : Environment) (mr : Materialized) (es : Entries) (published : Node)
    (write_answer : Copy.Log → Result (Unit {0}))
    (chmod_answer : Publish.Changes → Result (Unit {0}))
    (meta_answer : List Metadata.Call → Result (Unit {0}))
    (order : Metadata.Fields → Metadata.Fields) (now : Text) (req : NodePublishVolumeRequest)
    (trace : Trace)
    → ((at : Trace) (attrs : Attributes) (pol : GitContentPolicy) (work_dir : Text)
        → env.materialize (at ++ materialize_call attrs pol work_dir ∷ []) ≡ ok mr)
    → ((at : Trace) (inputs : Inputs)
        → env.answer (at ++ write_metadata mr.mounted_path inputs ∷ [])
          ≡ (Metadata.write meta_answer order mr.mounted_path inputs now []).0)
    → ((at : Trace) → env.answer (at ++ remove_all req.target_path ∷ []) ≡ ok tt)
    → ((at : Trace)
        → env.answer (at ++ copy_content_tree mr.mounted_path req.target_path ∷ [])
          ≡ (Copy.copy_content_tree write_answer mr.mounted_path req.target_path
              (ok (directory es))
              []).0)
    → ((at : Trace)
        → env.answer (at ++ chmod_read_only req.target_path ∷ [])
          ≡ (Publish.chmod_read_only chmod_answer req.target_path (ok published) []).0)
    → ((log : Copy.Log) → write_answer log ≡ ok tt)
    → ((log : Publish.Changes) → chmod_answer log ≡ ok tt)
    → ((log : List Metadata.Call) → meta_answer log ≡ ok tt)
    → ((fs : Metadata.Fields) → Perm (order fs) fs)
    → AllCopyable (clean mr.mounted_path) [] es
    → IsListable published
    → is_abs mr.mounted_path ≡ true
    → is_abs req.target_path ≡ true
    → is_nil req.volume_id ≡ false
    → is_nil req.target_path ≡ false
    → req.mount_capability ≡ true
    → req.readonly ≡ true
    → IsPermitted env (namespace_of req.volume_context) req.volume_context
    → (node_publish_volume env req trace).0 ≡ none
node_publish_volume-none env mr es published write_answer chmod_answer meta_answer order now req
      trace fetches describes removes copies protects writes modes metas permutes copyable listable
      s d =
    publishes env mr req.target_path fetches
      (λ at inputs.
        describes at inputs
        ∙ (write-Perm meta_answer order mr.mounted_path inputs now metas permutes).0)
      removes
      (λ at.
        copies at
        ∙ ap (λ r. r.0)
            (copy_content_tree-exact write_answer mr.mounted_path req.target_path es writes s d
              copyable))
      (λ at.
        protects at
        ∙ ap (λ r. r.0)
            (chmod_read_only-modes chmod_answer req.target_path published modes listable).0)
      req trace refl

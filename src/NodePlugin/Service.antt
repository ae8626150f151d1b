-- ===== src/NodePlugin/Service.antt =====
-- `NodePublishVolume` and `NodeUnpublishVolume` of cmd/nodeplugin/main.go, with publish.go.
pub mod Laws
pub mod Agreement
pub mod Liveness
use gitrepo_csi_driver.Base.{
  Bool, true, false, not, List, [], ◌∷◌, ◌++◌, Option, none, some, Result, ok, err, Error, errorf,
  wrapf, bytes, if◌then◌else◌, is_nil, String,
}
use gitrepo_csi_driver.Text.{Text, codes, has_prefix, trim_prefix}
use gitrepo_csi_driver.Volume.{StringMap, get}
use gitrepo_csi_driver.NodePlugin.Errors.{Code, invalid_argument, internal, Status, csi_error}
use gitrepo_csi_driver.NodePlugin.Pipeline.{
  Trace, Call, remove_all, copy_content_tree, chmod_read_only, Environment, MountResult,
  materialize,
}

-- The fields that the handler reads; whether the capability is that of a mount.
pub record NodePublishVolumeRequest : Type 0 where
  pub volume_id : Text
  pub target_path : Text
  pub mount_capability : Bool
  pub readonly : Bool
  pub volume_context : StringMap

abbrev pub namespace_key : Text
namespace_key = codes "csi.storage.k8s.io/pod.namespace"

-- `namespace`, or "default" where the context has none.
unfoldable pub namespace_of : StringMap → Text
namespace_of context =
    let namespace = get context namespace_key in
    if is_nil namespace then codes "default" else namespace

-- `status.Error(codes.InvalidArgument, ...)`; no error is `none`.
abbrev invalid : String → Option Status
invalid message = some (record { code = invalid_argument; message = errorf message [] })

abbrev failed : String → Error → Option Status
failed message e = some (record { code = internal; message = wrapf message e })

-- `parseEndpoint`: the network and the address.
unfoldable pub parse_endpoint : Text → Result (Text × Text)
parse_endpoint endpoint =
    if has_prefix endpoint (codes "unix://")
    then ok (codes "unix", trim_prefix endpoint (codes "unix://"))
    else if has_prefix endpoint (codes "tcp://")
    then ok (codes "tcp", trim_prefix endpoint (codes "tcp://"))
    else err (errorf "unsupported CSI endpoint %q" (bytes endpoint ∷ []))

module _ (env : Environment) where
  -- `publishReadOnly`
  unfoldable pub publish_read_only : Text → Text → Trace → Result (Unit {0}) × Trace
  publish_read_only source target trace =
      let removed = trace ++ remove_all target ∷ [] in
      let copied = removed ++ copy_content_tree source target ∷ [] in
      let protected = copied ++ chmod_read_only target ∷ [] in
      elim (env.answer removed) [
        | err e ↦ (err e, removed)
        | ok _ ↦ elim (env.answer copied) [
          | err e ↦ (err e, copied)
          | ok _ ↦ (env.answer protected, protected)
        ]
      ]

  -- The answer to the outcome of `publishReadOnly`.
  unfoldable pub published : Result (Unit {0}) × Trace → Option Status × Trace
  published (err e, trace) = (failed "publish readonly bind mount: %v" e, trace)
  published (ok _, trace) = (none, trace)

  -- What follows `materialize`.
  unfoldable pub publish : Text → Result MountResult × Trace → Option Status × Trace
  publish target (err e, trace) = (some (csi_error e), trace)
  publish target (ok res, trace) = published (publish_read_only res.source_path target trace)

  unfoldable pub node_publish_volume : NodePublishVolumeRequest → Trace → Option Status × Trace
  node_publish_volume req trace =
      if is_nil req.volume_id
      then (invalid "volume_id is required", trace)
      else if is_nil req.target_path
      then (invalid "target_path is required", trace)
      else if not req.mount_capability
      then (invalid "only mount volume capability is supported", trace)
      else if not req.readonly
      then (invalid "git content volumes must be readonly", trace)
      else publish req.target_path
          (materialize env (namespace_of req.volume_context) [] req.volume_context trace)

  unfoldable pub node_unpublish_volume : Text → Trace → Option Status × Trace
  node_unpublish_volume target trace =
      if is_nil target
      then (invalid "target_path is required", trace)
      else elim (env.answer (trace ++ remove_all target ∷ [])) [
        | err e ↦ (failed "unpublish volume: %v" e, trace ++ remove_all target ∷ [])
        | ok _ ↦ (none, trace ++ remove_all target ∷ [])
      ]

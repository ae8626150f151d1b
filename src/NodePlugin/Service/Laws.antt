-- ===== src/NodePlugin/Service/Laws.antt =====
-- What the CSI call publishes, and what it leaves alone.
use gitrepo_csi_driver.Base.{
  ◌≡◌, inl, inr, refl, true, false, [], ◌∷◌, ◌++◌, none, Result, ok, err, is_nil, arith,
  Result-cases,
}
use gitrepo_csi_driver.Text.{Text}
use gitrepo_csi_driver.NodePlugin.Pipeline.{
  remove_all, copy_content_tree, chmod_read_only, Trace, Environment, MountResult, materialize,
}
use gitrepo_csi_driver.NodePlugin.Pipeline.Laws.{IsPermitted}
use gitrepo_csi_driver.NodePlugin.Pipeline.Refusal.{materialize-IsPermitted}
use gitrepo_csi_driver.NodePlugin.Service.{
  NodePublishVolumeRequest, namespace_of, publish_read_only, published, publish,
  node_publish_volume,
}

-- The three calls that publish content at a target path, and none of which failed, are between the traces.
pub record IsPublished (env : Environment) (source target : Text) (before after : Trace)
    : Type 0 where
  pub removed : env.answer (before ++ remove_all target ∷ []) ≡ ok tt
  pub copied :
      env.answer ((before ++ remove_all target ∷ []) ++ copy_content_tree source target ∷ [])
      ≡ ok tt
  pub calls :
      after
      ≡ ((before ++ remove_all target ∷ []) ++ copy_content_tree source target ∷ [])
        ++ chmod_read_only target ∷ []
  pub protected : env.answer after ≡ ok tt

module _ (env : Environment) where
  publish_read_only-IsPublished :
      (source target : Text) (trace : Trace)
      → (publish_read_only env source target trace).0 ≡ ok tt
      → IsPublished env source target trace (publish_read_only env source target trace).1
  unfolding publish_read_only
  publish_read_only-IsPublished source target trace h =
      let removed = trace ++ remove_all target ∷ [] in
      let copied = removed ++ copy_content_tree source target ∷ [] in
      elim (Result-cases (env.answer removed)) [
        | inl (e, k) ↦ let l : err e ≡ ok tt = rw (k, publish_read_only) at h in cc
        | inr (u, k) ↦ elim (Result-cases (env.answer copied)) [
          | inl (e, l) ↦ let l2 : err e ≡ ok tt = rw (k, l, publish_read_only) at h in cc
          | inr (v, l) ↦
              rw (k, l, publish_read_only)
                (record {
                  removed = k;
                  copied = l;
                  calls = refl;
                  protected = rw (k, l, publish_read_only) at h;
                })
        ]
      ]

  published-none :
      (r : Result (Unit {0}) × Trace)
      → (published env r).0 ≡ none
      → (r.0 ≡ ok tt) × ((published env r).1 ≡ r.1)
  unfolding published
  published-none (err e, trace) h = cc
  published-none (ok u, trace) h = (refl, refl)

  publish-IsPublished :
      (target : Text) (r : Result MountResult × Trace)
      → (publish env target r).0 ≡ none
      → (res : MountResult) × (r.0 ≡ ok res)
        × IsPublished env res.source_path target r.1 (publish env target r).1
  unfolding publish
  publish-IsPublished target (err e, trace) h = cc
  publish-IsPublished target (ok res, trace) h =
      let (k, l) = published-none (publish_read_only env res.source_path target trace) h in
      (res, refl, rw l (publish_read_only-IsPublished res.source_path target trace k))

  accepted :
      (req : NodePublishVolumeRequest) (trace : Trace)
      → (node_publish_volume env req trace).0 ≡ none
      → (is_nil req.volume_id ≡ false)
        × (is_nil req.target_path ≡ false)
        × (req.mount_capability ≡ true)
        × (req.readonly ≡ true)
  unfolding node_publish_volume
  accepted req trace h = (ground arith, ground arith, ground arith, ground arith)

  -- A call of `NodePublishVolume` that succeeds was read-only and permitted, for the namespace in its
  -- context; `materialize` returned a result, and the call ended by emptying the target path, copying the
  -- result's content to it and taking the write permissions off it, none of which failed.
  pub node_publish_volume-IsPublished :
      (req : NodePublishVolumeRequest) (trace : Trace)
      → (node_publish_volume env req trace).0 ≡ none
      → (req.readonly ≡ true)
        × (req.mount_capability ≡ true)
        × IsPermitted env (namespace_of req.volume_context) req.volume_context
        × (res : MountResult) × ((materialize env
              (namespace_of req.volume_context)
              []
              req.volume_context
              trace).0
            ≡ ok res)
        × IsPublished env res.source_path req.target_path
            (materialize env (namespace_of req.volume_context) [] req.volume_context trace).1
            (node_publish_volume env req trace).1
  unfolding node_publish_volume
  node_publish_volume-IsPublished req trace h =
      let ns = namespace_of req.volume_context in
      let m = materialize env ns [] req.volume_context trace in
      let (v, t, c, r) = accepted req trace h in
      let (res, k, p) = publish-IsPublished req.target_path m (rw (v, t, c, r) at h) in
      (
        r,
        c,
        materialize-IsPermitted env ns [] req.volume_context trace k,
        res,
        k,
        rw (v, t, c, r, node_publish_volume) p,
      )

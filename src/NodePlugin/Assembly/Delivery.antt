-- ===== src/NodePlugin/Assembly/Delivery.antt =====
-- What a pod finds at its target path, from the request to the files.
use gitrepo_csi_driver.Admission.{request_of}
use gitrepo_csi_driver.Base.{
  refl, ok_inj, ◌≡◌, sym, ap, ◌∙◌, true, [], ◌∷◌, ◌++◌, none, ok, All, >>=-eq-ok,
}
use gitrepo_csi_driver.Cache.Key.{new_manager, path_for_key}
use gitrepo_csi_driver.Files.{Node}
use gitrepo_csi_driver.Materializer.Backend.{Materialized}
use gitrepo_csi_driver.Materializer.Copy.Outcome.{IsCopied}
use gitrepo_csi_driver.Materializer.Copy.Safe.{SafeWrite, copy_content_tree-SafeWrite}
use gitrepo_csi_driver.Materializer.Copy.Success.{IsNamed}
use gitrepo_csi_driver.NodePlugin.Assembly.{World, run_copy, run_chmod, assemble}
use gitrepo_csi_driver.NodePlugin.Assembly.Answers.{
  IsDescribed, run_metadata-IsDescribed, answer_to-metadata, copy_log, chmod_log, run_copy-IsCopied,
  run_chmod-IsProtected, answer_to-copy, answer_to-chmod, deliver-call,
}
use gitrepo_csi_driver.NodePlugin.Assembly.Run.{
  evaluate-IsBounded, IsRun, run_backend-IsRun, IsRun-mounted,
}
use gitrepo_csi_driver.NodePlugin.Pipeline.{
  Call, materialize, inputs_of, write_metadata, remove_all, copy_content_tree, chmod_read_only,
  materialize_call, Trace, MountResult,
}
use gitrepo_csi_driver.NodePlugin.Pipeline.Fetch.{work_dir_of, materialize-IsFetched}
use gitrepo_csi_driver.NodePlugin.Pipeline.Laws.{IsPermitted}
use gitrepo_csi_driver.NodePlugin.Publish.Outcome.{IsProtected}
use gitrepo_csi_driver.NodePlugin.Service.{
  NodePublishVolumeRequest, namespace_of, node_publish_volume,
}
use gitrepo_csi_driver.NodePlugin.Service.Laws.{node_publish_volume-IsPublished}
use gitrepo_csi_driver.NodePlugin.Start.{
  get_env, new_materializer, cache_config, Outside, Settings, start,
}
use gitrepo_csi_driver.Paths.{is_abs, clean}
use gitrepo_csi_driver.Paths.Dir.{join_path-is_abs}
use gitrepo_csi_driver.Policy.Defaults.{load_policies}
use gitrepo_csi_driver.Policy.Defaults.Laws.{IsBounded, load_policies-IsBounded}
use gitrepo_csi_driver.Policy.Evaluate.{evaluate}
use gitrepo_csi_driver.Policy.Types.{Verdict, GitContentPolicy}
use gitrepo_csi_driver.Text.{Text, codes}
use gitrepo_csi_driver.Volume.{Attributes}
use gitrepo_csi_driver.Volume.Laws.{parse-IsValid}
use mathlib.Core.Path.{subst}

module _ (w : World) where
  module _ (s : Settings) where
    abbrev verdict_of : (ns : Text) → Attributes → Verdict × GitContentPolicy
    verdict_of ns attrs = evaluate w.lib s.policies (request_of ns attrs) attrs.policy

    -- What happens between two traces to the content of a request's volume, in this order: permitted, fetched by the backend, described by the metadata, and
    -- copied from where the backend laid it out to the target path, which nobody may write to behind that.
    pub record IsDelivered (req : NodePublishVolumeRequest) (trace after : Trace) : Type 0 where
      pub permission :
          IsPermitted (assemble w s) (namespace_of req.volume_context) req.volume_context
      pub content : Materialized
      pub fetching : Trace
      pub seen : Call
      pub fetch_call :
          let attrs = permission.attrs in
          let (verdict, pol) = verdict_of (namespace_of req.volume_context) attrs in
          fetching
          ≡ (trace ++ seen ∷ [])
            ++ materialize_call attrs pol (
                work_dir_of
                  (assemble w s)
                  (namespace_of req.volume_context)
                  []
                  attrs
                  verdict.resolved_profile)
              ∷ []
      pub run :
          let attrs = permission.attrs in
          let (verdict, pol) = verdict_of (namespace_of req.volume_context) attrs in
          IsRun w s.backend fetching attrs pol
            (work_dir_of
              (assemble w s)
              (namespace_of req.volume_context)
              []
              attrs
              verdict.resolved_profile)
            content
      pub describing : Trace
      pub sizes : Trace
      pub describe_call :
          let attrs = permission.attrs in
          let (verdict, pol) = verdict_of (namespace_of req.volume_context) attrs in
          describing
          ≡ (fetching ++ sizes)
            ++ write_metadata content.mounted_path (
                inputs_of
                  (assemble w s)
                  (namespace_of req.volume_context)
                  []
                  attrs
                  verdict.resolved_profile
                  pol
                  content)
              ∷ []
      pub metadata :
          let attrs = permission.attrs in
          let (verdict, pol) = verdict_of (namespace_of req.volume_context) attrs in
          IsDescribed w describing content.mounted_path (
            inputs_of
              (assemble w s)
              (namespace_of req.volume_context)
              []
              attrs
              verdict.resolved_profile
              pol
              content)
      pub before : Trace
      pub rest : Trace
      pub fetched : before ≡ describing ++ rest
      pub copying : Trace
      pub last_calls :
          copying
          ≡ (before ++ remove_all req.target_path ∷ [])
            ++ copy_content_tree content.mounted_path req.target_path ∷ []
      pub tree : Node
      pub source : w.node_at copying content.mounted_path ≡ ok tree
      pub copied :
          IsCopied
            (clean content.mounted_path)
            (clean req.target_path)
            tree
            (copy_log w copying content.mounted_path req.target_path)
      pub writes :
          All
            (SafeWrite (clean content.mounted_path) (clean req.target_path))
            (copy_log w copying content.mounted_path req.target_path)
      pub ended : after ≡ copying ++ chmod_read_only req.target_path ∷ []
      pub published : Node
      pub target : w.node_at after req.target_path ≡ ok published
      pub protected : IsProtected req.target_path published (chmod_log w after req.target_path)

    publish-IsDelivered :
        (req : NodePublishVolumeRequest) (trace : Trace)
        → ((at : Trace) (path : Text) (node : Node) → w.node_at at path ≡ ok node → IsNamed node)
        → All IsBounded s.policies
        → is_abs s.cache.root_dir ≡ true
        → is_abs req.target_path ≡ true
        → (node_publish_volume (assemble w s) req trace).0 ≡ none
        → IsDelivered req trace (node_publish_volume (assemble w s) req trace).1
    unfolding assemble work_dir_of path_for_key
    publish-IsDelivered req trace names b c t h =
        let env = assemble w s in
        let ns = namespace_of req.volume_context in
        let (_, _, _, res, m, p) = node_publish_volume-IsPublished env req trace h in
        let f = materialize-IsFetched env ns [] req.volume_context trace res m in
        let attrs = f.permission.attrs in
        let v = parse-IsValid w.lib.url_parse req.volume_context attrs f.permission.parsed in
        let (verdict, pol) = verdict_of ns attrs in
        let work_dir = work_dir_of env ns [] attrs verdict.resolved_profile in
        let fetching = f.before ++ materialize_call attrs pol work_dir ∷ [] in
        let work_abs = join_path-is_abs s.cache.root_dir _ c in
        let run =
          run_backend-IsRun w s.backend fetching attrs pol work_dir f.content v.revision v.depth
            (evaluate-IsBounded w.lib s.policies (request_of ns attrs) attrs.policy b
              f.permission.allowed)
            work_abs (sym (deliver-call w s.backend attrs pol work_dir f.before) ∙ f.delivered) in
        let m_abs =
          ap is_abs (IsRun-mounted w s.backend fetching attrs pol work_dir f.content run)
          ∙ join_path-is_abs work_dir (codes "content") work_abs in
        let removed =
          (materialize env ns [] req.volume_context trace).1 ++ remove_all req.target_path ∷ [] in
        let path = ap (λ (r : MountResult). r.source_path) (sym f.result) in
        let copying = removed ++ copy_content_tree f.content.mounted_path req.target_path ∷ [] in
        let done =
          subst
            (λ source.
              run_copy w (removed ++ copy_content_tree source req.target_path ∷ []) source
                req.target_path
              ≡ ok tt)
            path (sym (answer_to-copy w res.source_path req.target_path removed) ∙ p.copied) in
        let (tree, stands, exact) =
          run_copy-IsCopied w copying f.content.mounted_path req.target_path names m_abs t done in
        let (published, there, protected) = run_chmod-IsProtected w _ req.target_path (
          subst (λ later. run_chmod w later req.target_path ≡ ok tt) (sym p.calls)
            (sym (answer_to-chmod w req.target_path _)
              ∙ subst (λ later. env.answer later ≡ ok tt) p.calls p.protected)) in
        let inputs = inputs_of env ns [] attrs verdict.resolved_profile pol f.content in
        let describing = f.behind ++ write_metadata f.content.mounted_path inputs ∷ [] in
        let ends : Text → Trace = λ source.
          (removed ++ copy_content_tree source req.target_path ∷ [])
          ++ chmod_read_only req.target_path ∷ [] in
        record {
          permission = f.permission;
          content = f.content;
          fetching = fetching;
          seen = f.seen;
          fetch_call = ap (λ t. t ++ materialize_call attrs pol work_dir ∷ []) f.begun;
          run = run;
          describing = describing;
          sizes = f.sizes;
          describe_call =
              ap (λ t. t ++ write_metadata f.content.mounted_path inputs ∷ []) f.fetched;
          rest = f.rest;
          fetched = f.ended;
          metadata =
              run_metadata-IsDescribed w describing f.content.mounted_path inputs
                (sym (answer_to-metadata w f.content.mounted_path inputs f.behind) ∙ f.described);
          before = (materialize env ns [] req.volume_context trace).1;
          copying = copying;
          last_calls = refl;
          tree = tree;
          source = stands;
          copied = exact;
          writes =
              copy_content_tree-SafeWrite (w.write_answer copying) f.content.mounted_path
                req.target_path (w.node_at copying f.content.mounted_path) m_abs t;
          ended = p.calls ∙ ap ends path;
          published = published;
          target = there;
          protected = protected;
        }

-- The policies of a started plugin are those of the file that its environment names.
pub start-policies :
    (outside : Outside) (s : Settings)
    → start outside ≡ ok s
    → load_policies outside.read_file outside.unmarshal
        (get_env outside.getenv "GITCONTENT_POLICY_FILE" (codes "./examples/policies.yaml"))
      ≡ ok s.policies
unfolding start
start-policies outside s h =
    let (policies, l, h1) = >>=-eq-ok (load_policies outside.read_file outside.unmarshal _) _ h in
    let (cache, _, h2) = >>=-eq-ok (new_manager outside.mkdir_all (cache_config outside)) _ h1 in
    let (backend, _, h3) = >>=-eq-ok (new_materializer outside _) _ h2 in
    l ∙ ap (λ (s : Settings). ok s.policies) (ok_inj h3)

start-IsBounded :
    (outside : Outside) (s : Settings) → start outside ≡ ok s → All IsBounded s.policies
start-IsBounded outside s h =
    load_policies-IsBounded outside.read_file outside.unmarshal _ s.policies
      (start-policies outside s h)

-- In a plugin that `main` starts, with an absolute cache directory and files whose names are names, a
-- call of `NodePublishVolume` for an absolute target path that succeeds was permitted; the backend that
-- the configuration names fetched the content in the request's cache directory, with safe calls only and
-- within the limits of the policy that permits the request; behind that the files of the metadata were
-- written; behind that the target path was removed, and exactly the tree that then stood at the content's
-- path was copied there, without ".git", with read-only files and with relative links that lead, from their
-- places in the content and by the names alone, to the content or below it; and last, every directory and
-- regular file of what stands at the target path then was given a mode with which nobody may write.
pub node_publish_volume-IsDelivered :
    (outside : Outside) (w : World) (s : Settings) (req : NodePublishVolumeRequest) (trace : Trace)
    → start outside ≡ ok s
    → ((at : Trace) (path : Text) (node : Node) → w.node_at at path ≡ ok node → IsNamed node)
    → is_abs s.cache.root_dir ≡ true
    → is_abs req.target_path ≡ true
    → (node_publish_volume (assemble w s) req trace).0 ≡ none
    → IsDelivered w s req trace (node_publish_volume (assemble w s) req trace).1
node_publish_volume-IsDelivered outside w s req trace e names =
    publish-IsDelivered w s req trace names (start-IsBounded outside s e)

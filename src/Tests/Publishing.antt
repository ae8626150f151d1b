-- ===== src/Tests/Publishing.antt =====
-- Requests that are refused or published, and cache keys.
use gitrepo_csi_driver.Base.{
  sym, ap, ◌≢◌, ◌≡◌, ◌⊎◌, refl, true, List, [], ◌∷◌, ◌++◌, ok, some, none, All,
}
use gitrepo_csi_driver.Cache.Key.{key_input, key}
use gitrepo_csi_driver.Cache.Key.Laws.{split-key_input}
use gitrepo_csi_driver.Materializer.Backend.{Materialized, public_dir_perm}
use gitrepo_csi_driver.Materializer.Copy.{make_dir, copy_content_tree}
use gitrepo_csi_driver.Materializer.Copy.Refine.{copy_content_tree-exact}
use gitrepo_csi_driver.Materializer.Copy.Spec.{entry_writes}
use gitrepo_csi_driver.Metadata.Laws.{write-Perm}
use gitrepo_csi_driver.NodePlugin.Http.{MountRequest, handle_mount}
use gitrepo_csi_driver.NodePlugin.Http.Laws.{handle_mount-refusal}
use gitrepo_csi_driver.NodePlugin.Pipeline.{Environment, key_parts}
use gitrepo_csi_driver.NodePlugin.Pipeline.CacheKey.{
  SameContent, key-SameContent, Lacks-by_test, HasOneLine,
}
use gitrepo_csi_driver.NodePlugin.Pipeline.Laws.{IsPermitted, Grows}
use gitrepo_csi_driver.NodePlugin.Pipeline.Refusal.{IsMetric}
use gitrepo_csi_driver.NodePlugin.Publish.Laws.{chmod_read_only-modes}
use gitrepo_csi_driver.NodePlugin.Service.{node_publish_volume, namespace_of}
use gitrepo_csi_driver.NodePlugin.Service.Agreement.{check_volumes-IsPermitted}
use gitrepo_csi_driver.NodePlugin.Service.Liveness.{node_publish_volume-none}
use gitrepo_csi_driver.Paths.{is_abs, clean}
use gitrepo_csi_driver.Tests.Access.{source, foreign, pod_allowed}
use gitrepo_csi_driver.Tests.Backends.{attrs}
use gitrepo_csi_driver.Tests.Content.{
  src, src_abs, source_copyable, tree, tree_entries, tree-IsListable,
}
use gitrepo_csi_driver.Tests.Node.{
  environment, delivered, publish_request, kubelet_keys, nothing-IsPermitted, namespace_given,
  kubelet_key,
}
use gitrepo_csi_driver.Tests.Target.{pod_mount}
use gitrepo_csi_driver.Tests.Volume.{volume}
use gitrepo_csi_driver.Text.{Text, codes, same, split}
use gitrepo_csi_driver.Text.Split.{Lacks}
use gitrepo_csi_driver.Volume.{Attributes}
use mathlib.Core.List.Perm

abbrev empty_request : MountRequest
empty_request = record {
  namespace = codes "payments";
  target_path = pod_mount;
  volume_attributes = [];
}

handle_mount-refusal_example :
    (((handle_mount environment (codes "POST") (ok empty_request) []).0.status ≡ 400)
      ⊎ ((handle_mount environment (codes "POST") (ok empty_request) []).0.status ≡ 403))
    × Grows IsMetric [] (handle_mount environment (codes "POST") (ok empty_request) []).1
unfolding same
handle_mount-refusal_example =
    (handle_mount-refusal environment (codes "POST") (ok empty_request) []).2 refl empty_request
      refl nothing-IsPermitted

request-IsPermitted :
    IsPermitted environment (namespace_of (volume ++ kubelet_keys)) (volume ++ kubelet_keys)
request-IsPermitted =
    check_volumes-IsPermitted environment (codes "uid") (codes "payments")
      (none ∷ some foreign ∷ []) [] source kubelet_keys pod_allowed refl (kubelet_key, tt)
      namespace_given

-- The backend's content directory is the tree of the other tests.
abbrev content : Materialized
content = record delivered { mounted_path = src }

abbrev served : Environment
served = record environment { materialize = λ trace. ok content }

served-IsPermitted :
    IsPermitted served (namespace_of (volume ++ kubelet_keys)) (volume ++ kubelet_keys)
served-IsPermitted = record {
  attrs = request-IsPermitted.attrs;
  parsed = request-IsPermitted.parsed;
  allowed = request-IsPermitted.allowed;
}

mount_abs : is_abs pod_mount ≡ true
unfolding is_abs
mount_abs = refl

copies_tree : copy_content_tree (λ log. ok tt) src pod_mount (ok tree) [] ≡ (
  ok tt,
  make_dir (clean pod_mount) public_dir_perm ∷ entry_writes (clean pod_mount) [] tree_entries,
)
copies_tree =
    copy_content_tree-exact (λ log. ok tt) src pod_mount tree_entries (λ log. refl) src_abs
      mount_abs source_copyable

node_publish_volume-none_example : (node_publish_volume served publish_request []).0 ≡ none
node_publish_volume-none_example =
    node_publish_volume-none served content tree_entries tree (λ log. ok tt) (λ log. ok tt)
      (λ log. ok tt) (λ fs. fs) [] publish_request [] (λ at attrs pol work_dir. refl)
      (λ at inputs.
        sym
          (write-Perm (λ log. ok tt) (λ fs. fs) src inputs [] (λ log. refl) (λ fs. Perm.refl fs)).0)
      (λ at. refl) (λ at. sym (ap (λ r. r.0) copies_tree))
      (λ at. sym (
        ap (λ r. r.0)
          (chmod_read_only-modes (λ log. ok tt) pod_mount tree (λ log. refl) tree-IsListable).0))
      (λ log. refl) (λ log. refl) (λ log. refl) (λ fs. Perm.refl fs) source_copyable tree-IsListable
      src_abs mount_abs refl refl refl refl served-IsPermitted

abbrev lines : List Text
lines = codes "https://github.com/org/repo" ∷ codes "main" ∷ []

lines-Lacks : All (Lacks b'\n') lines
lines-Lacks = (
  Lacks-by_test (codes "https://github.com/org/repo") refl,
  (Lacks-by_test (codes "main") refl, tt),
)

split-key_input_example : split (key_input lines) b'\n' ≡ lines ++ [] ∷ []
split-key_input_example = split-key_input lines lines-Lacks

attrs-HasOneLine : HasOneLine attrs []
attrs-HasOneLine = (
  Lacks-by_test (codes "https://github.com/org/repo") refl,
  Lacks-by_test (codes "main") refl,
  tt,
  tt,
)

-- The same branch name asked for as a tag: the revision kind is no part of the key.
abbrev as_tag : Attributes
as_tag = record attrs { revision_kind = codes "tag" }

same_key : key (λ text. text) (key_parts attrs []) ≡ key (λ text. text) (key_parts as_tag [])
unfolding key_parts
same_key = refl

-- The text itself stands in for its hash.
key-SameContent_example :
    SameContent attrs as_tag [] []
    ⊎ ((key_input (key_parts attrs []) ≢ key_input (key_parts as_tag []))
        × (key_input (key_parts attrs []) ≡ key_input (key_parts as_tag [])))
key-SameContent_example =
    key-SameContent (λ text. text) attrs as_tag [] [] attrs-HasOneLine attrs-HasOneLine same_key

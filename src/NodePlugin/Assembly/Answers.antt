-- ===== src/NodePlugin/Assembly/Answers.antt =====
-- What the assembled plugin's own functions answer to the last call of a trace.
use gitrepo_csi_driver.Base.{
  List, map, inl, inr, Result-cases, err, refl, ◌≡◌, sym, true, [], ◌∷◌, ◌++◌, some, ok,
}
use gitrepo_csi_driver.Files.{Node}
use gitrepo_csi_driver.Materializer.Copy.Outcome.{IsCopied, copy_content_tree-IsCopied}
use gitrepo_csi_driver.Materializer.Copy.Success.{IsNamed}
use gitrepo_csi_driver.Metadata.{made_all, meta_dir, file_of, fields}
use gitrepo_csi_driver.Metadata.Outcome.{write_done}
use gitrepo_csi_driver.NodePlugin.Assembly.{
  run_metadata, World, last, run_backend, run_copy, run_chmod, answer_to, deliver,
}
use gitrepo_csi_driver.NodePlugin.Pipeline.{
  Inputs, write_metadata, Call, copy_content_tree, chmod_read_only, materialize_call, Trace,
}
use gitrepo_csi_driver.NodePlugin.Publish.Outcome.{IsProtected, chmod_read_only-IsProtected}
use gitrepo_csi_driver.NodePlugin.Start.{Backend}
use gitrepo_csi_driver.Paths.{is_abs, clean}
use gitrepo_csi_driver.Policy.Types.{GitContentPolicy}
use gitrepo_csi_driver.Text.{Text}
use gitrepo_csi_driver.Volume.{Attributes}
use mathlib.Core.Path.{subst}
use gitrepo_csi_driver.Metadata as Metadata
use gitrepo_csi_driver.NodePlugin.Publish as Publish
use gitrepo_csi_driver.Materializer.Copy as Copy

last-append : (trace : Trace) (c : Call) → last (trace ++ c ∷ []) ≡ some c
unfolding last
last-append [] c = refl
last-append (d ∷ []) c = refl
last-append (d ∷ e ∷ trace) c = last-append (e ∷ trace) c

module _ (w : World) where
  -- What the copy behind a trace writes.
  abbrev pub copy_log : Trace → Text → Text → Copy.Log
  copy_log at source target =
      (Copy.copy_content_tree (w.write_answer at) source target (w.node_at at source) []).1

  pub run_copy-IsCopied :
      (at : Trace) (source target : Text)
      → ((at : Trace) (path : Text) (node : Node) → w.node_at at path ≡ ok node → IsNamed node)
      → is_abs source ≡ true
      → is_abs target ≡ true
      → run_copy w at source target ≡ ok tt
      → (tree : Node) × (w.node_at at source ≡ ok tree)
        × IsCopied (clean source) (clean target) tree (copy_log at source target)
  unfolding run_copy Copy.copy_content_tree
  run_copy-IsCopied at source target names s d h = elim (Result-cases (w.node_at at source)) [
    | inl (e, k) ↦ let l : err e ≡ ok tt = rw (k, run_copy) at h in cc
    | inr (tree, k) ↦ (
      tree,
      k,
      subst
          (λ r.
            IsCopied (clean source) (clean target) tree
              (Copy.copy_content_tree (w.write_answer at) source target r []).1)
          (sym k)
          (copy_content_tree-IsCopied (w.write_answer at) source target tree s d
            (names at source tree k) (rw (k, run_copy) at h)),
    )
  ]

  -- The modes that the change behind a trace gives.
  abbrev pub chmod_log : Trace → Text → Publish.Changes
  chmod_log at root = (Publish.chmod_read_only (w.chmod_answer at) root (w.node_at at root) []).1

  pub run_chmod-IsProtected :
      (at : Trace) (root : Text)
      → run_chmod w at root ≡ ok tt
      → (tree : Node) × (w.node_at at root ≡ ok tree) × IsProtected root tree (chmod_log at root)
  unfolding run_chmod Publish.chmod_read_only
  run_chmod-IsProtected at root h = elim (Result-cases (w.node_at at root)) [
    | inl (e, k) ↦ let l : err e ≡ ok tt = rw (k, run_chmod) at h in cc
    | inr (tree, k) ↦ (
      tree,
      k,
      subst (λ r. IsProtected root tree (Publish.chmod_read_only (w.chmod_answer at) root r []).1)
          (sym k)
          (chmod_read_only-IsProtected (w.chmod_answer at) root tree (rw (k, run_chmod) at h)),
    )
  ]

  -- What the metadata behind a trace is written to.
  abbrev pub metadata_log : Trace → Text → Inputs → List Metadata.Call
  metadata_log at root inputs =
      (Metadata.write (w.meta_answer at) (w.order at) root inputs (w.now at) []).1

  pub answer_to-metadata :
      (root : Text) (inputs : Inputs) (trace : Trace)
      → answer_to w
          (last (trace ++ write_metadata root inputs ∷ []))
          (trace ++ write_metadata root inputs ∷ [])
        ≡ run_metadata w (trace ++ write_metadata root inputs ∷ []) root inputs
  unfolding answer_to
  answer_to-metadata root inputs trace =
      rw (last-append trace (write_metadata root inputs), answer_to) refl

  -- The files of the metadata.
  abbrev pub IsDescribed : Trace → Text → Inputs → Type 0
  IsDescribed at root inputs =
      metadata_log at root inputs
      ≡ made_all (meta_dir root) 0o755
        ∷ map (file_of (meta_dir root)) (w.order at (fields inputs (w.now at)))

  pub run_metadata-IsDescribed :
      (at : Trace) (root : Text) (inputs : Inputs)
      → run_metadata w at root inputs ≡ ok tt
      → IsDescribed at root inputs
  unfolding run_metadata
  run_metadata-IsDescribed at root inputs h =
      write_done (w.meta_answer at) (w.order at) root inputs (w.now at) h

  pub answer_to-copy :
      (source target : Text) (trace : Trace)
      → answer_to w
          (last (trace ++ copy_content_tree source target ∷ []))
          (trace ++ copy_content_tree source target ∷ [])
        ≡ run_copy w (trace ++ copy_content_tree source target ∷ []) source target
  unfolding answer_to
  answer_to-copy source target trace =
      rw (last-append trace (copy_content_tree source target), answer_to) refl

  pub answer_to-chmod :
      (root : Text) (trace : Trace)
      → answer_to w (last (trace ++ chmod_read_only root ∷ [])) (trace ++ chmod_read_only root ∷ [])
        ≡ run_chmod w (trace ++ chmod_read_only root ∷ []) root
  unfolding answer_to
  answer_to-chmod root trace = rw (last-append trace (chmod_read_only root), answer_to) refl

  pub deliver-call :
      (backend : Backend) (attrs : Attributes) (pol : GitContentPolicy) (work_dir : Text)
      (trace : Trace)
      → deliver w backend
          (last (trace ++ materialize_call attrs pol work_dir ∷ []))
          (trace ++ materialize_call attrs pol work_dir ∷ [])
        ≡ run_backend w backend
            (trace ++ materialize_call attrs pol work_dir ∷ [])
            attrs
            pol
            work_dir
  unfolding deliver
  deliver-call backend attrs pol work_dir trace =
      rw (last-append trace (materialize_call attrs pol work_dir), deliver) refl

-- ===== src/NodePlugin/Assembly.antt =====
-- The parts of the node plugin put together, as cmd/nodeplugin/main.go does: the pipeline calls the backend
-- that `newMaterializer` chose, and publishing copies and protects content with the functions of
-- pkg/materializer and publish.go.
pub mod Run
pub mod Answers
pub mod Delivery
pub mod Isolation
pub mod Admitted
use gitrepo_csi_driver.Metadata as Metadata
use gitrepo_csi_driver.Base.{List, [], ◌∷◌, ◌++◌, Option, none, some, Result, ok, err, errorf, Bool}
use gitrepo_csi_driver.Files.{Node}
use gitrepo_csi_driver.Library.{Library}
use gitrepo_csi_driver.Materializer.Backend.{Materialized}
use gitrepo_csi_driver.Materializer.GoGit.Library.{GoGit, System}
use gitrepo_csi_driver.NodePlugin.Pipeline.{
  Inputs, write_metadata, Call, metric, materialize_call, mkdir_all, remove_all, symlink,
  evict_cache, copy_content_tree, chmod_read_only, Trace, Environment,
}
use gitrepo_csi_driver.NodePlugin.Start.{Backend, git_binary, go_git, Settings}
use gitrepo_csi_driver.Policy.Types.{GitContentPolicy}
use gitrepo_csi_driver.Text.{Text}
use gitrepo_csi_driver.Volume.{Attributes}
use gitrepo_csi_driver.Materializer.Copy as Copy
use gitrepo_csi_driver.Materializer.Git as Git
use gitrepo_csi_driver.Materializer.GitCommand as GitCommand
use gitrepo_csi_driver.Materializer.GoGit.Run as GoGit
use gitrepo_csi_driver.NodePlugin.Pipeline as Pipeline
use gitrepo_csi_driver.NodePlugin.Publish as Publish

-- What lies outside the plugin, each behind a trace of the plugin's calls.
pub record World : Type 1 where
  pub lib : Library
  pub sha256_hex : Text → Text
  pub exists : Trace → Text → Bool
  pub expired : Trace → Bool
  -- the error of the last call, if that is one of the system
  pub answer : Trace → Result (Unit {0})
  -- what stands at a path, and the errors of the writes of a copy and of the metadata, and of changes
  -- of modes
  pub node_at : Trace → Text → Result Node
  pub write_answer : Trace → Copy.Log → Result (Unit {0})
  pub meta_answer : Trace → List Metadata.Call → Result (Unit {0})
  pub chmod_answer : Trace → Publish.Changes → Result (Unit {0})
  -- the order in which Go goes over the metadata, and the text of the time
  pub order : Trace → Metadata.Fields → Metadata.Fields
  pub now : Trace → Text
  -- what the backends ask
  pub git : Trace → GitCommand.Environment
  pub go_git_library : Trace → GoGit
  pub system : Trace → System

unfoldable pub last : Trace → Option Call
last [] = none
last (c ∷ []) = some c
last (c ∷ d ∷ trace) = last (d ∷ trace)

module _ (w : World) where
  -- `Backend.Materialize`
  unfoldable pub run_backend :
      Backend → Trace → Attributes → GitContentPolicy → Text → Result Materialized
  run_backend (git_binary git_path) trace attrs pol work_dir =
      (Git.materialize (w.git trace) attrs pol work_dir []).0
  run_backend (go_git owner) trace attrs pol work_dir =
      (GoGit.materialize (w.system trace) (w.go_git_library trace) owner attrs pol work_dir []).0

  -- `metadata.Write`
  unfoldable pub run_metadata : Trace → Text → Inputs → Result (Unit {0})
  run_metadata trace root inputs =
      (Metadata.write (w.meta_answer trace) (w.order trace) root inputs (w.now trace) []).0

  unfoldable pub run_copy : Trace → Text → Text → Result (Unit {0})
  run_copy trace source target =
      (Copy.copy_content_tree (w.write_answer trace) source target (w.node_at trace source) []).0

  unfoldable pub run_chmod : Trace → Text → Result (Unit {0})
  run_chmod trace root =
      (Publish.chmod_read_only (w.chmod_answer trace) root (w.node_at trace root) []).0

  -- What the plugin's own functions answer; the other calls are the system's.
  unfoldable pub answer_to : Option Call → Trace → Result (Unit {0})
  answer_to (some (copy_content_tree source target)) trace = run_copy trace source target
  answer_to (some (chmod_read_only root)) trace = run_chmod trace root
  answer_to (some (write_metadata root inputs)) trace = run_metadata trace root inputs
  answer_to c trace = w.answer trace

  unfoldable pub deliver : Backend → Option Call → Trace → Result Materialized
  deliver backend (some (materialize_call attrs pol work_dir)) trace =
      run_backend backend trace attrs pol work_dir
  deliver backend c trace = err (errorf "no backend was called" [])

  -- The pipeline of `main`.
  unfoldable pub assemble : Settings → Environment
  assemble s = record {
    lib = w.lib;
    policies = s.policies;
    cache = s.cache;
    target_root = s.target_root;
    sha256_hex = w.sha256_hex;
    exists = w.exists;
    materialize = λ trace. deliver s.backend (last trace) trace;
    expired = w.expired;
    answer = λ trace. answer_to (last trace) trace;
  }

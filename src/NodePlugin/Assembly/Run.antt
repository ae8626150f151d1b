-- ===== src/NodePlugin/Assembly/Run.antt =====
-- A run of the backend in the assembled plugin.
use gitrepo_csi_driver.Base.{
  errorf, ◌≡◌, refl, true, [], ◌∷◌, List, Option, none, some, ok, All, All-append_right, arith,
}
use gitrepo_csi_driver.Base.Int.{ℤ, pos, ◌≤ℤ◌}
use gitrepo_csi_driver.Library.{Library}
use gitrepo_csi_driver.Materializer.Backend.{Materialized}
use gitrepo_csi_driver.Materializer.Git.Calls.{materialize-SafeGitCall}
use gitrepo_csi_driver.Materializer.Git.Outcome.{IsWithinLimits, materialize-IsWithinLimits}
use gitrepo_csi_driver.Materializer.Git.Safe.{SafeGitCall}
use gitrepo_csi_driver.Materializer.GoGit.Calls.{materialize-SafeGoGitCall}
use gitrepo_csi_driver.Materializer.GoGit.Numbers.{IsCounted, materialize-IsCounted}
use gitrepo_csi_driver.Materializer.GoGit.Safe.{SafeGoGitCall}
use gitrepo_csi_driver.NodePlugin.Assembly.{World, run_backend}
use gitrepo_csi_driver.NodePlugin.Pipeline.{Trace}
use gitrepo_csi_driver.NodePlugin.Start.{Backend, git_binary, go_git}
use gitrepo_csi_driver.Paths.{is_abs, join_path}
use gitrepo_csi_driver.Policy.Defaults.Laws.{IsBounded}
use gitrepo_csi_driver.Policy.Evaluate.{check_policy, denied, evaluate, select_policy}
use gitrepo_csi_driver.Policy.Evaluate.Select.{select_policy_iff}
use gitrepo_csi_driver.Policy.Types.{zero_policy, Verdict, GitContentPolicy, Request}
use gitrepo_csi_driver.Text.{Text, codes}
use gitrepo_csi_driver.Volume.{Attributes}
use gitrepo_csi_driver.Volume.Revision.{validate_revision}
use mathlib.Core.Path.{subst}
use gitrepo_csi_driver.Materializer.Git as Git
use gitrepo_csi_driver.Materializer.GoGit.Run as GoGit

-- The policy that permits a request is one of the list.
pub evaluate-IsBounded :
    (lib : Library) (policies : List GitContentPolicy) (req : Request) (name : Text)
    → All IsBounded policies
    → (evaluate lib policies req name).0.allowed ≡ true
    → IsBounded (evaluate lib policies req name).1
unfolding evaluate
evaluate-IsBounded lib policies req name b h =
    case (select_policy policies req.namespace name) refl h
  where
    verdict : Option GitContentPolicy → Verdict × GitContentPolicy
    verdict o = elim o [
      | none ↦ (denied "policy_not_found" (errorf "no matching policy found" []), zero_policy)
      | some p ↦ (check_policy lib req p, p)
    ]

    case :
        (o : Option GitContentPolicy)
        → select_policy policies req.namespace name ≡ o
        → (verdict o).0.allowed ≡ true
        → IsBounded (verdict o).1
    case none e a = ground arith
    case (some p) e a =
        let s = (select_policy_iff req.namespace name policies p).0 e in
        (All-append_right IsBounded s.before (p ∷ s.after) (subst (All IsBounded) s.listed b)).0

module _ (w : World) where
  -- A run of the backend whose result is within the policy's limits, and all of whose calls are safe.
  abbrev pub IsRun : Backend → Trace → Attributes → GitContentPolicy → Text → Materialized → Type 0
  IsRun (git_binary git_path) trace attrs pol work_dir mr =
      IsWithinLimits (w.git trace) attrs pol work_dir mr
        (Git.materialize (w.git trace) attrs pol work_dir []).1
      × All (SafeGitCall (w.git trace) work_dir)
          (Git.materialize (w.git trace) attrs pol work_dir []).1
  IsRun (go_git owner) trace attrs pol work_dir mr =
      let run =
        (GoGit.materialize (w.system trace) (w.go_git_library trace) owner attrs pol work_dir
          []).1 in
      IsCounted pol work_dir mr run
      × All
          (SafeGoGitCall work_dir (join_path work_dir (codes "content")) owner
            (w.system trace).node_at)
          run

  pub run_backend-IsRun :
      (backend : Backend) (trace : Trace) (attrs : Attributes) (pol : GitContentPolicy)
      (work_dir : Text) (mr : Materialized)
      → validate_revision attrs.revision ≡ ok tt
      → pos 0 ≤ℤ attrs.depth
      → IsBounded pol
      → is_abs work_dir ≡ true
      → run_backend w backend trace attrs pol work_dir ≡ ok mr
      → IsRun backend trace attrs pol work_dir mr
  unfolding run_backend
  run_backend-IsRun (git_binary git_path) trace attrs pol work_dir mr v d b a h = (
    materialize-IsWithinLimits (w.git trace) attrs pol work_dir b [] mr h,
    materialize-SafeGitCall (w.git trace) attrs pol work_dir [] v d
        (weaken pol.clone.default_depth b.default_depth)
        (weaken pol.submodules.max_depth b.submodule_depth) a tt,
  )
    where
      weaken : (n : ℤ) → pos 1 ≤ℤ n → pos 0 ≤ℤ n
      weaken n h = ground arith
  run_backend-IsRun (go_git owner) trace attrs pol work_dir mr v d b a h = (
    materialize-IsCounted (w.system trace) (w.go_git_library trace) owner attrs pol work_dir mr b h,
    materialize-SafeGoGitCall (w.system trace) (w.go_git_library trace) owner attrs pol work_dir []
        a tt,
  )

  pub IsRun-mounted :
      (backend : Backend) (trace : Trace) (attrs : Attributes) (pol : GitContentPolicy)
      (work_dir : Text) (mr : Materialized)
      → IsRun backend trace attrs pol work_dir mr
      → mr.mounted_path ≡ join_path work_dir (codes "content")
  IsRun-mounted (git_binary git_path) trace attrs pol work_dir mr r = r.0.mounted
  IsRun-mounted (go_git owner) trace attrs pol work_dir mr r = r.0.mounted

-- ===== src/Materializer/Git/Outcome.antt =====
-- What `Materialize` of the git binary backend returns.
use gitrepo_csi_driver.Base.{Result, true, sym, ap, ◌∙◌, [], ◌∷◌, ◌++◌, ◌≡◌, refl, ok, ok_inj}
use gitrepo_csi_driver.Base.Int.{pos, ◌≤ℤ◌}
use gitrepo_csi_driver.Files.{Node, directory, unlistable, regular, symlink, special, is_dir}
use gitrepo_csi_driver.Materializer.Action.{>>-runs, >>=-runs, lift, call}
use gitrepo_csi_driver.Materializer.Argv.{check_directory, source_path_of}
use gitrepo_csi_driver.Materializer.Backend.{Materialized}
use gitrepo_csi_driver.Materializer.Copy.{Log, copy_content_tree}
use gitrepo_csi_driver.Materializer.Git.{
  check_source, copy_tree, counted, count_content, lay_out, materialize,
}
use gitrepo_csi_driver.Materializer.GitCommand.{lstat, removed_all, copied, Trace, Environment}
use gitrepo_csi_driver.Materializer.Limits.{Count}
use gitrepo_csi_driver.Materializer.Limits.Laws.{check_limits_iff}
use gitrepo_csi_driver.Paths.{join_path}
use gitrepo_csi_driver.Policy.Defaults.Laws.{IsBounded}
use gitrepo_csi_driver.Policy.Types.{GitContentPolicy}
use gitrepo_csi_driver.Text.{Text, codes}
use gitrepo_csi_driver.Volume.{Attributes}
use mathlib.Core.Path.{subst}

-- The trace ends with the calls of `lay_out`, and the result is the content directory with what it holds
-- behind that, which is within the policy's limits. What was copied stood at the requested path, where
-- `os.Lstat` found a directory.
pub record IsWithinLimits (env : Environment) (attrs : Attributes) (p : GitContentPolicy)
    (work_dir : Text) (r : Materialized) (after : Trace) : Type 0 where
  pub mounted : r.mounted_path ≡ join_path work_dir (codes "content")
  pub repo : r.repo_path ≡ join_path work_dir (codes "repo")
  pub source : Text
  pub requested : source_path_of (join_path work_dir (codes "repo")) attrs.path ≡ ok source
  pub before : Trace
  pub directory : Node
  pub stands : env.node_at (before ++ lstat source ∷ []) source ≡ ok directory
  pub is_directory : is_dir directory ≡ true
  pub copying : Trace
  pub removed :
      copying
      ≡ (before ++ lstat source ∷ []) ++ removed_all (join_path work_dir (codes "content")) ∷ []
  pub log : Log
  pub copy :
      copy_content_tree
        (env.write_answer copying)
        source
        (join_path work_dir (codes "content"))
        (env.node_at copying source)
        []
      ≡ (ok tt, log)
  pub ended : after ≡ copying ++ copied source (join_path work_dir (codes "content")) log ∷ []
  pub count : Count
  pub counts :
      counted
        (join_path work_dir (codes "content"))
        (env.node_at after (join_path work_dir (codes "content")))
      ≡ ok count
  pub files : r.file_count ≡ pos count.files
  pub size : r.size_bytes ≡ pos count.size
  pub file_limit : r.file_count ≤ℤ p.clone.max_file_count
  pub size_limit : r.size_bytes ≤ℤ p.clone.max_repository_size

first_of : {A B : Type 0} {x y : A × B} → x ≡ y → x.0 ≡ y.0
first_of h = ap (λ p. p.0) h

second_of : {A B : Type 0} {x y : A × B} → x ≡ y → x.1 ≡ y.1
second_of h = ap (λ p. p.1) h

check_directory-is_dir :
    (path : Text) (node : Node) → check_directory path node ≡ ok tt → is_dir node ≡ true
unfolding check_directory
check_directory-is_dir path (symlink target) h = cc
check_directory-is_dir path (directory es) h = refl
check_directory-is_dir path (unlistable e) h = refl
check_directory-is_dir path (regular mode content) h = cc
check_directory-is_dir path special h = cc

module _ (env : Environment) (attrs : Attributes) (p : GitContentPolicy) (work_dir : Text)
    (b : IsBounded p) where
  check_source-runs :
      (source path : Text) (trace later : Trace)
      → check_source env source path trace ≡ (ok tt, later)
      → (node : Node) × (env.node_at (trace ++ lstat source ∷ []) source ≡ ok node)
        × (is_dir node ≡ true)
        × (later ≡ trace ++ lstat source ∷ [])
  unfolding check_source call lift
  check_source-runs source path trace later h =
      let (node, t, e, r, k) = >>=-runs _ _ trace tt (ap (λ q. q.0) h) in
      let s = second_of e in
      (node, first_of e, check_directory-is_dir path node k, sym (second_of (sym r ∙ h)) ∙ sym s)

  lay_out-IsWithinLimits :
      (resolved : Text) (trace : Trace) (r : Materialized)
      → let run =
          lay_out env attrs p resolved
            (join_path work_dir (codes "repo"))
            (join_path work_dir (codes "content"))
            trace in
        run.0 ≡ ok r → IsWithinLimits env attrs p work_dir r run.1
  unfolding lay_out count_content copy_tree lift call
  lay_out-IsWithinLimits resolved trace r h =
      let (source, t1, e1, r1, h1) = >>=-runs _ _ trace r h in
      let (t2, e2, r2, h2) = >>-runs _ _ t1 r h1 in
      let (t3, e3, r3, h3) = >>-runs _ _ t2 r h2 in
      let (t4, e4, r4, h4) = >>-runs _ _ t3 r h3 in
      let (t5, e5, r5, h5) = >>-runs _ _ t4 r h4 in
      let (c, t6, e6, r6, h6) = >>=-runs _ _ t5 r h5 in
      let (t7, e7, r7, h7) = >>-runs _ _ t6 r h6 in
      let (node, stands, is_directory, s3) = check_source-runs source attrs.path t2 t3 e3 in
      let (f, s) = (check_limits_iff p (pos c.files) (pos c.size) b).0 (first_of e7) in
      let content = join_path work_dir (codes "content") in
      let removal = sym (second_of e4) ∙ ap (λ t. t ++ removed_all content ∷ []) s3 in
      let copying =
        copy_content_tree (env.write_answer t4) source content (env.node_at t4 source) [] in
      let written : IsWithinLimits env attrs p work_dir r t5 =
        subst (λ (out : Materialized). IsWithinLimits env attrs p work_dir out t5) (ok_inj h7)
          (record {
            mounted = refl;
            repo = refl;
            source = source;
            requested = first_of e1;
            before = t2;
            directory = node;
            stands = stands;
            is_directory = is_directory;
            copying = t4;
            removed = removal;
            log = copying.1;
            copy = ap (λ x. (x, copying.1)) (first_of e5);
            ended = sym (second_of e5);
            count = c;
            counts = first_of e6;
            files = refl;
            size = refl;
            file_limit = f;
            size_limit = s;
          }) in
      subst (λ (run : Result Materialized × Trace). IsWithinLimits env attrs p work_dir r run.1)
        (sym (r1 ∙ r2 ∙ r3 ∙ r4 ∙ r5 ∙ r6 ∙ r7))
        (subst (λ (t : Trace). IsWithinLimits env attrs p work_dir r t)
          (second_of e6 ∙ second_of e7) written)

  -- With the limits of a loaded policy, `materialize` succeeds only if `os.Lstat` has found a directory
  -- at the requested path in the repository, and then the content directory was removed and a copy of what
  -- stood at that path was written to it, without an error. The result is the content directory, and its
  -- files and bytes are those counted there behind the copy, within the limits.
  pub materialize-IsWithinLimits :
      (trace : Trace) (r : Materialized)
      → (materialize env attrs p work_dir trace).0 ≡ ok r
      → IsWithinLimits env attrs p work_dir r (materialize env attrs p work_dir trace).1
  unfolding materialize
  materialize-IsWithinLimits trace r h =
      let (t1, _, r1, h1) = >>-runs _ _ trace r h in
      let (t2, _, r2, h2) = >>-runs _ _ t1 r h1 in
      let (t3, _, r3, h3) = >>-runs _ _ t2 r h2 in
      let (t4, _, r4, h4) = >>-runs _ _ t3 r h3 in
      let (t5, _, r5, h5) = >>-runs _ _ t4 r h4 in
      let (resolved, t6, _, r6, h6) = >>=-runs _ _ t5 r h5 in
      subst (λ run. IsWithinLimits env attrs p work_dir r run.1) (sym (r1 ∙ r2 ∙ r3 ∙ r4 ∙ r5 ∙ r6))
        (lay_out-IsWithinLimits resolved t6 r h6)

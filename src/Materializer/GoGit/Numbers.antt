-- ===== src/Materializer/GoGit/Numbers.antt =====
-- The numbers of a result of the go-git backend.
use gitrepo_csi_driver.Base.{
  ℕ, ◌+◌, ◌≡◌, refl, sym, ap, ◌∙◌, [], Result, ok, err, is_nil, none, some, ok_inj, arith,
}
use gitrepo_csi_driver.Base.Int.{pos, pos_part, ◌≤ℤ◌}
use gitrepo_csi_driver.Files.{Node}
use gitrepo_csi_driver.Files.Walk.{walk-keeps}
use gitrepo_csi_driver.Materializer.Action.{>>-ok, >>=-ok, lift_pass-ok, lift-ok}
use gitrepo_csi_driver.Materializer.Backend.{public_dir_perm, Materialized, private_dir_perm}
use gitrepo_csi_driver.Materializer.Copy.{make_dir}
use gitrepo_csi_driver.Materializer.GoGit.Counts.{
  made, made-snoc_none, Makes, Makes-nothing, Makes-lift, Makes-ok, Makes-wrap, Makes-if, Makes->>=,
  Makes->>,
}
use gitrepo_csi_driver.Materializer.GoGit.Export.{write}
use gitrepo_csi_driver.Materializer.GoGit.Library.{
  cloned, removed_all, made_all, wrote, lchown, Trace, GoGit, System,
}
use gitrepo_csi_driver.Materializer.GoGit.Run.{
  clone_options, Owner, chown_entry, chown_node, chown_tree, chown_content, resolve_hash, tree_at,
  export_all, lay_out, materialize,
}
use gitrepo_csi_driver.Materializer.GoGit.Submodules.{no_count}
use gitrepo_csi_driver.Materializer.GoGit.Total.{
  from_none, export_tree-Makes, export_submodules-Makes,
}
use gitrepo_csi_driver.Materializer.Limits.{add_counts, Count}
use gitrepo_csi_driver.Materializer.Limits.Laws.{check_limits_iff}
use gitrepo_csi_driver.Materializer.Ref.{is_pinned_commit}
use gitrepo_csi_driver.Paths.{join_path}
use gitrepo_csi_driver.Policy.Defaults.Laws.{IsBounded}
use gitrepo_csi_driver.Policy.Types.{GitContentPolicy}
use gitrepo_csi_driver.Text.{Text, codes}
use gitrepo_csi_driver.Volume.{Attributes}
use mathlib.Core.Path.{subst}

-- The numbers of a result.
abbrev pub count_of : Materialized → Count
count_of r = record { files = pos_part r.file_count; size = pos_part r.size_bytes }

module _ (sys : System) where
  -- A change of owner makes nothing.
  chown_node-made :
      (content : Text) (uid gid : ℕ) (node : Result Node) (trace : Trace)
      → made (chown_node sys content uid gid node trace).1 ≡ made trace
  unfolding chown_node
  chown_node-made content uid gid (err e) trace = refl
  chown_node-made content uid gid (ok node) trace =
      walk-keeps (λ t. made t ≡ made trace) (λ path. Unit {0}) (λ path name a. tt)
        (chown_entry sys uid gid)
        (λ path n log a k.
          (unfold chown_entry in made-snoc_none log (lchown path uid gid) refl ∙ k))
        content node trace tt refl

  chown_tree-Makes :
      (content : Text) (uid gid : ℕ) (b : Count) → Makes b (λ _. b) (chown_tree sys content uid gid)
  unfolding chown_tree Makes
  chown_tree-Makes content uid gid b trace value h =
      let m = chown_node-made content uid gid (sys.node_at trace content) trace in
      (ap (λ (c : Count). c.files + b.files) m, ap (λ (c : Count). c.size + b.size) m)

  chown_content-Makes :
      (content : Text) (o : Owner) (b : Count) → Makes b (λ _. b) (chown_content sys content o)
  unfolding chown_content
  chown_content-Makes content none b = Makes-lift b _
  chown_content-Makes content (some (uid, gid)) b = chown_tree-Makes content uid gid b

  module _ (lib : GoGit) (attrs : Attributes) (p : GitContentPolicy) where
    export_all-Makes :
        (tree : lib.Tree) (content : Text)
        → Makes no_count (λ d. d) (export_all sys lib attrs p tree content)
    unfolding export_all
    export_all-Makes tree content =
        Makes->>= no_count (λ c. c) (λ d. d) _ _ (export_tree-Makes sys lib content tree)
          (λ c.
            Makes->>= c (add_counts c) (λ d. d) _ _
              (from_none c _ (
                Makes-if no_count (λ d. d) attrs.submodules _ _
                  (export_submodules-Makes sys lib content _ p.submodules.max_depth tree)
                  (Makes-ok (λ d. d) no_count)))
              (λ d. Makes-ok (λ d. d) (add_counts c d)))

    lay_out-Makes :
        (owner : Owner) (commit : lib.Commit) (tree : lib.Tree) (content : Text)
        → Makes no_count count_of (lay_out sys lib owner attrs p commit tree content)
    unfolding lay_out write
    lay_out-Makes owner commit tree content =
        let z = no_count in
        Makes->> z z count_of _ _ (Makes-nothing z sys.answer (removed_all content) refl) (
          Makes->> z z count_of _ _
            (Makes-nothing z sys.answer (wrote (make_dir content public_dir_perm)) refl)
            (Makes->>= z (λ c. c) count_of _ _ (export_all-Makes tree content)
              (λ c. Makes->> c c count_of _ _ (Makes-lift c _) (
                Makes->> c c count_of _ _ (chown_content-Makes content owner c)
                  (Makes-ok count_of _)))))

    tree_at-Makes :
        (b : Count) (tree : lib.Tree) (path : Text) → Makes b (λ _. b) (tree_at sys lib tree path)
    unfolding tree_at
    tree_at-Makes b tree path =
        Makes-if b (λ _. b) (is_nil path) _ _ (Makes-lift b _)
          (Makes-if b (λ _. b) _ _ _ (Makes-lift b _) (Makes-wrap b (λ _. b) _ _ (Makes-lift b _)))

    resolve_hash-Makes :
        (b : Count) (repo : lib.Repository) → Makes b (λ _. b) (resolve_hash sys lib repo attrs)
    unfolding resolve_hash
    resolve_hash-Makes b repo =
        Makes-if b (λ _. b) (is_pinned_commit attrs.revision) _ _ (Makes-lift b _)
          (Makes-wrap b (λ _. b) _ _ (Makes-lift b _))

    materialize-Makes :
        (owner : Owner) (work_dir : Text)
        → Makes no_count count_of (materialize sys lib owner attrs p work_dir)
    unfolding materialize
    materialize-Makes owner work_dir =
        let z = no_count in
        Makes->> z z count_of _ _
          (Makes-nothing z sys.answer (made_all work_dir private_dir_perm) refl)
          (Makes->>= z (λ _. z) count_of _ _
            (Makes-wrap z (λ _. z) _ _
              (Makes-nothing z lib.clone
                (cloned (clone_options sys lib attrs p.clone.default_depth)) refl))
            (λ repo.
              Makes->>= z (λ _. z) count_of _ _ (resolve_hash-Makes z repo)
                (λ hash.
                  Makes->>= z (λ _. z) count_of _ _ (Makes-wrap z (λ _. z) _ _ (Makes-lift z _))
                    (λ commit.
                      Makes->>= z (λ _. z) count_of _ _ (Makes-wrap z (λ _. z) _ _ (Makes-lift z _))
                        (λ root.
                          Makes->>= z (λ _. z) count_of _ _ (tree_at-Makes z root attrs.path)
                            (λ tree.
                              lay_out-Makes owner commit tree
                                (join_path work_dir (codes "content"))))))))

    -- The result's numbers are no negative ones, and within the limits.
    record IsLimited (work_dir : Text) (r : Materialized) : Type 0 where
      mounted : r.mounted_path ≡ join_path work_dir (codes "content")
      file_sign : r.file_count ≡ pos (pos_part r.file_count)
      size_sign : r.size_bytes ≡ pos (pos_part r.size_bytes)
      file_limit : r.file_count ≤ℤ p.clone.max_file_count
      size_limit : r.size_bytes ≤ℤ p.clone.max_repository_size

    lay_out-IsLimited :
        (owner : Owner) (commit : lib.Commit) (tree : lib.Tree) (work_dir : Text) (trace : Trace)
        (r : Materialized)
        → IsBounded p
        → (lay_out sys lib owner attrs p commit tree (join_path work_dir (codes "content")) trace).0
          ≡ ok r
        → IsLimited work_dir r
    unfolding lay_out
    lay_out-IsLimited owner commit tree work_dir trace r b h =
        let (t1, h1) = >>-ok _ _ trace r h in
        let (t2, h2) = >>-ok _ _ t1 r h1 in
        let (c, t3, _, h3) = >>=-ok _ _ t2 r h2 in
        let (l, h4) = lift_pass-ok _ _ t3 r h3 in
        let (f, s) = (check_limits_iff p (pos c.files) (pos c.size) b).0 l in
        let (t4, h5) = >>-ok _ _ t3 r h4 in
        subst (IsLimited work_dir) (ok_inj (lift-ok (ok _) t4 r h5)) (record {
          mounted = refl;
          file_sign = refl;
          size_sign = refl;
          file_limit = f;
          size_limit = s;
        })

    materialize-IsLimited :
        (owner : Owner) (work_dir : Text) (trace : Trace) (r : Materialized)
        → IsBounded p
        → (materialize sys lib owner attrs p work_dir trace).0 ≡ ok r
        → IsLimited work_dir r
    unfolding materialize
    materialize-IsLimited owner work_dir trace r b h =
        let (t1, h1) = >>-ok _ _ trace r h in
        let (repo, t2, _, h2) = >>=-ok _ _ t1 r h1 in
        let (hash, t3, _, h3) = >>=-ok _ _ t2 r h2 in
        let (commit, t4, _, h4) = >>=-ok _ _ t3 r h3 in
        let (root, t5, _, h5) = >>=-ok _ _ t4 r h4 in
        let (tree, t6, _, h6) = >>=-ok _ _ t5 r h5 in
        lay_out-IsLimited owner commit tree work_dir t6 r b h6

made_all_of :
    (sys : System) (lib : GoGit) (attrs : Attributes) (p : GitContentPolicy) (owner : Owner)
    (work_dir : Text) (r : Materialized)
    → (materialize sys lib owner attrs p work_dir []).0 ≡ ok r
    → ((made (materialize sys lib owner attrs p work_dir []).1).files ≡ pos_part r.file_count)
      × ((made (materialize sys lib owner attrs p work_dir []).1).size ≡ pos_part r.size_bytes)
unfolding Makes made
made_all_of sys lib attrs p owner work_dir r h =
    let (f, s) = materialize-Makes sys lib attrs p owner work_dir [] r h in
    (omega arith, omega arith)

-- A result of a run: where the content is, the numbers of the files that the run made, and the limits.
pub record IsCounted (p : GitContentPolicy) (work_dir : Text) (r : Materialized) (run : Trace)
    : Type 0 where
  pub mounted : r.mounted_path ≡ join_path work_dir (codes "content")
  pub files : r.file_count ≡ pos (made run).files
  pub size : r.size_bytes ≡ pos (made run).size
  pub file_limit : r.file_count ≤ℤ p.clone.max_file_count
  pub size_limit : r.size_bytes ≤ℤ p.clone.max_repository_size

-- With the limits of a loaded policy, a run of the go-git backend that succeeds returns the working
-- directory's content directory, with the number of the files that it made, submodules included, and the sum
-- of their lengths, which are within the limits.
pub materialize-IsCounted :
    (sys : System) (lib : GoGit) (owner : Owner) (attrs : Attributes) (p : GitContentPolicy)
    (work_dir : Text) (r : Materialized)
    → IsBounded p
    → (materialize sys lib owner attrs p work_dir []).0 ≡ ok r
    → IsCounted p work_dir r (materialize sys lib owner attrs p work_dir []).1
materialize-IsCounted sys lib owner attrs p work_dir r b h =
    let l = materialize-IsLimited sys lib attrs p owner work_dir [] r b h in
    let (f, s) = made_all_of sys lib attrs p owner work_dir r h in
    record {
      mounted = l.mounted;
      files = l.file_sign ∙ ap pos (sym f);
      size = l.size_sign ∙ ap pos (sym s);
      file_limit = l.file_limit;
      size_limit = l.size_limit;
    }

-- ===== src/Materializer/GoGit/Calls.antt =====
-- The calls of `Materialize` of the go-git backend.
use gitrepo_csi_driver.Base.{
  Result-cases, inl, inr, append-nil, ℕ, ◌≡◌, refl, sym, ◌==◌, true, not, List, [], ◌∷◌, Result,
  is_nil, Option, none, some, All,
}
use gitrepo_csi_driver.Base.Int.{ℤ}
use gitrepo_csi_driver.Materializer.Action.{
  call, wrap, Keeps, Keeps->>=, Keeps->>, Keeps-lift, Keeps-lift_then, Keeps-wrap, Keeps-call,
  Keeps-if,
}
use gitrepo_csi_driver.Materializer.Backend.{public_dir_perm}
use gitrepo_csi_driver.Materializer.Copy.{make_dir}
use gitrepo_csi_driver.Materializer.Copy.Safe.{IsContained}
use gitrepo_csi_driver.Materializer.GoGit.Chown.{walk-AllSafe}
use gitrepo_csi_driver.Materializer.GoGit.Library.{
  GitFile, TreeEntry, cloned, removed_all, made_all, Trace, GoGit, System, submodule_mode,
}
use gitrepo_csi_driver.Materializer.GoGit.Run.{
  clone_options, Owner, chown_node, chown_tree, chown_content, resolve_hash, tree_at, export_all,
  lay_out, materialize,
}
use gitrepo_csi_driver.Materializer.GoGit.Safe.{
  SafeGoGitCall, write-SafeGoGitCall, export_tree-SafeGoGitCall, joined-IsContained,
}
use gitrepo_csi_driver.Materializer.GoGit.Submodules.{
  Modules, url_of, parse_contents, parse_modules_file, parse_git_modules, clone_and_export,
  export_submodule, export_known, export_entry, export_entries, export_modules, export_submodules,
}
use gitrepo_csi_driver.Materializer.Limits.{Count}
use gitrepo_csi_driver.Materializer.Path.{safe_join}
use gitrepo_csi_driver.Materializer.Path.Laws.{below_nil}
use gitrepo_csi_driver.Materializer.Ref.{is_pinned_commit}
use gitrepo_csi_driver.Paths.{parse_path, is_abs, join_path}
use gitrepo_csi_driver.Paths.Dir.{join_path-is_abs}
use gitrepo_csi_driver.Policy.Types.{GitContentPolicy}
use gitrepo_csi_driver.Text.{Text, codes}
use gitrepo_csi_driver.Volume.{Attributes}

module _ (work_dir content : Text) (owner : Owner) (sys : System)
    (c_abs : is_abs content ≡ true) where
  -- The content directory itself.
  root-IsContained : IsContained content content
  root-IsContained = record {
    rest = [];
    no_git = tt;
    joined = sym (below_nil (parse_path content));
  }

  module _ (lib : GoGit) where
    clone_and_export-SafeGoGitCall :
        (url hash inner : Text) (auth : Option (Text × Text)) (depth : ℤ)
        → IsContained content inner
        → Keeps
            (SafeGoGitCall work_dir content owner sys.node_at)
            (clone_and_export sys lib url hash inner auth depth)
    unfolding clone_and_export
    clone_and_export-SafeGoGitCall url hash inner auth depth i =
        let P = SafeGoGitCall work_dir content owner sys.node_at in
        Keeps->>= P _ _ (Keeps-wrap P _ _ (Keeps-call P _ (cloned _) refl)) (λ repo.
          Keeps->>= P _ _ (Keeps-lift P _) (λ commit. Keeps->>= P _ _ (Keeps-lift P _) (λ tree.
            export_tree-SafeGoGitCall work_dir content owner sys.node_at sys c_abs lib inner i
              tree)))

    module _ (auth : Option (Text × Text)) (depth : ℤ) where
      export_known-SafeGoGitCall :
          (entry : TreeEntry) (url : Option Text) (c : Count)
          → Keeps
              (SafeGoGitCall work_dir content owner sys.node_at)
              (export_known sys lib content auth depth entry url c)
      unfolding export_known export_submodule
      export_known-SafeGoGitCall entry none c =
          Keeps-lift (SafeGoGitCall work_dir content owner sys.node_at) _
      export_known-SafeGoGitCall entry (some url) c =
          let P = SafeGoGitCall work_dir content owner sys.node_at in
          Keeps-lift_then P (safe_join content entry.name) _ (λ sub h.
            let i =
              joined-IsContained work_dir content owner sys.node_at sys c_abs lib content
                root-IsContained entry.name sub h in
            Keeps->> P _ _
              (write-SafeGoGitCall work_dir content owner sys.node_at sys c_abs
                (make_dir sub public_dir_perm) (inr (inl i), refl))
              (Keeps->>= P _ _
                (Keeps-wrap P _ _ (clone_and_export-SafeGoGitCall url entry.hash sub auth depth i))
                (λ d. Keeps-lift P _)))

      export_entries-SafeGoGitCall :
          (modules : Modules) (entries : List TreeEntry) (end : Result (Unit {0})) (c : Count)
          → Keeps
              (SafeGoGitCall work_dir content owner sys.node_at)
              (export_entries sys lib content auth depth modules entries end c)
      unfolding export_entries export_entry
      export_entries-SafeGoGitCall modules [] end c =
          let P = SafeGoGitCall work_dir content owner sys.node_at in
          Keeps->> P _ _ (Keeps-lift P end) (Keeps-lift P _)
      export_entries-SafeGoGitCall modules (entry ∷ entries) end c =
          let P = SafeGoGitCall work_dir content owner sys.node_at in
          Keeps->>= P _ _
            (Keeps-if P (not (entry.mode == submodule_mode)) _ _ (Keeps-lift P _)
              (export_known-SafeGoGitCall entry (url_of modules entry.name) c))
            (λ d. export_entries-SafeGoGitCall modules entries end d)

      parse_file-SafeGoGitCall :
          (f : Option GitFile)
          → Keeps (SafeGoGitCall work_dir content owner sys.node_at) (parse_modules_file sys lib f)
      unfolding parse_modules_file parse_contents
      parse_file-SafeGoGitCall none =
          Keeps-lift (SafeGoGitCall work_dir content owner sys.node_at) _
      parse_file-SafeGoGitCall (some f) =
          let P = SafeGoGitCall work_dir content owner sys.node_at in
          Keeps->>= P _ _ (Keeps-lift P _) (λ text.
            Keeps->>= P _ _ (Keeps-wrap P _ _ (Keeps-lift P _)) (λ sections. Keeps-lift P _))

      export_submodules-SafeGoGitCall :
          (tree : lib.Tree)
          → Keeps
              (SafeGoGitCall work_dir content owner sys.node_at)
              (export_submodules sys lib content auth depth tree)
      unfolding export_submodules export_modules parse_git_modules
      export_submodules-SafeGoGitCall tree =
          let P = SafeGoGitCall work_dir content owner sys.node_at in
          Keeps->>= P _ _ (Keeps->>= P _ _ (Keeps-lift P _) parse_file-SafeGoGitCall) (λ modules.
            Keeps-if P (is_nil modules) _ _ (Keeps-lift P _)
              (export_entries-SafeGoGitCall modules (lib.entries tree).0 (lib.entries tree).1 _))

    export_all-SafeGoGitCall :
        (attrs : Attributes) (p : GitContentPolicy) (tree : lib.Tree)
        → Keeps
            (SafeGoGitCall work_dir content owner sys.node_at)
            (export_all sys lib attrs p tree content)
    unfolding export_all
    export_all-SafeGoGitCall attrs p tree =
        let P = SafeGoGitCall work_dir content owner sys.node_at in
        Keeps->>= P _ _
          (export_tree-SafeGoGitCall work_dir content owner sys.node_at sys c_abs lib content
            root-IsContained tree)
          (λ c.
            Keeps->>= P _ _
              (Keeps-if P attrs.submodules _ _
                (export_submodules-SafeGoGitCall _ p.submodules.max_depth tree) (Keeps-lift P _))
              (λ d. Keeps-lift P _))

  chown_tree-SafeGoGitCall :
      (uid gid : ℕ)
      → owner ≡ some (uid, gid)
      → Keeps (SafeGoGitCall work_dir content owner sys.node_at) (chown_tree sys content uid gid)
  unfolding chown_tree chown_node Keeps
  chown_tree-SafeGoGitCall uid gid o trace t = elim (Result-cases (sys.node_at trace content)) [
    | inl (e, k) ↦ rw (k, chown_node) t
    | inr (node, k) ↦
        rw (k, chown_node)
          (walk-AllSafe work_dir content owner sys c_abs uid gid o trace node k content node trace
            (λ n. ((([], sym (append-nil _)), c_abs), n)) t)
  ]

  chown_content-SafeGoGitCall :
      (o : Owner)
      → owner ≡ o
      → Keeps (SafeGoGitCall work_dir content owner sys.node_at) (chown_content sys content o)
  unfolding chown_content
  chown_content-SafeGoGitCall none e =
      Keeps-lift (SafeGoGitCall work_dir content owner sys.node_at) _
  chown_content-SafeGoGitCall (some (uid, gid)) e = chown_tree-SafeGoGitCall uid gid e

  module _ (lib : GoGit) where
    clone-SafeGoGitCall :
        (attrs : Attributes) (depth : ℤ)
        → Keeps (SafeGoGitCall work_dir content owner sys.node_at) (
            wrap "git clone failed: %w"
              (call lib.clone (cloned (clone_options sys lib attrs depth))))
    unfolding clone_options
    clone-SafeGoGitCall attrs depth =
        let P = SafeGoGitCall work_dir content owner sys.node_at in
        Keeps-wrap P _ _ (Keeps-call P lib.clone (cloned (clone_options sys lib attrs depth)) refl)

    resolve_hash-SafeGoGitCall :
        (repo : lib.Repository) (attrs : Attributes)
        → Keeps (SafeGoGitCall work_dir content owner sys.node_at) (resolve_hash sys lib repo attrs)
    unfolding resolve_hash
    resolve_hash-SafeGoGitCall repo attrs =
        let P = SafeGoGitCall work_dir content owner sys.node_at in
        Keeps-if P (is_pinned_commit attrs.revision) _ _ (Keeps-lift P _)
          (Keeps-wrap P _ _ (Keeps-lift P _))

    tree_at-SafeGoGitCall :
        (tree : lib.Tree) (path : Text)
        → Keeps (SafeGoGitCall work_dir content owner sys.node_at) (tree_at sys lib tree path)
    unfolding tree_at
    tree_at-SafeGoGitCall tree path =
        let P = SafeGoGitCall work_dir content owner sys.node_at in
        Keeps-if P (is_nil path) _ _ (Keeps-lift P _)
          (Keeps-if P _ _ _ (Keeps-lift P _) (Keeps-wrap P _ _ (Keeps-lift P _)))

    lay_out-SafeGoGitCall :
        (attrs : Attributes) (p : GitContentPolicy) (commit : lib.Commit) (tree : lib.Tree)
        → Keeps
            (SafeGoGitCall work_dir content owner sys.node_at)
            (lay_out sys lib owner attrs p commit tree content)
    unfolding lay_out
    lay_out-SafeGoGitCall attrs p commit tree =
        let P = SafeGoGitCall work_dir content owner sys.node_at in
        Keeps->> P _ _ (Keeps-call P _ (removed_all content) refl) (
          Keeps->> P _ _
            (write-SafeGoGitCall work_dir content owner sys.node_at sys c_abs
              (make_dir content public_dir_perm) (inl refl, refl))
            (Keeps->>= P _ _ (export_all-SafeGoGitCall lib attrs p tree) (λ c.
              Keeps->> P _ _ (Keeps-lift P _)
                (Keeps->> P _ _ (chown_content-SafeGoGitCall owner refl) (Keeps-lift P _)))))

-- In an absolute working directory, whatever the repository and its submodules hold, the go-git backend
-- clones without a checkout, removes only the content directory and writes only there: a directory is the
-- content directory, a path in it or the directory of one, and has the public mode; files and links have
-- paths in it with no part ".git", no file may be written to by anybody, and a link has a relative target
-- that stays in the content directory. Only the owner of the configuration is given to files, and, if the
-- names in what stands at the content directory are names, only at and below that directory.
pub materialize-SafeGoGitCall :
    (sys : System) (lib : GoGit) (owner : Owner) (attrs : Attributes) (p : GitContentPolicy)
    (work_dir : Text) (trace : Trace)
    → is_abs work_dir ≡ true
    → All (SafeGoGitCall work_dir (join_path work_dir (codes "content")) owner sys.node_at) trace
    → All
        (SafeGoGitCall work_dir (join_path work_dir (codes "content")) owner sys.node_at)
        (materialize sys lib owner attrs p work_dir trace).1
unfolding materialize Keeps
materialize-SafeGoGitCall sys lib owner attrs p work_dir trace w t =
    let content = join_path work_dir (codes "content") in
    let P = SafeGoGitCall work_dir content owner sys.node_at in
    let c_abs = join_path-is_abs work_dir (codes "content") w in
    Keeps->> P _ _ (Keeps-call P _ (made_all work_dir _) refl)
      (Keeps->>= P _ _
        (clone-SafeGoGitCall work_dir content owner sys c_abs lib attrs p.clone.default_depth)
        (λ repo.
          Keeps->>= P _ _
            (resolve_hash-SafeGoGitCall work_dir content owner sys c_abs lib repo attrs)
            (λ hash. Keeps->>= P _ _ (Keeps-wrap P _ _ (Keeps-lift P _)) (λ commit.
              Keeps->>= P _ _ (Keeps-wrap P _ _ (Keeps-lift P _)) (λ root.
                Keeps->>= P _ _
                  (tree_at-SafeGoGitCall work_dir content owner sys c_abs lib root attrs.path)
                  (λ tree.
                    lay_out-SafeGoGitCall work_dir content owner sys c_abs lib attrs p commit
                      tree))))))
      trace t

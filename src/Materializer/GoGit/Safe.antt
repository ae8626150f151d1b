-- ===== src/Materializer/GoGit/Safe.antt =====
-- What the go-git backend writes.
use gitrepo_csi_driver.Base.{
  List, Result, ok, ◌≡◌, ◌≢◌, ◌⊎◌, inr, refl, ap, ◌∙◌, ◌==◌, true, false, not, [], ◌∷◌, ◌++◌,
  append_assoc, some, All-append,
}
use gitrepo_csi_driver.Files.{Node}
use gitrepo_csi_driver.Files.Mode.{read_only_perm, IsReadOnly, read_only_perm-IsReadOnly}
use gitrepo_csi_driver.Materializer.Action.{
  Keeps, Keeps->>=, Keeps->>, Keeps-lift, Keeps-lift_then, Keeps-lift_pass, Keeps-call, Keeps-if,
}
use gitrepo_csi_driver.Materializer.Backend.{public_dir_perm}
use gitrepo_csi_driver.Materializer.Copy.{Write, make_dir, make_link, make_file}
use gitrepo_csi_driver.Materializer.Copy.Safe.{IsContained}
use gitrepo_csi_driver.Materializer.Copy.Success.{IsNamed}
use gitrepo_csi_driver.Materializer.GoGit.Export.{
  write, export_symlink, export_regular_file, export_at, export_contained, export_file,
  export_files, export_tree,
}
use gitrepo_csi_driver.Materializer.GoGit.Library.{
  Trace, GitFile, Call, cloned, removed_all, made_all, wrote, lchown, GoGit, System, symlink_mode,
}
use gitrepo_csi_driver.Materializer.GoGit.Run.{Owner}
use gitrepo_csi_driver.Materializer.Limits.{Count}
use gitrepo_csi_driver.Materializer.Path.{safe_join, validate_symlink_target}
use gitrepo_csi_driver.Materializer.Path.Inside.{IsWithin, validate_symlink_target_iff}
use gitrepo_csi_driver.Materializer.Path.Laws.{safe_join-IsInside}
use gitrepo_csi_driver.Paths.{CleanPath, parse_path, is_abs, join_path, dir}
use gitrepo_csi_driver.Paths.Below.{abs-ne-nil}
use gitrepo_csi_driver.Paths.Join.{below}
use gitrepo_csi_driver.Text.{Text}
use gitrepo_csi_driver.Volume.RepoPath.{dot_git, has_git_path_segment}

-- A path that is another one or below it, by the names.
abbrev pub IsAt : Text → Text → Type 0
IsAt root path = (rest : List Text) × ((parse_path path).names ≡ (parse_path root).names ++ rest)

module _ (work_dir content : Text) (owner : Owner) (node_at : Trace → Text → Result Node) where
  -- The content directory, a path in it, or the directory of one.
  abbrev pub IsContentDirectory : Text → Type 0
  IsContentDirectory path =
      (path ≡ content)
      ⊎ (IsContained content path ⊎ ((t : Text) × IsContained content t × (path ≡ dir t)))

  abbrev pub SafeWrite : Write → Type 0
  SafeWrite (make_dir path mode) = IsContentDirectory path × (mode ≡ public_dir_perm)
  SafeWrite (make_link target path) =
      IsContained content path
      × (is_abs target ≡ false)
      × IsWithin content (join_path (dir path) target)
  SafeWrite (make_file path mode text) = IsContained content path × IsReadOnly mode

  abbrev pub SafeGoGitCall : Call → Type 0
  SafeGoGitCall (cloned options) = options.no_checkout ≡ true
  SafeGoGitCall (removed_all path) = path ≡ content
  SafeGoGitCall (made_all path mode) = path ≡ work_dir
  SafeGoGitCall (wrote w) = SafeWrite w
  SafeGoGitCall (lchown path uid gid) =
      (owner ≡ some (uid, gid))
      × (at : Trace) × (node : Node) × (node_at at content ≡ ok node)
      × (IsNamed node → IsAt content path)

  -- What is below a directory of the content is below the content.
  pub IsContained-through :
      (inner path : Text)
      → (i : IsContained content inner) → (p : IsContained inner path) → IsContained content path
  IsContained-through inner path i p = record {
    rest = i.rest ++ p.rest;
    no_git = All-append (λ n. n ≢ dot_git) i.rest p.rest i.no_git p.no_git;
    joined = p.joined ∙ ap (λ q. below q p.rest) i.joined ∙ (λ k. record (parse_path content) {
      names = append_assoc (parse_path content).names i.rest p.rest k;
    });
  }

  IsWithin-through :
      (inner path : Text) → IsContained content inner → IsWithin inner path → IsWithin content path
  IsWithin-through inner path i (rest, e) = (
    i.rest ++ rest,
    e
        ∙ ap (λ (q : CleanPath). q.names ++ rest) i.joined
        ∙ append_assoc (parse_path content).names i.rest rest,
  )

  contained_abs :
      (path : Text) → is_abs content ≡ true → IsContained content path → is_abs path ≡ true
  unfolding is_abs parse_path
  contained_abs path a p = ap (λ (q : CleanPath). q.rooted) p.joined ∙ a

  module _ (sys : System) (c_abs : is_abs content ≡ true) where
    pub write-SafeGoGitCall : (w : Write) → SafeWrite w → Keeps SafeGoGitCall (write sys w)
    unfolding write
    write-SafeGoGitCall w h = Keeps-call SafeGoGitCall _ (wrote w) h

    -- Exporting to a directory of the content.
    module _ (lib : GoGit) (inner : Text) (i : IsContained content inner) where
      symlink-SafeGoGitCall :
          (f : GitFile) (target : Text)
          → IsContained inner target
          → Keeps SafeGoGitCall (export_symlink sys f target inner)
      unfolding export_symlink
      symlink-SafeGoGitCall f target t =
          let inner_abs = contained_abs inner c_abs i in
          let through = IsContained-through inner target i t in
          Keeps-lift_then SafeGoGitCall f.reader _ (λ link _.
            Keeps-lift_pass SafeGoGitCall (validate_symlink_target inner target link) _ (λ v.
              let (r, w) =
                (validate_symlink_target_iff inner target link inner_abs
                    (contained_abs target c_abs through)).0
                  v in
              write-SafeGoGitCall (make_link link target)
                (through, r, IsWithin-through inner (join_path (dir target) link) i w)))

      regular-SafeGoGitCall :
          (f : GitFile) (target : Text)
          → IsContained inner target
          → Keeps SafeGoGitCall (export_regular_file sys f target)
      unfolding export_regular_file
      regular-SafeGoGitCall f target t = Keeps-lift_then SafeGoGitCall f.reader _ (λ text _.
          Keeps->> SafeGoGitCall _ _
            (write-SafeGoGitCall (make_file target (read_only_perm f.mode) text)
              (IsContained-through inner target i t, read_only_perm-IsReadOnly f.mode))
            (Keeps-lift SafeGoGitCall _))

      export_at-SafeGoGitCall :
          (f : GitFile) (target : Text) (c : Count)
          → IsContained inner target
          → Keeps SafeGoGitCall (export_at sys lib inner f target c)
      unfolding export_at
      export_at-SafeGoGitCall f target c t =
          Keeps-if SafeGoGitCall (f.mode == symlink_mode) _ _
            (Keeps->> SafeGoGitCall _ _ (symlink-SafeGoGitCall f target t)
              (Keeps-lift SafeGoGitCall _))
            (Keeps-if SafeGoGitCall (not (lib.is_file f.mode)) _ _ (Keeps-lift SafeGoGitCall _) (
              Keeps->>= SafeGoGitCall _ _ (regular-SafeGoGitCall f target t)
                (λ n. Keeps-lift SafeGoGitCall _)))

      pub joined-IsContained : (name t : Text) → safe_join inner name ≡ ok t → IsContained inner t
      joined-IsContained name t h =
          let s =
            safe_join-IsInside inner name t (abs-ne-nil inner (contained_abs inner c_abs i)) h in
          record { rest = (parse_path name).names; no_git = s.no_git; joined = s.joined }

      export_file-SafeGoGitCall :
          (f : GitFile) (c : Count) → Keeps SafeGoGitCall (export_file sys lib inner f c)
      unfolding export_file export_contained
      export_file-SafeGoGitCall f c =
          Keeps-if SafeGoGitCall (has_git_path_segment f.name) _ _ (Keeps-lift SafeGoGitCall _) (
            Keeps-lift_then SafeGoGitCall (safe_join inner f.name) _ (λ target h.
              let t = joined-IsContained f.name target h in
              Keeps->> SafeGoGitCall _ _
                (write-SafeGoGitCall (make_dir (dir target) public_dir_perm)
                  (inr (inr (target, IsContained-through inner target i t, refl)), refl))
                (export_at-SafeGoGitCall f target c t)))

      export_files-SafeGoGitCall :
          (fs : List GitFile) (end : Result (Unit {0})) (c : Count)
          → Keeps SafeGoGitCall (export_files sys lib inner fs end c)
      unfolding export_files
      export_files-SafeGoGitCall [] end c =
          Keeps->> SafeGoGitCall _ _ (Keeps-lift SafeGoGitCall end) (Keeps-lift SafeGoGitCall _)
      export_files-SafeGoGitCall (f ∷ fs) end c =
          Keeps->>= SafeGoGitCall _ _ (export_file-SafeGoGitCall f c)
            (λ d. export_files-SafeGoGitCall fs end d)

      pub export_tree-SafeGoGitCall :
          (tree : lib.Tree) → Keeps SafeGoGitCall (export_tree sys lib inner tree)
      unfolding export_tree
      export_tree-SafeGoGitCall tree =
          export_files-SafeGoGitCall (lib.files tree).0 (lib.files tree).1 _

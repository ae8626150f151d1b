-- ===== src/Materializer/GoGit/Run.antt =====
-- `NewGoGit`, `Materialize`, `resolveHash` and `chownTree` of pkg/materializer/gogit.go.
use gitrepo_csi_driver.Base.{
  ℕ, Bool, true, false, not, ◌&&◌, ◌||◌, [], ◌∷◌, ◌++◌, Result, ok, err, errorf, bytes, Option,
  none, some, if◌then◌else◌, is_nil,
}
use gitrepo_csi_driver.Base.Int.{ℤ, pos}
use gitrepo_csi_driver.Files.{Node, Visit, walk, walk_error}
use gitrepo_csi_driver.Materializer.Action.{Action, ◌>>=◌, ◌>>◌, lift, call, wrap}
use gitrepo_csi_driver.Materializer.Argv.{depth_or}
use gitrepo_csi_driver.Materializer.Backend.{public_dir_perm, Materialized, private_dir_perm}
use gitrepo_csi_driver.Materializer.Copy.{make_dir, visit_of}
use gitrepo_csi_driver.Materializer.GoGit.Export.{write, export_tree}
use gitrepo_csi_driver.Materializer.GoGit.Library.{
  CloneOptions, Call, Trace, cloned, removed_all, made_all, lchown, GoGit, System,
}
use gitrepo_csi_driver.Materializer.GoGit.Submodules.{no_count, export_submodules}
use gitrepo_csi_driver.Materializer.Limits.{add_counts, Count, check_limits}
use gitrepo_csi_driver.Materializer.Path.{has_parent_path_segment}
use gitrepo_csi_driver.Materializer.Ref.{is_pinned_commit, mutable_ref}
use gitrepo_csi_driver.Paths.{join_path, clean, is_local}
use gitrepo_csi_driver.Policy.Types.{GitContentPolicy}
use gitrepo_csi_driver.Text.{Text, codes, contains, has_prefix}
use gitrepo_csi_driver.Text.Number.{equal_fold, parse_uint32}
use gitrepo_csi_driver.Volume.{Attributes}
use gitrepo_csi_driver.Volume.RepoPath.{has_git_path_segment}

-- `goGitBackend`: the owner of the content, `none` where the environment names none.
abbrev pub Owner : Type 0
Owner = Option (ℕ × ℕ)

-- `NewGoGit`, from the two variables of the environment.
unfoldable pub new_go_git : Text → Text → Result Owner
new_go_git uid_raw gid_raw =
    if (is_nil uid_raw && not (is_nil gid_raw)) || (not (is_nil uid_raw) && is_nil gid_raw)
    then err (errorf "both GITCONTENT_GIT_RUN_AS_UID and GITCONTENT_GIT_RUN_AS_GID are required" [])
    else if is_nil uid_raw
    then ok none
    else elim (parse_uint32 uid_raw) [
      | none ↦ err (errorf "invalid GITCONTENT_GIT_RUN_AS_UID: %w" [])
      | some uid ↦ elim (parse_uint32 gid_raw) [
        | none ↦ err (errorf "invalid GITCONTENT_GIT_RUN_AS_GID: %w" [])
        | some gid ↦ ok (some (uid, gid))
      ]
    ]

module _ (sys : System) where
  -- `chownTree`
  unfoldable pub chown_entry : ℕ → ℕ → Text → Node → Trace → Visit × Trace
  chown_entry uid gid path node trace =
      (visit_of (sys.answer (trace ++ lchown path uid gid ∷ [])), trace ++ lchown path uid gid ∷ [])

  unfoldable pub chown_node : Text → ℕ → ℕ → Result Node → Action Call (Unit {0})
  chown_node root uid gid (err e) trace = (err e, trace)
  chown_node root uid gid (ok node) trace =
      let (v, later) = walk (chown_entry uid gid) root node trace in (walk_error v, later)

  unfoldable pub chown_tree : Text → ℕ → ℕ → Action Call (Unit {0})
  chown_tree root uid gid trace = chown_node root uid gid (sys.node_at trace root) trace

  unfoldable pub chown_content : Text → Owner → Action Call (Unit {0})
  chown_content content_dir none = lift (ok tt)
  chown_content content_dir (some (uid, gid)) = chown_tree content_dir uid gid

  -- The credentials of the environment.
  unfoldable pub http_auth : Option (Text × Text)
  http_auth =
      let user = sys.getenv (codes "GITCONTENT_HTTP_USERNAME") in
      if is_nil user then none else some (user, sys.getenv (codes "GITCONTENT_HTTP_PASSWORD"))

  module _ (lib : GoGit) where
    -- Whether a ref is taken for a tag's name.
    unfoldable pub names_tag : Attributes → Bool
    names_tag attrs =
        contains attrs.revision_kind (codes "tag")
        || has_prefix attrs.revision (codes "refs/tags/")
        || has_prefix attrs.revision (codes "tag:")

    unfoldable pub has_ref : Attributes → Bool
    has_ref attrs =
        not (is_nil (mutable_ref attrs)) && not (equal_fold (mutable_ref attrs) (codes "HEAD"))

    unfoldable pub reference_name_of : Attributes → Text
    reference_name_of attrs =
        if not (has_ref attrs)
        then []
        else if names_tag attrs
        then lib.tag_reference_name (mutable_ref attrs)
        else lib.branch_reference_name (mutable_ref attrs)

    unfoldable pub clone_options : Attributes → ℤ → CloneOptions
    clone_options attrs default_depth = record {
      url = attrs.repo;
      depth = depth_or attrs.depth default_depth;
      no_checkout = true;
      reference_name = reference_name_of attrs;
      single_branch = has_ref attrs;
      auth = http_auth;
    }

    unfoldable pub resolve_hash : lib.Repository → Attributes → Action Call Text
    resolve_hash repo attrs =
        if is_pinned_commit attrs.revision
        then lift (ok (lib.new_hash attrs.revision))
        else wrap "resolve HEAD failed: %w" (lift (lib.head repo))

    -- The tree at the path that is asked for.
    unfoldable pub tree_at : lib.Tree → Text → Action Call lib.Tree
    tree_at tree path =
        let cleaned = clean path in
        if is_nil path
        then lift (ok tree)
        else if not (is_local cleaned)
            || has_parent_path_segment cleaned
            || has_git_path_segment cleaned
        then lift (err (errorf "invalid path %s" (bytes path ∷ [])))
        else wrap "path %s not found in repository: %w" (lift (lib.subtree tree cleaned))

    unfoldable pub export_all : Attributes → GitContentPolicy → lib.Tree → Text → Action Call Count
    export_all attrs p tree content_dir = do
      c ← export_tree sys lib content_dir tree
      d ←
          if attrs.submodules
          then export_submodules sys lib content_dir http_auth p.submodules.max_depth tree
          else lift (ok no_count)
      lift (ok (add_counts c d))

    unfoldable pub lay_out :
        Owner
        → Attributes
        → GitContentPolicy
        → lib.Commit
        → lib.Tree
        → Text
        → Action Call Materialized
    lay_out owner attrs p commit tree content_dir = do
      call sys.answer (removed_all content_dir)
      write sys (make_dir content_dir public_dir_perm)
      c ← export_all attrs p tree content_dir
      lift (check_limits p.clone (pos c.files) (pos c.size))
      chown_content content_dir owner
      lift (
          ok (record {
            resolved_revision = lib.commit_hash commit;
            repo_path = [];
            mounted_path = content_dir;
            file_count = pos c.files;
            size_bytes = pos c.size;
            cache_hit = false;
          }))

    unfoldable pub materialize :
        Owner → Attributes → GitContentPolicy → Text → Action Call Materialized
    materialize owner attrs p work_dir = do
      call sys.answer (made_all work_dir private_dir_perm)
      repo ←
          wrap "git clone failed: %w"
            (call lib.clone (cloned (clone_options attrs p.clone.default_depth)))
      hash ← resolve_hash repo attrs
      commit ← wrap "resolve commit failed: %w" (lift (lib.commit_object repo hash))
      root ← wrap "get tree failed: %w" (lift (lib.commit_tree commit))
      tree ← tree_at root attrs.path
      lay_out owner attrs p commit tree (join_path work_dir (codes "content"))

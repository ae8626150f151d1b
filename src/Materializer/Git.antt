-- ===== src/Materializer/Git.antt =====
-- `gitBinaryBackend` of pkg/materializer/gitbinary.go: what `Materialize` does, step by step.
pub mod Options
pub mod Safe
pub mod Calls
pub mod Outcome
use gitrepo_csi_driver.Base.{
  ℕ, Bool, true, false, not, ◌&&◌, ◌||◌, List, [], ◌∷◌, ◌++◌, String, Result, ok, err, Error,
  errorf, wrapf, bytes, if◌then◌else◌, is_nil, any, Option, none, some,
}
use gitrepo_csi_driver.Base.Int.{ℤ, pos, negsuc, ltb_ℤ}
use gitrepo_csi_driver.Files.{Node, symlink, is_dir}
use gitrepo_csi_driver.Materializer.Action.{Action, ◌>>=◌, ◌>>◌, lift, wrap, call}
use gitrepo_csi_driver.Materializer.Argv.{
  validate_git_args, git_args, command_settings, string_trim, is_mutable_revision, reject_given,
  clone_args, clone_commit_args, fetch_args, depth_or, checkout_ref, check_sha, rev_parse_args,
  check_directory, source_path_of,
}
use gitrepo_csi_driver.Materializer.Backend.{Materialized, private_dir_perm}
use gitrepo_csi_driver.Materializer.Copy.{Log, copy_content_tree}
use gitrepo_csi_driver.Materializer.Limits.{Count, count_files, check_limits}
use gitrepo_csi_driver.Materializer.Path.{ensure_inside, safe_join}
use gitrepo_csi_driver.Materializer.Ref.{is_pinned_commit, mutable_ref, reject_git_flag_operand}
use gitrepo_csi_driver.Paths.{join_path}
use gitrepo_csi_driver.Policy.Types.{GitContentPolicy}
use gitrepo_csi_driver.Text.{Text, codes, same, contains, contains_any}
use gitrepo_csi_driver.Text.Itoa.{itoa}
use gitrepo_csi_driver.Text.Number.{parse_uint32}
use gitrepo_csi_driver.Volume.{Attributes}
use gitrepo_csi_driver.Materializer.GitCommand.{
  Command, Call, made_all, chmod, stat, lstat, git, removed_all, copied, Trace, Environment,
  prepare_work_dir_for_git, run_git, git_output,
}

-- `countFiles` of what stands at a path.
unfoldable pub counted : Text → Result Node → Result Count
counted content (err e) = err e
counted content (ok node) =
    let (r, c) = count_files content node in elim r [ err e ↦ err e | ok _ ↦ ok c ]

module _ (env : Environment) where
  unfoldable pub fetch_mutable_revision : Attributes → Text → Action Call (Unit {0})
  fetch_mutable_revision attrs repo_dir = if is_nil (mutable_ref attrs) then lift (ok tt) else do
    lift (reject_git_flag_operand (mutable_ref attrs) (codes "volume attribute revision"))
    wrap "git fetch failed: %w" (run_git env repo_dir (fetch_args attrs (mutable_ref attrs)))

  unfoldable pub clone_commit : Attributes → Text → Text → ℤ → Action Call (Unit {0})
  clone_commit attrs work_dir repo_dir depth = do
    lift (reject_git_flag_operand attrs.repo (codes "volume attribute repo"))
    wrap "git clone failed: %w" (run_git env work_dir (clone_commit_args depth attrs.repo repo_dir))

  unfoldable pub clone_ref : Attributes → Text → Text → ℤ → Action Call (Unit {0})
  clone_ref attrs work_dir repo_dir depth = do
    lift (reject_git_flag_operand attrs.repo (codes "volume attribute repo"))
    lift (reject_given (mutable_ref attrs))
    wrap "git clone failed: %w"
        (run_git env work_dir (clone_args depth (mutable_ref attrs) attrs.repo repo_dir))

  -- The part of `cloneOrRefresh` for a repository that is not there yet.
  unfoldable pub clone_repository : Attributes → Text → Text → ℤ → Action Call (Unit {0})
  clone_repository attrs work_dir repo_dir depth =
      if is_pinned_commit attrs.revision
      then clone_commit attrs work_dir repo_dir depth
      else clone_ref attrs work_dir repo_dir depth

  -- Whether the last call, an `os.Stat`, found something.
  unfoldable pub found : Trace → Result Bool
  found trace = elim (env.answer trace) [ err e ↦ ok false | ok _ ↦ ok true ]

  unfoldable pub refresh : Attributes → Text → Action Call (Unit {0})
  refresh attrs repo_dir =
      if is_mutable_revision attrs then fetch_mutable_revision attrs repo_dir else lift (ok tt)

  unfoldable pub clone_or_refresh : Attributes → Text → Text → ℤ → Action Call (Unit {0})
  clone_or_refresh attrs work_dir repo_dir depth = do
    there ← call found (stat (join_path repo_dir (codes ".git")))
    if there then refresh attrs repo_dir else clone_repository attrs work_dir repo_dir depth

  unfoldable pub checkout : Text → Text → Action Call (Unit {0})
  checkout repo_dir revision =
      wrap "git checkout failed: %w"
        (run_git env repo_dir (codes "checkout" ∷ codes "--detach" ∷ revision ∷ []))

  -- The ref is resolved first, and the commit that git names is checked out.
  unfoldable pub checkout_resolved : Text → Text → Action Call (Unit {0})
  checkout_resolved repo_dir ref = do
    lift (reject_git_flag_operand ref (codes "volume attribute revision"))
    sha ← wrap "git rev-parse failed: %w" (git_output env repo_dir (rev_parse_args ref))
    lift (check_sha sha)
    checkout repo_dir sha

  unfoldable pub checkout_revision : Attributes → Text → Action Call (Unit {0})
  checkout_revision attrs repo_dir =
      if is_pinned_commit attrs.revision
      then checkout repo_dir attrs.revision
      else checkout_resolved repo_dir (checkout_ref attrs)

  unfoldable pub update_submodules : Attributes → GitContentPolicy → Text → Action Call (Unit {0})
  update_submodules attrs p repo_dir =
      if attrs.submodules
      then wrap "git submodule update failed: %w" (
          run_git env repo_dir (
            codes "submodule"
            ∷ codes "update"
            ∷ codes "--init"
            ∷ codes "--depth"
            ∷ itoa p.submodules.max_depth
            ∷ []))
      else lift (ok tt)

  -- `os.Lstat`, and the tests on what it finds.
  unfoldable pub check_source : Text → Text → Action Call (Unit {0})
  check_source source path = do
    node ← call (λ t. env.node_at t source) (lstat source)
    lift (check_directory path node)

  -- `CopyContentTree`, and `countFiles`, on what stands at the source.
  unfoldable pub copy_tree : Text → Text → Action Call (Unit {0})
  copy_tree source target trace =
      let (r, log) =
        copy_content_tree (env.write_answer trace) source target (env.node_at trace source) [] in
      (r, trace ++ copied source target log ∷ [])

  unfoldable pub count_content : Text → Action Call Count
  count_content content trace = (counted content (env.node_at trace content), trace)

  -- What follows the checkout: the result for a content directory.
  unfoldable pub lay_out :
      Attributes → GitContentPolicy → Text → Text → Text → Action Call Materialized
  lay_out attrs p resolved repo_dir content_dir = do
    source ← lift (source_path_of repo_dir attrs.path)
    lift (ensure_inside repo_dir source)
    check_source source attrs.path
    call env.answer (removed_all content_dir)
    copy_tree source content_dir
    c ← count_content content_dir
    lift (check_limits p.clone (pos c.files) (pos c.size))
    lift (
        ok (record {
          resolved_revision = resolved;
          repo_path = repo_dir;
          mounted_path = content_dir;
          file_count = pos c.files;
          size_bytes = pos c.size;
          cache_hit = false;
        }))

  unfoldable pub materialize : Attributes → GitContentPolicy → Text → Action Call Materialized
  materialize attrs p work_dir = do
    call env.answer (made_all work_dir private_dir_perm)
    prepare_work_dir_for_git env work_dir
    let repo_dir = join_path work_dir (codes "repo")
    clone_or_refresh attrs work_dir repo_dir (depth_or attrs.depth p.clone.default_depth)
    checkout_revision attrs repo_dir
    update_submodules attrs p repo_dir
    resolved ←
        wrap "resolve revision failed: %w"
          (git_output env repo_dir (codes "rev-parse" ∷ codes "HEAD" ∷ []))
    lay_out attrs p resolved repo_dir (join_path work_dir (codes "content"))

-- ===== src/Materializer/GoGit/Export.antt =====
-- `exportTree`, `exportSymlink` and `exportRegularFile` of pkg/materializer/gogit.go. A file that is
-- made is one call with its content.
use gitrepo_csi_driver.Materializer.Backend.{public_dir_perm}
use gitrepo_csi_driver.Base.{ℕ, ◌+◌, ◌==◌, not, List, [], ◌∷◌, Result, ok, if◌then◌else◌, length}
use gitrepo_csi_driver.Text.{Text}
use gitrepo_csi_driver.Paths.{dir}
use gitrepo_csi_driver.Files.Mode.{read_only_perm}
use gitrepo_csi_driver.Volume.RepoPath.{has_git_path_segment}
use gitrepo_csi_driver.Materializer.Path.{safe_join, validate_symlink_target}
use gitrepo_csi_driver.Materializer.Limits.{Count}
use gitrepo_csi_driver.Materializer.Copy.{Write, make_dir, make_link, make_file}
use gitrepo_csi_driver.Materializer.Action.{Action, ◌>>=◌, ◌>>◌, lift, call}
use gitrepo_csi_driver.Materializer.GoGit.Library.{
  GitFile, Call, wrote, GoGit, System, symlink_mode,
}

module _ (sys : System) where
  unfoldable pub write : Write → Action Call (Unit {0})
  write w = call sys.answer (wrote w)

  unfoldable pub export_symlink : GitFile → Text → Text → Action Call (Unit {0})
  export_symlink f target content_dir = do
    link_target ← lift f.reader
    lift (validate_symlink_target content_dir target link_target)
    write (make_link link_target target)

  -- The number of bytes that were copied.
  unfoldable pub export_regular_file : GitFile → Text → Action Call ℕ
  export_regular_file f target = do
    content ← lift f.reader
    write (make_file target (read_only_perm f.mode) content)
    lift (ok (length content))

  module _ (lib : GoGit) (content_dir : Text) where
    -- What is done with a file whose parent directory is there.
    unfoldable pub export_at : GitFile → Text → Count → Action Call Count
    export_at f target c =
        if f.mode == symlink_mode
        then export_symlink f target content_dir >> lift (ok c)
        else if not (lib.is_file f.mode)
        then lift (ok c)
        else export_regular_file f target
          >>= (λ n. lift (ok (record { files = c.files + 1; size = c.size + n })))

    unfoldable pub export_contained : GitFile → Count → Action Call Count
    export_contained f c = do
      target ← lift (safe_join content_dir f.name)
      write (make_dir (dir target) public_dir_perm)
      export_at f target c

    -- The function that is called for each file.
    unfoldable pub export_file : GitFile → Count → Action Call Count
    export_file f c = if has_git_path_segment f.name then lift (ok c) else export_contained f c

    unfoldable pub export_files : List GitFile → Result (Unit {0}) → Count → Action Call Count
    export_files [] end c = lift end >> lift (ok c)
    export_files (f ∷ fs) end c = export_file f c >>= (λ d. export_files fs end d)

    unfoldable pub export_tree : lib.Tree → Action Call Count
    export_tree tree =
        let (fs, end) = lib.files tree in export_files fs end (record { files = 0; size = 0 })

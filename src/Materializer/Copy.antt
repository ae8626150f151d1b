-- ===== src/Materializer/Copy.antt =====
-- `CopyContentTree` and `copyRegularFile` of pkg/materializer/gitbinary.go. What they write is recorded
-- in a log; what a write answers is a function of the log that ends with it. Reading a file or a link
-- does not fail.
pub mod Safe
pub mod Spec
pub mod Exact
pub mod Refine
pub mod Success
pub mod Outcome
use gitrepo_csi_driver.Materializer.Backend.{public_dir_perm}
use gitrepo_csi_driver.Base.{
  ℕ, Bool, true, false, not, ◌||◌, List, [], ◌∷◌, ◌++◌, Result, ok, err, Error, errorf,
  if◌then◌else◌,
}
use gitrepo_csi_driver.Text.{Text, same}
use gitrepo_csi_driver.Paths.{dot, is_local, clean, rel, dir}
use gitrepo_csi_driver.Files.{
  Node, regular, symlink, directory, unlistable, special, is_dir, Visit, continue, skip_dir, fail,
  walk, walk_error,
}
use gitrepo_csi_driver.Files.Mode.{read_only_perm}
use gitrepo_csi_driver.Volume.RepoPath.{has_git_path_segment}
use gitrepo_csi_driver.Materializer.Path.{
  has_parent_path_segment, safe_join, validate_symlink_target,
}

-- `os.MkdirAll`, `os.Symlink`, and a new file with its content.
pub data Write : Type 0 where
  make_dir : (path : Text) → (mode : ℕ) → Write
  make_link : (target path : Text) → Write
  make_file : (path : Text) → (mode : ℕ) → (content : Text) → Write

abbrev pub Log : Type 0
Log = List Write

abbrev pub visit_of : Result (Unit {0}) → Visit
visit_of (ok _) = continue
visit_of (err e) = fail e

module _ (answer : Log → Result (Unit {0})) where
  -- One write, whose error is the walk function's.
  unfoldable pub write : Write → Log → Visit × Log
  write w log = (visit_of (answer (log ++ w ∷ [])), log ++ w ∷ [])

  -- The parent directory, then the file.
  unfoldable pub write_file : Text → ℕ → Text → Log → Visit × Log
  write_file path mode content log =
      let made = log ++ make_dir (dir path) public_dir_perm ∷ [] in
      elim (answer made) [
        | err e ↦ (fail e, made)
        | ok _ ↦ write (make_file path (read_only_perm mode) content) made
      ]

  unfoldable pub copy_regular_file : Text → Text → ℕ → Text → Log → Visit × Log
  copy_regular_file dst_root rel_path mode content log = elim (safe_join dst_root rel_path) [
    | err e ↦ (fail e, log)
    | ok dst ↦ write_file dst mode content log
  ]

  module _ (src dst : Text) where
    -- What is done with an entry whose target is known.
    unfoldable pub copy_node : Text → Text → Text → Node → Log → Visit × Log
    copy_node path rel_path target (symlink link_target) log =
        elim (validate_symlink_target src path link_target) [
          | err e ↦ (fail e, log)
          | ok _ ↦ write (make_link link_target target) log
        ]
    copy_node path rel_path target (directory es) log = write (make_dir target public_dir_perm) log
    copy_node path rel_path target (unlistable e) log = write (make_dir target public_dir_perm) log
    copy_node path rel_path target special log = (continue, log)
    copy_node path rel_path target (regular mode content) log =
        copy_regular_file dst rel_path mode content log

    -- The walk function behind `rel = filepath.Clean(rel)`.
    unfoldable pub copy_relative : Text → Text → Node → Log → Visit × Log
    copy_relative path rel_path node log =
        if same rel_path dot
        then write (make_dir dst public_dir_perm) log
        else if not (is_local rel_path) || has_parent_path_segment rel_path
        then (fail (errorf "repository path escapes source root" []), log)
        else if has_git_path_segment rel_path
        then (if is_dir node then skip_dir else continue, log)
        else elim (safe_join dst rel_path) [
          | err e ↦ (fail e, log)
          | ok target ↦ copy_node path rel_path target node log
        ]

    unfoldable pub copy_entry : Text → Node → Log → Visit × Log
    copy_entry path node log = elim (rel src path) [
      | err e ↦ (fail e, log)
      | ok rel_path ↦ copy_relative path (clean rel_path) node log
    ]

  -- The source is the tree at its path, or the error of looking it up.
  unfoldable pub copy_content_tree : Text → Text → Result Node → Log → Result (Unit {0}) × Log
  copy_content_tree src dst (err e) log = (err e, log)
  copy_content_tree src dst (ok node) log =
      let (v, after) = walk (copy_entry (clean src) (clean dst)) (clean src) node log in
      (walk_error v, after)

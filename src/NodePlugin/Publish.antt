-- ===== src/NodePlugin/Publish.antt =====
-- `chmodReadOnly` of cmd/nodeplugin/publish.go. Its changes of modes are recorded in a log; what a change
-- answers is a function of the log that ends with it.
pub mod Laws
pub mod Outcome
use gitrepo_csi_driver.Base.{
  ℕ, ◌≡◌, refl, sym, ap, ◌∙◌, List, [], ◌∷◌, ◌++◌, append_assoc, append-nil, Result, ok, err, All,
  All-append,
}
use gitrepo_csi_driver.Text.{Text}
use gitrepo_csi_driver.Paths.{join_path}
use gitrepo_csi_driver.Files.{
  Node, regular, symlink, directory, unlistable, special, Entries, end, entry, Visit, continue,
  skip_dir, fail, and_then, walk, walk_entries, walk_error,
}
use gitrepo_csi_driver.Files.Walk.{walk-keeps}
use gitrepo_csi_driver.Files.Mode.{
  read_only_perm, read_execute, IsReadOnly, read_only_perm-IsReadOnly,
}
use gitrepo_csi_driver.Materializer.Copy.{visit_of}
use gitrepo_csi_driver.Materializer.Limits.Laws.{IsListable, AllListable}

-- `os.Chmod(path, mode)`
pub record Chmod : Type 0 where
  pub path : Text
  pub mode : ℕ

abbrev pub Changes : Type 0
Changes = List Chmod

module _ (answer : Changes → Result (Unit {0})) where
  unfoldable pub change : Text → ℕ → Changes → Visit × Changes
  change path mode log =
      let changed = log ++ record { path = path; mode = mode } ∷ [] in
      (visit_of (answer changed), changed)

  unfoldable pub chmod_node : Text → Node → Changes → Visit × Changes
  chmod_node path (symlink target) log = (continue, log)
  chmod_node path (directory es) log = change path read_execute log
  chmod_node path (unlistable e) log = change path read_execute log
  chmod_node path (regular mode content) log = change path (read_only_perm mode) log
  chmod_node path special log = (continue, log)

  -- The tree at the root, or the error of looking it up.
  unfoldable pub chmod_read_only : Text → Result Node → Changes → Result (Unit {0}) × Changes
  chmod_read_only root (err e) log = (err e, log)
  chmod_read_only root (ok node) log =
      let (v, changes) = walk chmod_node root node log in (walk_error v, changes)

-- ===== src/NodePlugin/Publish/Laws.antt =====
-- `chmodReadOnly` takes the write permissions off a whole tree.
use gitrepo_csi_driver.Base.{
  ℕ, ◌≡◌, refl, sym, ap, ◌∙◌, [], ◌∷◌, ◌++◌, append_assoc, append-nil, Result, ok, All, All-append,
}
use gitrepo_csi_driver.Text.{Text}
use gitrepo_csi_driver.Paths.{join_path}
use gitrepo_csi_driver.Files.{
  Node, regular, symlink, directory, unlistable, special, Entries, end, entry, continue, walk,
  walk_entries,
}
use gitrepo_csi_driver.Files.Mode.{
  read_only_perm, read_execute, IsReadOnly, read_only_perm-IsReadOnly,
}
use gitrepo_csi_driver.Materializer.Limits.Laws.{IsListable, AllListable}
use gitrepo_csi_driver.NodePlugin.Publish.{Chmod, Changes, change, chmod_node, chmod_read_only}

-- A directory, everything in it, and each regular file, in the order of the walk.
unfoldable mutual
  pub modes : Text → Node → Changes
  modes path (directory es) = record { path = path; mode = read_execute } ∷ modes_of path es
  modes path (unlistable e) = record { path = path; mode = read_execute } ∷ []
  modes path (regular mode content) = record { path = path; mode = read_only_perm mode } ∷ []
  modes path (symlink target) = []
  modes path special = []

  pub modes_of : Text → Entries → Changes
  modes_of path end = []
  modes_of path (entry name node es) = modes (join_path path name) node ++ modes_of path es

module _ (answer : Changes → Result (Unit {0}))
    (succeeds : (log : Changes) → answer log ≡ ok tt) where
  change-continue :
      (path : Text) (mode : ℕ) (log : Changes)
      → change answer path mode log ≡ (continue, log ++ record { path = path; mode = mode } ∷ [])
  unfolding change
  change-continue path mode log =
      rw (succeeds (log ++ record { path = path; mode = mode } ∷ [])) refl

  mutual
    unfolding walk walk_entries chmod_node modes modes_of IsListable

    walk-modes :
        (path : Text) (node : Node) (log : Changes)
        → IsListable node
        → walk (chmod_node answer) path node log ≡ (continue, log ++ modes path node)
    walk-modes path (directory es) log h = rw (change-continue path read_execute log) (
        walk_entries-modes path es (log ++ record { path = path; mode = read_execute } ∷ []) h
        ∙ ap (λ l. (continue, l))
            (append_assoc log (record { path = path; mode = read_execute } ∷ [])
              (modes_of path es)))
    walk-modes path (unlistable e) log h = absurd h
    walk-modes path (regular mode content) log h = change-continue path (read_only_perm mode) log
    walk-modes path (symlink target) log h = ap (λ l. (continue, l)) (sym (append-nil log))
    walk-modes path special log h = ap (λ l. (continue, l)) (sym (append-nil log))

    walk_entries-modes :
        (path : Text) (es : Entries) (log : Changes)
        → AllListable es
        → walk_entries (chmod_node answer) path es log ≡ (continue, log ++ modes_of path es)
    walk_entries-modes path end log h = ap (λ l. (continue, l)) (sym (append-nil log))
    walk_entries-modes path (entry name node es) log (h, hs) =
        rw (walk-modes (join_path path name) node log h) (
          walk_entries-modes path es (log ++ modes (join_path path name) node) hs
          ∙ ap (λ l. (continue, l))
              (append_assoc log (modes (join_path path name) node) (modes_of path es)))

mutual
  unfolding modes modes_of

  pub modes-IsReadOnly :
      (path : Text) (node : Node) → All (λ (c : Chmod). IsReadOnly c.mode) (modes path node)
  modes-IsReadOnly path (directory es) = (refl, modes_of-IsReadOnly path es)
  modes-IsReadOnly path (unlistable e) = (refl, tt)
  modes-IsReadOnly path (regular mode content) = (read_only_perm-IsReadOnly mode, tt)
  modes-IsReadOnly path (symlink target) = tt
  modes-IsReadOnly path special = tt

  modes_of-IsReadOnly :
      (path : Text) (es : Entries) → All (λ (c : Chmod). IsReadOnly c.mode) (modes_of path es)
  modes_of-IsReadOnly path end = tt
  modes_of-IsReadOnly path (entry name node es) =
      All-append (λ (c : Chmod). IsReadOnly c.mode) (modes (join_path path name) node)
        (modes_of path es) (modes-IsReadOnly (join_path path name) node)
        (modes_of-IsReadOnly path es)

-- Where no call fails and all directories can be read, `chmodReadOnly` succeeds and changes the mode of
-- every directory and regular file of the tree, in the order of the walk, and of nothing else, to one with
-- which nobody may write.
pub chmod_read_only-modes :
    (answer : Changes → Result (Unit {0})) (root : Text) (node : Node)
    → ((log : Changes) → answer log ≡ ok tt)
    → IsListable node
    → (chmod_read_only answer root (ok node) [] ≡ (ok tt, modes root node))
      × All (λ (c : Chmod). IsReadOnly c.mode) (modes root node)
unfolding chmod_read_only
chmod_read_only-modes answer root node succeeds h =
    (rw (walk-modes answer succeeds root node [] h) refl, modes-IsReadOnly root node)

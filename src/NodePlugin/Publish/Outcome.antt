-- ===== src/NodePlugin/Publish/Outcome.antt =====
-- What `chmodReadOnly` has done when it returns no error.
use gitrepo_csi_driver.Base.{
  ℕ, ◌≡◌, inl, inr, refl, sym, ap, ◌∙◌, [], ◌∷◌, ◌++◌, append_assoc, append-nil, Result, ok, err,
  All, Result-cases,
}
use mathlib.Core.Path.{subst}
use gitrepo_csi_driver.Text.{Text}
use gitrepo_csi_driver.Paths.{join_path}
use gitrepo_csi_driver.Files.{
  Node, regular, symlink, directory, unlistable, special, Entries, end, entry, Visit, continue,
  fail, and_then, walk, walk_entries,
}
use gitrepo_csi_driver.Files.Walk.{IsDone, and_then-IsDone}
use gitrepo_csi_driver.Files.Mode.{read_only_perm, read_execute, IsReadOnly}
use gitrepo_csi_driver.Materializer.Limits.Laws.{IsListable, AllListable}
use gitrepo_csi_driver.NodePlugin.Publish.{Chmod, Changes, change, chmod_node, chmod_read_only}
use gitrepo_csi_driver.NodePlugin.Publish.Laws.{modes, modes_of, modes-IsReadOnly}

module _ (answer : Changes → Result (Unit {0})) where
  change_done :
      (path : Text) (mode : ℕ) (log : Changes)
      → IsDone (change answer path mode log)
      → change answer path mode log ≡ (continue, log ++ record { path = path; mode = mode } ∷ [])
  unfolding change
  change_done path mode log h =
      elim (Result-cases (answer (log ++ record { path = path; mode = mode } ∷ []))) [
        | inl (e, k) ↦ let l : err e ≡ ok tt = rw k at h in cc
        | inr (u, k) ↦ rw k refl
      ]

  mutual
    unfolding walk walk_entries chmod_node modes modes_of IsListable

    walk-changed :
        (path : Text) (node : Node) (log : Changes)
        → IsDone (walk (chmod_node answer) path node log)
        → IsListable node
          × (walk (chmod_node answer) path node log ≡ (continue, log ++ modes path node))
    walk-changed path (directory es) log h =
        let made : Changes = log ++ record { path = path; mode = read_execute } ∷ [] in
        let next : Changes → Visit × Changes = λ t. walk_entries (chmod_node answer) path es t in
        let w =
          ap (λ r. and_then r next)
            (change_done path read_execute log
              (and_then-IsDone (change answer path read_execute log) next h)) in
        let (l, k) = walk_entries-changed path es made (subst IsDone w h) in
        (
          l,
          w
              ∙ k
              ∙ ap (λ l. (continue, l))
                  (append_assoc log (record { path = path; mode = read_execute } ∷ [])
                    (modes_of path es)),
        )
    walk-changed path (unlistable x) log h =
        let next : Changes → Visit × Changes = λ t. (fail x, t) in
        let w =
          ap (λ r. and_then r next)
            (change_done path read_execute log
              (and_then-IsDone (change answer path read_execute log) next h)) in
        let l : err x ≡ ok tt = subst IsDone w h in cc
    walk-changed path (regular mode content) log h =
        (tt, change_done path (read_only_perm mode) log h)
    walk-changed path (symlink target) log h = (tt, ap (λ l. (continue, l)) (sym (append-nil log)))
    walk-changed path special log h = (tt, ap (λ l. (continue, l)) (sym (append-nil log)))

    walk_entries-changed :
        (path : Text) (es : Entries) (log : Changes)
        → IsDone (walk_entries (chmod_node answer) path es log)
        → AllListable es
          × (walk_entries (chmod_node answer) path es log ≡ (continue, log ++ modes_of path es))
    walk_entries-changed path end log h = (tt, ap (λ l. (continue, l)) (sym (append-nil log)))
    walk_entries-changed path (entry name node es) log h =
        let next : Changes → Visit × Changes = λ t. walk_entries (chmod_node answer) path es t in
        let child = join_path path name in
        let (l, k) =
          walk-changed child node log
            (and_then-IsDone (walk (chmod_node answer) child node log) next h) in
        let w = ap (λ r. and_then r next) k in
        let (ls, m) = walk_entries-changed path es (log ++ modes child node) (subst IsDone w h) in
        (
          (l, ls),
          w ∙ m ∙ ap (λ l. (continue, l)) (append_assoc log (modes child node) (modes_of path es)),
        )

-- Each directory and regular file of the tree has been given a mode, in the order of the walk, and nobody
-- may write with any of the modes.
pub record IsProtected (root : Text) (node : Node) (log : Changes) : Type 0 where
  pub listable : IsListable node
  pub changes : log ≡ modes root node
  pub read_only : All (λ (c : Chmod). IsReadOnly c.mode) log

-- A call of `chmodReadOnly` that returns no error has read every directory of the tree, and changed the
-- mode of each directory and regular file in it to one with which nobody may write.
pub chmod_read_only-IsProtected :
    (answer : Changes → Result (Unit {0})) (root : Text) (node : Node)
    → (chmod_read_only answer root (ok node) []).0 ≡ ok tt
    → IsProtected root node (chmod_read_only answer root (ok node) []).1
unfolding chmod_read_only
chmod_read_only-IsProtected answer root node h =
    let (l, k) = walk-changed answer root node [] h in
    let e = ap (λ (r : Visit × Changes). r.1) k in
    record {
      listable = l;
      changes = e;
      read_only =
          subst (All (λ (c : Chmod). IsReadOnly c.mode)) (sym e) (modes-IsReadOnly root node);
    }

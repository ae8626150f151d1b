-- ===== src/Files/Walk.antt =====
-- What every call of the walk function keeps, the walk keeps.
use gitrepo_csi_driver.Files.{
  walk_error, Node, regular, symlink, directory, unlistable, special, Entries, end, entry, Visit,
  continue, skip_dir, fail, and_then, walk, walk_entries,
}
use gitrepo_csi_driver.Paths.{join_path}
use gitrepo_csi_driver.Base.{◌≡◌, refl, ok}
use gitrepo_csi_driver.Text.{Text}

module _ {ℓ κ} {State : Type ℓ} (P : State → Type κ) where
  pub and_then-keeps :
      (r : Visit × State) (next : State → Visit × State)
      → P r.1
      → ((s : State) → P s → P (next s).1)
      → P (and_then r next).1
  and_then-keeps (continue, s) next h k = k s h
  and_then-keeps (skip_dir, s) next h k = h
  and_then-keeps (fail e, s) next h k = h

  -- `At` holds of the paths that are visited.
  module _ (At : Text → Type 0) (down : (path name : Text) → At path → At (join_path path name))
      (visit : Text → Node → State → Visit × State)
      (keeps : (path : Text) (node : Node) (s : State)
        → At path
        → P s
        → P (visit path node s).1) where
    mutual
      unfolding walk

      pub walk-keeps :
          (path : Text) (node : Node) (s : State) → At path → P s → P (walk visit path node s).1
      walk-keeps path (directory es) s a h =
          and_then-keeps (visit path (directory es) s) (λ t. walk_entries visit path es t)
            (keeps path (directory es) s a h) (λ t k. walk_entries-keeps path es t a k)
      walk-keeps path (unlistable e) s a h =
          and_then-keeps (visit path (unlistable e) s) (λ t. (fail e, t))
            (keeps path (unlistable e) s a h) (λ t k. k)
      walk-keeps path (regular mode content) s a h = keeps path (regular mode content) s a h
      walk-keeps path (symlink target) s a h = keeps path (symlink target) s a h
      walk-keeps path special s a h = keeps path special s a h

      walk_entries-keeps :
          (path : Text) (es : Entries) (s : State)
          → At path
          → P s
          → P (walk_entries visit path es s).1
      walk_entries-keeps path end s a h = h
      walk_entries-keeps path (entry name node es) s a h =
          and_then-keeps (walk visit (join_path path name) node s)
            (λ t. walk_entries visit path es t)
            (walk-keeps (join_path path name) node s (down path name a) h)
            (λ t k. walk_entries-keeps path es t a k)

module _ {ℓ} {State : Type ℓ} where
  -- The visit ended without an error.
  abbrev pub IsDone : Visit × State → Type 0
  IsDone r = walk_error r.0 ≡ ok tt

  -- What stands before another call ended without an error, where the two together did.
  pub and_then-IsDone :
      (r : Visit × State) (next : State → Visit × State) → IsDone (and_then r next) → IsDone r
  and_then-IsDone (continue, s) next h = refl
  and_then-IsDone (skip_dir, s) next h = refl
  and_then-IsDone (fail e, s) next h = h

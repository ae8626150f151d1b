-- ===== src/Materializer/Limits/Laws.antt =====
-- `countFiles` counts what a recursion on the tree counts; the limits hold where they are tested.
use gitrepo_csi_driver.Base.{◌≡◌, ◌↔◌, refl, sym, ap, ◌∙◌, false, ok, arith}
use gitrepo_csi_driver.Base.Int.{ℤ, ◌≤ℤ◌}
use gitrepo_csi_driver.Text.{Text}
use gitrepo_csi_driver.Paths.{join_path}
use gitrepo_csi_driver.Files.{
  Node, regular, symlink, directory, unlistable, special, Entries, end, entry, is_dir, Visit,
  continue, and_then, walk, walk_entries, walk_error,
}
use gitrepo_csi_driver.Policy.Types.{GitContentPolicy}
use gitrepo_csi_driver.Policy.Defaults.Laws.{IsBounded}
use gitrepo_csi_driver.Materializer.Limits.{
  add_counts, Count, size_of, count_node, count_files, check_limits,
}

-- No directory of the tree is unreadable.
unfoldable mutual
  pub IsListable : Node → Type 0
  IsListable (directory es) = AllListable es
  IsListable (unlistable e) = ⊥
  IsListable (regular mode content) = Unit {0}
  IsListable (symlink target) = Unit {0}
  IsListable special = Unit {0}

  pub AllListable : Entries → Type 0
  AllListable end = Unit {0}
  AllListable (entry name node es) = IsListable node × AllListable es

-- The entries of the tree that are no directories, and their sizes.
unfoldable mutual
  unfolding add_counts

  pub leaves : Node → Count
  leaves (directory es) = leaves_of es
  leaves (unlistable e) = record { files = 0; size = 0 }
  leaves (regular mode content) = record { files = 1; size = size_of (regular mode content) }
  leaves (symlink target) = record { files = 1; size = size_of (symlink target) }
  leaves special = record { files = 1; size = 0 }

  pub leaves_of : Entries → Count
  leaves_of end = record { files = 0; size = 0 }
  leaves_of (entry name node es) = add_counts (leaves node) (leaves_of es)

add_counts_assoc : (a b c : Count) → add_counts (add_counts a b) c ≡ add_counts a (add_counts b c)
unfolding add_counts
add_counts_assoc a b c = ground arith

add_counts-zero : (a : Count) → add_counts a (record { files = 0; size = 0 }) ≡ a
unfolding add_counts
add_counts-zero a = ground arith

zero-add_counts : (a : Count) → add_counts (record { files = 0; size = 0 }) a ≡ a
unfolding add_counts
zero-add_counts a = ground arith

-- A leaf is counted, and the walk goes on.
count_leaf :
    (path : Text) (node : Node) (c : Count)
    → is_dir node ≡ false
    → count_node path node c ≡ (continue, add_counts c (record { files = 1; size = size_of node }))
unfolding count_node add_counts
count_leaf path node c h = rw h refl

mutual
  unfolding walk count_node leaves size_of IsListable

  walk-count :
      (path : Text) (node : Node) (c : Count)
      → IsListable node
      → walk count_node path node c ≡ (continue, add_counts c (leaves node))
  walk-count path (directory es) c h = walk_entries-count path es c h
  walk-count path (unlistable e) c h = absurd h
  walk-count path (regular mode content) c h = count_leaf path (regular mode content) c refl
  walk-count path (symlink target) c h = count_leaf path (symlink target) c refl
  walk-count path special c h = count_leaf path special c refl

  walk_entries-count :
      (path : Text) (es : Entries) (c : Count)
      → AllListable es
      → walk_entries count_node path es c ≡ (continue, add_counts c (leaves_of es))
  walk_entries-count path end c h = ap (λ k. (continue, k)) (sym (add_counts-zero c))
  walk_entries-count path (entry name node es) c (h, hs) =
      ap (λ r. and_then r (λ t. walk_entries count_node path es t))
        (walk-count (join_path path name) node c h)
      ∙ walk_entries-count path es (add_counts c (leaves node)) hs
      ∙ ap (λ k. (continue, k)) (add_counts_assoc c (leaves node) (leaves_of es))

-- On a tree whose directories can all be read, `count_files` succeeds, and counts the entries that are
-- no directories and the sum of their sizes.
pub count_files-leaves :
    (root : Text) (node : Node) → IsListable node → count_files root node ≡ (ok tt, leaves node)
unfolding count_files
count_files-leaves root node h =
    ap (λ (r : Visit × Count). (walk_error r.0, r.1))
      (walk-count root node (record { files = 0; size = 0 }) h)
    ∙ ap (λ c. (ok tt, c)) (zero-add_counts (leaves node))

-- With the limits of a loaded policy, the numbers pass exactly if they are within the limits.
pub check_limits_iff :
    (p : GitContentPolicy) (files size : ℤ)
    → IsBounded p
    → (check_limits p.clone files size ≡ ok tt)
      ↔ ((files ≤ℤ p.clone.max_file_count) × (size ≤ℤ p.clone.max_repository_size))
unfolding check_limits
check_limits_iff p files size b =
    let h = b.max_file_count in
    let k = b.max_repository_size in ((λ e. (ground arith, ground arith)), (λ e. ground arith))

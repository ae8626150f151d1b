-- ===== src/Materializer/Copy/Outcome.antt =====
-- What `CopyContentTree` has done when it returns no error.
use gitrepo_csi_driver.Materializer.Backend.{public_dir_perm}
use mathlib.Core.Path.{subst}
use gitrepo_csi_driver.Base.{◌≡◌, ap, ◌∙◌, true, [], ◌∷◌, Result, ok, err}
use gitrepo_csi_driver.Files.{
  Node, regular, symlink, directory, unlistable, special, Visit, continue, fail, and_then, walk,
  walk_entries,
}
use gitrepo_csi_driver.Materializer.Copy.{make_dir, Log, copy_entry, copy_content_tree}
use gitrepo_csi_driver.Materializer.Copy.Exact.{copy_entry-write}
use gitrepo_csi_driver.Materializer.Copy.Spec.{place, entry_writes, AllCopyable}
use gitrepo_csi_driver.Paths.{is_abs, clean}
use gitrepo_csi_driver.Paths.Below.{is_abs-clean}
use gitrepo_csi_driver.Text.{Text}
use gitrepo_csi_driver.Materializer.Copy.Success.{IsNamed, write_done, walk_entries_done}
use gitrepo_csi_driver.Files.Walk.{IsDone, and_then-IsDone}

-- The log of a whole copy: that of the specification for a directory, which can be copied; what is no
-- directory gives an empty one.
abbrev pub IsCopied : Text → Text → Node → Log → Type 0
IsCopied src dst (directory es) log =
    AllCopyable src [] es × (log ≡ make_dir dst public_dir_perm ∷ entry_writes dst [] es)
IsCopied src dst (unlistable e) log = ⊥
IsCopied src dst (symlink target) log = log ≡ make_dir dst public_dir_perm ∷ []
IsCopied src dst (regular mode content) log = log ≡ make_dir dst public_dir_perm ∷ []
IsCopied src dst special log = log ≡ make_dir dst public_dir_perm ∷ []

module _ (answer : Log → Result (Unit {0})) (src dst : Text) (s_abs : is_abs src ≡ true)
    (d_abs : is_abs dst ≡ true) where
  root_visit :
      (node : Node)
      → IsDone (copy_entry answer src dst src node [])
      → copy_entry answer src dst src node [] ≡ (continue, make_dir dst public_dir_perm ∷ [])
  root_visit node h =
      let e = copy_entry-write answer src dst s_abs d_abs node [] in
      e ∙ write_done answer (make_dir dst public_dir_perm) [] (subst IsDone e h)

  walk_root_done :
      (node : Node)
      → IsNamed node
      → IsDone (walk (copy_entry answer src dst) src node [])
      → IsCopied src dst node (walk (copy_entry answer src dst) src node []).1
  unfolding walk IsNamed place
  walk_root_done (directory es) m h =
      let next : Log → Visit × Log = λ t. walk_entries (copy_entry answer src dst) src es t in
      let first = and_then-IsDone (copy_entry answer src dst src (directory es) []) next h in
      let w = ap (λ r. and_then r next) (root_visit (directory es) first) in
      let (c, k) =
        walk_entries_done answer src dst s_abs d_abs [] es (make_dir dst public_dir_perm ∷ []) tt tt
          m (subst IsDone w h) in
      (c, ap (λ (r : Visit × Log). r.1) (w ∙ k))
  walk_root_done (unlistable x) m h =
      let next : Log → Visit × Log = λ t. (fail x, t) in
      let first = and_then-IsDone (copy_entry answer src dst src (unlistable x) []) next h in
      let w = ap (λ r. and_then r next) (root_visit (unlistable x) first) in
      let l : err x ≡ ok tt = subst IsDone w h in cc
  walk_root_done (symlink target) m h =
      ap (λ (r : Visit × Log). r.1) (root_visit (symlink target) h)
  walk_root_done (regular mode content) m h =
      ap (λ (r : Visit × Log). r.1) (root_visit (regular mode content) h)
  walk_root_done special m h = ap (λ (r : Visit × Log). r.1) (root_visit special h)

-- A copy between absolute paths that returns no error, whatever each of its writes is answered, has made
-- all the writes of the specification, in their order, and no other; in its source, outside ".git", all
-- directories could be read and all links are relative and stay inside.
pub copy_content_tree-IsCopied :
    (answer : Log → Result (Unit {0})) (src dst : Text) (node : Node)
    → is_abs src ≡ true
    → is_abs dst ≡ true
    → IsNamed node
    → (copy_content_tree answer src dst (ok node) []).0 ≡ ok tt
    → IsCopied (clean src) (clean dst) node (copy_content_tree answer src dst (ok node) []).1
unfolding copy_content_tree
copy_content_tree-IsCopied answer src dst node s d =
    walk_root_done answer (clean src) (clean dst) (is_abs-clean src ∙ s) (is_abs-clean dst ∙ d) node

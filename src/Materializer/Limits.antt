-- ===== src/Materializer/Limits.antt =====
-- `countFiles` of pkg/materializer/fslimits.go, and the limits that both backends test.
pub mod Laws
use gitrepo_csi_driver.Base.{
  ℕ, ◌+◌, Bool, true, false, ◌&&◌, List, [], ◌∷◌, Result, ok, err, Error, errorf, number,
  if◌then◌else◌, length,
}
use gitrepo_csi_driver.Base.Int.{ℤ, pos, ltb_ℤ}
use gitrepo_csi_driver.Files.{
  walk_error, Node, regular, symlink, directory, unlistable, special, is_dir, Visit, continue,
  skip_dir, fail, walk,
}
use gitrepo_csi_driver.Policy.Types.{ClonePolicy}
use gitrepo_csi_driver.Text.{Text}

-- The numbers of files and of bytes.
pub record Count : Type 0 where
  pub files : ℕ
  pub size : ℕ

unfoldable pub add_counts : Count → Count → Count
add_counts a b = record { files = a.files + b.files; size = a.size + b.size }

-- `info.Size()`: of a symbolic link it is the length of its target.
unfoldable pub size_of : Node → ℕ
size_of (regular mode content) = length content
size_of (symlink target) = length target
size_of special = 0
size_of (directory es) = 0
size_of (unlistable e) = 0

unfoldable pub count_node : Text → Node → Count → Visit × Count
count_node path node c =
    if is_dir node
    then (continue, c)
    else (continue, record { files = c.files + 1; size = c.size + size_of node })

unfoldable pub count_files : Text → Node → Result (Unit {0}) × Count
count_files root node =
    let (v, c) = walk count_node root node (record { files = 0; size = 0 }) in (walk_error v, c)

-- The tests on the numbers, of `Materialize` in both backends.
unfoldable pub check_limits : ClonePolicy → ℤ → ℤ → Result (Unit {0})
check_limits clone files size =
    if ltb_ℤ (pos 0) clone.max_file_count && ltb_ℤ clone.max_file_count files
    then err (
        errorf "repository file count %d exceeds limit %d"
          (number files ∷ number clone.max_file_count ∷ []))
    else if ltb_ℤ (pos 0) clone.max_repository_size && ltb_ℤ clone.max_repository_size size
    then err (
        errorf "repository size %d exceeds limit %d"
          (number size ∷ number clone.max_repository_size ∷ []))
    else ok tt

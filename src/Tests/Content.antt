-- ===== src/Tests/Content.antt =====
-- Copies of a small tree, its counts and its modes, and links.
use gitrepo_csi_driver.Materializer.Backend.{public_dir_perm}
use gitrepo_csi_driver.Base.{
  arith, ◌≡◌, ◌↔◌, inl, inr, refl, true, false, [], ◌∷◌, ◌++◌, ok, All, sym,
}
use gitrepo_csi_driver.Base.Int.{pos, ◌≤ℤ◌}
use gitrepo_csi_driver.Files.{walk, Node, regular, symlink, directory, Entries, end, entry}
use gitrepo_csi_driver.Files.Mode.{perm, read_only_perm, IsReadOnly}
use gitrepo_csi_driver.Materializer.Copy.{
  copy_entry, copy_node, copy_regular_file, copy_relative, write, write_file, make_dir, make_link,
  make_file, copy_content_tree,
}
use gitrepo_csi_driver.Materializer.Copy.Refine.{copy_content_tree-exact}
use gitrepo_csi_driver.Materializer.Copy.Spec.{entry_writes, AllCopyable, place}
use gitrepo_csi_driver.Materializer.Limits.{size_of, count_files, check_limits}
use gitrepo_csi_driver.Materializer.Limits.Laws.{
  IsListable, leaves, count_files-leaves, check_limits_iff,
}
use gitrepo_csi_driver.Materializer.Path.{
  check_inside, ensure_inside, has_parent_path_segment, join_cleaned, safe_join,
  validate_symlink_target,
}
use gitrepo_csi_driver.Materializer.Path.Inside.{IsWithin, validate_symlink_target_iff}
use gitrepo_csi_driver.Materializer.Path.Join.{safe_join-normalize_repo_path}
use gitrepo_csi_driver.NodePlugin.Publish.{Chmod, chmod_read_only}
use gitrepo_csi_driver.NodePlugin.Publish.Laws.{modes, chmod_read_only-modes}
use gitrepo_csi_driver.Paths.{
  clean_parts, go_down, is_local, is_parent, parts, rel, rel_parts, rel_rest, render, render_parts,
  resolve, resolve_part, strip, up_to_slash, is_abs, clean, parse_path, join_path, dir,
}
use gitrepo_csi_driver.Paths.Clean.{IsName, parse_path-IsClean}
use gitrepo_csi_driver.Paths.Join.{below}
use gitrepo_csi_driver.Policy.Defaults.Laws.{IsBounded}
use gitrepo_csi_driver.Policy.Types.{GitContentPolicy, zero_policy}
use gitrepo_csi_driver.Text.{cons_head, contains, join, split, Text, codes, same, has_prefix}
use gitrepo_csi_driver.Volume.RepoPath.{check_cleaned, has_git_path_segment, normalize_repo_path}
use mathlib.Core.Path.{subst}

abbrev pub src : Text
src = codes "/w/repo"

abbrev pub dst : Text
dst = codes "/w/content"

-- d/link leads to a.txt.
abbrev pub tree_entries : Entries
tree_entries =
    entry (codes ".git") (directory (entry (codes "HEAD") (regular 420 (codes "x")) end)) (
      entry (codes "a.txt") (regular 420 (codes "hi"))
        (entry (codes "d") (directory (entry (codes "link") (symlink (codes "../a.txt")) end)) end))

abbrev pub tree : Node
tree = directory tree_entries

pub src_abs : is_abs src ≡ true
unfolding is_abs
src_abs = refl

pub dst_abs : is_abs dst ≡ true
unfolding is_abs
dst_abs = refl

validate_symlink_target_iff_example :
    (validate_symlink_target src (codes "/w/repo/d/link") (codes "../a.txt") ≡ ok tt) ↔ (
      (is_abs (codes "../a.txt") ≡ false)
      × IsWithin src (join_path (dir (codes "/w/repo/d/link")) (codes "../a.txt")))
unfolding is_abs has_prefix
validate_symlink_target_iff_example =
    validate_symlink_target_iff src (codes "/w/repo/d/link") (codes "../a.txt") refl refl

-- A link that leaves the root and comes back by the root's name is accepted.
leaves_and_returns : validate_symlink_target src (codes "/w/repo/l") (codes "../repo/x") ≡ ok tt
unfolding validate_symlink_target is_abs ensure_inside rel same clean render parse_path join_path
    dir up_to_slash rel_rest strip rel_parts check_inside is_parent
leaves_and_returns = refl

normalized : normalize_repo_path (codes "docs/./guide") ≡ ok (codes "docs/guide")
unfolding normalize_repo_path contains is_abs check_cleaned same clean render parse_path is_parent
    has_git_path_segment
normalized = refl

safe_join-normalize_repo_path_example :
    (t : Text) × (safe_join src (codes "docs/guide") ≡ ok t)
    × (parse_path t ≡ below (parse_path src) (parse_path (codes "docs/./guide")).names)
safe_join-normalize_repo_path_example =
    safe_join-normalize_repo_path src (codes "docs/./guide") (codes "docs/guide") src_abs normalized

pub tree-IsListable : IsListable tree
unfolding IsListable
tree-IsListable = ((tt, tt), (tt, ((tt, tt), tt)))

count_files-leaves_example : count_files src tree ≡ (ok tt, leaves tree)
count_files-leaves_example = count_files-leaves src tree tree-IsListable

tree-leaves : leaves tree ≡ record { files = 3; size = 11 }
unfolding leaves size_of
tree-leaves = refl

abbrev pub small : GitContentPolicy
small = record zero_policy {
  clone = record {
    default_depth = pos 1;
    max_depth = pos 10;
    timeout = pos 60;
    max_repository_size = pos 100;
    max_file_count = pos 5;
    allow_sparse_checkout = false;
  };
  submodules = record {
    enabled = true;
    recursive = false;
    max_depth = pos 1;
    allowed_repositories = [];
    allowed_hosts = [];
  };
}

pub small-IsBounded : IsBounded small
small-IsBounded = record {
  default_depth = omega arith;
  max_depth = omega arith;
  timeout = omega arith;
  max_repository_size = omega arith;
  max_file_count = omega arith;
  submodule_depth = omega arith;
}

check_limits_iff_example :
    (check_limits small.clone (pos 3) (pos 11) ≡ ok tt) ↔ ((pos 3 ≤ℤ pos 5) × (pos 11 ≤ℤ pos 100))
check_limits_iff_example = check_limits_iff small (pos 3) (pos 11) small-IsBounded

abbrev all_names : Text
all_names = codes "/.git/a.txt/d/link"

names_of_tree :
    IsName (codes ".git")
    × (IsName (codes "a.txt") × (IsName (codes "d") × (IsName (codes "link") × Unit {0})))
unfolding parse_path
names_of_tree = (parse_path-IsClean all_names).names

link_target_names :
    (parse_path
      (join_path (dir (place src (codes "d" ∷ codes "link" ∷ []))) (codes "../a.txt"))).names
    ≡ (parse_path (codes "/w/repo")).names ++ codes "a.txt" ∷ []
unfolding parse_path join_path dir render up_to_slash place
link_target_names = refl

relative_target : is_abs (codes "../a.txt") ≡ false
unfolding is_abs has_prefix
relative_target = refl

cleaned_source : clean src ≡ codes "/w/repo"
unfolding clean render parse_path
cleaned_source = refl

tree-AllCopyable : AllCopyable (codes "/w/repo") [] tree_entries
unfolding AllCopyable same
tree-AllCopyable =
    let (git, (text, (folder, (link, _)))) = names_of_tree in
    (
      git,
      inl refl,
      (
        text,
        inr tt,
        (
          folder,
          inr (link, inr (relative_target, (codes "a.txt" ∷ [], link_target_names)), tt),
          tt,
        ),
      ),
    )

pub source_copyable : AllCopyable (clean src) [] tree_entries
source_copyable =
    subst (λ root. AllCopyable root [] tree_entries) (sym cleaned_source) tree-AllCopyable

copy_content_tree-exact_example :
    copy_content_tree (λ log. ok tt) src dst (ok tree) []
    ≡ (ok tt, make_dir (clean dst) public_dir_perm ∷ entry_writes (clean dst) [] tree_entries)
copy_content_tree-exact_example =
    copy_content_tree-exact (λ log. ok tt) src dst tree_entries (λ log. refl) src_abs dst_abs
      source_copyable

pub copied_tree : copy_content_tree (λ log. ok tt) src dst (ok tree) [] ≡ (
  ok tt,
  make_dir (codes "/w/content") public_dir_perm
      ∷ make_dir (codes "/w/content") public_dir_perm
      ∷ make_file (codes "/w/content/a.txt") 292 (codes "hi")
      ∷ make_dir (codes "/w/content/d") public_dir_perm
      ∷ make_link (codes "../a.txt") (codes "/w/content/d/link")
      ∷ [],
)
unfolding copy_content_tree walk copy_entry rel same clean render parse_path copy_relative write
    join_path rel_rest strip rel_parts is_local has_parent_path_segment has_git_path_segment
    safe_join perm read_only_perm copy_node copy_regular_file write_file check_inside ensure_inside
    join_cleaned validate_symlink_target clean_parts dir go_down is_abs is_parent parts render_parts
    resolve resolve_part up_to_slash cons_head has_prefix join split
copied_tree = refl

chmod_read_only-modes_example :
    (chmod_read_only (λ log. ok tt) dst (ok tree) [] ≡ (ok tt, modes dst tree))
    × All (λ (c : Chmod). IsReadOnly c.mode) (modes dst tree)
chmod_read_only-modes_example =
    chmod_read_only-modes (λ log. ok tt) dst tree (λ log. refl) tree-IsListable

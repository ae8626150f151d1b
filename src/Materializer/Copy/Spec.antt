-- ===== src/Materializer/Copy/Spec.antt =====
-- What a copy of a content tree is: everything but `.git`, in the order of the walk, with read-only
-- files.
use gitrepo_csi_driver.Materializer.Backend.{public_dir_perm}
use gitrepo_csi_driver.Base.{◌≡◌, ◌⊎◌, true, false, List, [], ◌∷◌, ◌++◌, if◌then◌else◌}
use gitrepo_csi_driver.Text.{Text, same}
use gitrepo_csi_driver.Paths.{is_abs, dir, join_path, render_parts}
use gitrepo_csi_driver.Paths.Clean.{IsName}
use gitrepo_csi_driver.Files.{
  Node, regular, symlink, directory, unlistable, special, Entries, end, entry,
}
use gitrepo_csi_driver.Files.Mode.{read_only_perm}
use gitrepo_csi_driver.Volume.RepoPath.{dot_git}
use gitrepo_csi_driver.Materializer.Path.Inside.{IsWithin}
use gitrepo_csi_driver.Materializer.Copy.{make_dir, make_link, make_file, Log}

-- The path of names below a root.
unfoldable pub place : Text → List Text → Text
place root [] = root
place root (n ∷ ns) = join_path root (render_parts false (n ∷ ns))

module _ (dst : Text) where
  unfoldable mutual
    pub node_writes : List Text → Node → Log
    node_writes ns (directory es) = make_dir (place dst ns) public_dir_perm ∷ entry_writes ns es
    node_writes ns (unlistable e) = make_dir (place dst ns) public_dir_perm ∷ []
    node_writes ns (symlink target) = make_link target (place dst ns) ∷ []
    node_writes ns (regular mode content) =
        make_dir (dir (place dst ns)) public_dir_perm
        ∷ make_file (place dst ns) (read_only_perm mode) content
        ∷ []
    node_writes ns special = []

    pub entry_writes : List Text → Entries → Log
    entry_writes ns end = []
    entry_writes ns (entry name node es) =
        let rest = entry_writes ns es in
        if same name dot_git then rest else node_writes (ns ++ name ∷ []) node ++ rest

module _ (src : Text) where
  -- Outside `.git`, directories can be read, and links are relative and stay inside the source.
  unfoldable mutual
    pub IsCopyable : List Text → Node → Type 0
    IsCopyable ns (directory es) = AllCopyable ns es
    IsCopyable ns (unlistable e) = ⊥
    IsCopyable ns (symlink target) =
        (is_abs target ≡ false) × IsWithin src (join_path (dir (place src ns)) target)
    IsCopyable ns (regular mode content) = Unit {0}
    IsCopyable ns special = Unit {0}

    pub AllCopyable : List Text → Entries → Type 0
    AllCopyable ns end = Unit {0}
    AllCopyable ns (entry name node es) =
        IsName name
        × ((same name dot_git ≡ true) ⊎ IsCopyable (ns ++ name ∷ []) node)
        × AllCopyable ns es

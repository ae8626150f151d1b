-- ===== src/Materializer/GoGit/Chown.antt =====
-- `chownTree` of pkg/materializer/gogit.go: the owner is changed at the content directory and below it.
use gitrepo_csi_driver.Base.{
  ℕ, ◌≡◌, refl, ap, ◌∙◌, true, false, [], ◌∷◌, ◌++◌, append_assoc, some, ok, All, All-append,
}
use gitrepo_csi_driver.Files.{
  Node, Entries, end, entry, directory, unlistable, regular, symlink, special, fail, walk,
  walk_entries,
}
use gitrepo_csi_driver.Files.Walk.{and_then-keeps}
use gitrepo_csi_driver.Materializer.Copy.Success.{IsNamed, AllNamed}
use gitrepo_csi_driver.Materializer.GoGit.Library.{Trace, System, lchown}
use gitrepo_csi_driver.Materializer.GoGit.Run.{Owner, chown_entry}
use gitrepo_csi_driver.Materializer.GoGit.Safe.{IsAt, SafeGoGitCall}
use gitrepo_csi_driver.Paths.{CleanPath, parse_path, is_abs, join_path, render_parts}
use gitrepo_csi_driver.Paths.Below.{abs-ne-nil, join_path_local}
use gitrepo_csi_driver.Paths.Clean.{IsName}
use gitrepo_csi_driver.Paths.Dir.{join_path-is_abs}
use gitrepo_csi_driver.Text.{Text, join}

single : (name : Text) → name ≡ render_parts false (name ∷ [])
unfolding render_parts join
single name = refl

-- The names of a path one name further down.
pub names-join_path :
    (root name : Text)
    → is_abs root ≡ true
    → IsName name
    → (parse_path (join_path root name)).names ≡ (parse_path root).names ++ name ∷ []
names-join_path root name r i =
    ap (λ (p : CleanPath). p.names)
      (ap (λ s. parse_path (join_path root s)) (single name)
        ∙ join_path_local (name ∷ []) (i, tt) root (abs-ne-nil root r))

-- The calls of the walk over what stands at the content directory, whose names are names.
module _ (work_dir content : Text) (owner : Owner) (sys : System) (c_abs : is_abs content ≡ true)
    (uid gid : ℕ) (o : owner ≡ some (uid, gid)) (at : Trace) (root : Node)
    (stands : sys.node_at at content ≡ ok root) where
  abbrev AllSafe : Trace → Type 0
  AllSafe = All (SafeGoGitCall work_dir content owner sys.node_at)

  -- A path at or below the content directory, from the root.
  abbrev IsOwn : Text → Type 0
  IsOwn path = IsAt content path × (is_abs path ≡ true)

  IsOwn-join_path : (path name : Text) → IsOwn path → IsName name → IsOwn (join_path path name)
  IsOwn-join_path path name ((rest, e), a) i = (
    (
      rest ++ name ∷ [],
      names-join_path path name a i
          ∙ ap (λ ns. ns ++ name ∷ []) e
          ∙ append_assoc (parse_path content).names rest (name ∷ []),
    ),
    join_path-is_abs path name a,
  )

  chown_entry-AllSafe :
      (path : Text) (node : Node) (trace : Trace)
      → (IsNamed root → IsOwn path)
      → AllSafe trace
      → AllSafe (chown_entry sys uid gid path node trace).1
  unfolding chown_entry
  chown_entry-AllSafe path node trace a t =
      All-append (SafeGoGitCall work_dir content owner sys.node_at) trace (lchown path uid gid ∷ [])
        t ((o, at, root, stands, λ n. (a n).0), tt)

  mutual
    unfolding walk IsNamed

    pub walk-AllSafe :
        (path : Text) (node : Node) (trace : Trace)
        → (IsNamed root → IsOwn path × IsNamed node)
        → AllSafe trace
        → AllSafe (walk (chown_entry sys uid gid) path node trace).1
    walk-AllSafe path (directory es) trace a t =
        and_then-keeps AllSafe (chown_entry sys uid gid path (directory es) trace)
          (λ u. walk_entries (chown_entry sys uid gid) path es u)
          (chown_entry-AllSafe path (directory es) trace (λ n. (a n).0) t)
          (λ u k. walk_entries-AllSafe path es u a k)
    walk-AllSafe path (unlistable e) trace a t =
        and_then-keeps AllSafe (chown_entry sys uid gid path (unlistable e) trace)
          (λ u. (fail e, u)) (chown_entry-AllSafe path (unlistable e) trace (λ n. (a n).0) t)
          (λ u k. k)
    walk-AllSafe path (regular mode text) trace a t =
        chown_entry-AllSafe path (regular mode text) trace (λ n. (a n).0) t
    walk-AllSafe path (symlink target) trace a t =
        chown_entry-AllSafe path (symlink target) trace (λ n. (a n).0) t
    walk-AllSafe path special trace a t = chown_entry-AllSafe path special trace (λ n. (a n).0) t

    walk_entries-AllSafe :
        (path : Text) (es : Entries) (trace : Trace)
        → (IsNamed root → IsOwn path × AllNamed es)
        → AllSafe trace
        → AllSafe (walk_entries (chown_entry sys uid gid) path es trace).1
    walk_entries-AllSafe path end trace a t = t
    walk_entries-AllSafe path (entry name node es) trace a t =
        and_then-keeps AllSafe (walk (chown_entry sys uid gid) (join_path path name) node trace)
          (λ u. walk_entries (chown_entry sys uid gid) path es u)
          (walk-AllSafe (join_path path name) node trace
            (λ n. let (p, (i, m, _)) = a n in (IsOwn-join_path path name p i, m)) t)
          (λ u k. walk_entries-AllSafe path es u (λ n. ((a n).0, (a n).1.2)) k)

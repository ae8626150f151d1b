-- ===== src/Materializer/Copy/Refine.antt =====
-- A copy that meets no error writes the specification's log, and no more.
use gitrepo_csi_driver.Materializer.Backend.{public_dir_perm}
use gitrepo_csi_driver.Base.{
  ℕ, ◌≡◌, ◌≢◌, ◌⊎◌, inl, inr, refl, sym, ap, ◌∙◌, Bool, true, false, ◌||◌, List, [], ◌∷◌, ◌++◌,
  append_assoc, append-nil, Result, ok, All, All-append, any, Bool-cases,
}
use gitrepo_csi_driver.Files.{
  Node, regular, symlink, directory, unlistable, special, Entries, end, entry, continue, walk,
  walk_entries,
}
use gitrepo_csi_driver.Files.Mode.{read_only_perm}
use gitrepo_csi_driver.Materializer.Copy.{
  make_dir, make_link, make_file, Log, copy_regular_file, copy_node, copy_entry, copy_content_tree,
}
use gitrepo_csi_driver.Materializer.Copy.Exact.{
  walk-skip, append-ne-nil, place-is_abs, join_path-place, write-continue, write_file-continue,
  copy_entry-write, copy_entry_git, copy_entry-copy_node,
}
use gitrepo_csi_driver.Materializer.Copy.Spec.{
  place, node_writes, entry_writes, IsCopyable, AllCopyable,
}
use gitrepo_csi_driver.Materializer.Path.Inside.{IsWithin, validate_symlink_target_iff}
use gitrepo_csi_driver.Materializer.Path.Join.{safe_join_names}
use gitrepo_csi_driver.Paths.{is_abs, clean, dir, join_path, render_parts}
use gitrepo_csi_driver.Paths.Below.{is_abs-clean}
use gitrepo_csi_driver.Paths.Clean.{IsName}
use gitrepo_csi_driver.Text.{Text, same}
use gitrepo_csi_driver.Text.Search.{ne_of_same}
use gitrepo_csi_driver.Volume.RepoPath.{dot_git}

or-true : (b : Bool) → (b || true) ≡ true
or-true true = refl
or-true false = refl

pub dot_git-any :
    (ns : List Text) (name : Text)
    → same name dot_git ≡ true
    → any (λ part. same part dot_git) (ns ++ name ∷ []) ≡ true
dot_git-any [] name e = rw (e) refl
dot_git-any (n ∷ ns) name e = rw (dot_git-any ns name e) (or-true (same n dot_git))

module _ (answer : Log → Result (Unit {0})) (succeeds : (log : Log) → answer log ≡ ok tt)
    (src dst : Text) (s_abs : is_abs src ≡ true) (d_abs : is_abs dst ≡ true) where
  copy_node_link :
      (ns : List Text) (target : Text) (log : Log)
      → All IsName ns
      → (is_abs target ≡ false) × IsWithin src (join_path (dir (place src ns)) target)
      → copy_node answer src dst
          (place src ns)
          (render_parts false ns)
          (place dst ns)
          (symlink target)
          log
        ≡ (continue, log ++ make_link target (place dst ns) ∷ [])
  unfolding copy_node
  copy_node_link ns target log h c =
      rw
        (
          (validate_symlink_target_iff src (place src ns) target s_abs
                (place-is_abs src s_abs ns)).1
              c,
          copy_node,
        )
        (write-continue answer succeeds (make_link target (place dst ns)) log)

  copy_node_regular :
      (ns : List Text) (mode : ℕ) (content : Text) (log : Log)
      → ns ≢ []
      → All IsName ns
      → All (λ m. m ≢ dot_git) ns
      → copy_node answer src dst
          (place src ns)
          (render_parts false ns)
          (place dst ns)
          (regular mode content)
          log
        ≡ (
          continue,
          log
              ++ make_dir (dir (place dst ns)) public_dir_perm
                ∷ make_file (place dst ns) (read_only_perm mode) content
                ∷ [],
        )
  unfolding copy_node copy_regular_file place
  copy_node_regular [] mode content log n h g = absurd (n refl)
  copy_node_regular (m ∷ ns) mode content log n h g =
      rw (safe_join_names m ns h dst d_abs g, copy_regular_file, copy_node)
        (write_file-continue answer succeeds (join_path dst (render_parts false (m ∷ ns))) mode
          content log)

  copyable :
      (ns : List Text) (name : Text) (node : Node)
      → same name dot_git ≡ false
      → (same name dot_git ≡ true) ⊎ IsCopyable src (ns ++ name ∷ []) node
      → IsCopyable src (ns ++ name ∷ []) node
  copyable ns name node f (inl t) = cc
  copyable ns name node f (inr c) = c

  mutual
    unfolding walk walk_entries node_writes entry_writes copy_node IsCopyable AllCopyable

    walk-copy :
        (ns : List Text) (node : Node) (log : Log)
        → ns ≢ []
        → All IsName ns
        → All (λ m. m ≢ dot_git) ns
        → IsCopyable src ns node
        → walk (copy_entry answer src dst) (place src ns) node log
          ≡ (continue, log ++ node_writes dst ns node)
    walk-copy ns (directory es) log n h g c =
        rw
          (
            copy_entry-copy_node answer src dst s_abs d_abs ns (directory es) log n h g,
            write-continue answer succeeds (make_dir (place dst ns) public_dir_perm) log,
          )
          (walk_entries-copy ns es (log ++ make_dir (place dst ns) public_dir_perm ∷ []) h g c
            ∙ ap (λ l. (continue, l))
                (append_assoc log (make_dir (place dst ns) public_dir_perm ∷ [])
                  (entry_writes dst ns es)))
    walk-copy ns (unlistable e) log n h g c = absurd c
    walk-copy ns (symlink target) log n h g c =
        copy_entry-copy_node answer src dst s_abs d_abs ns (symlink target) log n h g
        ∙ copy_node_link ns target log h c
    walk-copy ns (regular mode content) log n h g c =
        copy_entry-copy_node answer src dst s_abs d_abs ns (regular mode content) log n h g
        ∙ copy_node_regular ns mode content log n h g
    walk-copy ns special log n h g c =
        copy_entry-copy_node answer src dst s_abs d_abs ns special log n h g
        ∙ ap (λ l. (continue, l)) (sym (append-nil log))

    walk_entries-copy :
        (ns : List Text) (es : Entries) (log : Log)
        → All IsName ns
        → All (λ m. m ≢ dot_git) ns
        → AllCopyable src ns es
        → walk_entries (copy_entry answer src dst) (place src ns) es log
          ≡ (continue, log ++ entry_writes dst ns es)
    walk_entries-copy ns end log h g c = ap (λ l. (continue, l)) (sym (append-nil log))
    walk_entries-copy ns (entry name node es) log h g (i, c, cs) =
        elim (Bool-cases (same name dot_git)) [
          | inl t ↦
              rw
                (
                  join_path-place src s_abs ns name h i,
                  walk-skip answer src dst s_abs d_abs (place src (ns ++ name ∷ [])) node log (
                      copy_entry_git answer src dst s_abs d_abs (ns ++ name ∷ []) node log
                        (append-ne-nil ns name) (All-append IsName ns (name ∷ []) h (i, tt))
                        (dot_git-any ns name t)),
                  t,
                )
                (walk_entries-copy ns es log h g cs)
          | inr f ↦
              rw
                (
                  join_path-place src s_abs ns name h i,
                  walk-copy (ns ++ name ∷ []) node log (append-ne-nil ns name)
                      (All-append IsName ns (name ∷ []) h (i, tt))
                      (All-append (λ m. m ≢ dot_git) ns (name ∷ []) g
                        (ne_of_same name dot_git f, tt))
                      (copyable ns name node f c),
                  f,
                )
                (walk_entries-copy ns es (log ++ node_writes dst (ns ++ name ∷ []) node) h g cs
                  ∙ ap (λ l. (continue, l))
                      (append_assoc log (node_writes dst (ns ++ name ∷ []) node)
                        (entry_writes dst ns es)))
        ]

-- With writes that succeed, a copy of a readable directory between absolute paths, all of whose links
-- are relative and stay inside the source, succeeds and makes exactly the writes of the
-- specification: every directory, link and regular file outside `.git`, in the order of the walk,
-- under the same path below the destination, with the content and the read-only mode.
pub copy_content_tree-exact :
    (answer : Log → Result (Unit {0})) (src dst : Text) (es : Entries)
    → ((log : Log) → answer log ≡ ok tt)
    → is_abs src ≡ true
    → is_abs dst ≡ true
    → AllCopyable (clean src) [] es
    → copy_content_tree answer src dst (ok (directory es)) []
      ≡ (ok tt, make_dir (clean dst) public_dir_perm ∷ entry_writes (clean dst) [] es)
unfolding copy_content_tree walk place
copy_content_tree-exact answer src dst es succeeds s d c =
    let s_abs = is_abs-clean src ∙ s in
    let d_abs = is_abs-clean dst ∙ d in
    rw
      (
        copy_entry-write answer (clean src) (clean dst) s_abs d_abs (directory es) [],
        write-continue answer succeeds (make_dir (clean dst) public_dir_perm) [],
        walk_entries-copy answer succeeds (clean src) (clean dst) s_abs d_abs [] es
            (make_dir (clean dst) public_dir_perm ∷ []) tt tt c,
      )
      refl

-- ===== src/Materializer/Copy/Exact.antt =====
-- `CopyContentTree` writes exactly the copy of the specification.
use gitrepo_csi_driver.Materializer.Backend.{public_dir_perm}
use gitrepo_csi_driver.Base.{
  ℕ, ◌≡◌, ◌≢◌, refl, sym, ap, ◌∙◌, true, false, List, [], ◌∷◌, ◌++◌, append_assoc, append-nil,
  Result, ok, if◌then◌else◌, All, All-append, any,
}
use gitrepo_csi_driver.Files.{
  regular, symlink, directory, unlistable, special, walk, Node, is_dir, continue, skip_dir,
}
use gitrepo_csi_driver.Files.Mode.{read_only_perm}
use gitrepo_csi_driver.Materializer.Copy.{
  Write, make_dir, make_file, Log, write, write_file, copy_node, copy_relative, copy_entry,
}
use gitrepo_csi_driver.Materializer.Copy.Spec.{place}
use gitrepo_csi_driver.Materializer.Path.Join.{clean_names, no_parent_segment, safe_join_names}
use gitrepo_csi_driver.Paths.{
  render, CleanPath, dot, parse_path, is_abs, clean, rel, dir, join_path, render_parts,
}
use gitrepo_csi_driver.Paths.Below.{
  abs-ne-nil, join_path_local, is_local_local, same-dot_local, clean_of_names,
}
use gitrepo_csi_driver.Paths.Clean.{IsName}
use gitrepo_csi_driver.Paths.Dir.{join_path-is_abs}
use gitrepo_csi_driver.Paths.Join.{join_path-clean}
use gitrepo_csi_driver.Paths.Rel.{rel_below}
use gitrepo_csi_driver.Text.{join, Text, same}
use gitrepo_csi_driver.Text.Search.{same_refl}
use gitrepo_csi_driver.Volume.RepoPath.{dot_git}
use gitrepo_csi_driver.Volume.RepoPath.Laws.{segments, any_git-false}

pub append-ne-nil : (ns : List Text) (name : Text) → ns ++ name ∷ [] ≢ []
append-ne-nil [] name e = cc
append-ne-nil (n ∷ ns) name e = cc

root_dot : render_parts false [] ≡ dot
unfolding render_parts
root_dot = refl

single_name : (name : Text) → name ≡ render_parts false (name ∷ [])
unfolding render_parts join
single_name name = refl

clean-dot : clean dot ≡ dot
unfolding clean parse_path render
clean-dot = refl

module _ (root : Text) (r : is_abs root ≡ true) where
  pub place-is_abs : (ns : List Text) → is_abs (place root ns) ≡ true
  unfolding place
  place-is_abs [] = r
  place-is_abs (n ∷ ns) = join_path-is_abs root (render_parts false (n ∷ ns)) r

  pub names-place :
      (ns : List Text)
      → All IsName ns
      → (parse_path (place root ns)).names ≡ (parse_path root).names ++ ns
  unfolding place
  names-place [] h = sym (append-nil (parse_path root).names)
  names-place (n ∷ ns) h =
      ap (λ (p : CleanPath). p.names) (join_path_local (n ∷ ns) h root (abs-ne-nil root r))

  pub clean-place : (ns : List Text) → ns ≢ [] → clean (place root ns) ≡ place root ns
  unfolding place
  clean-place [] n = absurd (n refl)
  clean-place (m ∷ ns) n = join_path-clean root (render_parts false (m ∷ ns)) (abs-ne-nil root r)

  names_of_child :
      (ns : List Text) (name : Text)
      → All IsName ns
      → IsName name
      → (parse_path (join_path (place root ns) name)).names
        ≡ (parse_path root).names ++ (ns ++ name ∷ [])
  names_of_child ns name h i =
      ap (λ (p : CleanPath). p.names)
        (ap (λ s. parse_path (join_path (place root ns) s)) (single_name name)
          ∙ join_path_local (name ∷ []) (i, tt) (place root ns)
              (abs-ne-nil (place root ns) (place-is_abs ns)))
      ∙ ap (λ ms. ms ++ name ∷ []) (names-place ns h)
      ∙ append_assoc (parse_path root).names ns (name ∷ [])

  -- A child of a place is a place.
  pub join_path-place :
      (ns : List Text) (name : Text)
      → All IsName ns
      → IsName name
      → join_path (place root ns) name ≡ place root (ns ++ name ∷ [])
  join_path-place ns name h i =
      sym (join_path-clean (place root ns) name (abs-ne-nil (place root ns) (place-is_abs ns)))
      ∙ clean_of_names (join_path (place root ns) name) (place root (ns ++ name ∷ []))
          (join_path-is_abs (place root ns) name (place-is_abs ns)) (place-is_abs (ns ++ name ∷ []))
          (names_of_child ns name h i
            ∙ sym (names-place (ns ++ name ∷ []) (All-append IsName ns (name ∷ []) h (i, tt))))
      ∙ clean-place (ns ++ name ∷ []) (append-ne-nil ns name)

module _ (answer : Log → Result (Unit {0})) (succeeds : (log : Log) → answer log ≡ ok tt) where
  pub write-continue : (w : Write) (log : Log) → write answer w log ≡ (continue, log ++ w ∷ [])
  unfolding write
  write-continue w log = rw (succeeds (log ++ w ∷ []))

  pub write_file-continue :
      (path : Text) (mode : ℕ) (content : Text) (log : Log)
      → write_file answer path mode content log ≡ (
        continue,
        log
            ++ make_dir (dir path) public_dir_perm
              ∷ make_file path (read_only_perm mode) content
              ∷ [],
      )
  unfolding write_file
  write_file-continue path mode content log =
      rw (succeeds (log ++ make_dir (dir path) public_dir_perm ∷ []), write_file)
        (write-continue (make_file path (read_only_perm mode) content)
            (log ++ make_dir (dir path) public_dir_perm ∷ [])
          ∙ ap (λ l. (continue, l))
              (append_assoc log (make_dir (dir path) public_dir_perm ∷ [])
                (make_file path (read_only_perm mode) content ∷ [])))

module _ (answer : Log → Result (Unit {0})) (src dst : Text) (s_abs : is_abs src ≡ true)
    (d_abs : is_abs dst ≡ true) where
  rel-place : (ns : List Text) → All IsName ns → rel src (place src ns) ≡ ok (render_parts false ns)
  rel-place ns h =
      rel_below src (place src ns) s_abs (place-is_abs src s_abs ns) ns (names-place src s_abs ns h)

  rel_root : rel src src ≡ ok dot
  rel_root =
      rel_below src src s_abs s_abs [] (sym (append-nil (parse_path src).names)) ∙ ap ok root_dot

  pub copy_entry-write :
      (node : Node) (log : Log)
      → copy_entry answer src dst src node log ≡ write answer (make_dir dst public_dir_perm) log
  unfolding copy_entry copy_relative
  copy_entry-write node log = rw (rel_root, copy_entry, clean-dot, same_refl, copy_relative) refl

  pub copy_entry_git :
      (ns : List Text) (node : Node) (log : Log)
      → ns ≢ []
      → All IsName ns
      → any (λ part. same part dot_git) ns ≡ true
      → copy_entry answer src dst (place src ns) node log
        ≡ (if is_dir node then skip_dir else continue, log)
  unfolding copy_entry copy_relative
  copy_entry_git [] node log n h g = absurd (n refl)
  copy_entry_git (m ∷ ns) node log n h g =
      rw
        (
          rel-place (m ∷ ns) h,
          copy_entry,
          clean_names m ns h,
          same-dot_local (m ∷ ns) h n,
          is_local_local (m ∷ ns) h n,
          no_parent_segment m ns h,
          segments (m ∷ ns) h,
          g,
          copy_relative,
        )
        refl

  pub copy_entry-copy_node :
      (ns : List Text) (node : Node) (log : Log)
      → ns ≢ []
      → All IsName ns
      → All (λ m. m ≢ dot_git) ns
      → copy_entry answer src dst (place src ns) node log
        ≡ copy_node answer src dst (place src ns) (render_parts false ns) (place dst ns) node log
  unfolding copy_entry copy_relative place
  copy_entry-copy_node [] node log n h g = absurd (n refl)
  copy_entry-copy_node (m ∷ ns) node log n h g =
      rw
        (
          rel-place (m ∷ ns) h,
          copy_entry,
          clean_names m ns h,
          same-dot_local (m ∷ ns) h n,
          is_local_local (m ∷ ns) h n,
          no_parent_segment m ns h,
          segments (m ∷ ns) h,
          any_git-false (m ∷ ns) g,
          safe_join_names m ns h dst d_abs g,
          copy_relative,
        )
        (ap
          (λ r.
            copy_node answer src dst (join_path src (render_parts false (m ∷ ns))) r
              (join_path dst (render_parts false (m ∷ ns))) node log)
          (clean_names m ns h))

  pub walk-skip :
      (path : Text) (node : Node) (log : Log)
      → copy_entry answer src dst path node log ≡ (if is_dir node then skip_dir else continue, log)
      → walk (copy_entry answer src dst) path node log ≡ (continue, log)
  unfolding walk
  walk-skip path (directory es) log e = rw (e) refl
  walk-skip path (unlistable x) log e = rw (e) refl
  walk-skip path (regular mode content) log e = e
  walk-skip path (symlink target) log e = e
  walk-skip path special log e = e

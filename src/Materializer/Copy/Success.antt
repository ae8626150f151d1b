-- ===== src/Materializer/Copy/Success.antt =====
-- What a copy that returns no error has done, whatever its writes are answered.
use gitrepo_csi_driver.Materializer.Backend.{public_dir_perm}
use gitrepo_csi_driver.Files.Walk.{IsDone, and_then-IsDone}
use mathlib.Core.Path.{subst}
use gitrepo_csi_driver.Base.{
  ℕ, ◌≡◌, ◌≢◌, inl, inr, refl, sym, ap, ◌∙◌, true, false, List, [], ◌∷◌, ◌++◌, append_assoc,
  append-nil, Result, ok, err, All, All-append, Bool-cases, Result-cases,
}
use gitrepo_csi_driver.Files.{
  Node, regular, symlink, directory, unlistable, special, Entries, end, entry, Visit, continue,
  fail, and_then, walk, walk_entries,
}
use gitrepo_csi_driver.Files.Mode.{read_only_perm}
use gitrepo_csi_driver.Materializer.Copy.{
  Write, make_dir, make_link, make_file, Log, write, write_file, copy_regular_file, copy_node,
  copy_entry,
}
use gitrepo_csi_driver.Materializer.Copy.Exact.{
  walk-skip, append-ne-nil, place-is_abs, join_path-place, copy_entry_git, copy_entry-copy_node,
}
use gitrepo_csi_driver.Materializer.Copy.Refine.{dot_git-any}
use gitrepo_csi_driver.Materializer.Copy.Spec.{
  place, node_writes, entry_writes, IsCopyable, AllCopyable,
}
use gitrepo_csi_driver.Materializer.Path.Inside.{validate_symlink_target_iff}
use gitrepo_csi_driver.Materializer.Path.{validate_symlink_target}
use gitrepo_csi_driver.Materializer.Path.Join.{safe_join_names}
use gitrepo_csi_driver.Paths.{is_abs, dir, join_path, render_parts}
use gitrepo_csi_driver.Paths.Clean.{IsName}
use gitrepo_csi_driver.Text.{Text, same}
use gitrepo_csi_driver.Text.Search.{ne_of_same}
use gitrepo_csi_driver.Volume.RepoPath.{dot_git}

-- The names in a tree are names of files.
unfoldable mutual
  pub IsNamed : Node → Type 0
  IsNamed (directory es) = AllNamed es
  IsNamed (unlistable e) = Unit {0}
  IsNamed (symlink target) = Unit {0}
  IsNamed (regular mode content) = Unit {0}
  IsNamed special = Unit {0}

  pub AllNamed : Entries → Type 0
  AllNamed end = Unit {0}
  AllNamed (entry name node es) = IsName name × IsNamed node × AllNamed es

module _ (answer : Log → Result (Unit {0})) where
  pub write_done :
      (w : Write) (log : Log)
      → IsDone (write answer w log)
      → write answer w log ≡ (continue, log ++ w ∷ [])
  unfolding write
  write_done w log h = elim (Result-cases (answer (log ++ w ∷ []))) [
    | inl (e, k) ↦ let l : err e ≡ ok tt = rw k at h in cc
    | inr (u, k) ↦ rw k refl
  ]

  write_file_done :
      (path : Text) (mode : ℕ) (content : Text) (log : Log)
      → IsDone (write_file answer path mode content log)
      → write_file answer path mode content log ≡ (
        continue,
        log
            ++ make_dir (dir path) public_dir_perm
              ∷ make_file path (read_only_perm mode) content
              ∷ [],
      )
  unfolding write_file
  write_file_done path mode content log h =
      let made = log ++ make_dir (dir path) public_dir_perm ∷ [] in
      let file = make_file path (read_only_perm mode) content in
      elim (Result-cases (answer made)) [
        | inl (e, k) ↦ let l : err e ≡ ok tt = rw (k, write_file) at h in cc
        | inr (u, k) ↦
            rw (k, write_file)
              (write_done file made (rw (k, write_file) at h)
                ∙ ap (λ l. (continue, l))
                    (append_assoc log (make_dir (dir path) public_dir_perm ∷ []) (file ∷ [])))
      ]

module _ (answer : Log → Result (Unit {0})) (src dst : Text) (s_abs : is_abs src ≡ true)
    (d_abs : is_abs dst ≡ true) where
  abbrev visit : Text → Node → Log → Visit × Log
  visit = copy_entry answer src dst

  link_done :
      (ns : List Text) (rel_path target : Text) (log : Log)
      → IsDone
          (copy_node answer src dst (place src ns) rel_path (place dst ns) (symlink target) log)
      → IsCopyable src ns (symlink target)
        × (copy_node answer src dst (place src ns) rel_path (place dst ns) (symlink target) log
            ≡ (continue, log ++ node_writes dst ns (symlink target)))
  unfolding copy_node IsCopyable node_writes
  link_done ns rel_path target log h =
      elim (Result-cases (validate_symlink_target src (place src ns) target)) [
        | inl (e, k) ↦ let l : err e ≡ ok tt = rw (k, copy_node) at h in cc
        | inr (u, k) ↦ (
          (validate_symlink_target_iff src (place src ns) target s_abs
                (place-is_abs src s_abs ns)).0
              k,
          rw (k, copy_node)
              (write_done answer (make_link target (place dst ns)) log (rw (k, copy_node) at h)),
        )
      ]

  regular_done :
      (ns : List Text) (mode : ℕ) (content : Text) (log : Log)
      → ns ≢ []
      → All IsName ns
      → All (λ m. m ≢ dot_git) ns
      → IsDone (
          copy_node answer src dst
            (place src ns)
            (render_parts false ns)
            (place dst ns)
            (regular mode content)
            log)
      → copy_node answer src dst
          (place src ns)
          (render_parts false ns)
          (place dst ns)
          (regular mode content)
          log
        ≡ (continue, log ++ node_writes dst ns (regular mode content))
  unfolding copy_node copy_regular_file place node_writes
  regular_done [] mode content log n i g h = absurd (n refl)
  regular_done (m ∷ ns) mode content log n i g h =
      let s = safe_join_names m ns i dst d_abs g in
      rw (s, copy_regular_file, copy_node)
        (write_file_done answer (join_path dst (render_parts false (m ∷ ns))) mode content log
          (rw (s, copy_regular_file, copy_node) at h))

  mutual
    unfolding walk walk_entries node_writes entry_writes copy_node IsCopyable AllCopyable IsNamed
        AllNamed

    walk_done :
        (ns : List Text) (node : Node) (log : Log)
        → ns ≢ []
        → All IsName ns
        → All (λ m. m ≢ dot_git) ns
        → IsNamed node
        → IsDone (walk visit (place src ns) node log)
        → IsCopyable src ns node
          × (walk visit (place src ns) node log ≡ (continue, log ++ node_writes dst ns node))
    walk_done ns (directory es) log n i g m h =
        let made = log ++ make_dir (place dst ns) public_dir_perm ∷ [] in
        let next : Log → Visit × Log = λ t. walk_entries visit (place src ns) es t in
        let e = copy_entry-copy_node answer src dst s_abs d_abs ns (directory es) log n i g in
        let first = and_then-IsDone (visit (place src ns) (directory es) log) next h in
        let w =
          ap (λ r. and_then r next)
            (e
              ∙ write_done answer (make_dir (place dst ns) public_dir_perm) log
                  (subst IsDone e first)) in
        let (c, k) = walk_entries_done ns es made i g m (subst IsDone w h) in
        (
          c,
          w
              ∙ k
              ∙ ap (λ l. (continue, l))
                  (append_assoc log (make_dir (place dst ns) public_dir_perm ∷ [])
                    (entry_writes dst ns es)),
        )
    walk_done ns (unlistable x) log n i g m h =
        let next : Log → Visit × Log = λ t. (fail x, t) in
        let e = copy_entry-copy_node answer src dst s_abs d_abs ns (unlistable x) log n i g in
        let first = and_then-IsDone (visit (place src ns) (unlistable x) log) next h in
        let w =
          ap (λ r. and_then r next)
            (e
              ∙ write_done answer (make_dir (place dst ns) public_dir_perm) log
                  (subst IsDone e first)) in
        let l : err x ≡ ok tt = subst IsDone w h in cc
    walk_done ns (symlink target) log n i g m h =
        let e = copy_entry-copy_node answer src dst s_abs d_abs ns (symlink target) log n i g in
        let (c, k) = link_done ns (render_parts false ns) target log (subst IsDone e h) in
        (c, e ∙ k)
    walk_done ns (regular mode content) log n i g m h =
        let e =
          copy_entry-copy_node answer src dst s_abs d_abs ns (regular mode content) log n i g in
        (tt, e ∙ regular_done ns mode content log n i g (subst IsDone e h))
    walk_done ns special log n i g m h = (
      tt,
      copy_entry-copy_node answer src dst s_abs d_abs ns special log n i g
          ∙ ap (λ l. (continue, l)) (sym (append-nil log)),
    )

    pub walk_entries_done :
        (ns : List Text) (es : Entries) (log : Log)
        → All IsName ns
        → All (λ m. m ≢ dot_git) ns
        → AllNamed es
        → IsDone (walk_entries visit (place src ns) es log)
        → AllCopyable src ns es
          × (walk_entries visit (place src ns) es log ≡ (continue, log ++ entry_writes dst ns es))
    walk_entries_done ns end log i g m h = (tt, ap (λ l. (continue, l)) (sym (append-nil log)))
    walk_entries_done ns (entry name node es) log i g (j, m, ms) h =
        let next : Log → Visit × Log = λ t. walk_entries visit (place src ns) es t in
        let child = ns ++ name ∷ [] in
        let p = join_path-place src s_abs ns name i j in
        let names = All-append IsName ns (name ∷ []) i (j, tt) in
        let first =
          subst (λ path. IsDone (walk visit path node log)) p
            (and_then-IsDone (walk visit (join_path (place src ns) name) node log) next h) in
        let moved = ap (λ path. and_then (walk visit path node log) next) p in
        elim (Bool-cases (same name dot_git)) [
          | inl t ↦
              let w =
                moved
                ∙ ap (λ r. and_then r next)
                    (walk-skip answer src dst s_abs d_abs (place src child) node log (
                      copy_entry_git answer src dst s_abs d_abs child node log
                        (append-ne-nil ns name) names (dot_git-any ns name t))) in
              let (c, k) = walk_entries_done ns es log i g ms (subst IsDone w h) in
              ((j, inl t, c), w ∙ k ∙ ap (λ l. (continue, l)) (rw t refl))
          | inr f ↦
              let none_git =
                All-append (λ m. m ≢ dot_git) ns (name ∷ []) g (ne_of_same name dot_git f, tt) in
              let (c, k) =
                walk_done child node log (append-ne-nil ns name) names none_git m first in
              let w = moved ∙ ap (λ r. and_then r next) k in
              let written = log ++ node_writes dst child node in
              let (cs, l) = walk_entries_done ns es written i g ms (subst IsDone w h) in
              (
                (j, inr c, cs),
                w
                    ∙ l
                    ∙ ap (λ l. (continue, l))
                        (rw f
                          (append_assoc log (node_writes dst child node) (entry_writes dst ns es))),
              )
        ]

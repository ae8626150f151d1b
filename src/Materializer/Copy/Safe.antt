-- ===== src/Materializer/Copy/Safe.antt =====
-- Whatever `CopyContentTree` writes lies in the destination, and is no `.git`; files are read-only, and
-- links lead to places that the source contains.
use gitrepo_csi_driver.Materializer.Backend.{public_dir_perm}
use gitrepo_csi_driver.Base.{
  All-append_right, ℕ, ◌≡◌, ◌≢◌, ◌⊎◌, inl, inr, refl, sym, ap, ◌∙◌, true, false, not, ◌||◌, List,
  [], ◌∷◌, ◌++◌, Result, ok, err, All, All-append, Bool-cases, Result-cases, arith, ok_inj,
}
use gitrepo_csi_driver.Files.{Node, regular, symlink, directory, unlistable, special}
use gitrepo_csi_driver.Files.Mode.{read_only_perm, IsReadOnly, read_only_perm-IsReadOnly}
use gitrepo_csi_driver.Files.Walk.{walk-keeps}
use gitrepo_csi_driver.Materializer.Copy.{
  Write, make_dir, make_link, make_file, Log, write, write_file, copy_regular_file, copy_node,
  copy_relative, copy_entry, copy_content_tree,
}
use gitrepo_csi_driver.Materializer.Path.{
  has_parent_path_segment, safe_join, validate_symlink_target,
}
use gitrepo_csi_driver.Materializer.Path.Inside.{IsWithin, validate_symlink_target_iff}
use gitrepo_csi_driver.Materializer.Path.Laws.{IsInside, safe_join-IsInside}
use gitrepo_csi_driver.Paths.{
  CleanPath, dot, parse_path, is_abs, is_local, is_parent, clean, rel, dir, join_path, render_parts,
}
use gitrepo_csi_driver.Paths.Below.{parse_path-clean, parse_path-local, abs-ne-nil, is_abs-clean}
use gitrepo_csi_driver.Paths.Clean.{IsName, parse_path-IsClean}
use gitrepo_csi_driver.Paths.Dir.{join_path-is_abs}
use gitrepo_csi_driver.Paths.Join.{below}
use gitrepo_csi_driver.Paths.Local.{is_local_lem, is_local_parent, is_local_of_ups}
use gitrepo_csi_driver.Paths.Rel.{rel_cases}
use gitrepo_csi_driver.Text.{Text, same}
use gitrepo_csi_driver.Volume.RepoPath.{dot_git, has_git_path_segment}
use mathlib.Core.Path.{subst}

-- A path of names below the destination, none of which is ".git".
pub record IsContained (dst path : Text) : Type 0 where
  pub rest : List Text
  pub no_git : All (λ n. n ≢ dot_git) rest
  pub joined : parse_path path ≡ below (parse_path dst) rest

-- A link at the same place in the destination as in the source, whose target is relative and leads from
-- its path in the source to the source or below it.
pub record IsSafeLink (src dst target path : Text) : Type 0 where
  pub contained : IsContained dst path
  pub link_path : Text
  pub at : (parse_path link_path).names ≡ (parse_path src).names ++ contained.rest
  pub relative : is_abs target ≡ false
  pub within : IsWithin src (join_path (dir link_path) target)

names-clean : (s : Text) → (parse_path (clean s)).names ≡ (parse_path s).names
names-clean s = ap (λ (p : CleanPath). p.names) (parse_path-clean s)

-- A path that leads up is not local when it is cleaned.
not_local : (s : Text) → is_parent s ≡ true → is_local (clean s) ≢ true
not_local s u l =
    let (a, n, z) = is_local_lem (clean s) l in
    is_local_parent s u (
      is_local_of_ups s (sym (is_abs-clean s) ∙ a) (not_nil s u)
        (sym (ap (λ (p : CleanPath). p.ups) (parse_path-clean s)) ∙ z))
  where
    not_nil : (s : Text) → is_parent s ≡ true → s ≢ []
    not_nil s k e =
        let q : is_parent [] ≡ true = subst (λ t. is_parent t ≡ true) e k in
        let f : is_parent [] ≡ false = unfold is_parent in refl in cc

module _ (src dst : Text) where
  -- The destination itself, a path in it, or the directory of one.
  abbrev pub IsDirectoryOf : Text → Type 0
  IsDirectoryOf path =
      (path ≡ dst) ⊎ (IsContained dst path ⊎ ((t : Text) × IsContained dst t × (path ≡ dir t)))

  abbrev pub SafeWrite : Write → Type 0
  SafeWrite (make_dir path mode) = IsDirectoryOf path × (mode ≡ public_dir_perm)
  SafeWrite (make_link target path) = IsSafeLink src dst target path
  SafeWrite (make_file path mode content) = IsContained dst path × IsReadOnly mode

  inside-IsContained : (rel_path t : Text) → IsInside dst rel_path t → IsContained dst t
  inside-IsContained rel_path t i = record {
    rest = (parse_path rel_path).names;
    no_git = i.no_git;
    joined = i.joined;
  }

  module _ (answer : Log → Result (Unit {0})) (s_abs : is_abs src ≡ true)
      (d_abs : is_abs dst ≡ true) where
    write-SafeWrite :
        (w : Write) (log : Log)
        → SafeWrite w
        → All SafeWrite log
        → All SafeWrite (write answer w log).1
    unfolding write
    write-SafeWrite w log h k = All-append SafeWrite log (w ∷ []) k (h, tt)

    joined-IsContained : (rel_path t : Text) → safe_join dst rel_path ≡ ok t → IsContained dst t
    joined-IsContained rel_path t e =
        inside-IsContained rel_path t (safe_join-IsInside dst rel_path t (abs-ne-nil dst d_abs) e)

    write_file-SafeWrite :
        (t : Text) (mode : ℕ) (content : Text) (log : Log)
        → IsContained dst t
        → All SafeWrite log
        → All SafeWrite (write_file answer t mode content log).1
    unfolding write_file
    write_file-SafeWrite t mode content log c k =
        let made = log ++ make_dir (dir t) public_dir_perm ∷ [] in
        let step =
          All-append SafeWrite log (make_dir (dir t) public_dir_perm ∷ []) k
            ((inr (inr (t, c, refl)), refl), tt) in
        elim (Result-cases (answer made)) [
          | inl (x, e) ↦ rw (e, write_file) step
          | inr (u, e) ↦
              rw (e, write_file)
                (write-SafeWrite (make_file t (read_only_perm mode) content) made
                  (c, read_only_perm-IsReadOnly mode) step)
        ]

    copy_node-SafeWrite :
        (path rel_path target : Text) (node : Node) (log : Log)
        → is_abs path ≡ true
        → (c : IsContained dst target) → (parse_path path).names ≡ (parse_path src).names ++ c.rest
        → All SafeWrite log
        → All SafeWrite (copy_node answer src dst path rel_path target node log).1
    unfolding copy_node copy_regular_file
    copy_node-SafeWrite path rel_path target (directory es) log a c at k =
        write-SafeWrite (make_dir target public_dir_perm) log (inr (inl c), refl) k
    copy_node-SafeWrite path rel_path target (unlistable e) log a c at k =
        write-SafeWrite (make_dir target public_dir_perm) log (inr (inl c), refl) k
    copy_node-SafeWrite path rel_path target special log a c at k = k
    copy_node-SafeWrite path rel_path target (symlink link) log a c at k =
        elim (Result-cases (validate_symlink_target src path link)) [
          | inl (x, e) ↦ rw (e, copy_node) k
          | inr (u, e) ↦
              let (r, w) = (validate_symlink_target_iff src path link s_abs a).0 e in
              rw (e, copy_node)
                (write-SafeWrite (make_link link target) log
                  (record { contained = c; link_path = path; at = at; relative = r; within = w }) k)
        ]
    copy_node-SafeWrite path rel_path target (regular mode content) log a c at k =
        elim (Result-cases (safe_join dst rel_path)) [
          | inl (x, e) ↦ rw (e, copy_regular_file) k
          | inr (t, e) ↦
              rw (e, copy_regular_file)
                (write_file-SafeWrite t mode content log (joined-IsContained rel_path t e) k)
        ]

    copy_relative-SafeWrite :
        (path rel_path : Text) (node : Node) (log : Log)
        → is_abs path ≡ true
        → (is_local rel_path ≡ true
            → (parse_path path).names ≡ (parse_path src).names ++ (parse_path rel_path).names)
        → All SafeWrite log
        → All SafeWrite (copy_relative answer src dst path rel_path node log).1
    unfolding copy_relative
    copy_relative-SafeWrite path rel_path node log a located k =
        elim (Bool-cases (same rel_path dot)) [
          | inl d ↦
              rw (d, copy_relative)
                (write-SafeWrite (make_dir dst public_dir_perm) log (inl refl, refl) k)
          | inr d ↦
              elim (Bool-cases (not (is_local rel_path) || has_parent_path_segment rel_path)) [
                | inl l ↦ rw (d, l, copy_relative) k
                | inr l ↦ elim (Bool-cases (has_git_path_segment rel_path)) [
                  | inl g ↦ rw (d, l, g, copy_relative) k
                  | inr g ↦ elim (Result-cases (safe_join dst rel_path)) [
                    | inl (x, e) ↦ rw (d, l, g, e, copy_relative) k
                    | inr (t, e) ↦
                        rw (d, l, g, e, copy_relative)
                          (copy_node-SafeWrite path rel_path t node log a
                            (record {
                              rest = (parse_path rel_path).names;
                              no_git =
                                  (safe_join-IsInside dst rel_path t (abs-ne-nil dst d_abs)
                                    e).no_git;
                              joined =
                                  (safe_join-IsInside dst rel_path t (abs-ne-nil dst d_abs)
                                    e).joined;
                            })
                            (located (ground arith)) k)
                  ]
                ]
              ]
        ]

    -- A relative path that stays inside leads to the path that it was made of.
    located :
        (path r : Text)
        → is_abs path ≡ true
        → rel src path ≡ ok r
        → is_local (clean r) ≡ true
        → (parse_path path).names ≡ (parse_path src).names ++ (parse_path (clean r)).names
    located path r a e l = elim (rel_cases src path s_abs a) [
      | inl (rest, n, k) ↦
          let q : render_parts false rest ≡ r = ok_inj (sym k ∙ e) in
          let rest_names =
            All-append_right IsName (parse_path src).names rest
              (subst (All IsName) n (parse_path-IsClean path).names) in
          n
          ∙ ap (λ ns. (parse_path src).names ++ ns)
              (sym (
                names-clean r
                ∙ ap (λ s. (parse_path s).names) (sym q)
                ∙ ap (λ (p : CleanPath). p.names) (parse_path-local rest rest_names)))
      | inr (t, k, u) ↦
          absurd (not_local t u (subst (λ s. is_local (clean s) ≡ true) (ok_inj (sym e ∙ k)) l))
    ]

    copy_entry-SafeWrite :
        (path : Text) (node : Node) (log : Log)
        → is_abs path ≡ true
        → All SafeWrite log
        → All SafeWrite (copy_entry answer src dst path node log).1
    unfolding copy_entry
    copy_entry-SafeWrite path node log a k = elim (Result-cases (rel src path)) [
      | inl (x, e) ↦ rw (e, copy_entry) k
      | inr (r, e) ↦
          rw (e, copy_entry)
            (copy_relative-SafeWrite path (clean r) node log a (located path r a e) k)
    ]

pub copy_content_tree-SafeWrite :
    (answer : Log → Result (Unit {0})) (src dst : Text) (source : Result Node)
    → is_abs src ≡ true
    → is_abs dst ≡ true
    → All (SafeWrite (clean src) (clean dst)) (copy_content_tree answer src dst source []).1
unfolding copy_content_tree
copy_content_tree-SafeWrite answer src dst (err e) s d = tt
copy_content_tree-SafeWrite answer src dst (ok node) s d =
    let s2 = is_abs-clean src ∙ s in
    let d2 = is_abs-clean dst ∙ d in
    walk-keeps (All (SafeWrite (clean src) (clean dst))) (λ path. is_abs path ≡ true)
      (λ path name a. join_path-is_abs path name a) (copy_entry answer (clean src) (clean dst))
      (copy_entry-SafeWrite (clean src) (clean dst) answer s2 d2) (clean src) node [] s2 tt

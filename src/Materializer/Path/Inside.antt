-- ===== src/Materializer/Path/Inside.antt =====
-- `ensureInside` and `validateSymlinkTarget` accept exactly what stays below the root.
use mathlib.Core.Path.{subst}
use gitrepo_csi_driver.Base.{
  All-append_right, ◌≡◌, ◌≢◌, ◌↔◌, refl, sym, ap, ◌∙◌, true, false, List, ◌++◌, ok, All, arith, inl,
  inr,
}
use gitrepo_csi_driver.Materializer.Path.{check_inside, ensure_inside, validate_symlink_target}
use gitrepo_csi_driver.Paths.{CleanPath, parse_path, is_abs, is_parent, clean, join_path, rel, dir}
use gitrepo_csi_driver.Paths.Below.{parse_path-clean, is_abs-clean, is_abs_local, is_parent_local}
use gitrepo_csi_driver.Paths.Clean.{IsName, parse_path-IsClean}
use gitrepo_csi_driver.Paths.Dir.{dir-is_abs, join_path-is_abs}
use gitrepo_csi_driver.Paths.Rel.{rel_below, rel_cases}
use gitrepo_csi_driver.Text.{Text}

-- The path is the root or below it.
abbrev pub IsWithin : Text → Text → Type 0
IsWithin root path =
    (rest : List Text) × ((parse_path path).names ≡ (parse_path root).names ++ rest)

rest-IsName : (root path : Text) (w : IsWithin root path) → All IsName w.0
rest-IsName root path (rest, e) =
    All-append_right IsName (parse_path root).names rest
      (subst (All IsName) e (parse_path-IsClean path).names)

module _ (root path : Text) (r : is_abs root ≡ true) (p : is_abs path ≡ true) where
  pub ensure_inside_of_within : IsWithin root path → ensure_inside root path ≡ ok tt
  unfolding ensure_inside check_inside
  ensure_inside_of_within (rest, e) =
      let n = rest-IsName root path (rest, e) in
      rw (rel_below root path r p rest e, is_parent_local rest n, is_abs_local rest n) refl

  not_inside :
      (t : Text) → rel root path ≡ ok t → is_parent t ≡ true → ensure_inside root path ≢ ok tt
  unfolding ensure_inside check_inside
  not_inside t e u h = let k : ensure_inside root path ≡ ok tt = h in ground arith

  -- `ensure_inside` accepts an absolute path exactly if it is the root or below it.
  pub ensure_inside_iff : (ensure_inside root path ≡ ok tt) ↔ IsWithin root path
  ensure_inside_iff = (
    (λ h. elim (rel_cases root path r p) [
      | inl (rest, n, k) ↦ (rest, n)
      | inr (t, k, u) ↦ absurd (not_inside t k u h)
    ]),
    ensure_inside_of_within,
  )

symlink_tests :
    (root link_path link_target : Text)
    → validate_symlink_target root link_path link_target ≡ ok tt
    → (is_abs link_target ≡ false)
      × (ensure_inside root (clean (join_path (dir link_path) link_target)) ≡ ok tt)
unfolding validate_symlink_target
symlink_tests root link_path link_target h = (ground arith, ground arith)

-- A link is accepted exactly if its target is relative and, read from the link's directory by the
-- names alone, leads to the root or below it.
pub validate_symlink_target_iff :
    (root link_path link_target : Text)
    → is_abs root ≡ true
    → is_abs link_path ≡ true
    → (validate_symlink_target root link_path link_target ≡ ok tt)
      ↔ ((is_abs link_target ≡ false) × IsWithin root (join_path (dir link_path) link_target))
unfolding validate_symlink_target
validate_symlink_target_iff root link_path link_target r l = (to, from)
  where
    j : is_abs (clean (join_path (dir link_path) link_target)) ≡ true
    j =
        is_abs-clean (join_path (dir link_path) link_target)
        ∙ join_path-is_abs (dir link_path) link_target (dir-is_abs link_path l)

    names :
        (parse_path (clean (join_path (dir link_path) link_target))).names
        ≡ (parse_path (join_path (dir link_path) link_target)).names
    names =
        ap (λ (c : CleanPath). c.names) (parse_path-clean (join_path (dir link_path) link_target))

    to :
        validate_symlink_target root link_path link_target ≡ ok tt
        → (is_abs link_target ≡ false) × IsWithin root (join_path (dir link_path) link_target)
    to h =
        let (a, k) = symlink_tests root link_path link_target h in
        let (rest, e) =
          (ensure_inside_iff root (clean (join_path (dir link_path) link_target)) r j).0 k in
        (a, (rest, sym names ∙ e))

    from :
        (is_abs link_target ≡ false) × IsWithin root (join_path (dir link_path) link_target)
        → validate_symlink_target root link_path link_target ≡ ok tt
    from (a, (rest, e)) =
        rw
          (
            a,
            ensure_inside_of_within root (clean (join_path (dir link_path) link_target)) r j
                (rest, names ∙ e),
            validate_symlink_target,
          )
          refl

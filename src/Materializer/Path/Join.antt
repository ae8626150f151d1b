-- ===== src/Materializer/Path/Join.antt =====
-- `safeJoin` refuses no path of names, and so none that `Parse` accepted.
use gitrepo_csi_driver.Base.{
  ◌≡◌, ◌≢◌, refl, sym, ap, ◌∙◌, true, false, List, [], ◌∷◌, ok, All, any, is_nil,
}
use mathlib.Core.Path.{subst}
use gitrepo_csi_driver.Text.{Text, same, slash, join}
use gitrepo_csi_driver.Text.Search.{same_ne}
use gitrepo_csi_driver.Paths.{CleanPath, dotdot, parse_path, is_abs, clean, join_path, render_parts}
use gitrepo_csi_driver.Paths.Local.{is_local_lem}
use gitrepo_csi_driver.Paths.Clean.{IsName, parse_path-IsClean}
use gitrepo_csi_driver.Paths.Join.{below}
use gitrepo_csi_driver.Paths.Below.{
  abs-ne-nil, parse_path-clean, parse_path-local, clean_local, split_local, is_abs_local, ups_local,
  is_local_local, join_path_local,
}
use gitrepo_csi_driver.Paths.Dir.{join_path-is_abs}
use gitrepo_csi_driver.Volume.RepoPath.{dot_git, normalize_repo_path}
use gitrepo_csi_driver.Volume.RepoPath.Laws.{segments, any_git-false, normalize_repo_path_iff}
use gitrepo_csi_driver.Materializer.Path.{
  ensure_inside, has_parent_path_segment, join_cleaned, safe_join,
}
use gitrepo_csi_driver.Materializer.Path.Inside.{ensure_inside_of_within}
use gitrepo_csi_driver.Materializer.Path.Laws.{below_nil}

any-dotdot-false : (ns : List Text) → All IsName ns → any (λ part. same part dotdot) ns ≡ false
any-dotdot-false [] h = refl
any-dotdot-false (n ∷ ns) (i, h) = rw (same_ne n dotdot i.not_dotdot) (any-dotdot-false ns h)

is_nil-ne : (s : Text) → s ≢ [] → is_nil s ≡ false
is_nil-ne [] h = absurd (h refl)
is_nil-ne (c ∷ s) h = refl

module _ (n : Text) (ns : List Text) (h : All IsName (n ∷ ns)) where
  pub clean_names : clean (render_parts false (n ∷ ns)) ≡ render_parts false (n ∷ ns)
  clean_names =
      clean_local (render_parts false (n ∷ ns)) (is_abs_local (n ∷ ns) h) (ups_local (n ∷ ns) h)
      ∙ ap (λ (p : CleanPath). render_parts false p.names) (parse_path-local (n ∷ ns) h)

  pub no_parent_segment : has_parent_path_segment (render_parts false (n ∷ ns)) ≡ false
  unfolding has_parent_path_segment
  no_parent_segment =
      ap (any (λ part. same part dotdot)) (split_local n ns h) ∙ any-dotdot-false (n ∷ ns) h

  is_nil_names : is_nil (render_parts false (n ∷ ns)) ≡ false
  is_nil_names =
      is_nil-ne (render_parts false (n ∷ ns))
        (is_local_lem (render_parts false (n ∷ ns)) (is_local_local (n ∷ ns) h (λ e. cc))).1

  module _ (root : Text) (r : is_abs root ≡ true) where
    ensure_inside_names : ensure_inside root (join_path root (render_parts false (n ∷ ns))) ≡ ok tt
    ensure_inside_names =
        ensure_inside_of_within root (join_path root (render_parts false (n ∷ ns))) r
          (join_path-is_abs root (render_parts false (n ∷ ns)) r)
          (
            n ∷ ns,
            ap (λ (p : CleanPath). p.names) (join_path_local (n ∷ ns) h root (abs-ne-nil root r)),
          )

    -- Names without ".git" are joined to the root.
    pub safe_join_names :
        All (λ m. m ≢ dot_git) (n ∷ ns)
        → safe_join root (render_parts false (n ∷ ns))
          ≡ ok (join_path root (render_parts false (n ∷ ns)))
    unfolding safe_join join_cleaned
    safe_join_names g =
        rw
          (
            is_nil_names,
            clean_names,
            is_local_local (n ∷ ns) h (λ e. cc),
            no_parent_segment,
            segments (n ∷ ns) h,
            any_git-false (n ∷ ns) g,
            ensure_inside_names,
          )
          refl

joined_names :
    (root : Text) (ns : List Text)
    → is_abs root ≡ true
    → All IsName ns
    → All (λ m. m ≢ dot_git) ns
    → (t : Text) × (safe_join root (join ns slash) ≡ ok t)
      × (parse_path t ≡ below (parse_path root) ns)
unfolding render_parts
joined_names root [] r h g = (
  clean root,
  (unfold safe_join join in refl),
  parse_path-clean root ∙ sym (below_nil (parse_path root)),
)
joined_names root (n ∷ ns) r h g = (
  join_path root (render_parts false (n ∷ ns)),
  safe_join_names n ns h root r g,
  join_path_local (n ∷ ns) h root (abs-ne-nil root r),
)

-- `safe_join` refuses no path that `normalize_repo_path` returned: below an absolute root it is the
-- root followed by the names of the path that was normalized.
pub safe_join-normalize_repo_path :
    (root raw path : Text)
    → is_abs root ≡ true
    → normalize_repo_path raw ≡ ok path
    → (t : Text) × (safe_join root path ≡ ok t)
      × (parse_path t ≡ below (parse_path root) (parse_path raw).names)
safe_join-normalize_repo_path root raw path r h =
    let i = (normalize_repo_path_iff raw path).0 h in
    subst
      (λ p.
        (t : Text) × (safe_join root p ≡ ok t)
        × (parse_path t ≡ below (parse_path root) (parse_path raw).names))
      (sym i.spelled)
      (joined_names root (parse_path raw).names r (parse_path-IsClean raw).names i.no_git)

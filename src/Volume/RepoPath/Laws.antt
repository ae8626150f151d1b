-- ===== src/Volume/RepoPath/Laws.antt =====
-- `normalizeRepoPath` accepts exactly the relative paths that stay in the repository and name no
-- `.git`.
use gitrepo_csi_driver.Base.{
  ◌≡◌, ◌≢◌, ◌↔◌, refl, sym, ap, ◌∙◌, true, false, List, [], ◌∷◌, if◌then◌else◌, is_nil, any, ok,
  err, errorf, ok_inj, arith, All, Bool-cases, ||_elim, inl, inr,
}
use gitrepo_csi_driver.Text.{Text, slash, same, contains, split, join}
use gitrepo_csi_driver.Text.Search.{eq_of_same, same_ne, ne_of_same}
use gitrepo_csi_driver.Paths.{dot, CleanPath, parse_path, render_parts, is_abs, clean}
use gitrepo_csi_driver.Paths.Clean.{IsName, parse_path-IsClean}
use gitrepo_csi_driver.Paths.Local.{is_parent-clean}
use gitrepo_csi_driver.Paths.Below.{
  parse_path-clean, clean_local, split_local, same-dot_local, is_parent_local,
}
use gitrepo_csi_driver.Volume.RepoPath.{
  dot_git, has_git_path_segment, check_cleaned, normalize_repo_path,
}

pub any_git-false :
    (ns : List Text) → All (λ n. n ≢ dot_git) ns → any (λ part. same part dot_git) ns ≡ false
any_git-false [] h = refl
any_git-false (n ∷ ns) (h, hs) = rw (same_ne n dot_git h) (any_git-false ns hs)

All_of_any_git :
    (ns : List Text) → any (λ part. same part dot_git) ns ≡ false → All (λ n. n ≢ dot_git) ns
All_of_any_git [] h = tt
All_of_any_git (n ∷ ns) h =
    let (here, later) = ||_elim (same n dot_git) (any (λ part. same part dot_git) ns) h in
    (ne_of_same n dot_git here, All_of_any_git ns later)

-- The path that the parts of an accepted path spell, empty for the repository's root.
pub record IsRepoPath (raw p : Text) : Type 0 where
  pub no_backslash : contains raw (b'\\' ∷ []) ≡ false
  pub relative : is_abs raw ≡ false
  pub inside : (parse_path raw).ups ≡ 0
  pub no_git : All (λ n. n ≢ dot_git) (parse_path raw).names
  pub spelled : p ≡ join (parse_path raw).names slash

pub segments :
    (ns : List Text)
    → All IsName ns
    → has_git_path_segment (render_parts false ns) ≡ any (λ part. same part dot_git) ns
unfolding has_git_path_segment
segments [] h = unfold render_parts split same in refl
segments (n ∷ ns) h = ap (any (λ part. same part dot_git)) (split_local n ns h)

-- A relative path that does not lead up and has no ".git" when it is cleaned.
pub has_git_path_segment-clean :
    (s : Text)
    → is_abs s ≡ false
    → (parse_path s).ups ≡ 0
    → has_git_path_segment (clean s) ≡ false
    → All (λ n. n ≢ dot_git) (parse_path s).names
has_git_path_segment-clean s a z h =
    let g : has_git_path_segment (render_parts false (parse_path s).names) ≡ false =
      rw (clean_local s a z) at h in
    All_of_any_git (parse_path s).names
      (sym (segments (parse_path s).names (parse_path-IsClean s).names) ∙ g)

-- The last tests, on a cleaned path that does not lead up.
check_cleaned_names :
    (ns : List Text)
    → All IsName ns
    → check_cleaned (render_parts false ns) ≡ (
        if any (λ part. same part dot_git) ns
        then err (errorf "volume attribute path must not reference .git" [])
        else ok (join ns slash))
unfolding check_cleaned
check_cleaned_names [] h = unfold render_parts same join in refl
check_cleaned_names (n ∷ ns) h =
    rw (same-dot_local (n ∷ ns) h (λ e. cc), is_parent_local (n ∷ ns) h, segments (n ∷ ns) h)
      (unfold render_parts in refl)

module _ (raw : Text) (relative : is_abs raw ≡ false) where
  names : List Text
  names = (parse_path raw).names

  -- A path that leads up is refused.
  check_cleaned_ups : (p : Text) → check_cleaned (clean raw) ≡ ok p → (parse_path raw).ups ≡ 0
  unfolding check_cleaned
  check_cleaned_ups p e = elim (Bool-cases (same (clean raw) dot)) [
    | inl d ↦
        ap (λ (q : CleanPath). q.ups)
          (sym (parse_path-clean raw) ∙ ap parse_path (eq_of_same (clean raw) dot d))
        ∙ (unfold parse_path in refl)
    | inr d ↦ ground (arith, is_parent-clean raw relative)
  ]

  check_cleaned_local :
      (parse_path raw).ups ≡ 0
      → check_cleaned (clean raw) ≡ (
          if any (λ part. same part dot_git) (parse_path raw).names
          then err (errorf "volume attribute path must not reference .git" [])
          else ok (join (parse_path raw).names slash))
  check_cleaned_local z =
      ap check_cleaned (clean_local raw relative z)
      ∙ check_cleaned_names (parse_path raw).names (parse_path-IsClean raw).names

  check_cleaned-ok :
      (p : Text)
      → check_cleaned (clean raw) ≡ ok p
      → ((parse_path raw).ups ≡ 0)
        × All (λ n. n ≢ dot_git) (parse_path raw).names
        × (p ≡ join (parse_path raw).names slash)
  check_cleaned-ok p e =
      let z = check_cleaned_ups p e in
      let k = sym (check_cleaned_local z) ∙ e in
      let g : any (λ part. same part dot_git) (parse_path raw).names ≡ false = ground arith in
      (z, All_of_any_git (parse_path raw).names g, ground arith)

normalized_nil :
    (raw p : Text) → is_nil raw ≡ true → normalize_repo_path raw ≡ ok p → IsRepoPath raw p
unfolding normalize_repo_path
normalized_nil [] p n e = record {
  no_backslash = unfold contains in refl;
  relative = unfold is_abs in refl;
  inside = unfold parse_path in refl;
  no_git = unfold parse_path in tt;
  spelled = unfold parse_path join in ok_inj (sym e);
}
normalized_nil (c ∷ s) p n e = cc

normalized_cons :
    (raw p : Text) → is_nil raw ≡ false → normalize_repo_path raw ≡ ok p → IsRepoPath raw p
unfolding normalize_repo_path
normalized_cons raw p n e =
    let b : contains raw (b'\\' ∷ []) ≡ false = ground arith in
    let a : is_abs raw ≡ false = ground arith in
    let (z, g, s) = check_cleaned-ok raw a p (ground arith) in
    record { no_backslash = b; relative = a; inside = z; no_git = g; spelled = s }

normalized_of_IsRepoPath : (raw p : Text) → IsRepoPath raw p → normalize_repo_path raw ≡ ok p
unfolding normalize_repo_path
normalized_of_IsRepoPath [] p r = ap ok (sym (r.spelled ∙ (unfold parse_path join in refl)))
normalized_of_IsRepoPath (c ∷ s) p r =
    rw
      (
        r.no_backslash,
        r.relative,
        check_cleaned_local (c ∷ s) r.relative r.inside,
        any_git-false (parse_path (c ∷ s)).names r.no_git,
      )
      (ap ok (sym r.spelled))

-- `normalize_repo_path` returns a path exactly when the given one has no backslash, is relative,
-- does not lead out of the repository and has no part ".git"; it returns the names that are left,
-- joined by slashes.
pub normalize_repo_path_iff : (raw p : Text) → (normalize_repo_path raw ≡ ok p) ↔ IsRepoPath raw p
normalize_repo_path_iff raw p = (
  λ e. elim (Bool-cases (is_nil raw)) [
    | inl n ↦ normalized_nil raw p n e
    | inr n ↦ normalized_cons raw p n e
  ],
  normalized_of_IsRepoPath raw p,
)

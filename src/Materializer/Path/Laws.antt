-- ===== src/Materializer/Path/Laws.antt =====
-- `safeJoin` stays below the root and away from `.git`.
use gitrepo_csi_driver.Base.{
  ◌≡◌, ◌≢◌, refl, sym, ap, ◌∙◌, true, false, [], ◌∷◌, ok, ok_inj, append-nil, All, arith,
}
use gitrepo_csi_driver.Text.{Text}
use gitrepo_csi_driver.Paths.{CleanPath, parse_path, is_abs, is_local, clean, join_path}
use gitrepo_csi_driver.Paths.Local.{is_local_lem}
use gitrepo_csi_driver.Paths.Join.{below, parse_path-join_path}
use gitrepo_csi_driver.Paths.Below.{parse_path-clean, is_abs-clean}
use gitrepo_csi_driver.Volume.RepoPath.{dot_git, has_git_path_segment}
use gitrepo_csi_driver.Volume.RepoPath.Laws.{has_git_path_segment-clean}
use gitrepo_csi_driver.Materializer.Path.{join_cleaned, safe_join}

join_cleaned-ok :
    (root cleaned t : Text)
    → join_cleaned root cleaned ≡ ok t
    → (is_local cleaned ≡ true)
      × (has_git_path_segment cleaned ≡ false)
      × (t ≡ join_path root cleaned)
unfolding join_cleaned
join_cleaned-ok root cleaned t h = (ground arith, ground arith, ground arith)

-- The path that is joined is relative, stays inside, and has no part ".git".
pub record IsInside (root path t : Text) : Type 0 where
  pub relative : is_abs path ≡ false
  pub inside : (parse_path path).ups ≡ 0
  pub no_git : All (λ n. n ≢ dot_git) (parse_path path).names
  pub joined : parse_path t ≡ below (parse_path root) (parse_path path).names

join_cleaned-IsInside :
    (root path t : Text) → root ≢ [] → join_cleaned root (clean path) ≡ ok t → IsInside root path t
join_cleaned-IsInside root path t n h =
    let (l, g, e) = join_cleaned-ok root (clean path) t h in
    let (a, _, z) = is_local_lem (clean path) l in
    let a2 = sym (is_abs-clean path) ∙ a in
    let p = ap (λ (c : CleanPath). c.ups) (parse_path-clean path) in
    let z2 = sym p ∙ z in
    record {
      relative = a2;
      inside = z2;
      no_git = has_git_path_segment-clean path a2 z2 g;
      joined =
          ap parse_path e
          ∙ parse_path-join_path root (clean path) n a z
          ∙ ap (λ (c : CleanPath). below (parse_path root) c.names) (parse_path-clean path);
    }

pub below_nil : (p : CleanPath) → below p [] ≡ p
below_nil p = ap (λ ns. record p { names = ns }) (append-nil p.names)

-- If `safe_join` returns a path for a root that is not empty, then the other path is relative, does
-- not lead out of the root and has no part ".git", and the path that is returned is the root followed
-- by its names.
pub safe_join-IsInside :
    (root path t : Text) → root ≢ [] → safe_join root path ≡ ok t → IsInside root path t
unfolding safe_join
safe_join-IsInside root [] t n h = record {
  relative = unfold is_abs in refl;
  inside = unfold parse_path in refl;
  no_git = unfold parse_path in tt;
  joined =
      ap parse_path (sym (ok_inj h))
      ∙ parse_path-clean root
      ∙ (unfold parse_path in sym (below_nil (parse_path root)));
}
safe_join-IsInside root (c ∷ path) t n h = join_cleaned-IsInside root (c ∷ path) t n h

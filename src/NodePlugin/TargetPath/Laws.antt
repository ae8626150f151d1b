-- ===== src/NodePlugin/TargetPath/Laws.antt =====
-- `safeTargetPath` accepts exactly the paths strictly below the root.
use gitrepo_csi_driver.Base.{
  ◌≡◌, ◌≢◌, sym, ap, ◌∙◌, ◌↔◌, true, false, List, [], ◌∷◌, ◌++◌, ok, ok_inj, ◌>>=◌, arith, All,
  All-append_right, inl, inr,
}
use mathlib.Core.Path.{subst}
use gitrepo_csi_driver.Text.{Text, same}
use gitrepo_csi_driver.Paths.{
  CleanPath, parse_path, render_parts, is_abs, clean, rel, join_path, is_parent,
}
use gitrepo_csi_driver.Paths.Clean.{IsName, parse_path-IsClean}
use gitrepo_csi_driver.Paths.Local.{parse_path-rooted, is_local_parent}
use gitrepo_csi_driver.Paths.Join.{join_path-clean}
use gitrepo_csi_driver.Paths.Rel.{rel_below, rel_cases}
use gitrepo_csi_driver.Paths.Below.{
  parse_path-clean, is_abs-clean, is_local_local, same-dot_local, join_path_local, abs-ne-nil,
  clean_of_names, is_nil_abs,
}
use gitrepo_csi_driver.NodePlugin.TargetPath.{below_root, safe_target_path}

-- `candidate` lies strictly below `root`.
pub record IsBelow (root candidate : Text) : Type 0 where
  pub rest : List Text
  pub not_root : rest ≢ []
  pub down : (parse_path candidate).names ≡ (parse_path root).names ++ rest

names-clean : (s : Text) → (parse_path (clean s)).names ≡ (parse_path s).names
names-clean s = ap (λ (p : CleanPath). p.names) (parse_path-clean s)

below_root_dot : (root t : Text) → below_root root (render_parts false []) ≢ ok t
unfolding below_root render_parts same
below_root_dot root t e = ground arith

safe_target_path-abs :
    (root candidate t : Text)
    → safe_target_path root candidate ≡ ok t
    → (is_abs root ≡ true) × (is_abs candidate ≡ true)
unfolding safe_target_path
safe_target_path-abs root candidate t e = ground arith

module _ (root candidate : Text) (root_abs : is_abs root ≡ true)
    (abs : is_abs candidate ≡ true) where
  -- The names of a path below the root are names.
  rest-IsName : (b : IsBelow root candidate) → All IsName b.rest
  rest-IsName b =
      All-append_right IsName (parse_path root).names b.rest
        (subst (All IsName) b.down (parse_path-IsClean candidate).names)

  clean_root_abs : is_abs (clean root) ≡ true
  clean_root_abs = is_abs-clean root ∙ root_abs

  clean_abs : is_abs (clean candidate) ≡ true
  clean_abs = is_abs-clean candidate ∙ abs

  join_path-rest :
      (b : IsBelow root candidate)
      → join_path (clean root) (render_parts false b.rest) ≡ clean candidate
  join_path-rest b =
      let n = abs-ne-nil (clean root) clean_root_abs in
      let e = join_path_local b.rest (rest-IsName b) (clean root) n in
      let a = join_path (clean root) (render_parts false b.rest) in
      sym (join_path-clean (clean root) (render_parts false b.rest) n)
      ∙ clean_of_names a candidate
          (sym (parse_path-rooted a)
            ∙ ap (λ (p : CleanPath). p.rooted) e
            ∙ parse_path-rooted (clean root)
            ∙ clean_root_abs)
          abs
          (ap (λ (p : CleanPath). p.names) e
            ∙ ap (λ ns. ns ++ b.rest) (names-clean root)
            ∙ sym b.down)

  rel-IsBelow :
      (b : IsBelow root candidate)
      → rel (clean root) (clean candidate) ≡ ok (render_parts false b.rest)
  rel-IsBelow b =
      rel_below (clean root) (clean candidate) clean_root_abs clean_abs b.rest
        (names-clean candidate ∙ b.down ∙ ap (λ ns. ns ++ b.rest) (sym (names-clean root)))

  below_root-IsBelow :
      (b : IsBelow root candidate)
      → below_root (clean root) (render_parts false b.rest) ≡ ok (clean candidate)
  unfolding below_root
  below_root-IsBelow b =
      rw
        (
          same-dot_local b.rest (rest-IsName b) b.not_root,
          is_local_local b.rest (rest-IsName b) b.not_root,
        )
        (ap ok (join_path-rest b))

  safe_target_path_abs :
      safe_target_path root candidate
      ≡ (do rel_path ← rel (clean root) (clean candidate); below_root (clean root) rel_path)
  unfolding safe_target_path
  safe_target_path_abs = rw (is_nil_abs root root_abs, root_abs, abs)

  accepted : IsBelow root candidate → safe_target_path root candidate ≡ ok (clean candidate)
  accepted b = safe_target_path_abs ∙ rw (rel-IsBelow b) (below_root-IsBelow b)

  -- A relative path that leads up is refused.
  below_root_parent :
      (r : Text) → is_parent r ≡ true → (t : Text) → below_root (clean root) r ≢ ok t
  unfolding below_root
  below_root_parent r up t e = ground (arith, is_local_parent r up)

  IsBelow-of_accepted : (t : Text) → safe_target_path root candidate ≡ ok t → IsBelow root candidate
  IsBelow-of_accepted t e =
      elim (rel_cases (clean root) (clean candidate) clean_root_abs clean_abs) [
        | inl ([], n, k) ↦
            absurd (below_root_dot (clean root) t (sym (rw (safe_target_path_abs, k)) ∙ e))
        | inl (r ∷ rest, n, k) ↦ record {
          rest = r ∷ rest;
          not_root = λ z. cc;
          down = sym (names-clean candidate) ∙ n ∙ ap (λ ns. ns ++ r ∷ rest) (names-clean root);
        }
        | inr (r, k, up) ↦
            absurd (below_root_parent r up t (sym (rw (safe_target_path_abs, k)) ∙ e))
      ]

-- `safe_target_path` returns a path exactly when both arguments are absolute and the candidate lies
-- strictly below the root; the path that it returns is the cleaned candidate.
pub safe_target_path_iff :
    (root candidate t : Text)
    → (safe_target_path root candidate ≡ ok t) ↔ (
        (is_abs root ≡ true)
        × (is_abs candidate ≡ true)
        × IsBelow root candidate
        × (t ≡ clean candidate))
safe_target_path_iff root candidate t = (to, from)
  where
    from :
        (is_abs root ≡ true)
          × (is_abs candidate ≡ true)
          × IsBelow root candidate
          × (t ≡ clean candidate)
        → safe_target_path root candidate ≡ ok t
    from (r, a, b, e) = rw e (accepted root candidate r a b)

    to :
        (safe_target_path root candidate ≡ ok t)
        → (is_abs root ≡ true)
          × (is_abs candidate ≡ true)
          × IsBelow root candidate
          × (t ≡ clean candidate)
    to e =
        let (r, a) = safe_target_path-abs root candidate t e in
        let b = IsBelow-of_accepted root candidate r a t e in
        (r, a, b, ok_inj (sym e ∙ accepted root candidate r a b))

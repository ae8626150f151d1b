-- ===== src/Paths/Rel.antt =====
-- `Rel` between absolute paths: the names below the base, or a path that leads up.
use gitrepo_csi_driver.Base.{
  ℕ, zero, suc, ◌≡◌, ◌≢◌, refl, sym, ap, ap₂, ◌∙◌, true, false, List, [], ◌∷◌, ◌++◌, length,
  replicate, ok, All, append-nil, Bool-cases, inl, inr, ◌⊎◌, All-append_right,
}
use mathlib.Core.List.{tail}
use mathlib.Core.Path.{subst}
use gitrepo_csi_driver.Text.{Text, slash, same, join}
use gitrepo_csi_driver.Text.Search.{same_refl, eq_of_same, same_ne}
use gitrepo_csi_driver.Paths.{
  dot, dotdot, CleanPath, is_abs, parse_path, parts, rel, rel_rest, strip, rel_parts, render_parts,
  render, clean, is_parent,
}
use gitrepo_csi_driver.Paths.Clean.{IsName, IsClean, parse_path-IsClean, parse_path-render}
use gitrepo_csi_driver.Paths.Local.{parse_path-rooted}

-- The names of `t` are those of `b` and then `rest`.
strip_self : (bs ts : List Text) → strip bs (bs ++ ts) ≡ ([], ts)
unfolding strip
strip_self [] ts = refl
strip_self (b ∷ bs) ts = rw same_refl (strip_self bs ts)

-- `strip` takes away a common front, and stops at the first difference.
strip_lem :
    (bs ts : List Text)
    → (front : List Text) × (bs ≡ front ++ (strip bs ts).0) × (ts ≡ front ++ (strip bs ts).1)
unfolding strip
strip_lem [] ts = ([], refl, refl)
strip_lem (b ∷ bs) [] = ([], refl, refl)
strip_lem (b ∷ bs) (t ∷ ts) = elim (Bool-cases (same t b)) [
  | inl e ↦
      (let (front, p, q) = strip_lem bs ts in
        (b ∷ front, rw e (ap (λ xs. b ∷ xs) p), rw e (ap₂ ◌∷◌ (eq_of_same t b e) q)))
  | inr e ↦ rw e ([], refl, refl)
]

strip_of_eq :
    (bs ts : List Text) {st : List Text × List Text}
    → strip bs ts ≡ st
    → (front : List Text) × (bs ≡ front ++ st.0) × (ts ≡ front ++ st.1)
strip_of_eq bs ts e =
    subst (λ st. (front : List Text) × (bs ≡ front ++ st.0) × (ts ≡ front ++ st.1)) e
      (strip_lem bs ts)

-- A rooted path has no part "..".
parts-rooted : (p : CleanPath) → IsClean p → p.rooted ≡ true → parts p ≡ p.names
unfolding parts
parts-rooted p c r = rw (c.at_root r)

rel_parts-rooted : (p : CleanPath) → IsClean p → p.rooted ≡ true → rel_parts p ≡ p.names
unfolding rel_parts
rel_parts-rooted p c r = rw r (parts-rooted p c r)

append_ne : (xs : List Text) (r : Text) (rest : List Text) → xs ≢ xs ++ r ∷ rest
append_ne [] r rest e = cc
append_ne (x ∷ xs) r rest e = append_ne xs r rest (ap tail e)

-- A path that goes up leads out of the base.
ups-is_parent :
    (k : ℕ) (ts : List Text) → is_parent (join (dotdot ∷ (replicate k dotdot ++ ts)) slash) ≡ true
unfolding is_parent join
ups-is_parent zero [] = refl
ups-is_parent zero (t ∷ ts) = refl
ups-is_parent (suc k) ts = refl

module _ (base targ : Text) (b_abs : is_abs base ≡ true) (t_abs : is_abs targ ≡ true) where
  base-IsClean : IsClean (parse_path base)
  base-IsClean = parse_path-IsClean base

  targ-IsClean : IsClean (parse_path targ)
  targ-IsClean = parse_path-IsClean targ

  base_parts : parts (parse_path base) ≡ (parse_path base).names
  base_parts = parts-rooted (parse_path base) base-IsClean (parse_path-rooted base ∙ b_abs)

  targ_parts : rel_parts (parse_path targ) ≡ (parse_path targ).names
  targ_parts = rel_parts-rooted (parse_path targ) targ-IsClean (parse_path-rooted targ ∙ t_abs)

  -- Rooted paths with equal names are equal.
  parse_path_eq :
      (parse_path targ).names ≡ (parse_path base).names → parse_path targ ≡ parse_path base
  parse_path_eq e = λ i. record {
    rooted = (parse_path-rooted targ ∙ t_abs ∙ sym (parse_path-rooted base ∙ b_abs)) i;
    ups =
        (targ-IsClean.at_root (parse_path-rooted targ ∙ t_abs)
            ∙ sym (base-IsClean.at_root (parse_path-rooted base ∙ b_abs)))
          i;
    names = e i;
  }

  names_eq_of_clean : clean targ ≡ clean base → (parse_path targ).names ≡ (parse_path base).names
  unfolding clean
  names_eq_of_clean e =
      ap (λ (p : CleanPath). p.names)
        (sym (parse_path-render (parse_path targ) targ-IsClean)
          ∙ ap parse_path e
          ∙ parse_path-render (parse_path base) base-IsClean)

  -- `Rel` of different paths.
  rel_ne :
      same (clean targ) (clean base) ≡ false
      → rel base targ ≡ rel_rest base targ (strip (parse_path base).names (parse_path targ).names)
  unfolding rel
  rel_ne e =
      rw (e, base_parts, targ_parts, parse_path-rooted base, parse_path-rooted targ, b_abs, t_abs)

  rel_eq : clean targ ≡ clean base → rel base targ ≡ ok dot
  unfolding rel
  rel_eq e = rw (e, same_refl)

  same_of_names :
      (parse_path targ).names ≡ (parse_path base).names → same (clean targ) (clean base) ≡ true
  unfolding clean
  same_of_names e = rw (parse_path_eq e) (same_refl (render (parse_path base)))

  -- Below the base `Rel` gives the names that lead down to the target.
  pub rel_below :
      (rest : List Text)
      → (parse_path targ).names ≡ (parse_path base).names ++ rest
      → rel base targ ≡ ok (render_parts false rest)
  unfolding render_parts
  rel_below [] e = rel_eq (eq_of_same _ _ (same_of_names (e ∙ append-nil _)))
  rel_below (r ∷ rest) e = elim (Bool-cases (same (clean targ) (clean base))) [
    | inl s ↦
        absurd (
          append_ne (parse_path base).names r rest (sym (names_eq_of_clean (eq_of_same _ _ s)) ∙ e))
    | inr s ↦
        rel_ne s
        ∙ ap (rel_rest base targ)
            (ap (strip (parse_path base).names) e ∙ strip_self (parse_path base).names (r ∷ rest))
        ∙ (unfold rel_rest in refl)
  ]

  -- Elsewhere it gives a path that begins with "..", and it never fails.
  rel_above :
      (b : Text) (bs ts : List Text)
      → b ≢ dotdot
      → (r : Text) × (rel_rest base targ (b ∷ bs, ts) ≡ ok r) × (is_parent r ≡ true)
  unfolding rel_rest
  rel_above b bs [] n = (
    join (dotdot ∷ replicate (length bs) dotdot) slash,
    refl,
    rw (append-nil (replicate (length bs) dotdot)) at (ups-is_parent (length bs) []),
  )
  rel_above b bs (t ∷ ts) n = (
    join (dotdot ∷ (replicate (length bs) dotdot ++ t ∷ ts)) slash,
    rw (same_ne b dotdot n),
    ups-is_parent (length bs) (t ∷ ts),
  )

  pub rel_cases :
      ((rest : List Text) × ((parse_path targ).names ≡ (parse_path base).names ++ rest)
        × (rel base targ ≡ ok (render_parts false rest)))
      ⊎ ((r : Text) × (rel base targ ≡ ok r) × (is_parent r ≡ true))
  rel_cases = elim (Bool-cases (same (clean targ) (clean base))) [
    | inl s ↦
        let e = names_eq_of_clean (eq_of_same _ _ s) ∙ sym (append-nil (parse_path base).names) in
        inl ([], e, rel_below [] e)
    | inr s ↦ split_on s (strip (parse_path base).names (parse_path targ).names) refl
  ]
    where
      split_on :
          same (clean targ) (clean base) ≡ false
          → (st : List Text × List Text)
          → strip (parse_path base).names (parse_path targ).names ≡ st
          → ((rest : List Text) × ((parse_path targ).names ≡ (parse_path base).names ++ rest)
              × (rel base targ ≡ ok (render_parts false rest)))
            ⊎ ((r : Text) × (rel base targ ≡ ok r) × (is_parent r ≡ true))
      split_on s ([], ts) e =
          let (front, p, q) = strip_of_eq (parse_path base).names (parse_path targ).names e in
          let n : (parse_path targ).names ≡ (parse_path base).names ++ ts =
            q ∙ ap (λ f. f ++ ts) (sym (append-nil front) ∙ sym p) in
          inl (ts, n, rel_below ts n)
      split_on s (b ∷ bs, ts) e =
          let (front, p, q) = strip_of_eq (parse_path base).names (parse_path targ).names e in
          let n : b ≢ dotdot =
            (All-append_right IsName front (b ∷ bs)
              (subst (All IsName) p base-IsClean.names)).0.not_dotdot in
          let (r, k, up) = rel_above b bs ts n in
          inr (r, rel_ne s ∙ ap (rel_rest base targ) e ∙ k, up)

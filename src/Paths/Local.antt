-- ===== src/Paths/Local.antt =====
-- The laws of `IsLocal` and of the test for "..", and what `Join` does below a cleaned root.
use gitrepo_csi_driver.Base.{
  ℕ, zero, suc, ◌≡◌, ◌≢◌, refl, sym, ap, ◌∙◌, Bool, true, false, ◌||◌, List, [], ◌∷◌, ◌++◌,
  replicate, any, arith, All, Bool-cases, ||_elim, inl, inr, ltb,
}
use gitrepo_csi_driver.Text.{Text, slash, same, split, join, cons_head}
use gitrepo_csi_driver.Text.Search.{eq_of_same, same_ne}
use gitrepo_csi_driver.Text.Split.{Lacks, split-join}
use gitrepo_csi_driver.Paths.{
  dot, dotdot, CleanPath, is_abs, resolve_part, resolve, parse_path, parts, render_parts, render,
  clean, is_parent, is_local,
}
use gitrepo_csi_driver.Paths.Clean.{IsName, IsClean, parse_path-IsClean, parts-Lacks}

-- Whether the first part is "..".
abbrev head_is_dotdot : List Text → Bool
head_is_dotdot [] = false
head_is_dotdot (p ∷ ps) = same p dotdot

three_bytes :
    (a b c : ℕ) (ps : List Text)
    → head_is_dotdot (cons_head a (cons_head b (cons_head c ps))) ≡ false
unfolding cons_head same
three_bytes a b c [] = ground arith
three_bytes a b c (p ∷ ps) = ground arith

is_parent-split : (s : Text) → is_parent s ≡ head_is_dotdot (split s slash)
unfolding is_parent split
is_parent-split [] = refl
is_parent-split (a ∷ []) = ground arith
is_parent-split (a ∷ b ∷ []) = ground arith
is_parent-split (a ∷ b ∷ c ∷ s) = ground (arith, three_bytes a b c (split s slash))

is_parent-parts :
    (ps : List Text) → All (Lacks slash) ps → is_parent (render_parts false ps) ≡ head_is_dotdot ps
unfolding render_parts
is_parent-parts [] h = unfold is_parent in refl
is_parent-parts (p ∷ ps) h =
    is_parent-split (join (p ∷ ps) slash)
    ∙ ap head_is_dotdot (split-join (p ∷ ps) slash (λ e. cc) h)

head_is_dotdot-parts :
    (u : ℕ) (ns : List Text) → All IsName ns → head_is_dotdot (replicate u dotdot ++ ns) ≡ ltb 0 u
unfolding same
head_is_dotdot-parts zero [] h = refl
head_is_dotdot-parts zero (n ∷ ns) (h, hs) = same_ne n dotdot h.not_dotdot
head_is_dotdot-parts (suc u) ns h = ground arith

-- The text of a relative cleaned path leads out of its root exactly when it begins with "..".
pub is_parent-render :
    (p : CleanPath) → IsClean p → p.rooted ≡ false → is_parent (render p) ≡ ltb 0 p.ups
unfolding render parts
is_parent-render p c r = rw r (
    is_parent-parts (replicate p.ups dotdot ++ p.names) (parts-Lacks p c)
    ∙ head_is_dotdot-parts p.ups p.names c.names)

-- Whether some part is "." or "..".
abbrev some_dots : List Text → Bool
some_dots = any (λ part. same part dot || same part dotdot)

resolve_part-no_dots :
    (p : Text) (ns : List Text)
    → (same p dot || same p dotdot) ≡ false
    → (resolve_part p (0, ns)).0 ≡ 0
unfolding resolve_part
resolve_part-no_dots p ns h = ground arith

resolve-no_dots : (ps : List Text) → some_dots ps ≡ false → (resolve ps).0 ≡ 0
unfolding resolve
resolve-no_dots [] h = refl
resolve-no_dots (p ∷ ps) h =
    let (here, later) = ||_elim (same p dot || same p dotdot) (some_dots ps) h in
    ap (λ k. (resolve_part p (k, (resolve ps).1)).0) (resolve-no_dots ps later)
    ∙ resolve_part-no_dots p (resolve ps).1 here

pub parse_path-rooted : (s : Text) → (parse_path s).rooted ≡ is_abs s
unfolding parse_path
parse_path-rooted s = refl

ups-resolve : (s : Text) → (resolve (split s slash)).0 ≡ 0 → (parse_path s).ups ≡ 0
unfolding parse_path
ups-resolve s h = ground arith

pub is_parent-clean : (s : Text) → is_abs s ≡ false → is_parent (clean s) ≡ ltb 0 (parse_path s).ups
unfolding clean
is_parent-clean s h =
    is_parent-render (parse_path s) (parse_path-IsClean s) (parse_path-rooted s ∙ h)

-- A local path is relative, is not empty, and does not lead up.
pub is_local_lem :
    (s : Text) → is_local s ≡ true → (is_abs s ≡ false) × (s ≢ []) × ((parse_path s).ups ≡ 0)
unfolding is_local
is_local_lem s h = elim (Bool-cases (is_abs s)) [
  | inl e ↦ absurd (local_abs e)
  | inr e ↦ (
    e,
    λ z. local_nil e z,
    elim (Bool-cases (some_dots (split s slash))) [
      | inl d ↦ dotted e d
      | inr d ↦ ups-resolve s (resolve-no_dots (split s slash) d)
    ],
  )
]
  where
    local_abs : is_abs s ≡ true → ⊥
    local_abs e = ground arith

    local_nil : is_abs s ≡ false → s ≡ [] → ⊥
    local_nil e z = ground arith

    dotted : is_abs s ≡ false → some_dots (split s slash) ≡ true → (parse_path s).ups ≡ 0
    dotted e d = ground (arith, is_parent-clean s e)

no_dots-head : (ps : List Text) → some_dots ps ≡ false → head_is_dotdot ps ≡ false
no_dots-head [] h = refl
no_dots-head (p ∷ ps) h = (||_elim (same p dot) (same p dotdot) (||_elim _ (some_dots ps) h).0).1

pub is_local_of_ups :
    (s : Text) → is_abs s ≡ false → s ≢ [] → (parse_path s).ups ≡ 0 → is_local s ≡ true
unfolding is_local
is_local_of_ups s e n z = elim (Bool-cases (some_dots (split s slash))) [
  | inl d ↦ ground (arith, is_parent-clean s e)
  | inr d ↦ ground (arith, is_parent-split s, no_dots-head (split s slash) d)
]

ups_dotdot : (ps : List Text) → head_is_dotdot ps ≡ true → (resolve ps).0 ≢ 0
unfolding resolve
ups_dotdot [] h z = cc
ups_dotdot (p ∷ ps) h z =
    let k : (resolve_part dotdot (resolve ps)).0 ≡ 0 = rw (eq_of_same p dotdot h) at z in cc

pub resolve-ups :
    (s : Text) → is_abs s ≡ false → (parse_path s).ups ≡ 0 → (resolve (split s slash)).0 ≡ 0
unfolding parse_path
resolve-ups s e z = ground arith

-- A path that leads up is not local.
pub is_local_parent : (s : Text) → is_parent s ≡ true → is_local s ≢ true
is_local_parent s up l =
    let (a, n, z) = is_local_lem s l in
    ups_dotdot (split s slash) (sym (is_parent-split s) ∙ up) (resolve-ups s a z)

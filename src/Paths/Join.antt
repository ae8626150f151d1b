-- ===== src/Paths/Join.antt =====
-- What `Join` and `Rel` do to cleaned paths.
use gitrepo_csi_driver.Base.{
  ℕ, zero, suc, ◌≡◌, ◌≢◌, refl, ap, ap₂, ◌∙◌, false, List, [], ◌∷◌, ◌++◌, arith,
}
use gitrepo_csi_driver.Text.{Text, slash, split}
use gitrepo_csi_driver.Text.Split.{split-append}
use gitrepo_csi_driver.Paths.{
  CleanPath, is_abs, resolve_part, resolve, clean_parts, parse_path, clean, join_path,
}
use gitrepo_csi_driver.Paths.Clean.{clean_idem, parse_path-IsClean, parse_path-render}
use gitrepo_csi_driver.Paths.Local.{resolve-ups}

-- The path of the names below a path.
abbrev pub below : CleanPath → List Text → CleanPath
below p ns = record p { names = p.names ++ ns }

resolve_part-append :
    (p : Text) (u : ℕ) (ns ms : List Text)
    → resolve_part p (u, ns ++ ms) ≡ ((resolve_part p (u, ns)).0, (resolve_part p (u, ns)).1 ++ ms)
unfolding resolve_part
resolve_part-append p zero ns ms = ground arith
resolve_part-append p (suc u) ns ms = ground arith

resolve_both :
    (ps qs : List Text)
    → (resolve qs).0 ≡ 0
    → resolve (ps ++ qs) ≡ ((resolve ps).0, (resolve ps).1 ++ (resolve qs).1)
unfolding resolve
resolve_both [] qs z = λ i. (z i, (resolve qs).1)
resolve_both (p ∷ ps) qs z =
    ap (resolve_part p) (resolve_both ps qs z)
    ∙ resolve_part-append p (resolve ps).0 (resolve ps).1 (resolve qs).1

is_abs-append : (c : ℕ) (a b : Text) → is_abs (c ∷ (a ++ b)) ≡ is_abs (c ∷ a)
unfolding is_abs
is_abs-append c a b = refl

names-resolve : (s : Text) → (parse_path s).names ≡ (resolve (split s slash)).1
unfolding parse_path
names-resolve s = refl

-- `Join` with a local path goes down from a non-empty one.
pub parse_path-join_path :
    (a b : Text)
    → a ≢ []
    → is_abs b ≡ false
    → (parse_path b).ups ≡ 0
    → parse_path (join_path a b) ≡ below (parse_path a) (parse_path b).names
unfolding join_path
parse_path-join_path [] b n e z = absurd (n refl)
parse_path-join_path (c ∷ a) b n e z =
    let s : Text = c ∷ (a ++ slash ∷ b) in
    let both = resolve_both (split (c ∷ a) slash) (split b slash) (resolve-ups b e z) in
    let p : parse_path (clean s) ≡ parse_path s =
      parse_path-render (parse_path s) (parse_path-IsClean s) in
    p
    ∙ (unfold parse_path in
        ap₂ clean_parts (is_abs-append c a (slash ∷ b))
          (ap resolve (split-append (c ∷ a) b slash) ∙ both))

pub join_path-clean : (a b : Text) → a ≢ [] → clean (join_path a b) ≡ join_path a b
unfolding join_path
join_path-clean [] b n = absurd (n refl)
join_path-clean (c ∷ a) b n = clean_idem (c ∷ (a ++ slash ∷ b))

-- ===== src/Paths/Below.antt =====
-- The local path that names spell, and the path below a root that it leads to.
use gitrepo_csi_driver.Base.{
  ◌≡◌, ◌≢◌, refl, sym, ap, ap₂, ◌∙◌, true, false, List, [], ◌∷◌, ◌++◌, replicate, All-map, is_nil,
  All,
}
use gitrepo_csi_driver.Text.{Text, same, slash, split}
use gitrepo_csi_driver.Text.Split.{split-join}
use gitrepo_csi_driver.Text.Search.{same_ne}
use gitrepo_csi_driver.Paths.{
  parts, dot, dotdot, CleanPath, parse_path, render_parts, render, is_abs, is_local, clean,
  join_path, is_parent,
}
use gitrepo_csi_driver.Paths.Clean.{IsName, IsClean, parse_path-IsClean, parse_path-render}
use gitrepo_csi_driver.Paths.Local.{is_local_of_ups, is_parent-render, parse_path-rooted}
use gitrepo_csi_driver.Paths.Join.{below, parse_path-join_path}

pub parse_path-clean : (s : Text) → parse_path (clean s) ≡ parse_path s
unfolding clean
parse_path-clean s = parse_path-render (parse_path s) (parse_path-IsClean s)

pub is_abs-clean : (s : Text) → is_abs (clean s) ≡ is_abs s
is_abs-clean s =
    sym (parse_path-rooted (clean s))
    ∙ ap (λ (p : CleanPath). p.rooted) (parse_path-clean s)
    ∙ parse_path-rooted s

-- The relative path that names spell.
abbrev pub local : List Text → CleanPath
local ns = record { rooted = false; ups = 0; names = ns }

local-IsClean : (ns : List Text) → All IsName ns → IsClean (local ns)
local-IsClean ns h = record { names = h; at_root = λ e. refl }

pub parse_path-local :
    (ns : List Text) → All IsName ns → parse_path (render_parts false ns) ≡ local ns
unfolding render parts
parse_path-local ns h = parse_path-render (local ns) (local-IsClean ns h)

module _ (ns : List Text) (h : All IsName ns) where
  pub is_abs_local : is_abs (render_parts false ns) ≡ false
  is_abs_local =
      sym (parse_path-rooted (render_parts false ns))
      ∙ ap (λ (p : CleanPath). p.rooted) (parse_path-local ns h)

  pub ups_local : (parse_path (render_parts false ns)).ups ≡ 0
  ups_local = ap (λ (p : CleanPath). p.ups) (parse_path-local ns h)

  -- A text that names spell is no text of a path with other names.
  local_ne : (s : Text) → (parse_path s).names ≢ ns → render_parts false ns ≢ s
  local_ne s n e = n (
      ap (λ t. (parse_path t).names) (sym e)
      ∙ ap (λ (p : CleanPath). p.names) (parse_path-local ns h))

  pub is_local_local : ns ≢ [] → is_local (render_parts false ns) ≡ true
  is_local_local n =
      is_local_of_ups (render_parts false ns) is_abs_local
        (local_ne [] (λ e. n (sym e ∙ (unfold parse_path in refl)))) ups_local

  pub same-dot_local : ns ≢ [] → same (render_parts false ns) dot ≡ false
  same-dot_local n =
      same_ne (render_parts false ns) dot
        (local_ne dot (λ e. n (sym e ∙ (unfold parse_path in refl))))

  pub is_parent_local : is_parent (render_parts false ns) ≡ false
  unfolding render parts
  is_parent_local = is_parent-render (local ns) (local-IsClean ns h) refl

  -- From a non-empty path down these names.
  pub join_path_local :
      (a : Text)
      → a ≢ []
      → parse_path (join_path a (render_parts false ns)) ≡ below (parse_path a) ns
  join_path_local a n =
      parse_path-join_path a (render_parts false ns) n is_abs_local ups_local
      ∙ ap (λ (p : CleanPath). below (parse_path a) p.names) (parse_path-local ns h)

pub abs-ne-nil : (s : Text) → is_abs s ≡ true → s ≢ []
unfolding is_abs
abs-ne-nil [] h e = cc
abs-ne-nil (c ∷ s) h e = cc

pub is_nil_abs : (s : Text) → is_abs s ≡ true → is_nil s ≡ false
unfolding is_abs
is_nil_abs [] h = cc
is_nil_abs (c ∷ s) h = refl

-- Absolute paths with the same names are written alike when cleaned.
pub clean_of_names :
    (s t : Text)
    → is_abs s ≡ true
    → is_abs t ≡ true
    → (parse_path s).names ≡ (parse_path t).names
    → clean s ≡ clean t
unfolding clean
clean_of_names s t a b e = ap render λ i. record {
  rooted = (parse_path-rooted s ∙ a ∙ sym (parse_path-rooted t ∙ b)) i;
  ups =
      ((parse_path-IsClean s).at_root (parse_path-rooted s ∙ a)
          ∙ sym ((parse_path-IsClean t).at_root (parse_path-rooted t ∙ b)))
        i;
  names = e i;
}

-- A relative path that does not lead up is the text of its names.
pub clean_local :
    (s : Text)
    → is_abs s ≡ false
    → (parse_path s).ups ≡ 0
    → clean s ≡ render_parts false (parse_path s).names
unfolding clean render parts
clean_local s a z =
    ap₂ render_parts (parse_path-rooted s ∙ a)
      (ap (λ k. replicate k dotdot ++ (parse_path s).names) z)

pub split_local :
    (n : Text) (ns : List Text)
    → All IsName (n ∷ ns)
    → split (render_parts false (n ∷ ns)) slash ≡ n ∷ ns
unfolding render_parts
split_local n ns h =
    split-join (n ∷ ns) slash (λ e. cc) (All-map (λ m (i : IsName m). i.no_slash) (n ∷ ns) h)

-- ===== src/Paths/Clean.antt =====
-- The laws of `Clean`: a cleaned path is read back from its text, and cleaning twice changes nothing.
use gitrepo_csi_driver.Base.{
  ℕ, zero, suc, ◌≡◌, ◌≢◌, refl, sym, ap, ap₂, ◌∙◌, Bool, true, false, List, [], ◌∷◌, ◌++◌,
  replicate, arith, All, All-map, append-nil, Bool-cases, inl, inr,
}
use gitrepo_csi_driver.Text.{Text, codes, slash, same, split, join}
use gitrepo_csi_driver.Text.Search.{same_ne, ne_of_same}
use gitrepo_csi_driver.Text.Split.{Lacks, split_at_sep, split-join, All_Lacks-split}
use gitrepo_csi_driver.Paths.{
  dot, dotdot, CleanPath, is_abs, go_down, resolve_part, resolve, clean_parts, parse_path, parts,
  render_parts, render, clean,
}

-- A name of a directory entry.
pub record IsName (part : Text) : Type 0 where
  pub not_empty : part ≢ []
  pub not_dot : part ≢ dot
  pub not_dotdot : part ≢ dotdot
  pub no_slash : Lacks slash part

pub record IsClean (p : CleanPath) : Type 0 where
  pub names : All IsName p.names
  pub at_root : p.rooted ≡ true → p.ups ≡ 0

clean_doc :
    (clean [] ≡ codes ".")
    × (clean (codes "a/b/../c/./") ≡ codes "a/c")
    × (clean (codes "/../a//b/..") ≡ codes "/a")
    × (clean (codes "a/../../../b/.") ≡ codes "../../b")
    × (clean (codes "//") ≡ codes "/")
unfolding clean parse_path render
clean_doc = (refl, refl, refl, refl, refl)

resolve_part-IsName :
    (part : Text) (r : ℕ × List Text)
    → Lacks slash part
    → All IsName r.1
    → All IsName (resolve_part part r).1
unfolding resolve_part
resolve_part-IsName [] (u, ns) l h = h
resolve_part-IsName (c ∷ s) (u, ns) l h = elim (Bool-cases (same (c ∷ s) dot)) [
  | inl e ↦ rw e h
  | inr e ↦ rw e (elim (Bool-cases (same (c ∷ s) dotdot)) [
    | inl f ↦ rw f h
    | inr f ↦ rw f (
        down u (record {
          not_empty = λ z. cc;
          not_dot = ne_of_same (c ∷ s) dot e;
          not_dotdot = ne_of_same (c ∷ s) dotdot f;
          no_slash = l;
        }))
  ])
]
  where
    down : (u : ℕ) → IsName (c ∷ s) → All IsName (go_down (c ∷ s) u ns).1
    down zero n = (n, h)
    down (suc u) n = h

resolve-IsName : (ps : List Text) → All (Lacks slash) ps → All IsName (resolve ps).1
unfolding resolve
resolve-IsName [] h = tt
resolve-IsName (p ∷ ps) (l, ls) = resolve_part-IsName p (resolve ps) l (resolve-IsName ps ls)

pub parse_path-IsClean : (s : Text) → IsClean (parse_path s)
unfolding parse_path
parse_path-IsClean s = record {
  names = resolve-IsName (split s slash) (All_Lacks-split s slash);
  at_root = λ h. rw h;
}

-- Names resolve to themselves.
resolve_part-name : (p : Text) (r : ℕ × List Text) → IsName p → resolve_part p r ≡ go_down p r.0 r.1
unfolding resolve_part
resolve_part-name [] r n = absurd (n.not_empty refl)
resolve_part-name (c ∷ s) (u, ns) n =
    rw (same_ne (c ∷ s) dot n.not_dot, same_ne (c ∷ s) dotdot n.not_dotdot)

pub resolve-append :
    (ns ps : List Text)
    → All IsName ns
    → (resolve ps).0 ≡ 0
    → resolve (ns ++ ps) ≡ (0, ns ++ (resolve ps).1)
unfolding resolve go_down
resolve-append [] ps h z = λ i. (z i, (resolve ps).1)
resolve-append (n ∷ ns) ps (h, hs) z =
    rw (resolve-append ns ps hs z) (resolve_part-name n (0, ns ++ (resolve ps).1) h)

pub resolve_names : (ns : List Text) → All IsName ns → resolve ns ≡ (0, ns)
unfolding resolve
resolve_names ns h =
    ap resolve (sym (append-nil ns))
    ∙ resolve-append ns [] h refl
    ∙ ap (λ xs. (0, xs)) (append-nil ns)

pub resolve_ups :
    (u : ℕ) (ns : List Text) → All IsName ns → resolve (replicate u dotdot ++ ns) ≡ (u, ns)
unfolding resolve
resolve_ups zero ns h = resolve_names ns h
resolve_ups (suc u) ns h = rw (resolve_ups u ns h)

-- Empty parts and "." change nothing.
resolve-nil_cons : (ps : List Text) → resolve ([] ∷ ps) ≡ resolve ps
unfolding resolve
resolve-nil_cons ps = refl

dotdots-Lacks :
    (u : ℕ) (ns : List Text) → All IsName ns → All (Lacks slash) (replicate u dotdot ++ ns)
dotdots-Lacks zero ns h = All-map (λ n (i : IsName n). i.no_slash) ns h
dotdots-Lacks (suc u) ns h = ((omega arith), dotdots-Lacks u ns h)

pub parts-Lacks : (p : CleanPath) → IsClean p → All (Lacks slash) (parts p)
unfolding parts
parts-Lacks p c = dotdots-Lacks p.ups p.names c.names

-- The parts of a text that holds no slash in front are not rooted.
is_abs-join :
    (q : Text) (ps : List Text) → q ≢ [] → Lacks slash q → is_abs (join (q ∷ ps) slash) ≡ false
unfolding is_abs join
is_abs-join [] ps n l = absurd (n refl)
is_abs-join (c ∷ q) [] n (l, ls) = ground arith
is_abs-join (c ∷ q) (r ∷ ps) n (l, ls) = ground arith

is_abs-parts :
    (u : ℕ) (ns : List Text)
    → All IsName ns
    → is_abs (render_parts false (replicate u dotdot ++ ns)) ≡ false
unfolding render_parts
is_abs-parts zero [] h = unfold is_abs in refl
is_abs-parts zero (n ∷ ns) (h, hs) = is_abs-join n ns h.not_empty h.no_slash
is_abs-parts (suc u) ns h = is_abs-join dotdot (replicate u dotdot ++ ns) (λ e. cc) (omega arith)

resolve-split_render :
    (ps : List Text)
    → All (Lacks slash) ps
    → resolve (split (render_parts false ps) slash) ≡ resolve ps
unfolding render_parts
resolve-split_render [] h = unfold resolve split in refl
resolve-split_render (p ∷ ps) h = ap resolve (split-join (p ∷ ps) slash (λ e. cc) h)

resolve-split_root :
    (ps : List Text)
    → All (Lacks slash) ps
    → resolve (split (render_parts true ps) slash) ≡ resolve ps
unfolding render_parts
resolve-split_root [] h = unfold resolve split join in refl
resolve-split_root (p ∷ ps) h =
    ap resolve (split_at_sep (join (p ∷ ps) slash) slash)
    ∙ resolve-nil_cons (split (join (p ∷ ps) slash) slash)
    ∙ ap resolve (split-join (p ∷ ps) slash (λ e. cc) h)

parse-render :
    (r : Bool) (u : ℕ) (ns : List Text)
    → All IsName ns
    → (r ≡ true → u ≡ 0)
    → parse_path (render_parts r (replicate u dotdot ++ ns))
      ≡ record { rooted = r; ups = u; names = ns }
unfolding parse_path render_parts
parse-render true u ns h z =
    ap (clean_parts true)
      (resolve-split_root (replicate u dotdot ++ ns) (dotdots-Lacks u ns h) ∙ resolve_ups u ns h)
    ∙ ap (λ k. record { rooted = true; ups = k; names = ns }) (sym (z refl))
parse-render false u ns h z =
    ap₂ clean_parts (is_abs-parts u ns h)
      (resolve-split_render (replicate u dotdot ++ ns) (dotdots-Lacks u ns h) ∙ resolve_ups u ns h)

-- A cleaned path is read back from its text.
pub parse_path-render : (p : CleanPath) → IsClean p → parse_path (render p) ≡ p
unfolding render
parse_path-render p c = parse-render p.rooted p.ups p.names c.names c.at_root

-- Cleaning a second time changes nothing.
pub clean_idem : (s : Text) → clean (clean s) ≡ clean s
unfolding clean
clean_idem s = ap render (parse_path-render (parse_path s) (parse_path-IsClean s))

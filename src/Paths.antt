-- ===== src/Paths.antt =====
-- Go's `path` and `path/filepath` on Unix: `Clean`, `IsAbs`, `IsLocal`, `Rel` and `Join`. A cleaned
-- path is kept as the parts that its text spells; `render` writes the text.
pub mod Clean
pub mod Local
pub mod Join
pub mod Rel
pub mod Below
pub mod Dir
use gitrepo_csi_driver.Base.{
  ◌==◌, ℕ, zero, suc, Bool, true, false, not, ◌&&◌, ◌||◌, List, [], ◌∷◌, ◌++◌, if◌then◌else◌,
  length, replicate, any, is_nil, Result, ok, err, Error, errorf, bytes,
}
use gitrepo_csi_driver.Text.{Text, codes, slash, same, has_prefix, split, join}

abbrev pub dot : Text
dot = codes "."

abbrev pub dotdot : Text
dotdot = codes ".."

-- A cleaned path: whether it begins with a slash, its leading ".." parts, and the names below.
pub record CleanPath : Type 0 where
  pub rooted : Bool
  pub ups : ℕ
  pub names : List Text

-- `filepath.IsAbs`
unfoldable pub is_abs : Text → Bool
unfolding has_prefix
is_abs s = has_prefix s (slash ∷ [])

-- A name in front of a resolved rest: it meets the first "..", if there is one.
unfoldable pub go_down : Text → ℕ → List Text → ℕ × List Text
go_down part zero names = (zero, part ∷ names)
go_down part (suc ups) names = (ups, names)

-- The rules of `Clean` for one part in front of a resolved rest.
unfoldable pub resolve_part : Text → ℕ × List Text → ℕ × List Text
unfolding go_down same
resolve_part part (ups, names) =
    if is_nil part || same part dot
    then (ups, names)
    else if same part dotdot
    then (suc ups, names)
    else go_down part ups names

unfoldable pub resolve : List Text → ℕ × List Text
unfolding resolve_part
resolve [] = (0, [])
resolve (part ∷ parts) = resolve_part part (resolve parts)

-- ".." at the root stays at the root.
unfoldable pub clean_parts : Bool → ℕ × List Text → CleanPath
clean_parts rooted (ups, names) = record {
  rooted = rooted;
  ups = if rooted then 0 else ups;
  names = names;
}

unfoldable pub parse_path : Text → CleanPath
unfolding is_abs resolve clean_parts split
parse_path s = clean_parts (is_abs s) (resolve (split s slash))

unfoldable pub parts : CleanPath → List Text
parts p = replicate p.ups dotdot ++ p.names

unfoldable pub render_parts : Bool → List Text → Text
unfolding join
render_parts true ps = slash ∷ join ps slash
render_parts false [] = dot
render_parts false (p ∷ ps) = join (p ∷ ps) slash

unfoldable pub render : CleanPath → Text
unfolding render_parts parts
render p = render_parts p.rooted (parts p)

-- `path.Clean` and `filepath.Clean`
unfoldable pub clean : Text → Text
clean s = render (parse_path s)

-- `s == ".." || strings.HasPrefix(s, "../")`
unfoldable pub is_parent : Text → Bool
unfolding same has_prefix
is_parent s = same s dotdot || has_prefix s (codes "../")

-- `filepath.IsLocal`: `Clean` is called only if a part is "." or "..".
unfoldable pub is_local : Text → Bool
unfolding is_abs clean is_parent split same
is_local s =
    if is_abs s || is_nil s
    then false
    else if any (λ part. same part dot || same part dotdot) (split s slash)
    then not (is_parent (clean s))
    else not (is_parent s)

-- What `Rel` compares part by part: the text of a cleaned path, "." as a part of its own.
unfoldable pub rel_parts : CleanPath → List Text
unfolding parts
rel_parts p = if not p.rooted && is_nil (parts p) then dot ∷ [] else parts p

-- The loop of `Rel`: drops the parts that both begin with.
unfoldable pub strip : List Text → List Text → List Text × List Text
unfolding same
strip [] ts = ([], ts)
strip (b ∷ bs) [] = (b ∷ bs, [])
strip (b ∷ bs) (t ∷ ts) = if same t b then strip bs ts else (b ∷ bs, t ∷ ts)

-- What is left: up from each part of the base, and down the target. A ".." of the base cannot be
-- undone.
unfoldable pub rel_rest : Text → Text → List Text × List Text → Result Text
unfolding same join
rel_rest base targ ([], ts) = ok (join ts slash)
rel_rest base targ (b ∷ bs, []) = ok (join (replicate (length (b ∷ bs)) dotdot) slash)
rel_rest base targ (b ∷ bs, t ∷ ts) =
    if same b dotdot
    then err (errorf "Rel: can't make %s relative to %s" (bytes targ ∷ bytes base ∷ []))
    else ok (join (replicate (length (b ∷ bs)) dotdot ++ t ∷ ts) slash)

abbrev pub same_bool : Bool → Bool → Bool
same_bool true b = b
same_bool false b = not b

-- `filepath.Rel(base, targ)`
unfoldable pub rel : Text → Text → Result Text
rel base targ =
    let b = parse_path base in
    let t = parse_path targ in
    if same (clean targ) (clean base)
    then ok dot
    else if same_bool b.rooted t.rooted
    then rel_rest base targ (strip (parts b) (rel_parts t))
    else err (errorf "Rel: can't make %s relative to %s" (bytes targ ∷ bytes base ∷ []))

-- `filepath.Join(a, b)`: empty elements in front are left out, and the rest is cleaned.
unfoldable pub join_path : Text → Text → Text
unfolding clean
join_path [] [] = []
join_path [] (c ∷ b) = clean (c ∷ b)
join_path (c ∷ a) b = clean (c ∷ (a ++ slash ∷ b))

-- A path up to its last slash, and `filepath.Dir`.
unfoldable pub up_to_slash : Text → Text
up_to_slash [] = []
up_to_slash (c ∷ s) =
    let r = up_to_slash s in if not (is_nil r) then c ∷ r else if c == slash then c ∷ [] else []

unfoldable pub dir : Text → Text
dir path = clean (up_to_slash path)

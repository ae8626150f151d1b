-- ===== src/NodePlugin/Assembly/Isolation.antt =====
-- Mounts that run at the same time: the calls of two runs of the go-git backend, in any order in which they
-- may come.
use gitrepo_csi_driver.Base.{
  ok, ◌||◌, append-nil, All-map, ◌≡◌, ◌≢◌, refl, sym, ap, ◌∙◌, Bool, true, false, ◌&&◌, List, [],
  ◌∷◌, ◌++◌, append_assoc, if◌then◌else◌, All,
}
use gitrepo_csi_driver.Cache.Key.{Config, path_for_key}
use gitrepo_csi_driver.Files.{Node}
use gitrepo_csi_driver.Materializer.Copy.{make_dir, make_link, make_file}
use gitrepo_csi_driver.Materializer.Copy.Safe.{IsContained}
use gitrepo_csi_driver.Materializer.Copy.Success.{IsNamed}
use gitrepo_csi_driver.Materializer.GoGit.Calls.{materialize-SafeGoGitCall}
use gitrepo_csi_driver.Materializer.GoGit.Chown.{names-join_path}
use gitrepo_csi_driver.Materializer.GoGit.Library.{
  Call, Trace, cloned, removed_all, made_all, wrote, lchown, GoGit, System,
}
use gitrepo_csi_driver.Materializer.GoGit.Run.{Owner, materialize}
use gitrepo_csi_driver.Materializer.GoGit.Safe.{SafeGoGitCall}
use gitrepo_csi_driver.Paths.{CleanPath, parse_path, is_abs, join_path}
use gitrepo_csi_driver.Paths.Clean.{IsName, parse_path-IsClean}
use gitrepo_csi_driver.Paths.Dir.{join_path-is_abs}
use gitrepo_csi_driver.Policy.Types.{GitContentPolicy}
use gitrepo_csi_driver.Text.{Text, codes, same}
use gitrepo_csi_driver.Text.Search.{same_refl, same_ne}
use gitrepo_csi_driver.Volume.{Attributes}

-- Two sequences of calls, each in its own order, in one.
pub data Interleaves : Trace → Trace → Trace → Type 0 where
  done : Interleaves [] [] []
  first : {xs ys zs : Trace} (c : Call) → Interleaves xs ys zs → Interleaves (c ∷ xs) ys (c ∷ zs)
  second : {xs ys zs : Trace} (c : Call) → Interleaves xs ys zs → Interleaves xs (c ∷ ys) (c ∷ zs)

unfoldable pub begins_with : List Text → List Text → Bool
begins_with [] ns = true
begins_with (m ∷ ms) [] = false
begins_with (m ∷ ms) (n ∷ ns) = same m n && begins_with ms ns

-- Whether a call removes something at a path, below it or above it; writes a link or a file, or changes an
-- owner, at the path or below it; or makes the path with `os.MkdirAll`, before anything is cloned. A
-- directory that is made for a file is not counted: it takes the place of nothing.
unfoldable pub changes_in : Text → Call → Bool
changes_in root (removed_all path) =
    begins_with (parse_path root).names (parse_path path).names
    || begins_with (parse_path path).names (parse_path root).names
changes_in root (wrote (make_link target path)) =
    begins_with (parse_path root).names (parse_path path).names
changes_in root (wrote (make_file path mode text)) =
    begins_with (parse_path root).names (parse_path path).names
changes_in root (wrote (make_dir path mode)) = false
changes_in root (cloned options) = false
changes_in root (made_all path mode) = begins_with (parse_path root).names (parse_path path).names
changes_in root (lchown path uid gid) = begins_with (parse_path root).names (parse_path path).names

unfoldable pub keep : (Call → Bool) → Trace → Trace
keep p [] = []
keep p (c ∷ trace) = if p c then c ∷ keep p trace else keep p trace

-- Calls that a test does not pick disappear from an interleaving.
keep-Interleaves :
    (p : Call → Bool) {xs ys zs : Trace}
    → Interleaves xs ys zs
    → All (λ c. p c ≡ false) ys
    → keep p zs ≡ keep p xs
unfolding keep
keep-Interleaves p done h = refl
keep-Interleaves p (first c r) h =
    ap (λ rest. if p c then c ∷ rest else rest) (keep-Interleaves p r h)
keep-Interleaves p (second c r) (e, h) = rw e (keep-Interleaves p r h)

-- Below one directory, other names lead elsewhere.
begins_with-other :
    (root : List Text) (a b : Text) (ms ns : List Text)
    → a ≢ b
    → begins_with (root ++ a ∷ ms) (root ++ b ∷ ns) ≡ false
unfolding begins_with
begins_with-other [] a b ms ns d = rw (same_ne a b d) refl
begins_with-other (r ∷ root) a b ms ns d = rw (same_refl r, begins_with-other root a b ms ns d) refl

content_name : IsName (codes "content")
unfolding parse_path
content_name = (parse_path-IsClean (codes "/content")).names.0

module _ (cfg : Config) (root_abs : is_abs cfg.root_dir ≡ true) where
  -- The content directory of a cache key.
  abbrev pub content_of : Text → Text
  content_of k = join_path (path_for_key cfg k) (codes "content")

  work_dir-is_abs : (k : Text) → is_abs (path_for_key cfg k) ≡ true
  unfolding path_for_key
  work_dir-is_abs k = join_path-is_abs cfg.root_dir k root_abs

  names-work_dir :
      (k : Text)
      → IsName k
      → (parse_path (path_for_key cfg k)).names ≡ (parse_path cfg.root_dir).names ++ k ∷ []
  unfolding path_for_key
  names-work_dir k i = names-join_path cfg.root_dir k root_abs i

  names-content :
      (k : Text)
      → IsName k
      → (parse_path (content_of k)).names
        ≡ (parse_path cfg.root_dir).names ++ k ∷ codes "content" ∷ []
  unfolding path_for_key
  names-content k i =
      names-join_path (path_for_key cfg k) (codes "content") (work_dir-is_abs k) content_name
      ∙ ap (λ ns. ns ++ codes "content" ∷ []) (names-join_path cfg.root_dir k root_abs i)
      ∙ append_assoc (parse_path cfg.root_dir).names (k ∷ []) (codes "content" ∷ [])

  module _ (k l : Text) (i : IsName k) (j : IsName l) (d : k ≢ l) where
    other_names :
        (path : Text) (rest : List Text)
        → (parse_path path).names ≡ (parse_path (content_of l)).names ++ rest
        → begins_with (parse_path (content_of k)).names (parse_path path).names ≡ false
    other_names path rest h =
        let r = (parse_path cfg.root_dir).names in
        let e =
          h
          ∙ ap (λ ns. ns ++ rest) (names-content l j)
          ∙ append_assoc r (l ∷ codes "content" ∷ []) rest in
        rw (names-content k i, e)
          (begins_with-other r k l (codes "content" ∷ []) (codes "content" ∷ rest) d)

    contained_elsewhere :
        (path : Text)
        → IsContained (content_of l) path
        → begins_with (parse_path (content_of k)).names (parse_path path).names ≡ false
    contained_elsewhere path c = other_names path c.rest (ap (λ (p : CleanPath). p.names) c.joined)

    -- A safe call of the run with the one key changes nothing in the other's content.
    call_elsewhere :
        (owner : Owner) (other : System)
        → ((at : Trace) (path : Text) (node : Node)
            → other.node_at at path ≡ ok node
            → IsNamed node)
        → (c : Call) → SafeGoGitCall (path_for_key cfg l) (content_of l) owner other.node_at c
        → changes_in (content_of k) c ≡ false
    unfolding changes_in
    call_elsewhere owner other named (removed_all path) s =
        let r = (parse_path cfg.root_dir).names in
        let e = ap (λ p. (parse_path p).names) s ∙ names-content l j in
        rw
          (
            other_names path [] (ap (λ p. (parse_path p).names) s ∙ sym (append-nil _)),
            e,
            names-content k i,
          )
          (begins_with-other r l k (codes "content" ∷ []) (codes "content" ∷ []) (λ h. d (sym h)))
    call_elsewhere owner other named (wrote (make_link target path)) s =
        contained_elsewhere path s.0
    call_elsewhere owner other named (wrote (make_file path mode text)) s =
        contained_elsewhere path s.0
    call_elsewhere owner other named (wrote (make_dir path mode)) s = refl
    call_elsewhere owner other named (cloned options) s = refl
    call_elsewhere owner other named (made_all path mode) s =
        let r = (parse_path cfg.root_dir).names in
        let e = ap (λ p. (parse_path p).names) s ∙ names-work_dir l j in
        rw (names-content k i, e) (begins_with-other r k l (codes "content" ∷ []) [] d)
    call_elsewhere owner other named (lchown path uid gid) (_, at, node, e, a) =
        let (rest, h) = a (named at (content_of l) node e) in other_names path rest h

    all_elsewhere :
        (owner : Owner) (other : System)
        → ((at : Trace) (path : Text) (node : Node)
            → other.node_at at path ≡ ok node
            → IsNamed node)
        → (trace : Trace)
        → All (SafeGoGitCall (path_for_key cfg l) (content_of l) owner other.node_at) trace
        → All (λ c. changes_in (content_of k) c ≡ false) trace
    all_elsewhere owner other named trace h =
        All-map (λ c s. call_elsewhere owner other named c s) trace h

-- Two runs of the go-git backend at the same time, in an absolute cache directory, with different cache keys
-- and files whose names are names, do not disturb each other's content: in whatever order their calls come,
-- those are of the one run, and in its own order, that remove something at, above or below its content
-- directory, write a link or a file or change an owner there, or make the directory with `os.MkdirAll`
-- before the clone. (Directories made for files are left out.) What a run's calls are answered is any
-- function, and so may depend on what the other does.
pub materialize-Interleaves :
    (cfg : Config) (k l : Text) (sys other : System) (lib library : GoGit) (owner : Owner)
    (attrs asked : Attributes) (pol policy : GitContentPolicy) (zs : Trace)
    → ((at : Trace) (path : Text) (node : Node) → other.node_at at path ≡ ok node → IsNamed node)
    → is_abs cfg.root_dir ≡ true
    → IsName k
    → IsName l
    → k ≢ l
    → Interleaves
        (materialize sys lib owner attrs pol (path_for_key cfg k) []).1
        (materialize other library owner asked policy (path_for_key cfg l) []).1
        zs
    → keep (changes_in (join_path (path_for_key cfg k) (codes "content"))) zs
      ≡ keep
          (changes_in (join_path (path_for_key cfg k) (codes "content")))
          (materialize sys lib owner attrs pol (path_for_key cfg k) []).1
materialize-Interleaves cfg k l sys other lib library owner attrs asked pol policy zs named r i j d
      z =
    keep-Interleaves _ z (
      all_elsewhere cfg r k l i j d owner other named _ (
        materialize-SafeGoGitCall other library owner asked policy (path_for_key cfg l) []
          (work_dir-is_abs cfg r l) tt))

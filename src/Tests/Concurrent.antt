-- ===== src/Tests/Concurrent.antt =====
-- Two mounts of the same volume under two cache keys.
use gitrepo_csi_driver.Base.{ok, ok_inj, some, true, ◌≡◌, ◌≢◌, refl, All, [], ◌∷◌}
use gitrepo_csi_driver.Base.Int.{pos}
use gitrepo_csi_driver.Cache.Key.{Config, path_for_key}
use gitrepo_csi_driver.Files.{Node}
use gitrepo_csi_driver.Materializer.Copy.Success.{IsNamed}
use gitrepo_csi_driver.Materializer.GoGit.Library.{Trace}
use gitrepo_csi_driver.Materializer.GoGit.Run.{materialize}
use gitrepo_csi_driver.NodePlugin.Assembly.Isolation.{
  Interleaves, done, first, second, changes_in, keep, materialize-Interleaves,
}
use gitrepo_csi_driver.Paths.{is_abs, join_path, parse_path}
use gitrepo_csi_driver.Paths.Clean.{IsName, parse_path-IsClean}
use gitrepo_csi_driver.Tests.Backends.{attrs}
use gitrepo_csi_driver.Tests.Content.{small}
use gitrepo_csi_driver.Tests.Copying.{tree-IsNamed}
use gitrepo_csi_driver.Tests.GoGit.{library, system}
use gitrepo_csi_driver.Text.{same, Text, codes}
use gitrepo_csi_driver.Text.Search.{ne_of_same}
use mathlib.Core.Path.{subst}

abbrev config : Config
config = record { root_dir = codes "/cache"; max_size = pos 0; max_age = pos 0 }

config_abs : is_abs config.root_dir ≡ true
unfolding is_abs
config_abs = refl

abbrev one : Text
one = codes "5fd924625f6ab16a"

abbrev other : Text
other = codes "9c6d4b2cbd1a9a0b"

key_names : All IsName (one ∷ other ∷ [])
unfolding parse_path
key_names = (parse_path-IsClean (codes "/5fd924625f6ab16a/9c6d4b2cbd1a9a0b")).names

keys_differ : one ≢ other
unfolding same
keys_differ = ne_of_same one other refl

-- Taking turns, and then the rest.
alternate : Trace → Trace → Trace
alternate [] ys = ys
alternate (x ∷ xs) [] = x ∷ xs
alternate (x ∷ xs) (y ∷ ys) = x ∷ y ∷ alternate xs ys

only_second : (ys : Trace) → Interleaves [] ys ys
only_second [] = done
only_second (y ∷ ys) = second y (only_second ys)

only_first : (xs : Trace) → Interleaves xs [] xs
only_first [] = done
only_first (x ∷ xs) = first x (only_first xs)

alternate-Interleaves : (xs ys : Trace) → Interleaves xs ys (alternate xs ys)
unfolding alternate
alternate-Interleaves [] ys = only_second ys
alternate-Interleaves (x ∷ xs) [] = only_first (x ∷ xs)
alternate-Interleaves (x ∷ xs) (y ∷ ys) = first x (second y (alternate-Interleaves xs ys))

abbrev run : Text → Trace
run k = (materialize system library (some (1000, 1000)) attrs small (path_for_key config k) []).1

names : (at : Trace) (path : Text) (node : Node) → system.node_at at path ≡ ok node → IsNamed node
names at path node e = subst IsNamed (ok_inj e) tree-IsNamed

materialize-Interleaves_example :
    keep
      (changes_in (join_path (path_for_key config one) (codes "content")))
      (alternate (run one) (run other))
    ≡ keep (changes_in (join_path (path_for_key config one) (codes "content"))) (run one)
materialize-Interleaves_example =
    materialize-Interleaves config one other system system library library (some (1000, 1000)) attrs
      attrs small small (alternate (run one) (run other)) names config_abs key_names.0 key_names.1.0
      keys_differ (alternate-Interleaves (run one) (run other))

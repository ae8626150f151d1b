-- ===== src/Cache/Evict.antt =====
-- `Manager.Evict` and `dirInfo` of pkg/cache/cache.go.
pub mod Laws
pub mod Bound
pub mod Recount
pub mod Sorted
pub mod Order
pub mod Aged
use gitrepo_csi_driver.Base.{
  ℕ, ◌+◌, ◌-◌, Bool, true, false, not, List, [], ◌∷◌, ◌++◌, Option, none, some, if◌then◌else◌, ltb,
  leb, map, Result, ok, err,
}
use gitrepo_csi_driver.Base.Int.{ℤ, pos, negsuc}
use gitrepo_csi_driver.Cache.Key.{Config}
use gitrepo_csi_driver.Paths.{join_path}
use gitrepo_csi_driver.Text.{Text}

-- What a walk of a directory meets: the size and the modification time of each entry.
pub record FileInfo : Type 0 where
  pub size : ℕ
  pub mod_time : ℕ

-- An entry of the cache's root directory; `walk` is `none` where walking it fails.
pub record DirEntry : Type 0 where
  pub name : Text
  pub is_dir : Bool
  pub walk : Option (List FileInfo)

pub record Item : Type 0 where
  pub path : Text
  pub size : ℕ
  pub mod_time : ℕ

-- The walk of `dirInfo`: the sizes are summed, and the oldest time wins.
unfoldable pub add_infos : Item → List FileInfo → Item
add_infos out [] = out
add_infos out (info ∷ infos) =
    add_infos
      (record out {
        size = out.size + info.size;
        mod_time = if ltb info.mod_time out.mod_time then info.mod_time else out.mod_time;
      })
      infos

-- `dirInfo` of an entry's path, begun with the current time. (It reads the clock again; here it is the
-- reading of `Evict`.)
unfoldable pub dir_info : ℕ → Text → DirEntry → Option Item
dir_info now path e = elim e.walk [
  | none ↦ none
  | some infos ↦ some (add_infos (record { path = path; size = 0; mod_time = now }) infos)
]

-- `now.Sub(i.modTime) > m.cfg.MaxAge`, without the subtraction.
unfoldable pub is_aged : ℕ → ℕ → Item → Bool
is_aged now max_age i = ltb (i.mod_time + max_age) now

-- The variables of `Evict`: the items in the order met, the total size, and the paths handed to
-- `os.RemoveAll` so far.
pub record Sweep : Type 0 where
  pub items : List Item
  pub total : ℕ
  pub removed : List Text

-- One item of the first loop. An aged item is removed at once, and stays in `items`.
unfoldable pub sweep_item : ℕ → ℕ → Item → Sweep → Sweep
unfolding is_aged
sweep_item now max_age i s =
    let total = s.total + i.size in
    if is_aged now max_age i
    then record {
      items = s.items ++ i ∷ [];
      total = total - i.size;
      removed = s.removed ++ i.path ∷ [];
    }
    else record { items = s.items ++ i ∷ []; total = total; removed = s.removed }

-- What is no directory or cannot be walked is skipped.
unfoldable pub found : Text → ℕ → DirEntry → Option Item
found root now e = if not e.is_dir then none else dir_info now (join_path root e.name) e

-- The first loop.
unfoldable pub sweep : Text → ℕ → ℕ → List DirEntry → Sweep → Sweep
sweep root now max_age [] s = s
sweep root now max_age (e ∷ entries) s =
    sweep root now max_age entries
      (elim (found root now e) [ none ↦ s | some i ↦ sweep_item now max_age i s ])

-- `sort.Slice` by modification time; the order of equal times is left open by Go, here it is kept.
unfoldable pub insert_item : Item → List Item → List Item
insert_item i [] = i ∷ []
insert_item i (j ∷ items) =
    if leb i.mod_time j.mod_time then i ∷ j ∷ items else j ∷ insert_item i items

unfoldable pub sort_items : List Item → List Item
sort_items [] = []
sort_items (i ∷ items) = insert_item i (sort_items items)

-- The second loop: the paths that it removes. A total that would fall below 0 is 0 here; both end
-- the loop.
unfoldable pub shrink : ℕ → ℕ → List Item → List Text
shrink max_size total [] = []
shrink max_size total (i ∷ items) =
    let rest = shrink max_size (total - i.size) items in
    if leb total max_size then [] else i.path ∷ rest

abbrev empty_sweep : Sweep
empty_sweep = record { items = []; total = 0; removed = [] }

-- The paths that `Evict` removes, in order, from the entries that `os.ReadDir` lists.
unfoldable pub evict_entries : Text → ℕ → ℕ → ℕ → List DirEntry → List Text
evict_entries root now max_age max_size entries =
    let s = sweep root now max_age entries empty_sweep in
    if leb s.total max_size
    then s.removed
    else s.removed ++ shrink max_size s.total (sort_items s.items)

-- A limit of the configuration; `New` leaves none below 1.
abbrev pub limit : ℤ → ℕ
limit (pos n) = n
limit (negsuc n) = 0

-- `Evict`, from what `os.ReadDir` gives for the root directory: its error, and the paths that it removes.
unfoldable pub evict : ℕ → Config → Result (List DirEntry) → Result (Unit {0}) × List Text
evict now cfg (err e) = (err e, [])
evict now cfg (ok entries) =
    (ok tt, evict_entries cfg.root_dir now (limit cfg.max_age) (limit cfg.max_size) entries)

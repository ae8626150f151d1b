-- ===== src/Tests/Eviction.antt =====
-- `Manager.Evict` of pkg/cache/cache.go on small caches.
use gitrepo_csi_driver.Base.{
  ok, Any, inl, inr, ◌≡◌, refl, ◌≤◌, ◌+◌, true, false, List, [], ◌∷◌, none, some, arith,
}
use gitrepo_csi_driver.Base.Int.{pos}
use gitrepo_csi_driver.Cache.Evict.{
  add_infos, insert_item, shrink, sort_items, sweep_item, dir_info, found, sweep, DirEntry, evict,
  evict_entries, is_aged,
}
use gitrepo_csi_driver.Cache.Evict.Aged.{evict-aged}
use gitrepo_csi_driver.Cache.Evict.Bound.{is_removed, left_size, aged_size, evict_bound}
use gitrepo_csi_driver.Cache.Evict.Laws.{size_where, items_of, keep, aged}
use gitrepo_csi_driver.Cache.Evict.Order.{IsEviction, evict-IsEviction}
use gitrepo_csi_driver.Cache.Key.{Config}
use gitrepo_csi_driver.Paths.{join_path, render, parse_path}
use gitrepo_csi_driver.Text.{Text, same, codes}

abbrev cache_root : Text
cache_root = codes "/c"

abbrev old_entry : DirEntry
old_entry = record {
  name = codes "old";
  is_dir = true;
  walk = some (record { size = 10; mod_time = 95 } ∷ record { size = 20; mod_time = 1 } ∷ []);
}

abbrev used_entry : DirEntry
used_entry = record {
  name = codes "used";
  is_dir = true;
  walk = some (record { size = 40; mod_time = 95 } ∷ []);
}

abbrev new_entry : DirEntry
new_entry = record {
  name = codes "new";
  is_dir = true;
  walk = some (record { size = 30; mod_time = 99 } ∷ []);
}

abbrev plain_file : DirEntry
plain_file = record { name = codes "file"; is_dir = false; walk = none }

abbrev fresh_entries : List DirEntry
fresh_entries = new_entry ∷ plain_file ∷ used_entry ∷ []

abbrev mixed_entries : List DirEntry
mixed_entries = new_entry ∷ old_entry ∷ used_entry ∷ []

-- At time 100, with an age of 10 and a size of 50: the older of two fresh items goes.
evicts_oldest : evict_entries cache_root 100 10 50 fresh_entries ≡ codes "/c/used" ∷ []
unfolding evict_entries sweep found dir_info sweep_item add_infos shrink sort_items insert_item
    join_path render parse_path
evicts_oldest = refl

-- Nothing goes from a cache that is within its limits.
evicts_nothing : evict_entries cache_root 100 10 70 fresh_entries ≡ []
unfolding evict_entries sweep found dir_info sweep_item add_infos
evicts_nothing = refl

-- The aged item goes twice, and the 70 bytes that are left exceed the limit of 50.
evicts_twice :
    evict_entries cache_root 100 10 50 mixed_entries ≡ codes "/c/old" ∷ codes "/c/old" ∷ []
unfolding evict_entries sweep found dir_info sweep_item add_infos shrink sort_items insert_item
    join_path render parse_path
evicts_twice = refl

left_over : left_size cache_root 100 10 50 mixed_entries ≡ 70
unfolding left_size size_where items_of found dir_info is_removed evict_entries sweep sweep_item
    add_infos same shrink sort_items insert_item join_path render parse_path
left_over = refl

no_aged : keep (aged 100 10) (items_of cache_root 100 fresh_entries) ≡ []
unfolding is_aged keep items_of found dir_info add_infos
no_aged = refl

evict_bound_example :
    left_size cache_root 100 10 50 mixed_entries ≤ 50 + aged_size cache_root 100 10 50 mixed_entries
evict_bound_example = evict_bound cache_root 100 10 50 mixed_entries

abbrev config : Config
config = record { root_dir = cache_root; max_size = pos 50; max_age = pos 10 }

evict-IsEviction_example :
    ((evict 100 config (ok mixed_entries)).0 ≡ ok tt)
    × IsEviction cache_root 100 10 50 mixed_entries (evict 100 config (ok mixed_entries)).1
evict-IsEviction_example = (evict-IsEviction 100 config (ok mixed_entries)).1 mixed_entries refl

-- One file of `old` was written five ticks ago, the other is older than the limit.
evict-aged_example :
    Any
      (λ path. path ≡ join_path cache_root (codes "old"))
      (evict_entries cache_root 100 10 50 mixed_entries)
evict-aged_example =
    evict-aged cache_root 100 10 50 mixed_entries old_entry
      (record { size = 10; mod_time = 95 } ∷ record { size = 20; mod_time = 1 } ∷ [])
      (inr (inl refl)) refl refl (inr (inl (omega arith)))

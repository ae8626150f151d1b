-- ===== src/Cache/Evict/Order.antt =====
-- Which directories `Evict` removes, and in which order.
use gitrepo_csi_driver.Base.{
  Result, ok, err, Error, Bool, ℕ, ◌≤◌, ◌<◌, ◌≡◌, inl, inr, refl, sym, ap, ◌∙◌, true, List, [], ◌∷◌,
  ◌++◌, Option, none, some, leb, arith, Bool-cases, All, Any, All-append, All-map, append-nil,
  All-append_left, ◌+◌, ◌-◌,
}
use gitrepo_csi_driver.Cache.Evict.{
  limit, evict, DirEntry, FileInfo, Item, add_infos, dir_info, found, insert_item, sort_items,
  shrink, evict_entries,
}
use gitrepo_csi_driver.Cache.Evict.Laws.{items_of, keep, size_where, paths, aged, fresh, evict_lem}
use gitrepo_csi_driver.Cache.Evict.Sorted.{
  IsSorted, sort_items-IsSorted, sort_items-Perm, IsSorted-split, IsSorted-front,
}
use gitrepo_csi_driver.Cache.Key.{Config}
use gitrepo_csi_driver.Paths.{join_path}
use gitrepo_csi_driver.Text.{Text}
use mathlib.Core.List.{Perm}
use mathlib.Core.Path.{subst}

-- Each removal, in its turn, is made because the size that is still counted exceeds the limit.
abbrev pub IsNeeded : ℕ → ℕ → ℕ → List Item → Type 0
IsNeeded max_size total gone [] = Unit {0}
IsNeeded max_size total gone (i ∷ items) =
    (max_size + gone < total) × IsNeeded max_size total (gone + i.size) items

minus_plus : (t g s : ℕ) → t - g - s ≡ t - (g + s)
minus_plus t g s = omega arith

shrink_split :
    (max_size total gone : ℕ) (items : List Item)
    → (front : List Item) × (back : List Item) × (items ≡ front ++ back)
      × (shrink max_size (total - gone) items ≡ paths front)
      × IsNeeded max_size total gone front
unfolding shrink
shrink_split max_size total gone [] = ([], [], refl, refl, tt)
shrink_split max_size total gone (i ∷ items) = elim (Bool-cases (leb (total - gone) max_size)) [
  | inl e ↦ ([], i ∷ items, refl, rw e, tt)
  | inr e ↦
      let (front, back, s, r, n) = shrink_split max_size total (gone + i.size) items in
      (
        i ∷ front,
        back,
        ap (λ xs. i ∷ xs) s,
        rw (e, minus_plus total gone i.size) (ap (λ xs. i.path ∷ xs) r),
        (ground arith, n),
      )
]

minus_none : {n : ℕ} → n ≡ n - 0
minus_none = omega arith

-- A path is that of a directory in the cache's root directory.
abbrev pub IsDirectoryOf : Text → List DirEntry → Text → Type 0
IsDirectoryOf root entries path =
    Any (λ e. (e.is_dir ≡ true) × (join_path root e.name ≡ path)) entries

pub add_infos-path : (infos : List FileInfo) (out : Item) → (add_infos out infos).path ≡ out.path
unfolding add_infos
add_infos-path [] out = refl
add_infos-path (info ∷ infos) out = add_infos-path infos _

path_of : Option Item → Text
path_of none = []
path_of (some i) = i.path

found-IsDirectory :
    (root : Text) (now : ℕ) (e : DirEntry) (i : Item)
    → found root now e ≡ some i
    → (e.is_dir ≡ true) × (join_path root e.name ≡ i.path)
unfolding found dir_info path_of
found-IsDirectory root now e i h = elim (Bool-cases e.is_dir) [
  | inl d ↦ (d, named e.walk (rw d at h))
  | inr d ↦ let k : none ≡ some i = rw d at h in cc
]
  where
    named :
        (walked : Option (List FileInfo))
        → elim walked [
          | none ↦ none
          | some infos ↦
              some (
                add_infos (record { path = join_path root e.name; size = 0; mod_time = now }) infos)
        ]
          ≡ some i
        → join_path root e.name ≡ i.path
    named none k = cc
    named (some infos) k =
        sym
          (add_infos-path infos (record { path = join_path root e.name; size = 0; mod_time = now }))
        ∙ ap path_of k

module _ (P : Item → Type 0) where
  All-insert : (i : Item) (items : List Item) → P i → All P items → All P (insert_item i items)
  unfolding insert_item
  All-insert i [] p h = (p, tt)
  All-insert i (j ∷ items) p (q, h) = elim (Bool-cases (leb i.mod_time j.mod_time)) [
    | inl e ↦ rw e (p, (q, h))
    | inr e ↦ rw e (q, All-insert i items p h)
  ]

  All-sort : (items : List Item) → All P items → All P (sort_items items)
  unfolding sort_items
  All-sort [] h = tt
  All-sort (i ∷ items) (p, h) = All-insert i (sort_items items) p (All-sort items h)

  All-keep : (q : Item → Bool) (items : List Item) → All P items → All P (keep q items)
  unfolding keep
  All-keep q [] h = tt
  All-keep q (i ∷ items) (p, h) = elim (Bool-cases (q i)) [
    | inl e ↦ rw e (p, All-keep q items h)
    | inr e ↦ rw e (All-keep q items h)
  ]

All-paths :
    (root : Text) (entries : List DirEntry) (items : List Item)
    → All (λ i. IsDirectoryOf root entries i.path) items
    → All (IsDirectoryOf root entries) (paths items)
All-paths root entries [] h = tt
All-paths root entries (i ∷ items) (p, h) = (p, All-paths root entries items h)

items_of-listed :
    (root : Text) (now : ℕ) (entries : List DirEntry)
    → All (λ i. IsDirectoryOf root entries i.path) (items_of root now entries)
unfolding items_of
items_of-listed root now [] = tt
items_of-listed root now (e ∷ entries) =
    here (found root now e) refl
      (All-map (λ i h. inr h) (items_of root now entries) (items_of-listed root now entries))
  where
    here :
        (o : Option Item)
        → found root now e ≡ o
        → All (λ i. IsDirectoryOf root (e ∷ entries) i.path) (items_of root now entries)
        → All
            (λ i. IsDirectoryOf root (e ∷ entries) i.path)
            (elim o [ none ↦ items_of root now entries | some i ↦ i ∷ items_of root now entries ])
    here none k rest = rest
    here (some i) k rest = (inl (found-IsDirectory root now e i k), rest)

shrink_fits :
    (max_size total : ℕ) (items : List Item)
    → leb total max_size ≡ true
    → shrink max_size total items ≡ []
unfolding shrink
shrink_fits max_size total [] h = refl
shrink_fits max_size total (i ∷ items) h = rw h refl

module _ (root : Text) (now max_age max_size : ℕ) (entries : List DirEntry) where
  evict_shrinks :
      let items = items_of root now entries in
      evict_entries root now max_age max_size entries
      ≡ paths (keep (aged now max_age) items)
        ++ shrink max_size (size_where (fresh now max_age) items) (sort_items items)
  evict_shrinks =
      let items = items_of root now entries in
      let total = size_where (fresh now max_age) items in
      evict_lem now max_age root max_size entries ∙ elim (Bool-cases (leb total max_size)) [
        | inl h ↦ rw (h, shrink_fits max_size total (sort_items items) h) (sym (append-nil _))
        | inr h ↦ rw h refl
      ]

  -- First the aged directories, then the oldest of all, each while the counted size exceeds the limit.
  pub record IsEviction (removed : List Text) : Type 0 where
    pub front : List Item
    pub back : List Item
    pub all_items : Perm (items_of root now entries) (front ++ back)
    pub sorted : IsSorted front
    pub oldest : All (λ (i : Item). All (λ (j : Item). i.mod_time ≤ j.mod_time) back) front
    pub removals :
        removed ≡ paths (keep (aged now max_age) (items_of root now entries)) ++ paths front
    pub needed :
        IsNeeded max_size (size_where (fresh now max_age) (items_of root now entries)) 0 front
    pub listed : All (IsDirectoryOf root entries) removed

  pub evict_entries-IsEviction : IsEviction (evict_entries root now max_age max_size entries)
  evict_entries-IsEviction =
      let items = items_of root now entries in
      let total = size_where (fresh now max_age) items in
      let a = paths (keep (aged now max_age) items) in
      let (front, back, s, r, n) = shrink_split max_size total 0 (sort_items items) in
      let listed = items_of-listed root now entries in
      let P = λ (i : Item). IsDirectoryOf root entries i.path in
      let front_listed = All-append_left P front back (subst (All P) s (All-sort P items listed)) in
      let e : evict_entries root now max_age max_size entries ≡ a ++ paths front =
        evict_shrinks
        ∙ ap (λ xs. a ++ xs) (ap (λ n. shrink max_size n (sort_items items)) minus_none ∙ r) in
      record {
        front = front;
        back = back;
        all_items = subst (Perm items) s (sort_items-Perm items);
        sorted = IsSorted-front front back (subst IsSorted s (sort_items-IsSorted items));
        oldest = IsSorted-split front back (subst IsSorted s (sort_items-IsSorted items));
        removals = e;
        needed = n;
        listed = subst (All (IsDirectoryOf root entries)) (sym e) (
            All-append (IsDirectoryOf root entries) a (paths front)
              (All-paths root entries _ (All-keep P (aged now max_age) items listed))
              (All-paths root entries front front_listed));
      }

-- `Evict` returns the error of reading the cache's directory, and removes nothing then. Otherwise it removes
-- directories of that directory only: all that are aged, and then, in the order of their times, the oldest
-- that there are, each because the size that is still counted exceeds the limit.
pub evict-IsEviction :
    (now : ℕ) (cfg : Config) (listing : Result (List DirEntry))
    → ((e : Error) → listing ≡ err e → evict now cfg listing ≡ (err e, []))
      × ((entries : List DirEntry)
          → listing ≡ ok entries
          → ((evict now cfg listing).0 ≡ ok tt)
            × IsEviction cfg.root_dir now
                (limit cfg.max_age)
                (limit cfg.max_size)
                entries
                (evict now cfg listing).1)
unfolding evict
evict-IsEviction now cfg listing = (
  (λ e h. rw (h, evict) refl),
  (λ entries h.
      rw (h, evict)
        (
          refl,
          evict_entries-IsEviction cfg.root_dir now (limit cfg.max_age) (limit cfg.max_size)
              entries,
        )),
)

-- ===== src/Cache/Evict/Bound.antt =====
-- How much `Evict` leaves behind.
use gitrepo_csi_driver.Base.{
  ℕ, ◌+◌, ◌-◌, ◌≤◌, ◌≡◌, refl, sym, ap, ◌∙◌, Bool, true, false, not, List, [], ◌∷◌, ◌++◌,
  if◌then◌else◌, leb, arith, Bool-cases, inl, inr, All, All-map, ◌⊎◌, ◌||◌,
}
use mathlib.Core.Path.{subst}
use gitrepo_csi_driver.Text.{Text, same}
use gitrepo_csi_driver.Text.Search.{same_refl}
use gitrepo_csi_driver.Cache.Evict.{DirEntry, Item, insert_item, sort_items, shrink, evict_entries}
use gitrepo_csi_driver.Cache.Evict.Laws.{items_of, keep, size_where, paths, aged, fresh, evict_lem}

-- Whether a path is among those that are removed.
unfoldable pub is_removed : List Text → Item → Bool
is_removed [] i = false
is_removed (p ∷ removed) i = same p i.path || is_removed removed i

abbrev pub every : Item → Bool
every i = true

pub size_where-append :
    (p : Item → Bool) (xs ys : List Item)
    → size_where p (xs ++ ys) ≡ size_where p xs + size_where p ys
unfolding size_where
size_where-append p [] ys = omega arith
size_where-append p (x ∷ xs) ys = omega (arith, size_where-append p xs ys)

-- Sorting keeps sizes.
size_where-insert :
    (p : Item → Bool) (i : Item) (items : List Item)
    → size_where p (insert_item i items) ≡ (if p i then i.size else 0) + size_where p items
unfolding size_where insert_item
size_where-insert p i [] = refl
size_where-insert p i (j ∷ items) = elim (Bool-cases (leb i.mod_time j.mod_time)) [
  | inl e ↦ rw e
  | inr e ↦ rw e (omega (arith, size_where-insert p i items))
]

pub size_where-sort :
    (p : Item → Bool) (items : List Item) → size_where p (sort_items items) ≡ size_where p items
unfolding size_where sort_items
size_where-sort p [] = refl
size_where-sort p (i ∷ items) =
    omega (arith, size_where-insert p i (sort_items items), size_where-sort p items)

size_where-le :
    (p q : Item → Bool) (items : List Item)
    → All (λ i. p i ≡ true → q i ≡ true) items
    → size_where p items ≤ size_where q items
unfolding size_where
size_where-le p q [] h = omega arith
size_where-le p q (i ∷ items) (h, hs) = ground (arith, size_where-le p q items hs)

-- A test and its negation share the items out.
size_where_split :
    (p : Item → Bool) (items : List Item)
    → size_where every items ≡ size_where p items + size_where (λ i. not (p i)) items
unfolding size_where
size_where_split p [] = omega arith
size_where_split p (i ∷ items) = ground (arith, size_where_split p items)

-- The second loop removes a front of the sorted items, until the rest fits or nothing is left.
shrink_split :
    (max_size total : ℕ) (items : List Item)
    → (front : List Item) × (back : List Item) × (items ≡ front ++ back)
      × (shrink max_size total items ≡ paths front)
      × ((total ≤ max_size + size_where every front) ⊎ (back ≡ []))
unfolding shrink size_where
shrink_split max_size total [] = ([], [], refl, refl, inr refl)
shrink_split max_size total (i ∷ items) = elim (Bool-cases (leb total max_size)) [
  | inl e ↦ ([], i ∷ items, refl, rw e, inl (ground arith))
  | inr e ↦
      let (front, back, s, r, b) = shrink_split max_size (total - i.size) items in
      (i ∷ front, back, ap (λ xs. i ∷ xs) s, rw e (ap (λ xs. i.path ∷ xs) r), ground arith)
]

is_removed-append :
    (xs ys : List Text) (i : Item) → is_removed (xs ++ ys) i ≡ (is_removed xs i || is_removed ys i)
unfolding is_removed
is_removed-append [] ys i = refl
is_removed-append (x ∷ xs) ys i = ground (arith, is_removed-append xs ys i)

-- Every one of the items is removed.
abbrev AllRemoved : List Text → List Item → Type 0
AllRemoved removed = All (λ i. is_removed removed i ≡ true)

AllRemoved-cons :
    (p : Text) (removed : List Text) (items : List Item)
    → AllRemoved removed items
    → AllRemoved (p ∷ removed) items
unfolding is_removed
AllRemoved-cons p removed items = All-map (λ i h. ground arith) items

AllRemoved-paths : (items : List Item) → AllRemoved (paths items) items
unfolding is_removed
AllRemoved-paths [] = tt
AllRemoved-paths (i ∷ items) =
    (rw same_refl, AllRemoved-cons i.path (paths items) items (AllRemoved-paths items))

-- What is picked for removal is removed.
abbrev PickedRemoved : (Item → Bool) → List Item → List Item → Type 0
PickedRemoved p picked = All (λ i. p i ≡ true → is_removed (paths picked) i ≡ true)

keep-true :
    (p : Item → Bool) (i : Item) (items : List Item)
    → p i ≡ true
    → keep p (i ∷ items) ≡ i ∷ keep p items
unfolding keep
keep-true p i items e = rw e

keep-false :
    (p : Item → Bool) (i : Item) (items : List Item)
    → p i ≡ false
    → keep p (i ∷ items) ≡ keep p items
unfolding keep
keep-false p i items e = rw e

PickedRemoved-cons :
    (p : Item → Bool) (i : Item) (picked items : List Item)
    → PickedRemoved p picked items
    → PickedRemoved p (i ∷ picked) (i ∷ items)
unfolding is_removed
PickedRemoved-cons p i picked items h =
    ((λ e. rw same_refl), All-map (λ j k e. ground (arith, k e)) items h)

keep-removed : (p : Item → Bool) (items : List Item) → PickedRemoved p (keep p items) items
keep-removed p [] = tt
keep-removed p (i ∷ items) = elim (Bool-cases (p i)) [
  | inl e ↦
      subst (λ picked. PickedRemoved p picked (i ∷ items)) (sym (keep-true p i items e))
        (PickedRemoved-cons p i (keep p items) items (keep-removed p items))
  | inr e ↦
      subst (λ picked. PickedRemoved p picked (i ∷ items)) (sym (keep-false p i items e))
        ((λ h. cc), keep-removed p items)
]

-- The size of the items that are left.
abbrev left : List Text → List Item → ℕ
left removed = size_where (λ i. not (is_removed removed i))

left-keep :
    (p : Item → Bool) (items : List Item)
    → left (paths (keep p items)) items ≤ size_where (λ i. not (p i)) items
left-keep p items = size_where-le _ _ items (
    All-map (λ i k e. elim (Bool-cases (p i)) [ inl t ↦ absurd (kept i (k t) e) | inr f ↦ rw f ])
      items (keep-removed p items))
  where
    kept :
        (i : Item)
        → is_removed (paths (keep p items)) i ≡ true
        → not (is_removed (paths (keep p items)) i) ≡ true
        → ⊥
    kept i k e = ground arith

pub size_where-none :
    (p : Item → Bool) (items : List Item) → All (λ i. p i ≡ false) items → size_where p items ≡ 0
unfolding size_where
size_where-none p [] h = refl
size_where-none p (i ∷ items) (h, hs) = rw (h, size_where-none p items hs)

left-append :
    (removed : List Text) (front back : List Item)
    → left (removed ++ paths front) (front ++ back) ≤ size_where every back
left-append removed front back =
    let r = removed ++ paths front in
    let gone =
      size_where-none (λ i. not (is_removed r i)) front
        (All-map
          (λ i (h : is_removed (paths front) i ≡ true).
            ground (arith, is_removed-append removed (paths front) i))
          front (AllRemoved-paths front)) in
    let rest = size_where-le (λ i. not (is_removed r i)) every back (all_every back) in
    omega (arith, size_where-append (λ i. not (is_removed r i)) front back, gone, rest)
  where
    all_every :
        (xs : List Item)
        → All (λ i. not (is_removed (removed ++ paths front) i) ≡ true → every i ≡ true) xs
    all_every [] = tt
    all_every (x ∷ xs) = ((λ h. refl), all_every xs)

size_where-keep_nil :
    (p : Item → Bool) (items : List Item) → keep p items ≡ [] → size_where p items ≡ 0
unfolding size_where keep
size_where-keep_nil p [] h = refl
size_where-keep_nil p (i ∷ items) h = ground (arith, size_where-keep_nil p items)

unless_nil :
    {a b : ℕ} (back : List Item) → (a ≤ b) ⊎ (back ≡ []) → (a ≤ b) ⊎ (size_where every back ≡ 0)
unless_nil back (inl h) = inl h
unless_nil back (inr e) = inr (ap (size_where every) e ∙ (unfold size_where in refl))

module _ (root : Text) (now max_age max_size : ℕ) (entries : List DirEntry) where
  -- The size of what is left of the cache, and of its aged items.
  unfoldable pub left_size : ℕ
  left_size = left (evict_entries root now max_age max_size entries) (items_of root now entries)

  unfoldable pub aged_size : ℕ
  aged_size = size_where (aged now max_age) (items_of root now entries)

  unfoldable pub fresh_size : ℕ
  fresh_size = size_where (fresh now max_age) (items_of root now entries)

  left_if_fits : leb fresh_size max_size ≡ true → left_size ≤ max_size
  unfolding left_size fresh_size
  left_if_fits h =
      rw (evict_lem now max_age root max_size entries, h)
        (let f : fresh_size ≤ max_size = ground arith in
          omega (arith, left-keep (aged now max_age) (items_of root now entries)))

  left_if_large : leb fresh_size max_size ≡ false → left_size ≤ max_size + aged_size
  unfolding left_size aged_size fresh_size
  left_if_large h =
      let items = items_of root now entries in
      let a = paths (keep (aged now max_age) items) in
      let (front, back, s, r, b) = shrink_split max_size fresh_size (sort_items items) in
      let e : evict_entries root now max_age max_size entries ≡ a ++ paths front =
        evict_lem now max_age root max_size entries ∙ rw h (ap (λ xs. a ++ xs) r) in
      let moved : left_size ≡ left (a ++ paths front) (front ++ back) =
        ap (λ removed. left removed items) e
        ∙ sym (size_where-sort (λ i. not (is_removed (a ++ paths front) i)) items)
        ∙ ap (left (a ++ paths front)) s in
      omega (
        arith,
        moved,
        left-append a front back,
        size_where_split (aged now max_age) items,
        size_where-sort every items,
        ap (size_where every) s,
        size_where-append every front back,
        unless_nil back b,
      )

  -- What `Evict` leaves is at most the limit and the size of the aged items, which it counts twice
  -- when it looks for more to remove.
  pub evict_bound : left_size ≤ max_size + aged_size
  evict_bound = elim (Bool-cases (leb fresh_size max_size)) [
    | inl h ↦ omega (arith, left_if_fits h)
    | inr h ↦ left_if_large h
  ]

  -- With no aged item, what is left is within the limit.
  pub evict_within_limit :
      keep (aged now max_age) (items_of root now entries) ≡ [] → left_size ≤ max_size
  unfolding aged_size
  evict_within_limit h =
      omega
        (arith, evict_bound, size_where-keep_nil (aged now max_age) (items_of root now entries) h)

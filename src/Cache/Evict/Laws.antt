-- ===== src/Cache/Evict/Laws.antt =====
-- What the two loops of `Evict` compute.
use gitrepo_csi_driver.Base.{
  ℕ, ◌+◌, ◌-◌, ◌≡◌, refl, sym, ap, ◌∙◌, Bool, not, List, [], ◌∷◌, ◌++◌, Option, none, some,
  if◌then◌else◌, leb, map, arith, append-nil, append_assoc, Bool-cases, inl, inr,
}
use gitrepo_csi_driver.Text.{Text}
use native.Mathlib.Nat.{zero-add}
use gitrepo_csi_driver.Cache.Evict.{
  DirEntry, Item, Sweep, is_aged, found, sweep_item, sweep, sort_items, shrink, empty_sweep,
  evict_entries,
}

-- The items that the first loop meets.
unfoldable pub items_of : Text → ℕ → List DirEntry → List Item
items_of root now [] = []
items_of root now (e ∷ entries) = elim (found root now e) [
  | none ↦ items_of root now entries
  | some i ↦ i ∷ items_of root now entries
]

-- The items that a test picks, and their size.
unfoldable pub keep : (Item → Bool) → List Item → List Item
keep p [] = []
keep p (i ∷ items) = if p i then i ∷ keep p items else keep p items

unfoldable pub size_where : (Item → Bool) → List Item → ℕ
size_where p [] = 0
size_where p (i ∷ items) = (if p i then i.size else 0) + size_where p items

abbrev pub paths : List Item → List Text
paths = map (λ (i : Item). i.path)

total_removed : (a b c : ℕ) → a + b - b + c ≡ a + (0 + c)
total_removed a b c = omega arith

total_kept : (a b c : ℕ) → a + b + c ≡ a + (b + c)
total_kept a b c = omega arith

module _ (now max_age : ℕ) where
  abbrev pub aged : Item → Bool
  aged i = is_aged now max_age i

  abbrev pub fresh : Item → Bool
  fresh i = not (is_aged now max_age i)

  -- The rounds of the first loop that do something.
  swept : List Item → Sweep → Sweep
  swept [] s = s
  swept (i ∷ items) s = swept items (sweep_item now max_age i s)

  sweep-swept :
      (root : Text) (entries : List DirEntry) (s : Sweep)
      → sweep root now max_age entries s ≡ swept (items_of root now entries) s
  unfolding sweep items_of swept
  sweep-swept root [] s = refl
  sweep-swept root (e ∷ entries) s =
      here (found root now e) (sweep-swept root entries s)
        (λ i. sweep-swept root entries (sweep_item now max_age i s))
    where
      here :
          (o : Option Item)
          → sweep root now max_age entries s ≡ swept (items_of root now entries) s
          → ((i : Item)
              → sweep root now max_age entries (sweep_item now max_age i s)
                ≡ swept (items_of root now entries) (sweep_item now max_age i s))
          → sweep root now max_age entries
              (elim o [ none ↦ s | some i ↦ sweep_item now max_age i s ])
            ≡ swept
                (elim o [
                  | none ↦ items_of root now entries
                  | some i ↦ i ∷ items_of root now entries
                ])
                s
      here none skip take = skip
      here (some i) skip take = take i

  -- The first loop collects all items, removes the aged ones, and sums up the others.
  abbrev after : List Item → Sweep → Sweep
  after items s = record {
    items = s.items ++ items;
    total = s.total + size_where fresh items;
    removed = s.removed ++ paths (keep aged items);
  }

  after_nil : (s : Sweep) → s ≡ after [] s
  unfolding size_where keep
  after_nil s = λ i. record {
    items = sym (append-nil s.items) i;
    total = total_nil i;
    removed = sym (append-nil s.removed) i;
  }
    where
      total_nil : s.total ≡ s.total + 0
      total_nil = omega arith

  after_cons :
      (i : Item) (items : List Item) (s : Sweep)
      → after items (sweep_item now max_age i s) ≡ after (i ∷ items) s
  unfolding sweep_item size_where keep
  after_cons i items s = elim (Bool-cases (is_aged now max_age i)) [
    | inl a ↦ rw a (λ k. record {
      items = append_assoc s.items (i ∷ []) items k;
      total = total_removed s.total i.size (size_where fresh items) k;
      removed = append_assoc s.removed (i.path ∷ []) (paths (keep aged items)) k;
    })
    | inr a ↦ rw a (λ k. record {
      items = append_assoc s.items (i ∷ []) items k;
      total = total_kept s.total i.size (size_where fresh items) k;
      removed = s.removed ++ paths (keep aged items);
    })
  ]

  swept_lem : (items : List Item) (s : Sweep) → swept items s ≡ after items s
  unfolding swept
  swept_lem [] s = after_nil s
  swept_lem (i ∷ items) s = swept_lem items (sweep_item now max_age i s) ∙ after_cons i items s

  -- `Evict` removes the aged items and then, while the rest is too large, the oldest of all items,
  -- the aged ones once more among them.
  pub evict_lem :
      (root : Text) (max_size : ℕ) (entries : List DirEntry)
      → let items = items_of root now entries in
        evict_entries root now max_age max_size entries ≡ (
          if leb (size_where fresh items) max_size
          then paths (keep aged items)
          else paths (keep aged items)
            ++ shrink max_size (size_where fresh items) (sort_items items))
  unfolding evict_entries
  evict_lem root max_size entries =
      ap finish
        (sweep-swept root entries empty_sweep ∙ swept_lem (items_of root now entries) empty_sweep)
      ∙ rw zero-add
    where
      finish : Sweep → List Text
      finish s =
          if leb s.total max_size
          then s.removed
          else s.removed ++ shrink max_size s.total (sort_items s.items)

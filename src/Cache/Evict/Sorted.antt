-- ===== src/Cache/Evict/Sorted.antt =====
-- What `sort.Slice` of `Evict` gives: the same items, the oldest first.
use gitrepo_csi_driver.Base.{
  ◌≤◌, inl, inr, List, [], ◌∷◌, ◌++◌, leb, arith, Bool-cases, All, All-append_left,
  All-append_right,
}
use gitrepo_csi_driver.Cache.Evict.{Item, insert_item, sort_items}
use mathlib.Core.List.{Perm}
use mathlib.Core.List.Perm

-- Every item is at most as young as what follows it.
abbrev pub Before : Item → List Item → Type 0
Before i = All (λ j. i.mod_time ≤ j.mod_time)

abbrev pub IsSorted : List Item → Type 0
IsSorted [] = Unit {0}
IsSorted (i ∷ items) = Before i items × IsSorted items

Before-trans :
    (i j : Item) (items : List Item) → i.mod_time ≤ j.mod_time → Before j items → Before i items
Before-trans i j [] h b = tt
Before-trans i j (k ∷ items) h (b, bs) = (omega arith, Before-trans i j items h bs)

Before-insert :
    (i j : Item) (items : List Item)
    → j.mod_time ≤ i.mod_time
    → Before j items
    → Before j (insert_item i items)
unfolding insert_item
Before-insert i j [] h b = (h, tt)
Before-insert i j (k ∷ items) h (b, bs) = elim (Bool-cases (leb i.mod_time k.mod_time)) [
  | inl e ↦ rw e (h, (b, bs))
  | inr e ↦ rw e (b, Before-insert i j items h bs)
]

insert_item-IsSorted :
    (i : Item) (items : List Item) → IsSorted items → IsSorted (insert_item i items)
unfolding insert_item
insert_item-IsSorted i [] s = (tt, tt)
insert_item-IsSorted i (j ∷ items) (b, s) = elim (Bool-cases (leb i.mod_time j.mod_time)) [
  | inl e ↦
      let h : i.mod_time ≤ j.mod_time = ground arith in
      rw e ((h, Before-trans i j items h b), (b, s))
  | inr e ↦ rw e (Before-insert i j items (ground arith) b, insert_item-IsSorted i items s)
]

pub sort_items-IsSorted : (items : List Item) → IsSorted (sort_items items)
unfolding sort_items
sort_items-IsSorted [] = tt
sort_items-IsSorted (i ∷ items) =
    insert_item-IsSorted i (sort_items items) (sort_items-IsSorted items)

insert_item-Perm : (i : Item) (items : List Item) → Perm (i ∷ items) (insert_item i items)
unfolding insert_item
insert_item-Perm i [] = Perm.refl _
insert_item-Perm i (j ∷ items) = elim (Bool-cases (leb i.mod_time j.mod_time)) [
  | inl e ↦ rw e (Perm.refl _)
  | inr e ↦ rw e (Perm.trans (Perm.swap j i items) (Perm.cons j (insert_item-Perm i items)))
]

pub sort_items-Perm : (items : List Item) → Perm items (sort_items items)
unfolding sort_items
sort_items-Perm [] = Perm.refl _
sort_items-Perm (i ∷ items) =
    Perm.trans (Perm.cons i (sort_items-Perm items)) (insert_item-Perm i (sort_items items))

-- A front of a sorted list is older than the rest.
pub IsSorted-split :
    (front back : List Item) → IsSorted (front ++ back) → All (λ i. Before i back) front
IsSorted-split [] back s = tt
IsSorted-split (i ∷ front) back (b, s) =
    (All-append_right (λ j. i.mod_time ≤ j.mod_time) front back b, IsSorted-split front back s)

pub IsSorted-front : (front back : List Item) → IsSorted (front ++ back) → IsSorted front
IsSorted-front [] back s = tt
IsSorted-front (i ∷ front) back (b, s) =
    (All-append_left (λ j. i.mod_time ≤ j.mod_time) front back b, IsSorted-front front back s)

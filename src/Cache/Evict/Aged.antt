-- ===== src/Cache/Evict/Aged.antt =====
-- When `Evict` takes a directory for aged.
use gitrepo_csi_driver.Paths.{join_path}
use gitrepo_csi_driver.Base.{
  Bool, ℕ, ◌+◌, ◌<◌, ◌≡◌, ◌⊎◌, inl, inr, refl, sym, ap, ◌∙◌, true, List, [], ◌∷◌, ◌++◌, Option,
  none, some, if◌then◌else◌, ltb, arith, Bool-cases, Any,
}
use gitrepo_csi_driver.Cache.Evict.{
  DirEntry, FileInfo, Item, add_infos, dir_info, is_aged, found, evict_entries,
}
use gitrepo_csi_driver.Cache.Evict.Laws.{items_of, keep, paths, aged}
use gitrepo_csi_driver.Cache.Evict.Order.{evict_entries-IsEviction, add_infos-path}
use gitrepo_csi_driver.Text.{Text}
use mathlib.Core.Path.{subst}

abbrev IsOld : ℕ → ℕ → FileInfo → Type 0
IsOld now max_age info = info.mod_time + max_age < now

-- The walk keeps the earliest time: one old file makes the directory an old one.
add_infos-aged :
    (now max_age : ℕ) (infos : List FileInfo) (out : Item)
    → ((out.mod_time + max_age < now) ⊎ Any (IsOld now max_age) infos)
    → is_aged now max_age (add_infos out infos) ≡ true
unfolding add_infos is_aged
add_infos-aged now max_age [] out (inl h) = ground arith
add_infos-aged now max_age [] out (inr h) = absurd h
add_infos-aged now max_age (info ∷ infos) out h = add_infos-aged now max_age infos _ (earlier h)
  where
    next : ℕ
    next = if ltb info.mod_time out.mod_time then info.mod_time else out.mod_time

    earlier :
        ((out.mod_time + max_age < now) ⊎ Any (IsOld now max_age) (info ∷ infos))
        → ((next + max_age < now) ⊎ Any (IsOld now max_age) infos)
    earlier (inl a) = inl (ground arith)
    earlier (inr (inl a)) = inl (ground arith)
    earlier (inr (inr a)) = inr a

Any-keep :
    (p : Item → Bool) (i : Item) (items : List Item)
    → p i ≡ true
    → Any (λ j. j ≡ i) items
    → Any (λ path. path ≡ i.path) (paths (keep p items))
unfolding keep
Any-keep p i [] h a = absurd a
Any-keep p i (j ∷ items) h (inl e) =
    let k : p j ≡ true = ap p e ∙ h in rw k (inl (ap (λ (i : Item). i.path) e))
Any-keep p i (j ∷ items) h (inr a) = elim (Bool-cases (p j)) [
  | inl k ↦ rw k (inr (Any-keep p i items h a))
  | inr k ↦ rw k (Any-keep p i items h a)
]

Any-append_left : (P : Text → Type 0) (xs ys : List Text) → Any P xs → Any P (xs ++ ys)
Any-append_left P [] ys h = absurd h
Any-append_left P (x ∷ xs) ys (inl h) = inl h
Any-append_left P (x ∷ xs) ys (inr h) = inr (Any-append_left P xs ys h)

Any-items_of :
    (root : Text) (now : ℕ) (e : DirEntry) (i : Item) (entries : List DirEntry)
    → found root now e ≡ some i
    → Any (λ d. d ≡ e) entries
    → Any (λ j. j ≡ i) (items_of root now entries)
unfolding items_of
Any-items_of root now e i [] f a = absurd a
Any-items_of root now e i (d ∷ entries) f (inl h) =
    subst
      (λ o.
        Any (λ j. j ≡ i)
          (elim o [ none ↦ items_of root now entries | some k ↦ k ∷ items_of root now entries ]))
      (sym (ap (found root now) h ∙ f)) (inl refl)
Any-items_of root now e i (d ∷ entries) f (inr a) =
    here (found root now d) (Any-items_of root now e i entries f a)
  where
    here :
        (o : Option Item)
        → Any (λ j. j ≡ i) (items_of root now entries)
        → Any
            (λ j. j ≡ i)
            (elim o [ none ↦ items_of root now entries | some k ↦ k ∷ items_of root now entries ])
    here none rest = rest
    here (some k) rest = inr rest

module _ (root : Text) (now max_age max_size : ℕ) (entries : List DirEntry) where
  -- A directory of the cache in which one file is older than the limit is removed, whenever its other
  -- files were written, and whatever the cache's size is.
  pub evict-aged :
      (e : DirEntry) (infos : List FileInfo)
      → Any (λ d. d ≡ e) entries
      → e.is_dir ≡ true
      → e.walk ≡ some infos
      → Any (IsOld now max_age) infos
      → Any (λ path. path ≡ join_path root e.name) (evict_entries root now max_age max_size entries)
  unfolding found dir_info
  evict-aged e infos m d w o =
      let start : Item = record { path = join_path root e.name; size = 0; mod_time = now } in
      let i = add_infos start infos in
      let f : found root now e ≡ some i = rw (d, w) refl in
      let r = evict_entries-IsEviction root now max_age max_size entries in
      let items = items_of root now entries in
      let a = add_infos-aged now max_age infos start (inr o) in
      subst (Any (λ path. path ≡ join_path root e.name)) (sym r.removals) (
        Any-append_left _ (paths (keep (aged now max_age) items)) (paths r.front) (
          subst (λ name. Any (λ path. path ≡ name) (paths (keep (aged now max_age) items)))
            (add_infos-path infos start)
            (Any-keep (aged now max_age) i items a (Any-items_of root now e i entries f m))))

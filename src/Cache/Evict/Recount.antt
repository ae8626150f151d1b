-- ===== src/Cache/Evict/Recount.antt =====
-- An aged item is subtracted from the total again when the second loop meets it.
use gitrepo_csi_driver.Base.{ℕ, ◌≡◌, true, false, List, [], ◌∷◌, All, ◌⊎◌}
use gitrepo_csi_driver.Cache.Evict.{Item, is_aged}

module _ (now max_age : ℕ) where
  abbrev AllFresh : List Item → Type 0
  AllFresh = All (λ i. is_aged now max_age i ≡ false)

  -- The aged items stand in front.
  abbrev AgedFirst : List Item → Type 0
  AgedFirst [] = Unit {0}
  AgedFirst (i ∷ items) = ((is_aged now max_age i ≡ true) × AgedFirst items) ⊎ AllFresh (i ∷ items)

-- ===== src/Text/Space/Laws.antt =====
-- Trimmed text neither begins nor ends with white space.
use gitrepo_csi_driver.Base.{ℕ, zero, suc, ◌≡◌, ◌≢◌, refl, List, [], ◌∷◌}
use gitrepo_csi_driver.Text.{Text, codes, has_prefix}
use gitrepo_csi_driver.Text.Space.{space_width, drop_spaces, trim_left, trim_right, trim_space}

trim_tests :
    (trim_space (codes " \t main\n") ≡ codes "main")
    × (trim_space (0xc2 ∷ 0xa0 ∷ b'x' ∷ 0xe3 ∷ 0x80 ∷ 0x80 ∷ []) ≡ codes "x")
    × (trim_space (codes "  ") ≡ [])
unfolding trim_space trim_left trim_right drop_spaces space_width has_prefix
trim_tests = (refl, refl, refl)

drop_spaces-width :
    (es : List Text) (k : ℕ) (s : Text)
    → drop_spaces es k s ≢ []
    → space_width es (drop_spaces es k s) ≡ 0
unfolding drop_spaces
drop_spaces-width es k [] n = absurd (n refl)
drop_spaces-width es (suc k) (c ∷ s) n = drop_spaces-width es k s n
drop_spaces-width es zero (c ∷ s) n =
    at_width (space_width es (c ∷ s)) refl (λ k. drop_spaces-width es k s)
  where
    at_width :
        (w : ℕ)
        → space_width es (c ∷ s) ≡ w
        → ((k : ℕ) → drop_spaces es k s ≢ [] → space_width es (drop_spaces es k s) ≡ 0)
        → space_width es
            (elim (space_width es (c ∷ s)) [ zero ↦ c ∷ s | suc k ↦ drop_spaces es k s ])
          ≡ 0
    at_width zero e ih = rw e e
    at_width (suc k) e ih = rw e (ih k (rw (e, drop_spaces) at n))

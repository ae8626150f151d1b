-- ===== src/Text/Split.antt =====
-- `strings.Split` and `strings.Join` are inverse to each other.
use gitrepo_csi_driver.Base.{
  ℕ, ◌≡◌, ◌≢◌, refl, ap, ap₂, ◌∙◌, List, [], ◌∷◌, ◌++◌, arith, ◌==◌, ==_refl, All, Bool-cases, inl,
  inr,
}
use gitrepo_csi_driver.Text.{cons_head, split, join, Text}

abbrev pub Lacks : ℕ → Text → Type 0
Lacks b = All (λ c. c ≢ b)

pub split_at_sep : (s : Text) (sep : ℕ) → split (sep ∷ s) sep ≡ [] ∷ split s sep
unfolding split
split_at_sep s sep = rw ==_refl

cons_head-append :
    (c : ℕ) (ps qs : List Text) → ps ≢ [] → cons_head c (ps ++ qs) ≡ cons_head c ps ++ qs
unfolding cons_head
cons_head-append c [] qs h = absurd (h refl)
cons_head-append c (p ∷ ps) qs h = refl

cons_head-ne-nil : (c : ℕ) (ps : List Text) → cons_head c ps ≢ []
unfolding cons_head
cons_head-ne-nil c [] = λ e. cc
cons_head-ne-nil c (p ∷ ps) = λ e. cc

pub split-ne-nil : (s : Text) (sep : ℕ) → split s sep ≢ []
unfolding split
split-ne-nil [] sep = λ e. cc
split-ne-nil (c ∷ s) sep = ground (arith, cons_head-ne-nil c (split s sep))

-- Text on both sides of a separator is split apart there.
pub split-append : (s t : Text) (sep : ℕ) → split (s ++ sep ∷ t) sep ≡ split s sep ++ split t sep
unfolding split
split-append [] t sep = rw ==_refl
split-append (c ∷ s) t sep = elim (Bool-cases (c == sep)) [
  | inl e ↦ rw e (ap (λ ps. [] ∷ ps) (split-append s t sep))
  | inr e ↦
      rw (e, split-append s t sep)
        (cons_head-append c (split s sep) (split t sep) (split-ne-nil s sep))
]

-- Text without the separator is one part.
pub split-Lacks : (s : Text) (sep : ℕ) → Lacks sep s → split s sep ≡ s ∷ []
unfolding split cons_head
split-Lacks [] sep h = refl
split-Lacks (c ∷ s) sep (h, hs) = ground (arith, split-Lacks s sep hs)

pub split-join :
    (ps : List Text) (sep : ℕ) → ps ≢ [] → All (Lacks sep) ps → split (join ps sep) sep ≡ ps
unfolding join
split-join [] sep h _ = absurd (h refl)
split-join (p ∷ []) sep h (l, _) = split-Lacks p sep l
split-join (p ∷ q ∷ ps) sep h (l, ls) =
    split-append p (join (q ∷ ps) sep) sep
    ∙ ap₂ ◌++◌ (split-Lacks p sep l) (split-join (q ∷ ps) sep (λ e. cc) ls)

-- No part of a split holds the separator.
cons_head-Lacks :
    (c sep : ℕ) (ps : List Text) → c ≢ sep → All (Lacks sep) ps → All (Lacks sep) (cons_head c ps)
unfolding cons_head
cons_head-Lacks c sep [] n h = ((n, tt), tt)
cons_head-Lacks c sep (p ∷ ps) n (l, ls) = ((n, l), ls)

pub All_Lacks-split : (s : Text) (sep : ℕ) → All (Lacks sep) (split s sep)
unfolding split
All_Lacks-split [] sep = (tt, tt)
All_Lacks-split (c ∷ s) sep = elim (Bool-cases (c == sep)) [
  | inl e ↦ rw e (tt, All_Lacks-split s sep)
  | inr e ↦ rw e (cons_head-Lacks c sep (split s sep) (ground arith) (All_Lacks-split s sep))
]

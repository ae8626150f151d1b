-- ===== src/Text/Search.antt =====
-- Equality, prefixes and search.
use gitrepo_csi_driver.Base.{
  ◌≡◌, ◌≢◌, refl, ap₂, inl, inr, Bool-cases, true, false, [], ◌∷◌, arith, ◌||◌, ◌==◌, ==_iff,
}
use gitrepo_csi_driver.Text.{Text, same, has_prefix, contains_any, trim_prefix}

pub same_refl : (s : Text) → same s s ≡ true
unfolding same
same_refl [] = refl
same_refl (a ∷ s) = ground (arith, same_refl s)

pub eq_of_same : (s t : Text) → same s t ≡ true → s ≡ t
unfolding same
eq_of_same [] [] h = refl
eq_of_same [] (_ ∷ _) h = cc
eq_of_same (_ ∷ _) [] h = cc
eq_of_same (a ∷ s) (b ∷ t) h = ground (arith, eq_of_same s t)

pub same_ne : (s t : Text) → s ≢ t → same s t ≡ false
unfolding same
same_ne [] [] h = absurd (h refl)
same_ne [] (_ ∷ _) h = refl
same_ne (_ ∷ _) [] h = refl
same_ne (a ∷ s) (b ∷ t) h = elim (Bool-cases (a == b)) [
  | inl e ↦ rw e (same_ne s t (λ f. h (ap₂ ◌∷◌ ((==_iff a b).0 e) f)))
  | inr e ↦ rw e
]

pub ne_of_same : (s t : Text) → same s t ≡ false → s ≢ t
ne_of_same s t h e = let k : same s t ≡ true = rw e (same_refl t) in cc

-- Two prefixes of one text: the shorter is a prefix of the longer.
pub has_prefix-comparable :
    (s p q : Text)
    → has_prefix s p ≡ true
    → has_prefix s q ≡ true
    → (has_prefix p q || has_prefix q p) ≡ true
unfolding has_prefix
has_prefix-comparable s [] [] h k = refl
has_prefix-comparable s [] (b ∷ q) h k = refl
has_prefix-comparable s (a ∷ p) [] h k = refl
has_prefix-comparable [] (a ∷ p) (b ∷ q) h k = cc
has_prefix-comparable (c ∷ s) (a ∷ p) (b ∷ q) h k = ground (arith, has_prefix-comparable s p q)

-- A character of a prefix is a character of the text.
pub contains_any_prefix :
    (s p chars : Text)
    → has_prefix s p ≡ true
    → contains_any p chars ≡ true
    → contains_any s chars ≡ true
unfolding has_prefix contains_any
contains_any_prefix s [] chars h k = cc
contains_any_prefix [] (b ∷ p) chars h k = cc
contains_any_prefix (a ∷ s) (b ∷ p) chars h k = ground (arith, contains_any_prefix s p chars)

pub trim_prefix-false : (s p : Text) → has_prefix s p ≡ false → trim_prefix s p ≡ s
unfolding trim_prefix
trim_prefix-false s p h = rw h

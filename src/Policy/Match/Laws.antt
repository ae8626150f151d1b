-- ===== src/Policy/Match/Laws.antt =====
-- The loops of pkg/policy/evaluator.go find an element exactly when there is one.
use gitrepo_csi_driver.Base.{
  ◌≡◌, ◌↔◌, inl, inr, refl, Bool, true, List, [], ◌∷◌, Any, Bool-cases, is_nil, ◌⊎◌, ◌||◌,
}
use gitrepo_csi_driver.Text.{Text, same}
use gitrepo_csi_driver.Text.Search.{same_refl, eq_of_same, ne_of_same}
use gitrepo_csi_driver.Library.{Library}
use gitrepo_csi_driver.Policy.Match.{contains, matches_any_glob}

pub same_iff : (s t : Text) → (same s t ≡ true) ↔ (s ≡ t)
same_iff s t = (eq_of_same s t, λ e. rw e (same_refl t))

pub contains_iff :
    (values : List Text) (t : Text) → (contains values t ≡ true) ↔ Any (λ v. v ≡ t) values
unfolding contains
contains_iff [] t = (λ h. cc, λ h. elim h [ ])
contains_iff (v ∷ values) t = elim (Bool-cases (same v t)) [
  | inl e ↦ (λ h. inl (eq_of_same v t e), λ h. rw e)
  | inr e ↦ (
    (λ h. inr ((contains_iff values t).0 (rw e at h))),
    (λ h.
        rw e
          (elim h [ inl k ↦ absurd (ne_of_same v t e k) | inr k ↦ (contains_iff values t).1 k ])),
  )
]

pub matches_any_glob_iff :
    (lib : Library) (patterns : List Text) (value : Text)
    → (matches_any_glob lib patterns value ≡ true)
      ↔ Any (λ p. lib.path_match p value ≡ true) patterns
unfolding matches_any_glob
matches_any_glob_iff lib [] value = (λ h. cc, λ h. elim h [ ])
matches_any_glob_iff lib (p ∷ patterns) value = elim (Bool-cases (lib.path_match p value)) [
  | inl e ↦ (λ h. inl e, λ h. rw e)
  | inr e ↦ (
    (λ h. inr ((matches_any_glob_iff lib patterns value).0 (rw e at h))),
    (λ h. rw e (elim h [ inl k ↦ cc | inr k ↦ (matches_any_glob_iff lib patterns value).1 k ])),
  )
]

-- An empty list or text asks for nothing.
pub nil_or_iff {ℓ} :
    {A : Type ℓ} {B : Type 0} (xs : List A) (b : Bool)
    → ((b ≡ true) ↔ B)
    → ((is_nil xs || b) ≡ true) ↔ ((xs ≡ []) ⊎ B)
nil_or_iff [] b i = (λ h. inl refl, λ h. refl)
nil_or_iff (x ∷ xs) b i = (λ h. inr (i.0 h), λ h. elim h [ inl k ↦ cc | inr k ↦ i.1 k ])

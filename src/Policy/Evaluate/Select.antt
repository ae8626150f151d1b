-- ===== src/Policy/Evaluate/Select.antt =====
-- `selectPolicy` returns the first policy that applies.
use gitrepo_csi_driver.Base.{
  ◌≡◌, ◌↔◌, ◌⊎◌, inl, inr, refl, sym, ap, ◌∙◌, true, ◌||◌, ◌&&◌, List, [], ◌∷◌, ◌++◌, none, some,
  is_nil, Any, All, arith, Bool-cases, &&_elim,
}
use gitrepo_csi_driver.Text.{Text, same}
use gitrepo_csi_driver.Policy.Types.{GitContentPolicy}
use gitrepo_csi_driver.Policy.Match.{contains}
use gitrepo_csi_driver.Policy.Match.Laws.{same_iff, contains_iff, nil_or_iff}
use gitrepo_csi_driver.Policy.Evaluate.{in_namespace, selects, select_policy}

-- The name is the one asked for, if one is; the namespace is listed, if any is.
pub record Applies (ns name : Text) (p : GitContentPolicy) : Type 0 where
  pub named : (name ≡ []) ⊎ (p.name ≡ name)
  pub namespace : (p.namespaces ≡ []) ⊎ Any (λ v. v ≡ ns) p.namespaces

selects_eq :
    (ns name : Text) (p : GitContentPolicy)
    → selects ns name p ≡ ((is_nil name || same p.name name) && in_namespace p ns)
unfolding selects
selects_eq ns [] p = refl
selects_eq ns (c ∷ name) p = ground arith

selects_iff :
    (ns name : Text) (p : GitContentPolicy) → (selects ns name p ≡ true) ↔ Applies ns name p
unfolding in_namespace
selects_iff ns name p = (to, from)
  where
    named : ((is_nil name || same p.name name) ≡ true) ↔ ((name ≡ []) ⊎ (p.name ≡ name))
    named = nil_or_iff name (same p.name name) (same_iff p.name name)

    listed : (in_namespace p ns ≡ true) ↔ ((p.namespaces ≡ []) ⊎ Any (λ v. v ≡ ns) p.namespaces)
    listed = nil_or_iff p.namespaces (contains p.namespaces ns) (contains_iff p.namespaces ns)

    to : selects ns name p ≡ true → Applies ns name p
    to h =
        let (a, b) =
          &&_elim (is_nil name || same p.name name) (in_namespace p ns)
            (sym (selects_eq ns name p) ∙ h) in
        record { named = named.0 a; namespace = listed.0 b }

    from : Applies ns name p → selects ns name p ≡ true
    from a = selects_eq ns name p ∙ rw (named.1 a.named, listed.1 a.namespace)

-- The first of the policies that applies.
pub record IsSelected (policies : List GitContentPolicy) (ns name : Text) (p : GitContentPolicy)
    : Type 0 where
  pub before : List GitContentPolicy
  pub after : List GitContentPolicy
  pub listed : policies ≡ before ++ p ∷ after
  pub passed : All (λ q. ¬ (Applies ns name q)) before
  pub applies : Applies ns name p

module _ (ns name : Text) where
  selected :
      (policies : List GitContentPolicy) {p : GitContentPolicy}
      → select_policy policies ns name ≡ some p
      → IsSelected policies ns name p
  unfolding select_policy
  selected [] h = cc
  selected (q ∷ policies) {p} h = elim (Bool-cases (selects ns name q)) [
    | inl e ↦
        let k : q ≡ p = ground arith in
        record {
          before = [];
          after = policies;
          listed = rw k;
          passed = tt;
          applies = rw (← k) ((selects_iff ns name q).0 e);
        }
    | inr e ↦
        let s = selected policies (rw e at h) in
        record {
          before = q ∷ s.before;
          after = s.after;
          listed = ap (λ ps. q ∷ ps) s.listed;
          passed = (λ a. let k = (selects_iff ns name q).1 a in cc, s.passed);
          applies = s.applies;
        }
  ]

  select-append :
      (before after : List GitContentPolicy) (p : GitContentPolicy)
      → All (λ q. ¬ (Applies ns name q)) before
      → Applies ns name p
      → select_policy (before ++ p ∷ after) ns name ≡ some p
  unfolding select_policy
  select-append [] after p _ a = rw ((selects_iff ns name p).1 a)
  select-append (q ∷ before) after p (n, ns') a = elim (Bool-cases (selects ns name q)) [
    | inl e ↦ absurd (n ((selects_iff ns name q).0 e))
    | inr e ↦ rw e (select-append before after p ns' a)
  ]

  -- `select_policy` returns a policy exactly when it is the first one that applies: its name is the
  -- one asked for, if one is, and it lists the namespace or no namespace.
  pub select_policy_iff :
      (policies : List GitContentPolicy) (p : GitContentPolicy)
      → (select_policy policies ns name ≡ some p) ↔ IsSelected policies ns name p
  select_policy_iff policies p =
      (selected policies, λ s. rw s.listed (select-append s.before s.after p s.passed s.applies))

  -- No policy is found exactly when none applies.
  pub select_policy-none_iff :
      (policies : List GitContentPolicy)
      → (select_policy policies ns name ≡ none) ↔ All (λ q. ¬ (Applies ns name q)) policies
  unfolding select_policy
  select_policy-none_iff [] = (λ h. tt, λ h. refl)
  select_policy-none_iff (q ∷ policies) = elim (Bool-cases (selects ns name q)) [
    | inl e ↦ (λ h. ground arith, λ h. absurd (h.0 ((selects_iff ns name q).0 e)))
    | inr e ↦ (
      (λ h. (
        (λ a. let k = (selects_iff ns name q).1 a in cc),
        (select_policy-none_iff policies).0 (rw e at h),
      )),
      (λ h. rw e ((select_policy-none_iff policies).1 h.1)),
    )
  ]
